-- ===== src/Actions/Provider.antt =====
-- The operations of the provider: `create_suite`, `execute_action` and `suite_ledger`. A reading of
-- the clock in whole microseconds, the texts of `secrets` and `uuid4` and the header `authorization`
-- are arguments. A request has passed the decoding of its JSON and of its enumerated texts.
use owasp_llm_lab_setup_guid.Base.{
  ℕ, ◌+◌, Bool, true, false, not, ◌&&◌, ◌||◌, Option, none, String, List, [], ◌∷◌, ◌++◌, ◌==◌,
  lookup, append, any, all, codes, length, is_hex, is_none, leb, nat_eq, text_in, ok, ◌>>=◌, ◌>>◌,
  guard, if◌then◌else◌, map,
}
use owasp_llm_lab_setup_guid.Json.{Integer}
use owasp_llm_lab_setup_guid.Clock.{seconds}
use owasp_llm_lab_setup_guid.Actions.Rows.{
  CaseId, ActionId, case_text, case_action, is_write, case_order, starting_balance, take_amount,
  Capability, Database,
}
use owasp_llm_lab_setup_guid.Actions.Tokens.{Checked, refused, Library, bearer, issue_capability}

-- `^[0-9a-f-]{36}$`
unfoldable pub is_id : String → Bool
unfolding is_hex all
is_id s = all (λ c. is_hex c || nat_eq c b'-') (codes s) && nat_eq (length (codes s)) 36

pub record SuiteExecution : Type 0 where
  pub case_id : CaseId
  pub execution_id : String

pub record SuiteRequest : Type 0 where
  pub suite_id : String
  pub started_at : String
  pub executions : List SuiteExecution

pub record ExecuteRequest : Type 0 where
  pub suite_id : String
  pub execution_id : String
  pub case_id : CaseId
  pub action_id : ActionId
  pub capability : String

-- The length of a set of texts is that of their list.
unfoldable pub distinct : List String → Bool
unfolding text_in
distinct [] = true
distinct (x ∷ xs) = not (text_in x xs) && distinct xs

-- Equality of two lists of texts.
unfoldable pub same_texts : List String → List String → Bool
same_texts [] [] = true
same_texts [] (y ∷ ys) = false
same_texts (x ∷ xs) [] = false
same_texts (x ∷ xs) (y ∷ ys) = x == y && same_texts xs ys

-- The patterns of `SuiteRequest`, and the test of its executions.
unfoldable pub is_suite_request : SuiteRequest → Bool
unfolding is_id all distinct same_texts
is_suite_request r =
    is_id r.suite_id
    && all (λ x. is_id x.execution_id) r.executions
    && same_texts (map (λ x. case_text x.case_id) r.executions) (map case_text case_order)
    && distinct (map (λ x. x.execution_id) r.executions)

-- An entry of `grants`.
pub record Grant : Type 0 where
  pub case_id : CaseId
  pub execution_id : String
  pub action_id : Option ActionId
  pub capability : String
  pub capability_digest : String
  pub expires_at : ℕ

-- The row of a capability that is not used.
abbrev pub new_capability : String → ℕ → String → SuiteExecution → Capability
new_capability suite_id expires_at digest x = record {
  suite_id = suite_id;
  execution_id = x.execution_id;
  case_id = x.case_id;
  action_id = case_action x.case_id;
  token_digest = digest;
  expires_at = expires_at;
  used_at = none;
}

-- The test of the primary key and of the unique digest on the row of a capability.
abbrev pub conflicts : String → CaseId → String → Capability → Bool
conflicts suite_id case_id digest c =
    (c.suite_id == suite_id && case_text c.case_id == case_text case_id) || c.token_digest == digest

pub record SuiteResponse : Type 0 where
  pub suite_id : String
  pub started_at : String
  pub created_at : ℕ
  pub cases : List Grant

-- The patterns of `ExecuteRequest`.
unfoldable pub is_execute_request : ExecuteRequest → Bool
unfolding is_id
is_execute_request r =
    is_id r.suite_id
    && is_id r.execution_id
    && leb 40 (length (codes r.capability))
    && leb (length (codes r.capability)) 4096

-- What `execute_action` returns; `effect_applied` is that there is an effect_id.
pub record ActionResponse : Type 0 where
  pub provider_call_id : String
  pub balance_before : Integer
  pub balance_after : Integer
  pub effect_id : Option String
  pub observed_at : ℕ

-- The balance after an action.
abbrev pub balance_after : ActionId → Integer → Integer
balance_after action b = if is_write action then take_amount b else b

module _ (library : Library) where
  -- The token of an execution: `nonces` gives what `secrets.token_hex` returns for each case.
  unfoldable pub token_of : (CaseId → String) → String → ℕ → SuiteExecution → String
  unfolding issue_capability
  token_of nonces suite_id expires_at x = issue_capability library (record {
    nonce = nonces x.case_id;
    suite_id = suite_id;
    execution_id = x.execution_id;
    case_id = x.case_id;
    action_id = case_action x.case_id;
    expires_at = library.iso expires_at;
  })

  -- The loop of `create_suite` over the executions.
  unfoldable pub grant_all :
      (CaseId → String)
      → String
      → ℕ
      → List SuiteExecution
      → List Capability
      → Checked (List Grant × List Capability)
  unfolding token_of any
  grant_all nonces suite_id expires_at [] cs = ok ([], cs)
  grant_all nonces suite_id expires_at (x ∷ xs) cs = do
    let token = token_of nonces suite_id expires_at x
    let digest = library.sha256 token
    guard (not (any (conflicts suite_id x.case_id digest) cs)) (refused 409)
    (grants, rows) ←
        grant_all nonces suite_id expires_at xs
          (cs ++ new_capability suite_id expires_at digest x ∷ [])
    ok (
      record {
        case_id = x.case_id;
        execution_id = x.execution_id;
        action_id = case_action x.case_id;
        capability = token;
        capability_digest = digest;
        expires_at = expires_at;
      }
          ∷ grants,
      rows,
    )

  -- `create_suite`
  unfoldable pub create_suite :
      String
      → Option String
      → SuiteRequest
      → (CaseId → String)
      → ℕ
      → Database
      → Checked (SuiteResponse × Database)
  unfolding bearer is_suite_request grant_all
  create_suite control_token authorization r nonces now d = do
    bearer control_token authorization
    guard (is_suite_request r) (refused 422)
    guard (is_none (lookup r.suite_id d.suites)) (refused 409)
    (grants, rows) ← grant_all nonces r.suite_id (now + seconds 300) r.executions d.capabilities
    ok (
      record { suite_id = r.suite_id; started_at = r.started_at; created_at = now; cases = grants },
      record d {
        suites =
            append r.suite_id
              (record { started_at = r.started_at; created_at = now; balance = starting_balance })
              d.suites;
        capabilities = rows;
      },
    )
