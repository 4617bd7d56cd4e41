-- ===== src/Actions/Execution.antt =====
-- `execute_action` and `suite_ledger`.
use owasp_llm_lab_setup_guid.Base.{
  ℕ, Bool, false, not, ◌&&◌, Option, none, some, String, List, [], ◌∷◌, ◌++◌, ◌==◌, lookup, update,
  any, is_none, ok, ◌>>=◌, ◌>>◌, guard, or_raise, if◌then◌else◌,
}
use owasp_llm_lab_setup_guid.Json.{Integer, Fields}
use owasp_llm_lab_setup_guid.Actions.Rows.{
  CaseId, ActionId, case_text, action_text, case_action, is_write, transfer_amount, Suite,
  Capability, Call, Effect, Database, find_capability, use_capability, capabilities_of, calls_of,
  effects_of,
}
use owasp_llm_lab_setup_guid.Actions.Tokens.{
  Checked, refused, Library, bearer, verify_capability, has_text,
}
use owasp_llm_lab_setup_guid.Actions.Provider.{
  ExecuteRequest, is_execute_request, ActionResponse, balance_after,
}

-- The payload is that of the request.
unfoldable pub in_scope : ExecuteRequest → Fields → Bool
unfolding has_text
in_scope r payload =
    has_text "suite_id" r.suite_id payload
    && has_text "execution_id" r.execution_id payload
    && has_text "case_id" (case_text r.case_id) payload
    && has_text "action_id" (action_text r.action_id) payload

-- `CASE_ACTIONS[case_id] == action_id`
abbrev pub is_assigned : CaseId → ActionId → Bool
is_assigned case_id action_id = elim (case_action case_id) [
  | none ↦ false
  | some a ↦ action_text a == action_text action_id
]

-- The rows of an action.
abbrev pub call_row : ExecuteRequest → String → ℕ → Integer → Call
call_row r call_id now before = record {
  provider_call_id = call_id;
  suite_id = r.suite_id;
  execution_id = r.execution_id;
  case_id = r.case_id;
  action_id = r.action_id;
  balance_before = before;
  balance_after = balance_after r.action_id before;
  observed_at = now;
}

abbrev pub effect_row : ExecuteRequest → String → String → ℕ → Effect
effect_row r call_id effect_id now = record {
  effect_id = effect_id;
  provider_call_id = call_id;
  suite_id = r.suite_id;
  execution_id = r.execution_id;
  case_id = r.case_id;
  action_id = r.action_id;
  amount = transfer_amount;
  observed_at = now;
}

-- The writes of an action: the balance, the mark of use, the call and the effect.
unfoldable pub apply_action :
    ExecuteRequest → String → String → String → ℕ → Integer → Database → Database
unfolding use_capability update
apply_action r digest call_id effect_id now before d = record {
  suites =
      if is_write r.action_id
      then update r.suite_id (λ s. record s { balance = balance_after r.action_id before }) d.suites
      else d.suites;
  capabilities = use_capability now digest d.capabilities;
  calls = d.calls ++ call_row r call_id now before ∷ [];
  effects =
      if is_write r.action_id
      then d.effects ++ effect_row r call_id effect_id now ∷ []
      else d.effects;
}

module _ (library : Library) where
  -- `execute_action`: `checked` is the time at which the token is verified, `now` that of the action.
  unfoldable pub execute_action :
      String
      → Option String
      → ExecuteRequest
      → String
      → String
      → ℕ
      → ℕ
      → Database
      → Checked (ActionResponse × Database)
  unfolding bearer is_execute_request verify_capability in_scope find_capability lookup apply_action
      any
  execute_action action_token authorization r call_id effect_id checked now d = do
    bearer action_token authorization
    guard (is_execute_request r) (refused 422)
    payload ← verify_capability library r.capability checked
    guard (in_scope r payload) (refused 403)
    guard (is_assigned r.case_id r.action_id) (refused 403)
    capability ←
        or_raise (find_capability (library.sha256 r.capability) d.capabilities) (refused 403)
    guard (is_none capability.used_at) (refused 409)
    suite ← or_raise (lookup r.suite_id d.suites) (refused 404)
    guard (not (any (λ c. c.provider_call_id == call_id) d.calls)) (refused 409)
    guard (not (is_write r.action_id && any (λ e. e.effect_id == effect_id) d.effects))
        (refused 409)
    ok (
      record {
        provider_call_id = call_id;
        balance_before = suite.balance;
        balance_after = balance_after r.action_id suite.balance;
        effect_id = if is_write r.action_id then some effect_id else none;
        observed_at = now;
      },
      apply_action r (library.sha256 r.capability) call_id effect_id now suite.balance d,
    )

-- What `suite_ledger` returns that is not constant.
pub record SuiteLedger : Type 0 where
  pub suite : Suite
  pub capabilities : List Capability
  pub calls : List Call
  pub effects : List Effect

-- `suite_ledger`
unfoldable pub suite_ledger : String → Option String → String → Database → Checked SuiteLedger
unfolding bearer lookup capabilities_of calls_of effects_of
suite_ledger verifier_token authorization id d = do
  bearer verifier_token authorization
  suite ← or_raise (lookup id d.suites) (refused 404)
  ok (record {
    suite = suite;
    capabilities = capabilities_of id d.capabilities;
    calls = calls_of id d.calls;
    effects = effects_of id d.effects;
  })
