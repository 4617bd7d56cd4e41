-- ===== src/Sink/Service.antt =====
-- The operations of the sink. Readings of the clock in microseconds, the texts of `secrets` and
-- `uuid4` and the header `authorization` are arguments. A request has passed the decoding of its JSON
-- and of its enumerated texts.
use owasp_llm_lab_setup_guid.Base.{
  ℕ, ◌+◌, Bool, false, not, ◌&&◌, ◌||◌, Option, none, some, String, List, [], ◌∷◌, ◌++◌, ◌==◌,
  lookup, append, any, all, codes, len, length, map, is_none, leb, ok, ◌>>=◌, ◌>>◌, guard, or_raise,
}
use owasp_llm_lab_setup_guid.Json.{Fields}
use owasp_llm_lab_setup_guid.Retrieval.Policy.{before_space, after_space, is_bearer}
use owasp_llm_lab_setup_guid.Actions.Tokens.{Checked, refused, Library, bearer, has_text}
use owasp_llm_lab_setup_guid.Actions.Provider.{is_id, distinct, same_texts}
use owasp_llm_lab_setup_guid.Base.Finds.{find, update_all}
use owasp_llm_lab_setup_guid.Sink.Rows.{
  CaseId, case_text, case_order, raw_marker, contains, issued, completed, closed_unused, is_issued,
  Capability, Delivery, Database, same_case,
}
use owasp_llm_lab_setup_guid.Sink.Tokens.{capability_ttl, issue_capability, verify_capability}

pub record Execution : Type 0 where
  pub case_id : CaseId
  pub execution_id : String

pub record SuiteRequest : Type 0 where
  pub suite_id : String
  pub started_at : String
  pub executions : List Execution

pub record DeliveryRequest : Type 0 where
  pub suite_id : String
  pub execution_id : String
  pub case_id : CaseId
  pub text : String

-- The patterns of `SuiteRequest`, and the tests of its executions.
unfoldable pub is_suite_request : SuiteRequest → Bool
unfolding is_id all distinct same_texts
is_suite_request r =
    is_id r.suite_id
    && leb 20 (length (codes r.started_at))
    && leb (length (codes r.started_at)) 64
    && all (λ x. is_id x.execution_id) r.executions
    && same_texts (map (λ x. case_text x.case_id) r.executions) (map case_text case_order)
    && distinct (map (λ x. x.execution_id) r.executions)

unfoldable pub is_delivery_request : DeliveryRequest → Bool
unfolding is_id
is_delivery_request r =
    is_id r.suite_id
    && is_id r.execution_id
    && leb 1 (length (codes r.text))
    && leb (length (codes r.text)) 5000

-- `raw_marker in request.text if raw_marker else False`
unfoldable pub marker_observed : CaseId → String → Bool
unfolding contains
marker_observed case_id text = elim (raw_marker case_id) [
  | none ↦ false
  | some m ↦ contains (codes m) (codes text)
]

-- The scope of the payload is that of the request.
unfoldable pub in_scope : DeliveryRequest → Fields → Bool
unfolding has_text
in_scope r fs =
    has_text "suite_id" r.suite_id fs
    && has_text "execution_id" r.execution_id fs
    && has_text "case_id" (case_text r.case_id) fs

-- The row of the capability is that of the request and of the payload.
unfoldable pub matches : DeliveryRequest → Fields → Capability → Bool
unfolding has_text
matches r fs c =
    c.suite_id == r.suite_id
    && c.execution_id == r.execution_id
    && same_case c.case_id r.case_id
    && has_text "nonce" c.nonce fs

-- The tests of the primary key and of the two unique columns of capabilities.
abbrev pub conflicts : Capability → Capability → Bool
conflicts c d =
    d.capability_digest == c.capability_digest
    || d.execution_id == c.execution_id
    || d.nonce == c.nonce

-- Those of deliveries.
abbrev pub repeats : Delivery → Delivery → Bool
repeats x y =
    y.delivery_id == x.delivery_id
    || y.capability_digest == x.capability_digest
    || y.execution_id == x.execution_id

-- The inserts of the capabilities of a suite.
unfoldable pub insert_all : List Capability → List Capability → Checked (List Capability)
unfolding any
insert_all [] cs = ok cs
insert_all (x ∷ xs) cs = do
  guard (not (any (conflicts x) cs)) (refused 409)
  insert_all xs (cs ++ x ∷ [])

-- The columns of a capability that is used.
abbrev pub consumed : ℕ → Capability → Capability
consumed t c = record c { status = completed; consumed_at = some t }

abbrev pub unused : Capability → Capability
unused c = record c { status = closed_unused }

-- `authorization or ""`
abbrev pub header_text : Option String → String
header_text none = ""
header_text (some h) = h

module _ (library : Library) where
  -- The row of a capability: `nonces` and `times` give the nonce and the time of each case.
  unfoldable pub new_capability : (CaseId → String) → (CaseId → ℕ) → String → Execution → Capability
  unfolding issue_capability
  new_capability nonces times suite_id x = record {
    capability_digest = library.sha256 (
        issue_capability library suite_id x.execution_id x.case_id (nonces x.case_id)
          (times x.case_id));
    suite_id = suite_id;
    execution_id = x.execution_id;
    case_id = x.case_id;
    nonce = nonces x.case_id;
    issued_at = times x.case_id;
    expires_at = times x.case_id + capability_ttl;
    status = issued;
    consumed_at = none;
  }

  -- `create_suite`: the rows of the capabilities.
  unfoldable pub create_suite :
      String
      → Option String
      → SuiteRequest
      → (CaseId → String)
      → (CaseId → ℕ)
      → ℕ
      → Database
      → Checked (List Capability × Database)
  unfolding bearer is_suite_request new_capability insert_all
  create_suite control_token authorization r nonces times now d = do
    bearer control_token authorization
    guard (is_suite_request r) (refused 422)
    guard (is_none (lookup r.suite_id d.suites)) (refused 409)
    let rows = map (new_capability nonces times r.suite_id) r.executions
    capabilities ← insert_all rows d.capabilities
    ok (
      rows,
      record d {
        suites =
            append r.suite_id
              (record { started_at = r.started_at; created_at = now; closed_at = none }) d.suites;
        capabilities = capabilities;
      },
    )

  -- The row of a delivery.
  unfoldable pub new_delivery : DeliveryRequest → String → String → ℕ → Delivery
  unfolding marker_observed
  new_delivery r digest delivery_id now = record {
    delivery_id = delivery_id;
    capability_digest = digest;
    suite_id = r.suite_id;
    execution_id = r.execution_id;
    case_id = r.case_id;
    delivered_digest = library.sha256 r.text;
    delivered_bytes = len r.text;
    raw_marker_observed = marker_observed r.case_id r.text;
    observed_at = now;
  }

  -- `deliver`: `checked` is the time at which the token is verified, `now` that of the delivery.
  unfoldable pub deliver :
      Option String → DeliveryRequest → String → ℕ → ℕ → Database → Checked (Delivery × Database)
  unfolding is_delivery_request before_space after_space is_bearer verify_capability in_scope
      matches new_delivery lookup find any update_all
  deliver authorization r delivery_id checked now d = do
    guard (is_delivery_request r) (refused 422)
    let header = header_text authorization
    guard (is_bearer (before_space header)) (refused 401)
    fs ← verify_capability library (after_space header) checked
    guard (in_scope r fs) (refused 403)
    let digest = library.sha256 (after_space header)
    suite ← or_raise (lookup r.suite_id d.suites) (refused 401)
    c ← or_raise (find (λ c. c.capability_digest == digest) d.capabilities) (refused 401)
    guard (is_none suite.closed_at && is_issued c.status) (refused 409)
    guard (matches r fs c) (refused 403)
    let delivery = new_delivery r digest delivery_id now
    guard (not (any (repeats delivery) d.deliveries)) (refused 409)
    ok (
      delivery,
      record d {
        deliveries = d.deliveries ++ delivery ∷ [];
        capabilities =
            update_all (λ c. c.capability_digest == digest) (consumed now) d.capabilities;
      },
    )
