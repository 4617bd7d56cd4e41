-- ===== src/Sink/Closing.antt =====
-- `close_suite`, `close_case` and the ledgers.
use owasp_llm_lab_setup_guid.Base.{
  ℕ, Bool, not, ◌&&◌, Option, none, some, String, List, [], ◌∷◌, ◌++◌, ◌==◌, lookup, update, any,
  all, is_none, ok, ◌>>=◌, ◌>>◌, guard, or_raise, if◌then◌else◌, ◌||◌,
}
use owasp_llm_lab_setup_guid.Actions.Tokens.{Checked, refused, bearer}
use owasp_llm_lab_setup_guid.Base.Finds.{find, update_all}
use owasp_llm_lab_setup_guid.Sink.Rows.{
  CaseId, as_case, earlier, Suite, is_issued, Capability, Delivery, Database, same_case, is_closure,
  in_case,
}
use owasp_llm_lab_setup_guid.Sink.Service.{unused}

-- The suite is closed: its capabilities that are issued end unused.
abbrev pub end_suite : String → ℕ → Database → Database
end_suite id now d = record d {
  suites = update id (λ s. record s { closed_at = some now }) d.suites;
  capabilities = update_all (λ c. c.suite_id == id && is_issued c.status) unused d.capabilities;
}

-- `close_suite`
unfoldable pub close_suite : String → Option String → String → ℕ → Database → Checked (ℕ × Database)
unfolding bearer lookup update update_all
close_suite control_token authorization id now d = do
  bearer control_token authorization
  suite ← or_raise (lookup id d.suites) (refused 404)
  elim suite.closed_at [ some t ↦ ok (t, d) | none ↦ ok (now, end_suite id now d) ]

-- Whether the case is closed.
unfoldable pub has_closure : String → CaseId → Database → Bool
unfolding any
has_closure id case_id d = any (is_closure id case_id) d.case_closures

-- The case is closed: its capabilities that are issued end unused.
abbrev pub end_case : String → CaseId → ℕ → Database → Database
end_case id case_id now d = record d {
  capabilities = update_all (λ c. in_case id case_id c && is_issued c.status) unused d.capabilities;
  case_closures =
      d.case_closures ++ record { suite_id = id; case_id = case_id; closed_at = now } ∷ [];
}

-- `close_case` of a case that is not closed.
unfoldable pub close_open : String → CaseId → Suite → ℕ → Database → Checked (ℕ × Database)
unfolding has_closure all update_all
close_open id case_id suite now d = do
  guard (is_none suite.closed_at) (refused 409)
  guard (all (λ c. has_closure id c d) (earlier case_id)) (refused 409)
  ok (now, end_case id case_id now d)

-- `close_case`
unfoldable pub close_case :
    String → Option String → (suite_id case_id : String) → ℕ → Database → Checked (ℕ × Database)
unfolding bearer lookup find close_open
close_case control_token authorization id case_text now d = do
  bearer control_token authorization
  case_id ← or_raise (as_case case_text) (refused 422)
  suite ← or_raise (lookup id d.suites) (refused 404)
  elim (find (is_closure id case_id) d.case_closures) [
    | some previous ↦ ok (previous.closed_at, d)
    | none ↦ close_open id case_id suite now d
  ]

unfoldable pub filter {ℓ} : {A : Type ℓ} → (A → Bool) → List A → List A
filter p [] = []
filter p (x ∷ xs) = let rest = filter p xs in if p x then x ∷ rest else rest

-- What `ledger` returns of its rows.
pub record Ledger : Type 0 where
  pub suite : Suite
  pub capabilities : List Capability
  pub deliveries : List Delivery

unfoldable pub read_ledger : String → Database → Checked Ledger
unfolding lookup filter
read_ledger id d = do
  suite ← or_raise (lookup id d.suites) (refused 404)
  ok (record {
    suite = suite;
    capabilities = filter (λ c. c.suite_id == id) d.capabilities;
    deliveries = filter (λ x. x.suite_id == id) d.deliveries;
  })

-- `ledger`
unfoldable pub ledger : String → Option String → String → Database → Checked Ledger
unfolding bearer read_ledger
ledger verifier_token authorization id d = do bearer verifier_token authorization; read_ledger id d

-- What `case_ledger` adds or changes.
pub record CaseLedger : Type 0 where
  pub value : Ledger
  pub case_closed_at : ℕ
  pub capabilities : List Capability
  pub deliveries : List Delivery
  pub future_deliveries : List Delivery

-- `item["case_id"] in prefix`
unfoldable pub up_to : CaseId → CaseId → Bool
unfolding any
up_to last x = same_case x last || any (same_case x) (earlier last)

-- `case_ledger`
unfoldable pub case_ledger :
    String → Option String → (suite_id case_id : String) → Database → Checked CaseLedger
unfolding read_ledger filter find up_to
case_ledger verifier_token authorization id case_text d = do
  bearer verifier_token authorization
  case_id ← or_raise (as_case case_text) (refused 422)
  closure ← or_raise (find (is_closure id case_id) d.case_closures) (refused 409)
  value ← read_ledger id d
  ok (record {
    value = value;
    case_closed_at = closure.closed_at;
    capabilities = filter (λ c. up_to case_id c.case_id) value.capabilities;
    deliveries = filter (λ x. up_to case_id x.case_id) value.deliveries;
    future_deliveries = filter (λ x. not (up_to case_id x.case_id)) value.deliveries;
  })
