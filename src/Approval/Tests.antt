-- ===== src/Approval/Tests.antt =====
-- A notice that is proposed, approved by another person and published, and the theorems at it. Here
-- the digest of a text is the text.
use owasp_llm_lab_setup_guid.Base.{
  ◌≡◌, refl, true, false, some, String, List, [], ◌∷◌, Table, lookup, append, update, text_in,
  is_ok,
}
use owasp_llm_lab_setup_guid.Json.{Fields, bool, str, end, field, get, has_exactly, canonical}
use owasp_llm_lab_setup_guid.Approval.Store.{
  Credential, approved, consumed, Approval, Store, empty, execute, effect_count,
}
use owasp_llm_lab_setup_guid.Approval.Evidence.{
  Request, past, proposing, reviewing, executing, IsReviewed,
}
use owasp_llm_lab_setup_guid.Approval.Review.{run, run-IsReviewed}
use owasp_llm_lab_setup_guid.Approval.Once.{execute_once}

abbrev plain : String → String
plain s = s

abbrev credentials : Table Credential
credentials =
    ("alice", record { credential_sha256 = "a"; role = "requester" })
    ∷ ("bob", record { credential_sha256 = "b"; role = "reviewer" })
    ∷ []

abbrev action : Fields
action = field "kind" (str "publish_training_notice") (field "notice" (str "check") end)

abbrev script : List Request
script =
    proposing "a" action "1" 0
    ∷ executing "a" "1" action 1
    ∷ reviewing "b" "1" (bool true) 2
    ∷ executing "a" "1" action 3
    ∷ executing "a" "1" action 4
    ∷ []

effect_count-script : effect_count (run plain credentials script empty) ≡ 1
unfolding effect_count run lookup append update get has_exactly canonical text_in
effect_count-script = refl

empty-IsReviewed : IsReviewed plain credentials [] empty
unfolding lookup
empty-IsReviewed = record { rows = λ id. tt }

run-IsReviewed_example :
    IsReviewed plain credentials (past script []) (run plain credentials script empty)
run-IsReviewed_example = run-IsReviewed plain credentials script [] empty empty-IsReviewed

abbrev row : Approval
row = record {
  requester = "alice";
  payload = "{\"kind\": \"publish_training_notice\", \"notice\": \"check\"}";
  expires = 300000000;
  state = approved;
  reviewer = some "bob";
}

abbrev ready : Store
ready = record { approvals = ("1", row) ∷ []; effects = [] }

abbrev published : Store
published = record {
  approvals = ("1", record row { state = consumed }) ∷ [];
  effects = ("1", "check") ∷ [];
}

execute_once_example :
    is_ok (execute plain credentials "a" "1" action 9 (run plain credentials script published))
    ≡ false
unfolding execute lookup append update get has_exactly canonical text_in
execute_once_example =
    execute_once plain credentials "a" "1" action 3 ready published refl script "a" action 9
