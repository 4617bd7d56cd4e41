-- ===== src/Quota/Tests.antt =====
-- A policy of one client, two admissions and their settlement, and the theorems at them.
use owasp_llm_lab_setup_guid.Base.{
  ◌≡◌, refl, false, none, some, String, List, [], ◌∷◌, lookup, append, text_in, is_sha256_hex,
  is_ok, arith,
}
use owasp_llm_lab_setup_guid.Json.{Json, plus, int, str, arr, obj, cons, nil, end, field, get}
use owasp_llm_lab_setup_guid.Quota.Policy.{Client, Policy, validate}
use owasp_llm_lab_setup_guid.Quota.Rows.{pending, complete, committed_by, sum_over}
use owasp_llm_lab_setup_guid.Quota.Operations.{Admissions, settle}
use owasp_llm_lab_setup_guid.Quota.Budget.{IsWithin, rows_fit}
use owasp_llm_lab_setup_guid.Quota.Runs.{
  Request, admitting, settling, giving_up, run, run-IsWithin, settle_once,
}

abbrev digest : String
digest = "0123456789abcdef0123456789abcdef0123456789abcdef0123456789abcdef"

abbrev client : Client
client = record {
  credential_sha256 = digest;
  models = "nova" ∷ [];
  requests = 2;
  output_tokens = 100;
  max_output_tokens = 80;
  max_input_bytes = 50;
}

abbrev policy : Policy
policy = record { clients = ("alice", client) ∷ []; period = 60 }

abbrev document : Json
document = obj (
    field "alice"
      (obj (
        field "credential_sha256" (str digest) (
          field "models" (arr (cons (str "nova") nil)) (
            field "requests" (int (plus 2)) (
              field "output_tokens" (int (plus 100)) (
                field "max_output_tokens" (int (plus 80))
                  (field "max_input_bytes" (int (plus 50)) end)))))))
      end)

validate-document : validate (int (plus 60)) document ≡ some policy
unfolding validate get is_sha256_hex text_in
validate-document = refl

abbrev script : List Request
script =
    admitting "alice" "nova#main" "hello" 80 61 "r1"
    ∷ admitting "alice" "nova" "hello" 30 62 "r2"
    ∷ settling "r1" 12 40
    ∷ admitting "alice" "nova" "hello" 30 63 "r2"
    ∷ giving_up "r2"
    ∷ []

abbrev reserved : Admissions
reserved =
    (
      "r1",
      record {
        principal = "alice";
        window = 1;
        reserved = 80;
        input_tokens = none;
        output_tokens = none;
        outcome = pending;
      },
    )
    ∷ []

abbrev settled_table : Admissions
settled_table =
    (
      "r1",
      record {
        principal = "alice";
        window = 1;
        reserved = 80;
        input_tokens = some 12;
        output_tokens = some 40;
        outcome = complete;
      },
    )
    ∷ []

committed-script : sum_over committed_by "alice" 1 (run policy script []) ≡ 70
unfolding sum_over run lookup append text_in
committed-script = refl

no_rows-IsWithin : IsWithin policy []
unfolding rows_fit sum_over
no_rows-IsWithin = record {
  rows = refl;
  requests = λ p c w e. ground arith;
  output = λ p c w e. ground arith;
}

run-IsWithin_example : IsWithin policy (run policy script [])
run-IsWithin_example = run-IsWithin policy script [] no_rows-IsWithin

settle_once_example : is_ok (settle "r1" 12 40 (run policy script settled_table)) ≡ false
unfolding settle lookup
settle_once_example = settle_once policy "r1" 12 40 reserved settled_table refl script 12 40
