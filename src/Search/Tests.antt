-- ===== src/Search/Tests.antt =====
-- An execution of P03 with two calls, and the theorems at it. Here the digest of a text is the text.
use owasp_llm_lab_setup_guid.Base.{
  ℕ, ◌≡◌, ◌≤◌, refl, true, false, none, some, String, List, [], ◌∷◌, lookup, append, update, length,
  all, any, exists, text_in, is_ascii, is_uuid, is_sha256_hex, is_ok,
}
use owasp_llm_lab_setup_guid.Json.{Json, str, obj, end, field, dumps}
use owasp_llm_lab_setup_guid.Clock.{identifier, digest, checked_token, at}
use owasp_llm_lab_setup_guid.Guardrail.Rows.{pending}
use owasp_llm_lab_setup_guid.Search.Rows.{
  Execution, Call, Ledger, empty, calls_of, find_call, update_call,
}
use owasp_llm_lab_setup_guid.Search.Operations.{reserve, finish, close, no_answer, finished}
use owasp_llm_lab_setup_guid.Search.Once.{Request, registering, reserving, claiming, finishing, run}
use owasp_llm_lab_setup_guid.Search.Guarantees.{call_once, failed_final}
use owasp_llm_lab_setup_guid.Search.Lanes.{IsOrdered, in_sequence}
use owasp_llm_lab_setup_guid.Search.Order.{run-IsOrdered}
use owasp_llm_lab_setup_guid.Search.Closing.{close_settles, ended_by}

abbrev plain : String → String
plain s = s

abbrev suite : String
suite = "11111111-1111-4111-8111-111111111111"

abbrev execution : String
execution = "22222222-2222-4222-8222-222222222222"

abbrev source : String
source = "0123456789abcdef0123456789abcdef0123456789abcdef0123456789abcdef"

abbrev token : String
token = "tttttttttttttttttttttttttttttttttttttttttttttttttttttttttttttttt"

abbrev response : Json
response = obj (field "observation_id" (str "o1") (field "provider_request_id" (str "p1") end))

abbrev script : List Request
script =
    registering (str suite) (str execution) (str source) (str source) (str "job-1") token
      (at 1000000)
    ∷ claiming execution
    ∷ reserving (str token) suite execution "job_status" (str source) (at 2000000)
    ∷ reserving (str token) suite execution "retrieve" (str source) (at 3000000)
    ∷ finishing execution "job_status" (some response) (at 3000000)
    ∷ reserving (str token) suite execution "retrieve" (str source) (at 4000000)
    ∷ []

abbrev row : Execution
row = record {
  suite_id = suite;
  source_digest = source;
  runner_digest = source;
  current_job_id = "job-1";
  capability_hash = token;
  started_at = 1000000;
  closed_at = none;
}

abbrev new_call : String → ℕ → ℕ → Call
new_call operation n t = record {
  execution_id = execution;
  operation = operation;
  sequence = n;
  request_digest = source;
  state = pending;
  started_at = t;
  finished_at = none;
  response_json = none;
  observation_id = none;
  provider_request_id = none;
}

abbrev opened : Ledger
opened = record { executions = (execution, row) ∷ []; calls = []; native_grants = [] }

abbrev reserved : Ledger
reserved = record opened { calls = new_call "job_status" 1 2000000 ∷ [] }

abbrev failed : Ledger
failed = record opened { calls = finished 3000000 no_answer (new_call "job_status" 1 2000000) ∷ [] }

script-two : length (calls_of execution (run plain script empty).calls) ≡ 2
unfolding text_in run calls_of digest is_sha256_hex checked_token is_ascii lookup dumps identifier
    is_uuid exists append any update_call
script-two = refl

empty-IsOrdered : IsOrdered empty
unfolding in_sequence calls_of
empty-IsOrdered id = refl

run-IsOrdered_example : IsOrdered (run plain script empty)
run-IsOrdered_example = run-IsOrdered plain script empty empty-IsOrdered

call_once_example :
    is_ok (
      reserve plain
        (str token)
        suite
        execution
        "job_status"
        (str source)
        (at 9000000)
        (run plain script reserved))
    ≡ false
unfolding reserve lookup calls_of any digest checked_token is_ascii is_sha256_hex text_in
call_once_example =
    call_once plain (str token) suite execution "job_status" (str source) (at 2000000) opened 1
      reserved refl script (str token) suite (str source) (at 9000000)

failed_final_example :
    is_ok (
      reserve plain
        (str token)
        suite
        execution
        "retrieve"
        (str source)
        (at 9000000)
        (run plain script failed))
    ≡ false
unfolding finish lookup find_call update_call any
failed_final_example =
    failed_final plain execution "job_status" (at 3000000) reserved failed refl script (str token)
      suite "retrieve" (str source) (at 9000000)

abbrev closed_ledger : Ledger
closed_ledger = record failed {
  executions = (execution, record row { closed_at = some 6000000 }) ∷ [];
}

close_settles_example :
    (lookup execution closed_ledger.executions ≡ some (record row { closed_at = some 6000000 }))
    × (row.started_at ≤ 6000000)
    × (all (ended_by 6000000) (calls_of execution closed_ledger.calls) ≡ true)
unfolding lookup close update calls_of
close_settles_example =
    close_settles execution (at 6000000) failed row 6000000 closed_ledger refl refl refl
