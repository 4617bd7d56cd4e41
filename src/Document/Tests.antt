-- ===== src/Document/Tests.antt =====
-- An execution of P02 with two calls, and the theorems at it. Here the digest of a text is the text.
use owasp_llm_lab_setup_guid.Base.{
  ℕ, ◌≡◌, refl, false, none, some, String, List, [], ◌∷◌, lookup, append, length, any, exists,
  text_in, is_ascii, is_uuid, is_sha256_hex, is_ok,
}
use owasp_llm_lab_setup_guid.Json.{Json, str, obj, end, field, dumps}
use owasp_llm_lab_setup_guid.Clock.{identifier, digest, checked_token, at}
use owasp_llm_lab_setup_guid.Guardrail.Rows.{pending}
use owasp_llm_lab_setup_guid.Document.Rows.{Execution, Call, Ledger, empty, calls_of, update_call}
use owasp_llm_lab_setup_guid.Document.Operations.{reserve}
use owasp_llm_lab_setup_guid.Document.Once.{
  Request, registering, reserving, claiming, finishing, run,
}
use owasp_llm_lab_setup_guid.Document.Guarantees.{operation_once}

abbrev plain : String → String
plain s = s

abbrev suite : String
suite = "11111111-1111-4111-8111-111111111111"

abbrev execution : String
execution = "22222222-2222-4222-8222-222222222222"

abbrev source : String
source = "0123456789abcdef0123456789abcdef0123456789abcdef0123456789abcdef"

abbrev token : String
token = "tttttttttttttttttttttttttttttttttttttttttttttttttttttttttttttttt"

abbrev response : Json
response = obj (field "provider_request_id" (str "p1") end)

abbrev script : List Request
script =
    registering (str suite) (str execution) (str source) (str source) token (at 1000000)
    ∷ claiming execution
    ∷ reserving (str token) suite execution "store_source" (str source) (at 2000000)
    ∷ reserving (str token) suite execution "embed" (str source) (at 3000000)
    ∷ finishing execution "store_source" (some response) (at 3000000)
    ∷ reserving (str token) suite execution "embed" (str source) (at 4000000)
    ∷ []

abbrev row : Execution
row = record {
  suite_id = suite;
  source_digest = source;
  runner_digest = source;
  capability_hash = token;
  started_at = 1000000;
  closed_at = none;
}

abbrev new_call : String → ℕ → ℕ → Call
new_call operation n t = record {
  execution_id = execution;
  operation = operation;
  sequence = n;
  request_digest = source;
  state = pending;
  started_at = t;
  finished_at = none;
  response_json = none;
  provider_request_id = none;
}

abbrev opened : Ledger
opened = record { executions = (execution, row) ∷ []; calls = []; native_grants = [] }

abbrev reserved : Ledger
reserved = record opened { calls = new_call "store_source" 1 2000000 ∷ [] }

script-two : length (calls_of execution (run plain script empty).calls) ≡ 2
unfolding text_in run calls_of digest is_sha256_hex checked_token is_ascii lookup dumps identifier
    is_uuid exists append any update_call
script-two = refl

operation_once_example :
    is_ok (
      reserve plain
        (str token)
        suite
        execution
        "store_source"
        (str source)
        (at 9000000)
        (run plain script reserved))
    ≡ false
unfolding reserve lookup calls_of any digest checked_token is_ascii is_sha256_hex text_in
operation_once_example =
    operation_once plain (str token) suite execution "store_source" (str source) (at 2000000) opened
      1 reserved refl script (str token) suite (str source) (at 9000000)
