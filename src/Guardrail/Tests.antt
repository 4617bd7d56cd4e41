-- ===== src/Guardrail/Tests.antt =====
-- A whole execution of P04, and the theorems at it. Here the digest of a text is the text.
use owasp_llm_lab_setup_guid.Base.{
  ℕ, ◌≡◌, ◌≢◌, refl, true, false, Option, none, some, String, List, [], ◌∷◌, lookup, append, update,
  exists, exists_other, text_in, is_blank, is_ascii, is_uuid, is_sha256_hex, ok, err, arith, is_ok,
  is_some, text_in,
}
use owasp_llm_lab_setup_guid.Json.{
  Json, str, obj, arr, nil, cons, end, field, canonical, get, has_exactly,
}
use owasp_llm_lab_setup_guid.Clock.{identifier, digest, checked_token, at, type_error}
use owasp_llm_lab_setup_guid.Guardrail.Contract.{
  read_body, read_guardrail, expected_arguments, validate_invocation,
}
use owasp_llm_lab_setup_guid.Guardrail.Rows.{
  Execution, Call, Ledger, empty, State, pending, complete,
}
use owasp_llm_lab_setup_guid.Guardrail.Operations.{
  authorize, register, reserve, dispatch, finish, close, encoded,
}
use owasp_llm_lab_setup_guid.Guardrail.Invariant.{IsValid}
use owasp_llm_lab_setup_guid.Guardrail.Lifecycle.{Effect}
use owasp_llm_lab_setup_guid.Guardrail.Runs.{
  Request, registering, reserving, dispatching, finishing, closing, handle, run, handle-Effect,
  run-IsValid, run-closed, run-finished,
}
use owasp_llm_lab_setup_guid.Guardrail.Guarantees.{
  reserve_once, authorize-reserve, close-ne-type_error, close_twice,
}

abbrev plain : String → String
plain s = s

abbrev suite : String
suite = "11111111-1111-4111-8111-111111111111"

abbrev execution : String
execution = "22222222-2222-4222-8222-222222222222"

abbrev source : String
source = "0123456789abcdef0123456789abcdef0123456789abcdef0123456789abcdef"

abbrev token : String
token = "tttttttttttttttttttttttttttttttttttttttttttttttttttttttttttttttt"

abbrev guardrail : Json
guardrail =
    obj (field "guardrailIdentifier" (str "gr-1") (field "guardrailVersion" (str "DRAFT") end))

abbrev body : Json
body = obj (field "operation" (str "apply_guardrail") (field "text" (str "hello") end))

abbrev payload : Json
payload = obj (
    field "source" (str "OUTPUT") (
      field "outputScope" (str "FULL") (
        field "content"
          (arr (cons (obj (field "text" (obj (field "text" (str "hello") end)) end)) nil))
          (field "guardrailVersion" (str "DRAFT") (field "guardrailIdentifier" (str "gr-1") end)))))

validate-payload : is_some (validate_invocation "apply_guardrail" payload body guardrail) ≡ true
unfolding validate_invocation read_body has_exactly get is_blank read_guardrail is_ascii canonical
validate-payload = refl

abbrev response : Json
response = obj (field "ResponseMetadata" (obj (field "RequestId" (str "req-1") end)) end)

abbrev opening : Request
opening =
    registering (str suite) (str execution) (str source) (str source) (str source) "aws" body
      guardrail token (at 1000000)

abbrev reservation : Request
reservation = reserving (str token) suite execution "apply_guardrail" payload (at 2000000)

abbrev script : List Request
script =
    opening
    ∷ reservation
    ∷ dispatching execution (at 3000000)
    ∷ finishing execution (some response) "obs-1" (at 4000000)
    ∷ closing execution (at 5000000)
    ∷ []

empty-IsValid : IsValid empty
unfolding lookup
empty-IsValid = record { rows = λ id. tt }

abbrev opened : Ledger
opened = run plain (opening ∷ []) empty

run-IsValid_example : IsValid (run plain script empty)
run-IsValid_example = run-IsValid plain script empty empty-IsValid

-- The script runs to its end: the call is complete and the execution closed.
script_state : Ledger → Option (State × Option ℕ)
script_state l = elim (lookup execution l.calls) [
  | none ↦ none
  | some c ↦
      some (c.state, elim (lookup execution l.executions) [ none ↦ none | some e ↦ e.closed_at ])
]

script_completes : script_state (run plain script empty) ≡ some (complete, some 5000000)
unfolding script_state run lookup append update exists exists_other register reserve dispatch finish
    close identifier digest checked_token text_in expected_arguments read_body has_exactly get
    is_blank read_guardrail is_ascii is_uuid is_sha256_hex canonical
script_completes = refl

abbrev row : Execution
row = record {
  suite_id = suite;
  source_digest = source;
  runner_digest = source;
  resource_digest = source;
  provider_mode = "contract";
  body_json = "{}";
  guardrail_json = "{}";
  capability_hash = token;
  started_at = 1000000;
  closed_at = none;
}

abbrev done : Call
done = record {
  operation = "converse";
  request_json = "{}";
  request_digest = "{}";
  state = complete;
  started_at = 2000000;
  dispatched_at = some 3000000;
  finished_at = some 4000000;
  response_json = some "{}";
  observation_id = some "obs-1";
  provider_request_id = none;
}

-- One execution, open and with no call.
abbrev ready : Ledger
ready = record empty { executions = (execution, row) ∷ [] }

-- The same after its call, closed.
abbrev shut : Ledger
shut = record empty {
  executions = (execution, record row { closed_at = some 5000000 }) ∷ [];
  calls = (execution, done) ∷ [];
}

handle-Effect_example :
    (id : String) × Effect id ready (handle plain (dispatching execution (at 3000000)) ready)
handle-Effect_example = handle-Effect plain (dispatching execution (at 3000000)) ready

run-closed_example :
    (lookup execution (run plain script shut).executions
      ≡ some (record row { closed_at = some 5000000 }))
    × (lookup execution (run plain script shut).calls ≡ lookup execution shut.calls)
unfolding lookup
run-closed_example =
    run-closed plain script shut execution (record row { closed_at = some 5000000 }) 5000000 refl
      refl

complete-ne-pending : ◌≢◌ {A = State} complete pending
complete-ne-pending = ground arith

run-finished_example : lookup execution (run plain script shut).calls ≡ some done
unfolding lookup
run-finished_example = run-finished plain script shut execution done refl complete-ne-pending

abbrev reserved_ledger : Ledger
reserved_ledger = record ready {
  calls =
      (
        execution,
        record {
          operation = "converse";
          request_json = "{}";
          request_digest = "{}";
          state = pending;
          started_at = 2000000;
          dispatched_at = none;
          finished_at = none;
          response_json = none;
          observation_id = none;
          provider_request_id = none;
        },
      )
      ∷ [];
}

reserve_once_example :
    is_ok (
      reserve plain
        (str token)
        suite
        execution
        "converse"
        (obj end)
        (at 9000000)
        (run plain script reserved_ledger))
    ≡ false
unfolding reserve lookup append checked_token text_in canonical is_ascii
reserve_once_example =
    reserve_once plain (str token) suite execution "converse" (obj end) (at 2000000) ready
      reserved_ledger refl script (str token) suite "converse" (obj end) (at 9000000)

authorize-reserve_example :
    is_ok (reserve plain (str token) suite execution "converse" (obj end) (at 2000000) ready) ≡ true
unfolding authorize lookup checked_token text_in encoded canonical is_ascii
authorize-reserve_example =
    authorize-reserve plain (str token) suite execution "converse" "{}" (obj end) (at 2000000) ready
      refl refl refl refl refl

ready-IsValid : IsValid opened
ready-IsValid = run-IsValid plain (opening ∷ []) empty empty-IsValid

close-ne-type_error_example : close execution (at 5000000) (run plain script empty) ≢ err type_error
close-ne-type_error_example =
    close-ne-type_error execution (at 5000000) (run plain script empty)
      (run-IsValid plain script empty empty-IsValid)

close_twice_example : close execution (at 9000000) shut ≡ ok (5000000, shut)
unfolding close lookup
close_twice_example = close_twice execution (at 7000000) (at 9000000) shut shut 5000000 refl
