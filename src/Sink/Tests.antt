-- ===== src/Sink/Tests.antt =====
-- A suite with a delivery to its first case, which is then closed, and the theorem at it. Here the
-- digest and the encoding of a text are the text, and every body is read as that of the first case.
use owasp_llm_lab_setup_guid.Base.{
  ◌≡◌, refl, false, none, some, String, List, [], ◌∷◌, lookup, append, any, all, length, is_hex,
  is_ascii, text_in, is_ok, arith,
}
use owasp_llm_lab_setup_guid.Base.Finds.{find, update_all}
use owasp_llm_lab_setup_guid.Json.{obj, get, has_exactly, compact, sorted}
use owasp_llm_lab_setup_guid.Retrieval.Policy.{before_space, after_space, is_bearer}
use owasp_llm_lab_setup_guid.Actions.Tokens.{Library, aware, bearer, split_dot, has_text}
use owasp_llm_lab_setup_guid.Actions.Provider.{is_id, distinct, same_texts}
use owasp_llm_lab_setup_guid.Sink.Rows.{
  CaseId, clean, input_email, input_kr_rrn, output_email, issued, Database, empty, contains,
  is_prefix,
}
use owasp_llm_lab_setup_guid.Sink.Tokens.{payload_fields, issue_capability, verify_capability}
use owasp_llm_lab_setup_guid.Sink.Service.{
  is_suite_request, new_capability, insert_all, create_suite, DeliveryRequest, is_delivery_request,
  marker_observed, in_scope, matches, new_delivery, deliver,
}
use owasp_llm_lab_setup_guid.Sink.Closing.{has_closure, close_open, close_case, end_case}
use owasp_llm_lab_setup_guid.Sink.Deliveries.{case_deliveries}
use owasp_llm_lab_setup_guid.Sink.Sealed.{IsSealed}
use owasp_llm_lab_setup_guid.Sink.Runs.{
  Request, creating, delivering, closing_case, handle, run, deliver_closed, closed_case_kept,
}

abbrev suite : String
suite = "11111111-1111-4111-8111-111111111111"

abbrev first : String
first = "22222222-2222-4222-8222-222222222221"

abbrev second : String
second = "22222222-2222-4222-8222-222222222222"

abbrev third : String
third = "22222222-2222-4222-8222-222222222223"

abbrev fourth : String
fourth = "22222222-2222-4222-8222-222222222224"

abbrev library : Library
library = record {
  encode = λ s. s;
  decode = λ s. some s;
  hmac = λ s. "s";
  sha256 = λ s. s;
  loads = λ s. some (obj (payload_fields suite first clean "clean" 900000000));
  iso = λ t. "later";
  from_iso = λ s. some (aware 0);
}

abbrev nonces : CaseId → String
nonces clean = "clean"
nonces input_email = "email"
nonces input_kr_rrn = "rrn"
nonces output_email = "output"

abbrev token : String
token = issue_capability library suite first clean "clean" 0

abbrev header : String
header =
    "Bearer {\"case_id\":\"clean\",\"execution_id\":\"22222222-2222-4222-8222-222222222221\",\"expires_at\":900,\"nonce\":\"clean\",\"suite_id\":\"11111111-1111-4111-8111-111111111111\",\"v\":1}.s"

abbrev request : DeliveryRequest
request = record { suite_id = suite; execution_id = first; case_id = clean; text = "hello" }

abbrev create : Request
create =
    creating (some "Bearer c")
      (record {
        suite_id = suite;
        started_at = "2026-01-01T00:00:00+00:00";
        executions =
            record { case_id = clean; execution_id = first }
            ∷ record { case_id = input_email; execution_id = second }
            ∷ record { case_id = input_kr_rrn; execution_id = third }
            ∷ record { case_id = output_email; execution_id = fourth }
            ∷ [];
      })
      nonces (λ c. 0) 0

abbrev script : List Request
script =
    create
    ∷ closing_case (some "Bearer c") suite "input-email" 1
    ∷ delivering (some header) request "p1" 1 1
    ∷ closing_case (some "Bearer c") suite "clean" 2
    ∷ closing_case (some "Bearer c") suite "input-email" 3
    ∷ delivering (some header) request "p2" 4 4
    ∷ []

script-one : length (run library "c" script empty).deliveries ≡ 1
unfolding run handle create_suite bearer is_bearer before_space after_space is_ascii all
    is_suite_request is_id is_hex same_texts distinct text_in lookup append insert_all
    new_capability issue_capability payload_fields sorted compact any close_case find has_closure
    close_open deliver is_delivery_request verify_capability split_dot get has_exactly in_scope
    has_text matches new_delivery marker_observed contains is_prefix update_all
script-one = refl

script-closures : length (run library "c" script empty).case_closures ≡ 2
unfolding run handle create_suite bearer is_bearer before_space after_space is_ascii all
    is_suite_request is_id is_hex same_texts distinct text_in lookup append insert_all
    new_capability issue_capability payload_fields sorted compact any close_case find has_closure
    close_open deliver is_delivery_request verify_capability split_dot get has_exactly in_scope
    has_text matches new_delivery marker_observed contains is_prefix update_all
script-closures = refl

abbrev opened : Database
opened = record {
  suites = (suite, record { started_at = "now"; created_at = 0; closed_at = none }) ∷ [];
  capabilities =
      record {
        capability_digest = token;
        suite_id = suite;
        execution_id = first;
        case_id = clean;
        nonce = "clean";
        issued_at = 0;
        expires_at = 900000000;
        status = issued;
        consumed_at = none;
      }
      ∷ [];
  deliveries = [];
  case_closures = [];
}

opened-IsSealed : IsSealed opened
unfolding has_closure any
opened-IsSealed id x h = absurd (ground arith)

deliver_closed_example :
    is_ok (
      deliver library
        (some header)
        request
        "p1"
        5
        5
        (run library "c" script (end_case suite clean 1 opened)))
    ≡ false
unfolding close_case bearer is_bearer before_space after_space is_ascii all lookup find close_open
    has_closure any update_all
deliver_closed_example =
    deliver_closed library "c" (some "Bearer c") suite "clean" clean 1 1 opened
      (end_case suite clean 1 opened) opened-IsSealed refl refl script (some header) request "p1" 5
      5 refl refl

-- The sink after a delivery to its first case, which is open.
abbrev delivered : Database
delivered = record opened { deliveries = new_delivery library request token "p1" 1 ∷ [] }

delivered-IsSealed : IsSealed delivered
unfolding has_closure any
delivered-IsSealed id x h = absurd (ground arith)

closed_case_kept_example :
    case_deliveries suite clean (run library "c" script (end_case suite clean 1 delivered))
    ≡ case_deliveries suite clean (end_case suite clean 1 delivered)
unfolding close_case bearer is_bearer before_space after_space is_ascii all lookup find close_open
    has_closure any update_all
closed_case_kept_example =
    closed_case_kept library "c" (some "Bearer c") suite "clean" clean 1 1 delivered
      (end_case suite clean 1 delivered) delivered-IsSealed refl refl script
