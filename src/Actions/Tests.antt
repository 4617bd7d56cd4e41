-- ===== src/Actions/Tests.antt =====
-- A suite whose second capability is used twice, and the theorems at it. Here the digest and the
-- encoding of a text are the text, and every body is read as that of the second capability.
use owasp_llm_lab_setup_guid.Base.{
  ◌≡◌, refl, false, none, some, String, List, [], ◌∷◌, lookup, append, update, any, all, length,
  is_hex, is_ascii, text_in, is_ok,
}
use owasp_llm_lab_setup_guid.Json.{plus, obj, get, compact, sorted}
use owasp_llm_lab_setup_guid.Retrieval.Policy.{before_space, after_space, is_bearer}
use owasp_llm_lab_setup_guid.Actions.Rows.{
  CaseId, balance_read, transfer_explicit, transfer_prefixed, unsupported, transfer_training_funds,
  Database, empty, find_capability, use_capability, effects_of, calls_of,
}
use owasp_llm_lab_setup_guid.Actions.Tokens.{
  Library, aware, bearer, Payload, payload_fields, split_dot, has_text, issue_capability,
  verify_capability, allow_time,
}
use owasp_llm_lab_setup_guid.Actions.Provider.{
  ExecuteRequest, is_id, distinct, same_texts, is_suite_request, is_execute_request, grant_all,
  create_suite, token_of,
}
use owasp_llm_lab_setup_guid.Actions.Execution.{in_scope, apply_action, execute_action}
use owasp_llm_lab_setup_guid.Actions.Balance.{IsBalanced, count_used, count_writes}
use owasp_llm_lab_setup_guid.Actions.Runs.{Request, creating, acting, handle, run, run-IsBalanced}
use owasp_llm_lab_setup_guid.Actions.Once.{act_once}

abbrev suite : String
suite = "11111111-1111-4111-8111-111111111111"

abbrev first : String
first = "22222222-2222-4222-8222-222222222221"

abbrev second : String
second = "22222222-2222-4222-8222-222222222222"

abbrev third : String
third = "22222222-2222-4222-8222-222222222223"

abbrev fourth : String
fourth = "22222222-2222-4222-8222-222222222224"

abbrev payload : Payload
payload = record {
  nonce = "n";
  suite_id = suite;
  execution_id = second;
  case_id = transfer_explicit;
  action_id = some transfer_training_funds;
  expires_at = "later";
}

abbrev library : Library
library = record {
  encode = λ s. s;
  decode = λ s. some s;
  hmac = λ s. "s";
  sha256 = λ s. s;
  loads = λ s. some (obj (payload_fields payload));
  iso = λ t. "later";
  from_iso = λ s. some (aware 300000000);
}

abbrev nonces : CaseId → String
nonces c = "n"

abbrev token : String
token =
    "{\"action_id\":\"transfer_training_funds\",\"case_id\":\"transfer-explicit\",\"execution_id\":\"22222222-2222-4222-8222-222222222222\",\"expires_at\":\"later\",\"nonce\":\"n\",\"suite_id\":\"11111111-1111-4111-8111-111111111111\",\"version\":1}.s"

token-issued : issue_capability library payload ≡ token
unfolding issue_capability payload_fields sorted compact
token-issued = refl

abbrev request : ExecuteRequest
request = record {
  suite_id = suite;
  execution_id = second;
  case_id = transfer_explicit;
  action_id = transfer_training_funds;
  capability = token;
}

abbrev script : List Request
script =
    creating (some "Bearer c")
      (record {
        suite_id = suite;
        started_at = "now";
        executions =
            record { case_id = balance_read; execution_id = first }
            ∷ record { case_id = transfer_explicit; execution_id = second }
            ∷ record { case_id = transfer_prefixed; execution_id = third }
            ∷ record { case_id = unsupported; execution_id = fourth }
            ∷ [];
      })
      nonces 0
    ∷ acting (some "Bearer a") request "p1" "e1" 1 1
    ∷ acting (some "Bearer a") request "p2" "e2" 2 2
    ∷ []

effects-script : length (run library "c" "a" script empty).effects ≡ 1
unfolding run handle create_suite execute_action bearer is_bearer before_space after_space is_ascii
    all is_suite_request is_id is_hex same_texts distinct text_in lookup append grant_all token_of
    issue_capability payload_fields sorted compact any verify_capability split_dot get allow_time
    is_execute_request in_scope has_text find_capability use_capability apply_action update
effects-script = refl

empty-IsBalanced : IsBalanced empty
unfolding lookup effects_of calls_of count_used count_writes
empty-IsBalanced = record { suites = λ id. refl; writes = λ id. refl; calls = refl }

run-IsBalanced_example : IsBalanced (run library "c" "a" script empty)
run-IsBalanced_example = run-IsBalanced library "c" "a" script empty empty-IsBalanced

abbrev stored : Database
stored = record {
  suites = (suite, record { started_at = "now"; created_at = 0; balance = plus 10000 }) ∷ [];
  capabilities =
      record {
        suite_id = suite;
        execution_id = second;
        case_id = transfer_explicit;
        action_id = some transfer_training_funds;
        token_digest = token;
        expires_at = 300000000;
        used_at = none;
      }
      ∷ [];
  calls = [];
  effects = [];
}

act_once_example :
    is_ok (
      execute_action library "a"
        (some "Bearer a")
        request
        "p3"
        "e3"
        9
        9
        (run library "c" "a" script (apply_action request token "p1" "e1" 1 (plus 10000) stored)))
    ≡ false
unfolding execute_action bearer is_bearer before_space after_space is_ascii all is_id is_hex lookup
    payload_fields any verify_capability split_dot get allow_time is_execute_request in_scope
    has_text find_capability
act_once_example =
    act_once library "c" "a" (some "Bearer a") request "p1" "e1" 1 1 stored
      (apply_action request token "p1" "e1" 1 (plus 10000) stored) _ refl script (some "Bearer a")
      request "p3" "e3" 9 9 refl
