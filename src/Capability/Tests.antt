-- ===== src/Capability/Tests.antt =====
-- A suite of P12, and the theorems at it. Here the digest of a text is the text, and a UUID is read
-- as it stands.
use Prim.Native.String.{◌++◌}
use owasp_llm_lab_setup_guid.Base.{
  ℕ, ◌≡◌, refl, false, none, some, String, List, [], ◌∷◌, lookup, append, update, update_where,
  exists, text_in, is_sha256_hex, is_ok, arith, zero, suc,
}
use owasp_llm_lab_setup_guid.Json.{Json, Fields, plus, str, int, obj, end, field, as_str, get}
use owasp_llm_lab_setup_guid.Capability.Rows.{
  State, reserved, completed, closed_unused, Grant, Store, empty,
}
use owasp_llm_lab_setup_guid.Capability.Operations.{
  issue, reserve, close, Handout, Binding, new_grant,
}
use owasp_llm_lab_setup_guid.Capability.Completion.{complete}
use owasp_llm_lab_setup_guid.Capability.Invariant.{IsValid, Step, GrantFits}
use owasp_llm_lab_setup_guid.Capability.Issued.{Handed, issue_complete}
use owasp_llm_lab_setup_guid.Capability.Runs.{
  Request, issuing, reserving, completing, closing, run, run-Good,
}
use owasp_llm_lab_setup_guid.Capability.Guarantees.{capability_once, reserve_after_close}

abbrev plain : String → String
plain s = s

abbrev long : String
long = "tttttttttttttttttttttttttttttttttttttttttttttttttttttttttttttttt"

abbrev draw : ℕ → String
draw zero = long ++ "0"
draw (suc zero) = long ++ "1"
draw (suc (suc zero)) = long ++ "2"
draw (suc (suc (suc n))) = long ++ "3"

abbrev request_digest : Json
request_digest = str "0123456789abcdef0123456789abcdef0123456789abcdef0123456789abcdef"

abbrev reply : Fields
reply = field "provider_request_id" (str "req-1") (
    field "text" (str "Yes") (
      field "usage"
        (obj (
          field "inputTokens" (int (plus 3))
            (field "outputTokens" (int (plus 1)) (field "totalTokens" (int (plus 4)) end))))
        (field "stop_reason" (str "end_turn") end)))

abbrev script : List Request
script =
    issuing (str "s") (str "e" ∷ []) draw 1000000
    ∷ reserving (str (long ++ "0")) "s" "e" "input_rail" "us.amazon.nova-lite-v1:0#p12-input_rail"
        request_digest 2000000
    ∷ completing (long ++ "0") reply 3000000
    ∷ closing "s" 4000000
    ∷ []

-- The states of the grants at the end, in the order of their keys.
states : List (String × Grant) → List State
states [] = []
states ((k, g) ∷ t) = g.state ∷ states t

script-states :
    states (run plain as_str script empty).grants
    ≡ completed ∷ closed_unused ∷ closed_unused ∷ closed_unused ∷ []
unfolding states run issue reserve complete close lookup append update update_where exists text_in
    is_sha256_hex get
script-states = refl

empty-IsValid : IsValid empty
unfolding lookup
empty-IsValid = record { grants = λ k g h. absurd (none-ne-some h) }
  where
    none-ne-some : {x : Grant} → none ≡ some x → ⊥
    none-ne-some p = cc

run-Good_example :
    IsValid (run plain as_str script empty) × Step empty (run plain as_str script empty)
run-Good_example = run-Good plain as_str script empty empty-IsValid

abbrev grant : Grant
grant = new_grant plain as_str "s" "e" "main" 1000000

abbrev one_grant : Store
one_grant = record {
  suites = ("s", record { created = 1000000; closed = none }) ∷ [];
  grants = (long, grant) ∷ [];
  provider_ids = [];
}

one_grant-IsValid : IsValid one_grant
unfolding lookup
one_grant-IsValid = record { grants = λ k g h. fits g (found k g h) }
  where
    found : (k : String) (g : Grant) → lookup k one_grant.grants ≡ some g → grant ≡ g
    found k g h = ground arith

    fits : (g : Grant) → grant ≡ g → GrantFits one_grant.suites g
    fits g e = rw (← e) (record { lifetime = refl; columns = (refl, refl, refl); suite = tt })

abbrev used_grant : Store
used_grant = record one_grant {
  grants =
      (
        long,
        record grant {
          state = reserved;
          reserved_at = some 2000000;
          request_digest = some "0123456789abcdef0123456789abcdef0123456789abcdef0123456789abcdef";
        },
      )
      ∷ [];
}

abbrev binding : Binding
binding = record {
  token_digest = long;
  bound_request = "0123456789abcdef0123456789abcdef0123456789abcdef0123456789abcdef";
}

abbrev main_model : String
main_model = "us.amazon.nova-lite-v1:0#p12-main"

capability_once_example :
    is_ok (
      reserve plain
        (str long)
        "s"
        "e"
        "main"
        main_model
        request_digest
        3000000
        (run plain as_str script used_grant))
    ≡ false
unfolding reserve lookup update is_sha256_hex
capability_once_example =
    capability_once plain as_str (str long) "s" "e" "main" main_model request_digest 2000000
      one_grant used_grant binding one_grant-IsValid refl script "s" "e" "main" main_model
      request_digest 3000000

abbrev closed_store : Store
closed_store = record {
  suites = ("s", record { created = 1000000; closed = some 2000000 }) ∷ [];
  grants = (long, record grant { state = closed_unused }) ∷ [];
  provider_ids = [];
}

reserve_after_close_example :
    is_ok (
      reserve plain
        (str long)
        "s"
        "e"
        "main"
        main_model
        request_digest
        3000000
        (run plain as_str script closed_store))
    ≡ false
unfolding close lookup update update_where exists
reserve_after_close_example =
    reserve_after_close plain as_str "s" 2000000 2000000 one_grant closed_store one_grant-IsValid
      refl script (str long) "e" "main" main_model request_digest 3000000

abbrev handouts : List Handout
handouts =
    record {
      execution_id = "e";
      role = "input_rail";
      model = "us.amazon.nova-lite-v1:0#p12-input_rail";
      capability = long ++ "0";
      expires_at = 181000000;
    }
    ∷ record {
      execution_id = "e";
      role = "retrieval_rail";
      model = "us.amazon.nova-lite-v1:0#p12-retrieval_rail";
      capability = long ++ "1";
      expires_at = 181000000;
    }
    ∷ record {
      execution_id = "e";
      role = "output_rail";
      model = "us.amazon.nova-lite-v1:0#p12-output_rail";
      capability = long ++ "2";
      expires_at = 181000000;
    }
    ∷ record {
      execution_id = "e";
      role = "main";
      model = main_model;
      capability = long ++ "3";
      expires_at = 181000000;
    }
    ∷ []

abbrev issued_store : Store
issued_store = record empty {
  suites = ("s", record { created = 1000000; closed = none }) ∷ [];
  grants =
      (long ++ "0", new_grant plain as_str "s" "e" "input_rail" 1000000)
      ∷ (long ++ "1", new_grant plain as_str "s" "e" "retrieval_rail" 1000000)
      ∷ (long ++ "2", new_grant plain as_str "s" "e" "output_rail" 1000000)
      ∷ (long ++ "3", grant)
      ∷ [];
}

issue_complete_example :
    Handed plain as_str
      (str "s")
      (str "e" ∷ [])
      draw
      1000000
      empty
      ((1000000, handouts), issued_store)
unfolding issue lookup append exists text_in
issue_complete_example =
    issue_complete plain as_str (str "s") (str "e" ∷ []) draw 1000000 empty
      ((1000000, handouts), issued_store) refl
