-- ===== src/Versions/Tests.antt =====
-- A draft that is tested, promoted and taken back, and the theorems at it.
use owasp_llm_lab_setup_guid.Base.{
  ◌≡◌, ◌≢◌, refl, Option, none, some, String, List, [], ◌∷◌, ◌==◌, lookup, append, update, text_in,
  is_sha256_hex, ok, arith, eq_iff, if◌then◌else◌,
}
use owasp_llm_lab_setup_guid.Versions.Store.{
  tested, active, Draft, Bundle, Store, promote, rollback,
}
use owasp_llm_lab_setup_guid.Versions.Activation.{
  IsSound, Request, creating, testing, promoting, returning, run, run-IsSound,
}
use owasp_llm_lab_setup_guid.Versions.Promotion.{IsPromotion, promote-IsPromotion, promote-rollback}

abbrev first : String
first = "0123456789abcdef0123456789abcdef0123456789abcdef0123456789abcdef"

abbrev second : String
second = "1123456789abcdef0123456789abcdef0123456789abcdef0123456789abcdef"

abbrev new_bundle : Bundle
new_bundle = record { digest = second; version = "1.1.0" }

abbrev old_bundle : Bundle
old_bundle = record { digest = first; version = "1.0.0" }

abbrev load : String → Option Bundle
load digest = if digest == first then some old_bundle else some new_bundle

abbrev start : Store
start = record { pointer = first; active = old_bundle; drafts = []; activated = first ∷ [] }

abbrev script : List Request
script =
    creating new_bundle first 10
    ∷ testing load second first 20
    ∷ promoting load second first 30
    ∷ returning load first second
    ∷ []

abbrev tested_draft : Draft
tested_draft = record {
  digest = second;
  base_digest = first;
  version = "1.1.0";
  state = tested;
  created_at = 10;
  tested_at = some 20;
  activated_at = none;
}

abbrev ready : Store
ready = record start { drafts = (second, tested_draft) ∷ [] }

abbrev promoted : Store
promoted = record {
  pointer = second;
  active = new_bundle;
  drafts = (second, record tested_draft { state = active; activated_at = some 30 }) ∷ [];
  activated = second ∷ first ∷ [];
}

start-IsSound : IsSound start
unfolding text_in is_sha256_hex lookup
start-IsSound = record { pointed = refl; hexadecimal = refl; marked = refl; drafts = λ k d h a. cc }

script-start : (run script start).pointer ≡ first
unfolding run lookup append update text_in is_sha256_hex
script-start = refl

run-IsSound_example : IsSound (run script start)
run-IsSound_example = run-IsSound script start start-IsSound

ready-IsSound : IsSound ready
unfolding text_in is_sha256_hex lookup
ready-IsSound = record {
  pointed = refl;
  hexadecimal = refl;
  marked = refl;
  drafts = λ k d h a. ground arith;
}

promote-IsPromotion_example : IsPromotion second 30 ready ((new_bundle, first), promoted)
unfolding promote lookup update is_sha256_hex text_in
promote-IsPromotion_example =
    promote-IsPromotion load second first 30 ready ((new_bundle, first), promoted) refl

first-ne-second : ◌≢◌ {A = String} first second
first-ne-second h = ground (arith, eq_iff first second)

promote-rollback_example :
    rollback load first second promoted
    ≡ ok ((old_bundle, second), record promoted { pointer = first; active = old_bundle })
unfolding promote lookup update is_sha256_hex text_in
promote-rollback_example =
    promote-rollback load second first 30 ready promoted new_bundle first ready-IsSound refl
      first-ne-second load old_bundle refl refl
