-- ===== src/Sink/Tokens.antt =====
-- Delivery capabilities: what `issue_capability` writes and `verify_capability` accepts.
use Prim.Native.String.{◌++◌}
use owasp_llm_lab_setup_guid.Base.{
  ℕ, ◌+◌, ◌*◌, ◌/◌, Bool, true, false, Option, none, some, String, [], ◌∷◌, ◌==◌, ltb, nat_eq,
  is_ascii, is_some, ok, ◌>>=◌, ◌>>◌, guard, or_raise,
}
use owasp_llm_lab_setup_guid.Json.{
  Json, Fields, null, bool, int, float, not_finite, plus, minus, str, arr, obj, end, field, as_str,
  as_dict, get, has_exactly, compact, sorted,
}
use owasp_llm_lab_setup_guid.Clock.{seconds}
use owasp_llm_lab_setup_guid.Actions.Tokens.{Checked, refused, type_error, Library, split_dot}
use owasp_llm_lab_setup_guid.Sink.Rows.{CaseId, case_text, as_case}

-- `CAPABILITY_TTL_SECONDS`
abbrev pub capability_ttl : ℕ
capability_ttl = seconds 900

-- The signed fields, where `expires_at` is in whole seconds.
unfoldable pub payload_fields : (suite_id execution_id : String) → CaseId → String → ℕ → Fields
payload_fields suite_id execution_id case_id nonce expires_at = field "v" (int (plus 1)) (
    field "suite_id" (str suite_id) (
      field "execution_id" (str execution_id) (
        field "case_id" (str (case_text case_id)) (
          field "nonce" (str nonce) (field "expires_at" (int (plus (expires_at / 1000000))) end)))))

-- `payload["v"] == 1`
abbrev is_one : Json → Bool
is_one (int (plus n)) = nat_eq n 1
is_one (int (minus n)) = false
is_one (float (plus n)) = nat_eq n 1000000
is_one (float (minus n)) = false
is_one (bool b) = b
is_one null = false
is_one not_finite = false
is_one (str s) = false
is_one (arr xs) = false
is_one (obj fs) = false

-- A value that is an `int` in Python, in seconds; a negative one has passed.
abbrev as_seconds : Json → Option ℕ
as_seconds (int (plus n)) = some n
as_seconds (int (minus n)) = some 0
as_seconds (bool true) = some 1
as_seconds (bool false) = some 0
as_seconds (float n) = none
as_seconds null = none
as_seconds not_finite = none
as_seconds (str s) = none
as_seconds (arr xs) = none
as_seconds (obj fs) = none

-- The text is one of CASE_ORDER.
abbrev is_case : Json → Bool
is_case v = elim (as_str v) [ none ↦ false | some s ↦ is_some (as_case s) ]

module _ (library : Library) where
  -- The signature of the first part of a token.
  abbrev pub sign : String → String
  sign encoded = library.encode (library.hmac encoded)

  -- The token of `issue_capability`.
  unfoldable pub issue_capability : (suite_id execution_id : String) → CaseId → String → ℕ → String
  unfolding payload_fields sorted compact
  issue_capability suite_id execution_id case_id nonce issued_at =
      let body = compact (
        sorted (
          obj (payload_fields suite_id execution_id case_id nonce (issued_at + capability_ttl)))) in
      library.encode body ++ "." ++ sign (library.encode body)

  -- `verify_capability`. A body that is not a dictionary, which is never signed, is refused at once.
  unfoldable pub verify_capability : String → ℕ → Checked Fields
  unfolding split_dot get has_exactly is_ascii
  verify_capability token now = do
    (encoded, signature) ← or_raise (split_dot token) (refused 401)
    guard (is_ascii signature) type_error
    guard (signature == sign encoded) (refused 401)
    body ← or_raise (library.decode encoded) (refused 401)
    payload ← or_raise (library.loads body) (refused 401)
    fs ← or_raise (as_dict payload) (refused 401)
    guard
        (has_exactly ("v" ∷ "suite_id" ∷ "execution_id" ∷ "case_id" ∷ "nonce" ∷ "expires_at" ∷ [])
          fs)
        (refused 401)
    v ← or_raise (get "v" fs) (refused 401)
    guard (is_one v) (refused 401)
    c ← or_raise (get "case_id" fs) (refused 401)
    guard (is_case c) (refused 401)
    x ← or_raise (get "expires_at" fs) (refused 401)
    expires_at ← or_raise (as_seconds x) (refused 401)
    guard (ltb now (expires_at * 1000000)) (refused 401)
    ok fs
