-- ===== src/Clock.antt =====
-- The clock and the argument tests that the execution ledgers of
-- llm-security-control-plane/guided-bedrock-gateway share: `stamp`, `identifier` and `digest`.
-- Times are whole numbers of microseconds.
use owasp_llm_lab_setup_guid.Base.{
  ℕ, ◌+◌, ◌*◌, Bool, ◌&&◌, String, Result, ok, err, guard, or_raise, ◌>>=◌, ◌>>◌, ltb, leb,
  if◌then◌else◌, is_sha256_hex, is_uuid, is_ascii, codes, length,
}
use owasp_llm_lab_setup_guid.Json.{Json, as_str}

-- `LedgerError(status)`, or a `TypeError` that nothing catches.
pub data Error : Type 0 where
  refused : ℕ → Error
  type_error : Error

abbrev pub Checked {ℓ} : Type ℓ → Type ℓ
Checked A = Result Error A

-- What `now()` returns: `unusable` is a value that is no finite `int` or `float`, or is negative.
pub data Reading : Type 0 where
  at : ℕ → Reading
  unusable : Reading

abbrev pub seconds : ℕ → ℕ
seconds n = n * 1000000

-- The 180 seconds in which an execution accepts work.
abbrev pub window : ℕ
window = seconds 180

-- `stamp`
abbrev pub stamp : Reading → Checked ℕ
stamp (at t) = if ltb 0 t then ok t else err (refused 409)
stamp unusable = err (refused 409)

-- `0 <= stamp - started < 180`
abbrev pub within_window : ℕ → ℕ → Bool
within_window started t = leb started t && ltb t (started + window)

-- `identifier`
unfoldable pub identifier : Json → Checked String
identifier v = do s ← or_raise (as_str v) (refused 422); guard (is_uuid s) (refused 422); ok s

-- `digest`
unfoldable pub digest : Json → Checked String
digest v = do s ← or_raise (as_str v) (refused 422); guard (is_sha256_hex s) (refused 422); ok s

-- `isinstance(token, str) and token.isascii() and 40 <= len(token) <= 256`
unfoldable pub checked_token : Json → Checked String
checked_token v = do
  s ← or_raise (as_str v) (refused 401)
  guard (is_ascii s && leb 40 (length (codes s)) && leb (length (codes s)) 256) (refused 401)
  ok s
