-- ===== src/Actions/Tokens.antt =====
-- Action capabilities: what `issue_capability` writes and `verify_capability` accepts. A value of
-- bytes is a text with a character for each byte.
use Prim.Native.Char.{code}
use Prim.Native.String.{◌++◌}
use owasp_llm_lab_setup_guid.Base.{
  ℕ, Bool, false, Option, none, some, String, ◌==◌, leb, nat_eq, is_ascii, Result, ok, err, ◌>>=◌,
  ◌>>◌, guard, or_raise, if◌then◌else◌,
}
use owasp_llm_lab_setup_guid.Json.{
  Json, Fields, null, int, plus, str, obj, end, field, as_str, as_dict, get, compact, sorted,
}
use owasp_llm_lab_setup_guid.Retrieval.Policy.{before_space, after_space, is_bearer}
use owasp_llm_lab_setup_guid.Actions.Rows.{CaseId, ActionId, case_text, action_text}

-- `HTTPException(status)`, or a `TypeError` that nothing catches.
pub data Error : Type 0 where
  refused : ℕ → Error
  type_error : Error

abbrev pub Checked {ℓ} : Type ℓ → Type ℓ
Checked A = Result Error A

-- What `datetime.fromisoformat` returns: microseconds, or a time with no zone.
pub data Instant : Type 0 where
  aware : ℕ → Instant
  naive : Instant

-- The functions of the standard library: base64 with no padding, HMAC-SHA-256 with
-- CAPABILITY_SECRET, the hexadecimal SHA-256, `json.loads` and the ISO text of a time.
pub record Library : Type 0 where
  pub encode : String → String
  pub decode : String → Option String
  pub hmac : String → String
  pub sha256 : String → String
  pub loads : String → Option Json
  pub iso : ℕ → String
  pub from_iso : String → Option Instant

-- `bearer`; `compare_digest` of texts fails on a character that is not ASCII.
unfoldable pub bearer : String → Option String → Checked (Unit {0})
unfolding is_bearer before_space after_space is_ascii
bearer expected authorization = do
  header ← ok (elim authorization [ none ↦ "" | some h ↦ h ])
  guard (is_bearer (before_space header)) (refused 401)
  guard (is_ascii (after_space header)) type_error
  guard (after_space header == expected) (refused 401)

-- The payload of `create_suite`.
pub record Payload : Type 0 where
  pub nonce : String
  pub suite_id : String
  pub execution_id : String
  pub case_id : CaseId
  pub action_id : Option ActionId
  pub expires_at : String

unfoldable pub payload_fields : Payload → Fields
payload_fields p = field "version" (int (plus 1)) (
    field "nonce" (str p.nonce) (
      field "suite_id" (str p.suite_id) (
        field "execution_id" (str p.execution_id) (
          field "case_id" (str (case_text p.case_id)) (
            field "action_id" (elim p.action_id [ none ↦ null | some a ↦ str (action_text a) ])
              (field "expires_at" (str p.expires_at) end))))))

-- `token.split(".", 1)`, where a text with no dot does not give two parts.
unfoldable pub split_dot : String → Option (String × String)
split_dot String.[] = none
split_dot (String.◌∷◌ c s) =
    let rest = split_dot s in
    if nat_eq (code c) b'.'
    then some ("", s)
    else elim rest [ none ↦ none | some (a, b) ↦ some (String.◌∷◌ c a, b) ]

-- `payload.get(key) == value`
unfoldable pub has_text : String → String → Fields → Bool
unfolding get
has_text key value fs = elim (get key fs) [
  | none ↦ false
  | some v ↦ elim (as_str v) [ none ↦ false | some s ↦ s == value ]
]

module _ (library : Library) where
  -- `issue_capability`
  unfoldable pub issue_capability : Payload → String
  unfolding payload_fields sorted compact
  issue_capability p =
      let body = compact (sorted (obj (payload_fields p))) in
      library.encode body ++ "." ++ library.encode (library.hmac body)

  -- `expires_at <= now()`
  unfoldable pub allow_time : Instant → ℕ → Checked (Unit {0})
  allow_time (aware t) now = if leb t now then err (refused 403) else ok tt
  allow_time naive now = err type_error

  -- `verify_capability`
  unfoldable pub verify_capability : String → ℕ → Checked Fields
  unfolding split_dot allow_time get
  verify_capability token now = do
    (encoded_body, encoded_signature) ← or_raise (split_dot token) (refused 403)
    body ← or_raise (library.decode encoded_body) (refused 403)
    signature ← or_raise (library.decode encoded_signature) (refused 403)
    payload ← or_raise (library.loads body) (refused 403)
    guard (signature == library.hmac body) (refused 403)
    fs ← or_raise (as_dict payload) (refused 403)
    v ← or_raise (get "expires_at" fs) (refused 403)
    text ← or_raise (as_str v) (refused 403)
    t ← or_raise (library.from_iso text) (refused 403)
    allow_time t now
    ok fs
