-- ===== src/Quota/Operations.antt =====
-- The operations of `GatewayOperations`. `sha256` is the hexadecimal digest of hashlib; a reading of
-- the clock, in whole seconds, and the identifier that `uuid4` returns are arguments.
use Prim.Native.Char.{code}
use owasp_llm_lab_setup_guid.Base.{
  ℕ, ◌+◌, ◌*◌, ◌/◌, ◌&&◌, Option, none, some, String, [], ◌∷◌, ◌==◌, Table, lookup, append, text_in,
  len, is_none, leb, ltb, nat_eq, Result, ok, ◌>>=◌, ◌>>◌, guard, or_raise, if◌then◌else◌,
}
use owasp_llm_lab_setup_guid.Quota.Policy.{Client, Policy}
use owasp_llm_lab_setup_guid.Quota.Rows.{
  pending, complete, uncertain, Admission, is_pending, Usage, usage_in, update_row,
}

-- `PolicyDenied(reason, status)`, a `ValueError`, and the errors of a dictionary and of the database.
pub data Error : Type 0 where
  denied : String → ℕ → Error
  invalid : String → Error
  key_error : Error
  integrity_error : Error

abbrev pub Admissions : Type 0
Admissions = Table Admission

-- `model.partition("#")[0]`
unfoldable pub before_hash : String → String
before_hash String.[] = ""
before_hash (String.◌∷◌ c s) =
    let rest = before_hash s in if nat_eq (code c) b'#' then "" else String.◌∷◌ c rest

-- The last client with the digest, as the loop of `authenticate` finds it.
unfoldable pub find_client : String → Option String → Table Client → Option String
find_client digest match [] = match
find_client digest match ((principal, c) ∷ t) =
    find_client digest (if digest == c.credential_sha256 then some principal else match) t

-- `authenticate`
unfoldable pub authenticate : (String → String) → Policy → String → Result Error String
unfolding find_client
authenticate sha256 policy token =
    or_raise (find_client (sha256 token) none policy.clients) (denied "invalid-credential" 401)

-- `_window`
abbrev pub window_of : Policy → ℕ → ℕ
window_of policy now = now / policy.period

-- The row of `INSERT INTO admissions`.
abbrev pub new_admission : String → ℕ → ℕ → Admission
new_admission principal window max_tokens = record {
  principal = principal;
  window = window;
  reserved = max_tokens;
  input_tokens = none;
  output_tokens = none;
  outcome = pending;
}

-- `admit`
unfoldable pub admit :
    Policy
    → (principal model text : String) → ℕ
    → ℕ
    → String
    → Admissions
    → Result Error (String × Admissions)
unfolding before_hash usage_in
admit policy principal model text max_tokens now reservation t = do
  client ← or_raise (lookup principal policy.clients) key_error
  guard (text_in (before_hash model) client.models) (denied "model-not-allowed" 403)
  guard (leb (len text) client.max_input_bytes) (denied "input-byte-limit" 413)
  guard (leb 1 max_tokens && leb max_tokens client.max_output_tokens)
      (denied "output-request-limit" 422)
  guard (ltb (usage_in principal (window_of policy now) t).requests client.requests)
      (denied "request-quota" 429)
  guard
      (leb ((usage_in principal (window_of policy now) t).output_committed + max_tokens)
        client.output_tokens)
      (denied "output-token-quota" 429)
  guard (is_none (lookup reservation t)) integrity_error
  ok (reservation, append reservation (new_admission principal (window_of policy now) max_tokens) t)

-- The columns that `settle` writes.
abbrev pub settled : ℕ → ℕ → Admission → Admission
settled input output r = record r {
  input_tokens = some input;
  output_tokens = some output;
  outcome = complete;
}

-- `settle`, with numbers that are not negative.
unfoldable pub settle : String → ℕ → ℕ → Admissions → Result Error (Unit {0} × Admissions)
unfolding update_row
settle reservation input output t = do
  r ← or_raise (lookup reservation t) (invalid "reservation absent or already finalized")
  guard (is_pending r.outcome) (invalid "reservation absent or already finalized")
  guard (leb output r.reserved) (invalid "provider exceeded reserved output ceiling")
  ok (tt, update_row reservation (settled input output) t)

-- The columns that `uncertain` writes, where its row is pending.
abbrev pub made_uncertain : Admission → Admission
made_uncertain r = if is_pending r.outcome then record r { outcome = uncertain } else r

-- `uncertain`
unfoldable pub mark_uncertain : String → Admissions → Admissions
unfolding update_row
mark_uncertain reservation t = update_row reservation made_uncertain t

-- What `usage` returns of its result that is not the policy.
pub record Report : Type 0 where
  pub principal : String
  pub window_seconds : ℕ
  pub window_start : ℕ
  pub limits : Client
  pub used : Usage

-- `usage`
unfoldable pub usage : Policy → String → ℕ → Admissions → Result Error Report
unfolding usage_in
usage policy principal now t = do
  client ← or_raise (lookup principal policy.clients) key_error
  ok (record {
    principal = principal;
    window_seconds = policy.period;
    window_start = window_of policy now * policy.period;
    limits = client;
    used = usage_in principal (window_of policy now) t;
  })
