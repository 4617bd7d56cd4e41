-- ===== src/Auth/Operations.antt =====
-- The operations of `AuthService`. An operation writes in several transactions, so its result
-- comes with the table that it leaves, also where it raises.
use Prim.Native.String.{compare}
use text.Mathlib.Text.{is_lt}
use owasp_llm_lab_setup_guid.Base.{
  ℕ, ◌+◌, Bool, true, false, ◌&&◌, not, Option, none, some, String, ◌==◌, List, [], ◌∷◌, Result, ok,
  err, guard, or_raise, ◌>>=◌, ◌>>◌, if◌then◌else◌, is_none, lookup, append, update, Table,
}
use owasp_llm_lab_setup_guid.Auth.Rows.{
  User, Claims, Token, Error, invalid_credentials, invalid_signing_header, unknown_signing_key,
  token_expired, token_validation_failed, wrong_token_type, principal_policy_mismatch,
  unknown_token_jti, token_revoked, token_replay, key_error, integrity_error, valid, expired,
  rejected, Jwt, Service, Pair,
}

abbrev pub Tokens : Type 0
Tokens = Table Token

-- `sorted` over texts.
insert_sorted : String → List String → List String
insert_sorted x [] = x ∷ []
insert_sorted x (y ∷ ys) =
    let rest = insert_sorted x ys in if is_lt (compare y x) then y ∷ rest else x ∷ y ∷ ys

sort : List String → List String
unfolding insert_sorted
sort [] = []
sort (x ∷ xs) = insert_sorted x (sort xs)

same_texts : List String → List String → Bool
same_texts [] [] = true
same_texts [] (y ∷ ys) = false
same_texts (x ∷ xs) [] = false
same_texts (x ∷ xs) (y ∷ ys) = x == y && same_texts xs ys

-- `sorted(a) == sorted(b)`
unfoldable pub same_roles : List String → List String → Bool
unfolding sort same_texts
same_roles a b = same_texts (sort a) (sort b)

-- The header test, the key and `jwt.decode`.
unfoldable pub decode_claims : Jwt → String → ℕ → Result Error Claims
decode_claims jwt token now = do
  (alg, kid) ← or_raise (jwt.header token) token_validation_failed
  a ← or_raise alg invalid_signing_header
  k ← or_raise kid invalid_signing_header
  guard (a == "RS256" && not (k == "")) invalid_signing_header
  guard (jwt.has_key k) unknown_signing_key
  elim (jwt.decode token k now) [
    | valid c ↦ ok c
    | expired ↦ err token_expired
    | rejected ↦ err token_validation_failed
  ]

-- `SELECT revoked_at FROM tokens WHERE jti=? AND token_type=?`
unfoldable pub find_token : String → String → Tokens → Option Token
find_token jti type tokens = elim (lookup jti tokens) [
  | none ↦ none
  | some t ↦ if t.token_type == type then some t else none
]

-- The answer to a token whose row is revoked.
abbrev pub revoked_error : String → Error
revoked_error type = if type == "refresh" then token_replay else token_revoked

-- `_decode`
unfoldable pub decode : Service → Jwt → String → String → ℕ → Tokens → Result Error Claims
unfolding decode_claims find_token same_roles
decode service jwt token type now tokens = do
  c ← decode_claims jwt token now
  guard (c.typ == type) wrong_token_type
  user ← or_raise (lookup c.sub service.users) principal_policy_mismatch
  guard (same_roles c.roles user.roles) principal_policy_mismatch
  row ← or_raise (find_token c.jti type tokens) unknown_token_jti
  guard (is_none row.revoked_at) (revoked_error type)
  ok c

-- `verify_access`
unfoldable pub verify_access : Service → Jwt → String → ℕ → Tokens → Result Error Claims
unfolding decode
verify_access service jwt token now tokens = decode service jwt token "access" now tokens

-- `_claims`
unfoldable pub claims_for :
    Service → User → (subject type : String) → (ttl : ℕ) → (jti : String) → (now : ℕ) → Claims
claims_for service user subject type ttl jti now = record {
  iss = service.issuer;
  aud = service.audience;
  sub = subject;
  iat = now;
  nbf = now;
  exp = now + ttl;
  jti = jti;
  typ = type;
  roles = user.roles;
  allowed_classifications = user.allowed_classifications;
  allowed_purposes = user.allowed_purposes;
}

-- The row of `_record`.
abbrev pub row_of : Claims → Token
row_of c = record {
  token_type = c.typ;
  subject = c.sub;
  expires_at = c.exp;
  revoked_at = none;
  replaced_by = none;
}

-- `_record`
unfoldable pub store : Claims → Tokens → Result Error Tokens
store c tokens = do
  guard (is_none (lookup c.jti tokens)) integrity_error
  ok (append c.jti (row_of c) tokens)

-- The state after an insert that may fail.
abbrev pub kept : Result Error Tokens → Tokens → Tokens
kept (ok t) old = t
kept (err e) old = old

-- The pair that is returned, once both rows are stored.
abbrev pub pair_of : Service → Jwt → Claims → Claims → Pair
pair_of service jwt access refresh = record {
  access_token = jwt.encode access;
  refresh_token = jwt.encode refresh;
  expires_in = service.access_ttl;
  subject = access.sub;
  access_jti = access.jti;
  refresh_jti = refresh.jti;
}

-- The two inserts of `issue_pair`.
unfoldable pub store_pair : Service → Jwt → Claims → Claims → Tokens → Result Error Pair × Tokens
unfolding store
store_pair service jwt access refresh tokens = elim (store access tokens) [
  | err e ↦ (err e, tokens)
  | ok first ↦ elim (store refresh first) [
    | err e ↦ (err e, first)
    | ok second ↦ (ok (pair_of service jwt access refresh), second)
  ]
]

-- `issue_pair`, with the two identifiers that `uuid4` returns.
unfoldable pub issue_pair :
    Service
    → Jwt
    → String
    → (access_jti refresh_jti : String) → ℕ
    → Tokens
    → Result Error Pair × Tokens
unfolding claims_for store_pair
issue_pair service jwt subject access_jti refresh_jti now tokens =
    elim (lookup subject service.users) [
      | none ↦ (err key_error, tokens)
      | some user ↦
          store_pair service jwt
            (claims_for service user subject "access" service.access_ttl access_jti now)
            (claims_for service user subject "refresh" service.refresh_ttl refresh_jti now) tokens
    ]

-- `authenticate_password`; `verify` is `_verify_password`.
unfoldable pub authenticate_password :
    Service
    → Jwt
    → (String → String → Bool)
    → (username password : String) → (access_jti refresh_jti : String) → ℕ
    → Tokens
    → Result Error Pair × Tokens
unfolding issue_pair
authenticate_password service jwt verify username password access_jti refresh_jti now tokens =
    elim (lookup username service.users) [
      | none ↦ (err invalid_credentials, tokens)
      | some user ↦
          if verify user.password_hash password
          then issue_pair service jwt username access_jti refresh_jti now tokens
          else (err invalid_credentials, tokens)
    ]

-- `UPDATE tokens SET revoked_at=? WHERE jti=?`
abbrev pub mark_revoked : String → ℕ → Tokens → Tokens
mark_revoked jti now tokens = update jti (λ t. record t { revoked_at = some now }) tokens

-- `UPDATE tokens SET replaced_by=? WHERE jti=?` after a pair was issued.
abbrev pub mark_replaced : String → Result Error Pair × Tokens → Result Error Pair × Tokens
mark_replaced jti (ok pair, tokens) =
    (ok pair, update jti (λ t. record t { replaced_by = some pair.refresh_jti }) tokens)
mark_replaced jti (err e, tokens) = (err e, tokens)

-- Whether the guarded `UPDATE … AND revoked_at IS NULL` of `refresh` finds its row.
abbrev pub is_unrevoked : Option Token → Bool
is_unrevoked none = false
is_unrevoked (some t) = is_none t.revoked_at

-- `refresh` after its token was decoded.
unfoldable pub rotate :
    Service
    → Jwt
    → Claims
    → (access_jti refresh_jti : String) → ℕ
    → Tokens
    → Result Error Pair × Tokens
unfolding issue_pair
rotate service jwt c access_jti refresh_jti now tokens =
    if is_unrevoked (lookup c.jti tokens)
    then mark_replaced c.jti
        (issue_pair service jwt c.sub access_jti refresh_jti now (mark_revoked c.jti now tokens))
    else (err token_replay, tokens)

-- `refresh`
unfoldable pub refresh :
    Service
    → Jwt
    → String
    → (access_jti refresh_jti : String) → ℕ
    → Tokens
    → Result Error Pair × Tokens
unfolding decode rotate
refresh service jwt token access_jti refresh_jti now tokens =
    elim (decode service jwt token "refresh" now tokens) [
      | err e ↦ (err e, tokens)
      | ok c ↦ rotate service jwt c access_jti refresh_jti now tokens
    ]

-- `revoke`
unfoldable pub revoke : Service → Jwt → String → String → ℕ → Tokens → Result Error Claims × Tokens
unfolding decode
revoke service jwt token type now tokens = elim (decode service jwt token type now tokens) [
  | err e ↦ (err e, tokens)
  | ok c ↦ (ok c, mark_revoked c.jti now tokens)
]
