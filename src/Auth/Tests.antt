-- ===== src/Auth/Tests.antt =====
-- A login, a refresh and its replay, and the theorems at them. A token is its identifier, and PyJWT
-- accepts every token as a refresh token of alice.
use owasp_llm_lab_setup_guid.Base.{
  ◌≡◌, refl, Bool, true, false, none, some, String, List, [], ◌∷◌, is_ok, lookup, append, update,
}
use owasp_llm_lab_setup_guid.Auth.Rows.{User, Claims, Jwt, Service, valid}
use owasp_llm_lab_setup_guid.Auth.Operations.{
  Tokens, decode, refresh, decode_claims, authenticate_password,
}
use owasp_llm_lab_setup_guid.Auth.Rotation.{
  Request, logging_in, refreshing, run, IsSteady, refresh_once, revoked_refused,
}

abbrev alice : User
alice = record {
  password_hash = "h";
  roles = "reader" ∷ [];
  allowed_classifications = [];
  allowed_purposes = [];
}

abbrev claims : String → Claims
claims jti = record {
  iss = "i";
  aud = "a";
  sub = "alice";
  iat = 0;
  nbf = 0;
  exp = 100;
  jti = jti;
  typ = "refresh";
  roles = "reader" ∷ [];
  allowed_classifications = [];
  allowed_purposes = [];
}

abbrev jwt : Jwt
jwt = record {
  header = λ token. some (some "RS256", some "k");
  has_key = λ kid. true;
  decode = λ token kid t. valid (claims token);
  encode = λ c. c.jti;
}

abbrev service : Service
service = record {
  issuer = "i";
  audience = "a";
  access_ttl = 300;
  refresh_ttl = 1800;
  users = ("alice", alice) ∷ [];
}

abbrev verify : String → String → Bool
verify encoded candidate = true

abbrev script : List Request
script = logging_in "alice" "pw" "a1" "r1" 10 ∷ refreshing "r1" "a2" "r2" 20 ∷ []

abbrev after_login : Tokens
after_login =
    (
      "a1",
      record {
        token_type = "access";
        subject = "alice";
        expires_at = 310;
        revoked_at = none;
        replaced_by = none;
      },
    )
    ∷ (
      "r1",
      record {
        token_type = "refresh";
        subject = "alice";
        expires_at = 1810;
        revoked_at = none;
        replaced_by = none;
      },
    )
    ∷ []

after_login_lem :
    run service jwt verify (logging_in "alice" "pw" "a1" "r1" 10 ∷ []) [] ≡ after_login
unfolding run authenticate_password lookup append
after_login_lem = refl

valid_injective : (c d e : Claims) → valid e ≡ valid c → valid e ≡ valid d → c ≡ d
valid_injective c d e h k = cc

jwt-IsSteady : IsSteady jwt
jwt-IsSteady token kid t u c d h k = valid_injective c d (claims token) h k

refresh_once_example :
    let t' = run service jwt verify script (refresh service jwt "r1" "a3" "r3" 30 after_login).1 in
    (is_ok (refresh service jwt "r1" "a4" "r4" 40 t').0 ≡ false)
    × ((refresh service jwt "r1" "a4" "r4" 40 t').1 ≡ t')
unfolding refresh lookup append update
refresh_once_example =
    refresh_once service jwt verify jwt-IsSteady "r1" "a3" "r3" 30 after_login refl script "a4" "r4"
      40

abbrev revoked_table : Tokens
revoked_table =
    (
      "r1",
      record {
        token_type = "refresh";
        subject = "alice";
        expires_at = 1810;
        revoked_at = some 20;
        replaced_by = none;
      },
    )
    ∷ []

revoked_refused_example :
    is_ok (decode service jwt "r1" "refresh" 30 (run service jwt verify script revoked_table))
    ≡ false
unfolding lookup decode_claims
revoked_refused_example =
    revoked_refused service jwt verify "r1" 20 revoked_table (_, refl, refl) script "r1" "refresh"
      30 (claims "r1") refl refl
