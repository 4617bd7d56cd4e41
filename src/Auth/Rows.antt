-- ===== src/Auth/Rows.antt =====
-- The data of `AuthService` in llm-security-control-plane/application-gateway/auth.py, and what it
-- takes from PyJWT. Times are whole seconds.
use owasp_llm_lab_setup_guid.Base.{ℕ, String, Option, List, Table, Bool}

pub record User : Type 0 where
  pub password_hash : String
  pub roles : List String
  pub allowed_classifications : List String
  pub allowed_purposes : List String

pub record Claims : Type 0 where
  pub iss : String
  pub aud : String
  pub sub : String
  pub iat : ℕ
  pub nbf : ℕ
  pub exp : ℕ
  pub jti : String
  pub typ : String
  pub roles : List String
  pub allowed_classifications : List String
  pub allowed_purposes : List String

-- The table tokens; the key is jti.
pub record Token : Type 0 where
  pub token_type : String
  pub subject : String
  pub expires_at : ℕ
  pub revoked_at : Option ℕ
  pub replaced_by : Option String

-- The exceptions by class and message.
pub data Error : Type 0 where
  invalid_credentials : Error
  invalid_signing_header : Error
  unknown_signing_key : Error
  token_expired : Error
  token_validation_failed : Error
  wrong_token_type : Error
  principal_policy_mismatch : Error
  unknown_token_jti : Error
  token_revoked : Error
  token_replay : Error
  -- `KeyError` of a user, and `IntegrityError` of an insert.
  key_error : Error
  integrity_error : Error

-- What `jwt.decode` does with a token: the claims, an expired signature, or another `PyJWTError`.
pub data Decoded : Type 0 where
  valid : Claims → Decoded
  expired : Decoded
  rejected : Decoded

-- The functions of PyJWT and the files of signing keys. A header is the pair of `alg` and `kid`.
pub record Jwt : Type 0 where
  pub header : String → Option (Option String × Option String)
  pub has_key : String → Bool
  pub decode : String → String → ℕ → Decoded
  pub encode : Claims → String

pub record Service : Type 0 where
  pub issuer : String
  pub audience : String
  pub access_ttl : ℕ
  pub refresh_ttl : ℕ
  pub users : Table User

pub record Pair : Type 0 where
  pub access_token : String
  pub refresh_token : String
  pub expires_in : ℕ
  pub subject : String
  pub access_jti : String
  pub refresh_jti : String
