-- ===== src/Retrieval/Policy.antt =====
-- llm-security-control-plane/application-gateway/policy.py: `authenticate` and
-- `authorize_retrieval`. A frozenset is a list of its texts. The policy document is a parameter.
use Prim.Native.Char.{code}
use owasp_llm_lab_setup_guid.Base.{
  ℕ, ◌+◌, Bool, true, false, ◌&&◌, not, Option, none, some, String, List, [], ◌∷◌, ◌==◌, Table,
  lookup, codes, map, any, text_in, leb, nat_eq, Result, ok, err, ◌>>=◌, ◌>>◌, guard, or_raise,
  if◌then◌else◌,
}
use owasp_llm_lab_setup_guid.Auth.Rows.{Claims, Error, Jwt, Service}
use owasp_llm_lab_setup_guid.Auth.Operations.{Tokens, verify_access}

pub record Principal : Type 0 where
  pub subject : String
  pub roles : List String
  pub allowed_classifications : List String
  pub allowed_purposes : List String

-- `PRINCIPALS`
abbrev pub principals : Table Principal
principals =
    (
      "hub-public-reader-token",
      record {
        subject = "public-reader";
        roles = "public_reader" ∷ [];
        allowed_classifications = "public" ∷ [];
        allowed_purposes = "public_information" ∷ [];
      },
    )
    ∷ (
      "hub-internal-analyst-token",
      record {
        subject = "internal-analyst";
        roles = "internal_analyst" ∷ [];
        allowed_classifications = "public" ∷ "internal" ∷ [];
        allowed_purposes = "public_information" ∷ "incident_response" ∷ [];
      },
    )
    ∷ (
      "hub-support-agent-token",
      record {
        subject = "support-agent";
        roles = "support_agent" ∷ [];
        allowed_classifications = "public" ∷ "internal" ∷ "restricted" ∷ [];
        allowed_purposes = "public_information" ∷ "incident_response" ∷ "customer_support" ∷ [];
      },
    )
    ∷ []

pub record RagStore : Type 0 where
  pub purpose : String
  pub exact_value_required : Bool
  pub allowed_source_suffixes : List String

-- `RAG_STORES`
abbrev pub rag_stores : Table RagStore
rag_stores =
    (
      "public",
      record {
        purpose = "public_information";
        exact_value_required = true;
        allowed_source_suffixes = "/public-support.md" ∷ [];
      },
    )
    ∷ (
      "internal",
      record {
        purpose = "incident_response";
        exact_value_required = false;
        allowed_source_suffixes = "/restricted-incident.md" ∷ [];
      },
    )
    ∷ (
      "restricted",
      record {
        purpose = "customer_support";
        exact_value_required = true;
        allowed_source_suffixes = "/restricted-incident.md" ∷ [];
      },
    )
    ∷ []

-- `s.partition(" ")`: the text before the first space.
unfoldable pub before_space : String → String
before_space String.[] = ""
before_space (String.◌∷◌ c s) =
    let rest = before_space s in if nat_eq (code c) 32 then "" else String.◌∷◌ c rest

-- The text after it.
unfoldable pub after_space : String → String
after_space String.[] = ""
after_space (String.◌∷◌ c s) = let rest = after_space s in if nat_eq (code c) 32 then s else rest

-- `str.lower` on the letters A to Z.
abbrev lower : ℕ → ℕ
lower c = if leb b'A' c && leb c b'Z' then c + 32 else c

same_codes : List ℕ → List ℕ → Bool
same_codes [] [] = true
same_codes [] (d ∷ ds) = false
same_codes (c ∷ cs) [] = false
same_codes (c ∷ cs) (d ∷ ds) = nat_eq c d && same_codes cs ds

-- `scheme.lower() == "bearer"`; no letter but A to Z has one of its letters as its lower case.
unfoldable pub is_bearer : String → Bool
unfolding same_codes
is_bearer scheme = same_codes (map lower (codes scheme)) (codes "bearer")

-- The failures of `authenticate`.
pub data Failure : Type 0 where
  no_bearer : Failure
  denied : Error → Failure

-- `authorization or ""`
abbrev pub header_text : Option String → String
header_text none = ""
header_text (some s) = s

abbrev pub principal_of : Claims → Principal
principal_of c = record {
  subject = c.sub;
  roles = c.roles;
  allowed_classifications = c.allowed_classifications;
  allowed_purposes = c.allowed_purposes;
}

-- `auth_service.verify_access` with its errors, and the principal of the claims.
abbrev pub verified : Result Error Claims → Result Failure Principal
verified (ok c) = ok (principal_of c)
verified (err e) = err (denied e)

-- `authenticate`, after the token was read.
unfoldable pub resolve : Service → Jwt → Bool → String → ℕ → Tokens → Result Failure Principal
unfolding verify_access
resolve service jwt legacy_static_tokens token now tokens = elim (lookup token principals) [
  | none ↦ verified (verify_access service jwt token now tokens)
  | some p ↦
      if legacy_static_tokens then ok p else verified (verify_access service jwt token now tokens)
]

-- `authenticate`
unfoldable pub authenticate :
    Service → Jwt → Bool → Option String → ℕ → Tokens → Result Failure Principal
unfolding before_space after_space is_bearer resolve
authenticate service jwt legacy_static_tokens authorization now tokens = do
  guard (is_bearer (before_space (header_text authorization))) no_bearer
  guard (not (after_space (header_text authorization) == "")) no_bearer
  resolve service jwt legacy_static_tokens (after_space (header_text authorization)) now tokens

-- An entry of `POLICY["classifications"]`; a key that the entry has not is None.
pub record Classification : Type 0 where
  pub required_roles : Option (List String)
  pub allowed_purposes : Option (List String)

pub data Refusal : Type 0 where
  classification_not_authorized : Refusal
  purpose_not_authorized : Refusal
  -- `KeyError` of a classification without a store, or of an entry without a key.
  key_error : Refusal
  purpose_does_not_match : Refusal

pub record Selection : Type 0 where
  pub classification : String
  pub purpose : String
  pub allowed_source_suffixes : List String
  pub exact_value_required : Bool

-- `set(roles) & set(required)`
unfoldable pub shares : List String → List String → Bool
unfolding any text_in
shares roles required = any (λ r. text_in r required) roles

-- `authorize_retrieval` of a classification that is not "none".
unfoldable pub select_store :
    Table Classification → Principal → String → String → Result Refusal Selection
unfolding shares
select_store policy principal classification purpose = do
  entry ← or_raise (lookup classification policy) classification_not_authorized
  required ← or_raise entry.required_roles key_error
  guard (shares principal.roles required) classification_not_authorized
  purposes ← or_raise entry.allowed_purposes key_error
  guard (text_in purpose purposes) purpose_not_authorized
  store ← or_raise (lookup classification rag_stores) key_error
  guard (purpose == store.purpose) purpose_does_not_match
  ok (record {
    classification = classification;
    purpose = purpose;
    allowed_source_suffixes = store.allowed_source_suffixes;
    exact_value_required = store.exact_value_required;
  })

-- `authorize_retrieval`
unfoldable pub authorize_retrieval :
    Table Classification → Principal → String → String → Result Refusal (Option Selection)
unfolding select_store
authorize_retrieval policy principal classification purpose =
    if classification == "none"
    then ok none
    else (do selection ← select_store policy principal classification purpose; ok (some selection))
