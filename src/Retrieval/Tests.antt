-- ===== src/Retrieval/Tests.antt =====
-- The policy of application-policy.yaml in llm-security-control-plane/policies, a retrieval within it,
-- and a revoked access token.
use owasp_llm_lab_setup_guid.Base.{
  ◌≡◌, refl, Bool, true, false, none, some, String, List, [], ◌∷◌, Table, lookup, any, text_in,
  Option, ok, subst, is_ok, arith,
}
use owasp_llm_lab_setup_guid.Auth.Rows.{Claims, Jwt, Service, valid}
use owasp_llm_lab_setup_guid.Auth.Operations.{Tokens, decode_claims}
use owasp_llm_lab_setup_guid.Auth.Rotation.{Request, logging_in, run}
use owasp_llm_lab_setup_guid.Retrieval.Policy.{
  Principal, Classification, Selection, authenticate, authorize_retrieval, after_space, shares,
}
use owasp_llm_lab_setup_guid.Retrieval.Guarantees.{
  IsPermitted, authorize_retrieval-IsPermitted, authorize_wider, Widens, Within,
  authenticate_revoked,
}

abbrev policy : Table Classification
policy =
    (
      "public",
      record {
        required_roles = some ("public_reader" ∷ "internal_analyst" ∷ "support_agent" ∷ []);
        allowed_purposes =
            some ("public_information" ∷ "incident_response" ∷ "customer_support" ∷ []);
      },
    )
    ∷ (
      "internal",
      record {
        required_roles = some ("internal_analyst" ∷ "support_agent" ∷ []);
        allowed_purposes = some ("incident_response" ∷ "customer_support" ∷ []);
      },
    )
    ∷ (
      "restricted",
      record {
        required_roles = some ("support_agent" ∷ []);
        allowed_purposes = some ("customer_support" ∷ []);
      },
    )
    ∷ ("prohibited", record { required_roles = none; allowed_purposes = none })
    ∷ []

abbrev analyst : Principal
analyst = record {
  subject = "internal-analyst";
  roles = "internal_analyst" ∷ [];
  allowed_classifications = "public" ∷ "internal" ∷ [];
  allowed_purposes = "public_information" ∷ "incident_response" ∷ [];
}

abbrev selection : Selection
selection = record {
  classification = "internal";
  purpose = "incident_response";
  allowed_source_suffixes = "/restricted-incident.md" ∷ [];
  exact_value_required = false;
}

authorize_retrieval-IsPermitted_example :
    IsPermitted policy analyst "internal" "incident_response" selection
unfolding authorize_retrieval lookup text_in shares any
authorize_retrieval-IsPermitted_example =
    authorize_retrieval-IsPermitted policy analyst "internal" "incident_response" selection refl

abbrev lead : Principal
lead = record analyst { roles = "support_agent" ∷ "internal_analyst" ∷ [] }

abbrev wider_entry : Classification
wider_entry = record {
  required_roles = some ("auditor" ∷ "support_agent" ∷ "internal_analyst" ∷ []);
  allowed_purposes = some ("customer_support" ∷ "audit" ∷ "incident_response" ∷ []);
}

abbrev WiderThan : Option Classification → Type 0
WiderThan none = Unit
WiderThan (some entry) =
    (entry' : Classification) × (some wider_entry ≡ some entry')
    × Within entry.required_roles entry'.required_roles
    × Within entry.allowed_purposes entry'.allowed_purposes

abbrev wider_policy : Table Classification
wider_policy = ("internal", wider_entry) ∷ []

more_roles : (r : String) → text_in r analyst.roles ≡ true → text_in r lead.roles ≡ true
unfolding text_in
more_roles r h = ground arith

policy-Widens : Widens "internal" policy wider_policy
unfolding lookup text_in
policy-Widens entry h =
    subst WiderThan h (wider_entry, refl, λ r h1. ground arith, λ r h1. ground arith)

authorize_wider_example :
    authorize_retrieval wider_policy lead "internal" "incident_response" ≡ ok (some selection)
unfolding authorize_retrieval lookup text_in shares any
authorize_wider_example =
    authorize_wider policy wider_policy analyst lead "internal" "incident_response" selection refl
      more_roles policy-Widens

abbrev claims : Claims
claims = record {
  iss = "i";
  aud = "a";
  sub = "alice";
  iat = 0;
  nbf = 0;
  exp = 100;
  jti = "a1";
  typ = "access";
  roles = [];
  allowed_classifications = [];
  allowed_purposes = [];
}

abbrev jwt : Jwt
jwt = record {
  header = λ token. some (some "RS256", some "k");
  has_key = λ kid. true;
  decode = λ token kid t. valid claims;
  encode = λ c. c.jti;
}

abbrev service : Service
service = record { issuer = "i"; audience = "a"; access_ttl = 300; refresh_ttl = 1800; users = [] }

abbrev verify : String → String → Bool
verify encoded candidate = true

abbrev revoked_table : Tokens
revoked_table =
    (
      "a1",
      record {
        token_type = "access";
        subject = "alice";
        expires_at = 310;
        revoked_at = some 20;
        replaced_by = none;
      },
    )
    ∷ []

abbrev script : List Request
script = logging_in "alice" "pw" "a2" "r2" 25 ∷ []

authenticate_revoked_example :
    is_ok (
      authenticate service jwt true
        (some "Bearer abc")
        30
        (run service jwt verify script revoked_table))
    ≡ false
unfolding lookup decode_claims after_space
authenticate_revoked_example =
    authenticate_revoked service jwt verify "a1" 20 revoked_table (_, refl, refl) script true
      (some "Bearer abc") 30 claims refl refl refl
