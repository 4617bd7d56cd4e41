-- ===== src/Capability/Rows.antt =====
-- The tables of `CapabilityStore` in
-- llm-security-control-plane/guided-bedrock-gateway/p12_capabilities.py. Times are whole
-- microseconds.
use owasp_llm_lab_setup_guid.Base.{ℕ, String, Option, List, [], ◌∷◌, Table}
use owasp_llm_lab_setup_guid.Json.{Json}

-- The column `state` of p12_grants.
pub data State : Type 0 where
  issued reserved completed error closed_unused : State

pub record Suite : Type 0 where
  pub created : ℕ
  pub closed : Option ℕ

-- p12_grants; the key is token_digest.
pub record Grant : Type 0 where
  pub suite_id : String
  pub execution_id : String
  pub role : String
  pub model : String
  pub issued_at : ℕ
  pub expires : ℕ
  pub state : State
  pub reserved_at : Option ℕ
  pub finished : Option ℕ
  pub request_digest : Option String
  pub evidence : Option Json

pub record Store : Type 0 where
  pub suites : Table Suite
  pub grants : Table Grant
  -- p12_provider_ids: the digest of the token for each provider_request_id.
  pub provider_ids : Table String

abbrev pub empty : Store
empty = record { suites = []; grants = []; provider_ids = [] }

abbrev pub roles : List String
roles = "input_rail" ∷ "retrieval_rail" ∷ "output_rail" ∷ "main" ∷ []
