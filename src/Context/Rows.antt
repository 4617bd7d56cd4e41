-- ===== src/Context/Rows.antt =====
-- The tables of `ContextStore`, and the rows of a key.
use owasp_llm_lab_setup_guid.Base.{
  ℕ, Bool, true, false, ◌&&◌, String, Option, List, [], ◌==◌, Table, Result,
}

-- `ContextError(status)`, or the `ValueError` of a text that is no UUID, which nothing catches.
pub data Error : Type 0 where
  refused : ℕ → Error
  value_error : Error

abbrev pub Checked {ℓ} : Type ℓ → Type ℓ
Checked A = Result Error A

pub data Stage : Type 0 where
  authenticate authorize retrieval : Stage

abbrev pub same_stage : Stage → Stage → Bool
same_stage authenticate authenticate = true
same_stage authenticate authorize = false
same_stage authenticate retrieval = false
same_stage authorize authenticate = false
same_stage authorize authorize = true
same_stage authorize retrieval = false
same_stage retrieval authenticate = false
same_stage retrieval authorize = false
same_stage retrieval retrieval = true

-- A suite; the key is suite_id.
pub record Suite : Type 0 where
  pub created : ℕ
  pub closed : Option ℕ
  pub source_digest : String

pub record Execution : Type 0 where
  pub suite_id : String
  pub execution_id : String
  pub subject : Option String
  pub tenant : Option String
  pub authorized : Bool

pub record Identity : Type 0 where
  pub suite_id : String
  pub token_digest : String
  pub subject : String
  pub tenant : String
  pub can_read : Bool

pub record Document : Type 0 where
  pub suite_id : String
  pub document_id : String
  pub tenant : String
  pub text : String

-- A hit of the evidence of a retrieval.
pub record Hit : Type 0 where
  pub document_id : String
  pub tenant : String
  pub text_digest : String

-- The fields of the evidence of a call that its other columns do not give.
pub data Evidence : Type 0 where
  authentication : Option String → Evidence
  authorization : (allowed : Bool) → Option String → (requested_tenant : String) → Evidence
  retrieved :
      (query_executed : Bool)
      → Option String
      → List Hit
      → (output_digest : String) → (output_bytes : ℕ) → Evidence
  authorization_denied : Evidence

-- The column `state`.
pub data State : Type 0 where
  pending completed rejected error : State

pub record Call : Type 0 where
  pub suite_id : String
  pub execution_id : String
  pub stage : Stage
  pub started : ℕ
  pub finished : Option ℕ
  pub state : State
  pub input_digest : String
  pub evidence : Option Evidence

pub record Store : Type 0 where
  pub suites : Table Suite
  pub executions : List Execution
  pub identities : List Identity
  pub documents : List Document
  pub calls : List Call

abbrev pub empty : Store
empty = record { suites = []; executions = []; identities = []; documents = []; calls = [] }

-- The primary keys of executions and of identities.
abbrev pub is_execution : String → String → Execution → Bool
is_execution suite_id id e = e.suite_id == suite_id && e.execution_id == id

abbrev pub is_identity : String → String → Identity → Bool
is_identity suite_id token_digest i = i.suite_id == suite_id && i.token_digest == token_digest

-- The primary key of calls.
abbrev pub is_call : String → String → Stage → Call → Bool
is_call suite_id id stage c =
    c.suite_id == suite_id && c.execution_id == id && same_stage c.stage stage
