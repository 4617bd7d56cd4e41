-- ===== src/Document/Rows.antt =====
-- The tables of `DocumentLedger` in llm-security-control-plane/guided-bedrock-gateway/p02_ledger.py,
-- and the rows of p02_calls by execution and operation.
use owasp_llm_lab_setup_guid.Base.{
  ℕ, Bool, ◌&&◌, String, Option, none, some, List, [], ◌∷◌, ◌==◌, Table, if◌then◌else◌,
}
use owasp_llm_lab_setup_guid.Guardrail.Rows.{State}

-- p02_executions; the key is execution_id.
pub record Execution : Type 0 where
  pub suite_id : String
  pub source_digest : String
  pub runner_digest : String
  pub capability_hash : String
  pub started_at : ℕ
  pub closed_at : Option ℕ

-- p02_calls
pub record Call : Type 0 where
  pub execution_id : String
  pub operation : String
  pub sequence : ℕ
  pub request_digest : String
  pub state : State
  pub started_at : ℕ
  pub finished_at : Option ℕ
  pub response_json : Option String
  pub provider_request_id : Option String

pub record Ledger : Type 0 where
  pub executions : Table Execution
  pub calls : List Call
  -- p02_native_grants
  pub native_grants : List String

abbrev pub empty : Ledger
empty = record { executions = []; calls = []; native_grants = [] }

-- The primary key of p02_calls.
abbrev pub has_key : String → String → Call → Bool
has_key id operation c = c.execution_id == id && c.operation == operation

-- `SELECT … WHERE execution_id=?`
unfoldable pub calls_of : String → List Call → List Call
calls_of id [] = []
calls_of id (c ∷ cs) = let rest = calls_of id cs in if c.execution_id == id then c ∷ rest else rest

-- `SELECT … WHERE execution_id=? AND operation=?`
unfoldable pub find_call : String → String → List Call → Option Call
find_call id operation [] = none
find_call id operation (c ∷ cs) =
    let rest = find_call id operation cs in if has_key id operation c then some c else rest

-- `UPDATE … WHERE execution_id=? AND operation=?`, of the one row with the key.
unfoldable pub update_call : String → String → (Call → Call) → List Call → List Call
update_call id operation f [] = []
update_call id operation f (c ∷ cs) =
    let rest = update_call id operation f cs in
    if has_key id operation c then f c ∷ cs else c ∷ rest
