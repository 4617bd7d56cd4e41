-- ===== src/Guardrail/Rows.antt =====
-- The tables of `GuardrailLedger`. The rows of p04_policy_audits are held by their phase.
use owasp_llm_lab_setup_guid.Base.{ℕ, String, Option, [], Table}

pub data State : Type 0 where
  pending complete error : State

-- p04_executions; the key is execution_id.
pub record Execution : Type 0 where
  pub suite_id : String
  pub source_digest : String
  pub runner_digest : String
  pub resource_digest : String
  pub provider_mode : String
  pub body_json : String
  pub guardrail_json : String
  pub capability_hash : String
  pub started_at : ℕ
  pub closed_at : Option ℕ

-- p04_calls; the key is execution_id.
pub record Call : Type 0 where
  pub operation : String
  pub request_json : String
  pub request_digest : String
  pub state : State
  pub started_at : ℕ
  pub dispatched_at : Option ℕ
  pub finished_at : Option ℕ
  pub response_json : Option String
  pub observation_id : Option String
  pub provider_request_id : Option String

pub data Phase : Type 0 where
  before after : Phase

-- p04_policy_audit_requests; the key is request_id.
pub record AuditRequest : Type 0 where
  pub execution_id : String
  pub phase : Phase

pub record Ledger : Type 0 where
  pub executions : Table Execution
  pub calls : Table Call
  -- The receipts of p04_policy_audits with phase='before', by execution_id.
  pub before_audits : Table String
  -- Those with phase='after'.
  pub after_audits : Table String
  pub audit_requests : Table AuditRequest

abbrev pub empty : Ledger
empty = record {
  executions = [];
  calls = [];
  before_audits = [];
  after_audits = [];
  audit_requests = [];
}
