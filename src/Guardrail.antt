-- ===== src/Guardrail.antt =====
-- P04: the guardrail practice of llm-security-control-plane/guided-bedrock-gateway, from
-- p04_contract.py and p04_ledger.py.
pub mod Contract
pub mod Rows
pub mod Operations
pub mod Audit
pub mod Invariant
pub mod Lifecycle
pub mod Effects
pub mod Admission
pub mod Preserve
pub mod Runs
pub mod Guarantees
mod Tests
