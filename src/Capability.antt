-- ===== src/Capability.antt =====
-- P12: the one-use capabilities of
-- llm-security-control-plane/guided-bedrock-gateway/p12_capabilities.py.
pub mod Rows
pub mod Operations
pub mod Completion
pub mod Invariant
pub mod Preserve
pub mod Issue
pub mod Grants
pub mod Issued
pub mod Runs
pub mod Guarantees
mod Tests
