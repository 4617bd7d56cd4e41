-- ===== src/Context.antt =====
-- llm-security-control-plane/guided-labs/h12-protected-services/context_store.py: `ContextStore`,
-- the synthetic identities, authorization and retrieval of the guided lab H12.
mod Rows
mod Register
mod Stages
mod Perform
mod Steps
mod Granted
mod Preserve
mod Updates
mod Ending
mod Reachable
mod Presented
mod Once
mod Tests
