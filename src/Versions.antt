-- ===== src/Versions.antt =====
-- The versions of the guardrail policy: `PolicyStore` of
-- llm-security-control-plane/guardrail-proxy/policy_store.py.
pub mod Store
pub mod Activation
pub mod Promotion
pub mod Tests
