-- ===== src/Auth.antt =====
-- The token service of llm-security-control-plane/application-gateway/auth.py.
pub mod Rows
pub mod Operations
pub mod Revocation
pub mod Rotation
mod Tests
