-- ===== src/Quota.antt =====
-- The admission of model calls by credential and budget: `GatewayOperations` of
-- llm-security-control-plane/bedrock-gateway/gateway_operations.py.
pub mod Policy
pub mod Rows
pub mod Operations
pub mod Budget
pub mod Runs
pub mod Tests
