-- ===== src/Delivery.antt =====
-- `AuditDelivery` of llm-security-control-plane/application-gateway/audit_delivery.py: the bounded
-- queue of audit events and their delivery to the collector.
pub mod Event
pub mod Rows
pub mod Accounts
pub mod Queue
pub mod Conservation
pub mod Drain
pub mod Tests
