-- ===== src/Approval.antt =====
-- Actions that need the approval of another person: `ApprovalStore` of
-- examples/runtime-security/approval.py.
pub mod Store
pub mod Evidence
pub mod Review
pub mod Once
pub mod Tests
