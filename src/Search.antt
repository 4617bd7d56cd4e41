-- ===== src/Search.antt =====
-- P03: the ledger of search executions, whose calls are keyed by execution and operation.
pub mod Rows
pub mod Operations
pub mod Once
pub mod Guarantees
pub mod Lanes
pub mod Order
pub mod Closing
pub mod Tests
