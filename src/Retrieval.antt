-- ===== src/Retrieval.antt =====
-- The bearer test and the retrieval policy of the application gateway, on top of Auth.
pub mod Policy
pub mod Guarantees
pub mod Tests
