-- ===== src/Document.antt =====
-- llm-security-control-plane/guided-bedrock-gateway/p02_ledger.py: `DocumentLedger`, the life of an
-- execution that stores a source and embeds it.
mod Rows
mod Operations
mod Once
mod Guarantees
mod Tests
