-- ===== src/Sink.antt =====
-- llm-security-control-plane/guided-labs/h09-delivery-sink/server.py: the sink of the guided lab H09,
-- which records one delivery for a capability until its case or its suite is closed.
mod Rows
mod Tokens
mod Service
mod Closing
mod Sealed
mod Deliveries
mod Next
mod Runs
mod Tests
