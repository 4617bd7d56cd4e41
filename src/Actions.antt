-- ===== src/Actions.antt =====
-- llm-security-control-plane/guided-labs/h06-action-provider/provider.py: the synthetic account
-- provider of the guided lab H06, with action capabilities that are used once.
mod Rows
pub mod Tokens
pub mod Provider
mod Execution
mod Balance
mod Runs
mod Once
mod Tests
