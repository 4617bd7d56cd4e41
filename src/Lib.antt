-- ===== src/Lib.antt =====
-- The stores and decisions of the guarded control plane in llm-security-control-plane, of its guided
-- labs and of the runtime approval in examples: which call of a provider, which capability, which
-- token, which action and which retrieval is admitted, and what is recorded.
--
-- Parts, and the files that model them:
--   Guardrail   guided-bedrock-gateway/p04_ledger.py and p04_contract.py (`GuardrailLedger`). An
--               execution is registered, reserves one call, dispatches it, is audited around the
--               dispatch, finishes and closes. Contract has `expected_arguments` and
--               `validate_invocation`; Rows the tables; Operations and Audit the methods; Invariant
--               and Lifecycle say what a ledger and one step of an execution may be; Effects,
--               Admission and Preserve treat each method; Runs every history.
--   Search      guided-bedrock-gateway/p03_ledger.py (`SearchLedger`): the same life with several
--               calls for an execution; their sequence is in Lanes and Order, their repetition in Once.
--   Document    guided-bedrock-gateway/p02_ledger.py (`DocumentLedger`): the life of P03 with the two
--               operations that store and embed a document.
--   Capability  guided-bedrock-gateway/p12_capabilities.py (`CapabilityStore`): one-use grants, in
--               suites that close. Completion has the tests of a provider's evidence, Issued what an
--               issue hands out.
--   Auth        application-gateway/auth.py (`AuthService`): logins, verification, the rotation of
--               refresh tokens and revocation, over the table of tokens.
--   Retrieval   application-gateway/policy.py: the bearer test, which asks Auth, and the choice of a
--               store by role, classification and purpose.
--   Delivery    application-gateway/audit_delivery.py (`AuditDelivery`): the bounded queue of audit
--               events and the worker that delivers them. Accounts and Conservation follow the events
--               between enqueue and acknowledgement, Drain the worker.
--   Versions    guardrail-proxy/policy_store.py (`PolicyStore`): drafts of the guardrail policy, their
--               tests, the promotion of a version and the rollback to one that was active.
--   Quota       bedrock-gateway/gateway_operations.py (`GatewayOperations`): the policy of the clients
--               and the admissions within their budgets. Policy reads the document, Rows has the sums
--               of a window, Operations the methods; Budget and Runs follow the limits.
--   Approval    examples/runtime-security/approval.py (`ApprovalStore`): a proposal, its review by
--               another person and its one execution. Evidence and Review follow the requests behind
--               each row, Once the executions.
--   Actions     guided-labs/h06-action-provider/provider.py: suites, signed capabilities, the actions
--               on an account and their effects. Tokens has the capabilities, Provider and Execution
--               the endpoints, Balance the accounts, Runs and Once the histories.
--   Context     guided-labs/h12-protected-services/context_store.py (`ContextStore`): authentication,
--               authorization and retrieval, each a call in two transactions. Register, Stages and
--               Perform have the methods; Steps makes each committed transaction a step of a relation,
--               so that other threads may come between the two; Granted, Preserve, Updates, Ending,
--               Reachable and Presented follow what is granted, Once the stages that were begun.
--   Sink        guided-labs/h09-delivery-sink/server.py: suites, capabilities for one delivery each, and
--               the closes of cases and suites. Sealed, Deliveries, Next and Runs follow the closed cases.
--   Clock, Json, Base  the clock and the argument tests of the ledgers, `json` values and their
--               texts, and tables, rows, exceptions and texts. Retrieval uses Auth; Actions and Sink use
--               the bearer test of Retrieval, and Sink the signed tokens of Actions.
--
-- The model. A database is a record of its tables, a table a list of rows with their key, in the
-- order of insertion; a UNIQUE column is a test before the write. A transaction that raises is
-- rolled back, so a method returns a new state or an error, and the state after an error is the
-- state before; the methods of AuthService write in several transactions and return the state
-- also with an error. A history is a list of requests. The two transactions of `flush_once`, and
-- those of a stage of Context, are separate steps, so that other threads may come between them.
-- Times are whole microseconds (seconds in Auth), and the reading of the clock, a drawn token
-- and a UUID are arguments of the method, so that nothing is assumed of them; a clock that gives
-- no usable number is a reading of its own.
--
-- Fuel is used only to print a number (Json.Print), where n + 1 rounds are enough for the digits of n;
-- every other loop is a structural recursion.
--
-- Parameters. The digest of hashlib, the keyed digest of hmac, `str` of a value and the reading of a
-- UUID are functions of which nothing is assumed; so are PyJWT, with the one hypothesis where it is
-- named that a token has the same claims at all times, the password test, the answers of the collector,
-- the policy document and what `load_bundle` finds, base64, the decoding of JSON and of ISO times, and
-- the full-text search of SQLite.
--
-- Not modelled: the other HTTP servers and adapters, AWS provisioning, key files and JWKS, errors of
-- the database itself, threads but for the steps above, metrics, and the other guided labs and
-- examples.
pub mod Base
pub mod Json
pub mod Clock
pub mod Guardrail
pub mod Capability
pub mod Auth
pub mod Delivery
pub mod Search
pub mod Retrieval
pub mod Versions
pub mod Quota
pub mod Approval
pub mod Actions
pub mod Context
pub mod Sink
pub mod Document
