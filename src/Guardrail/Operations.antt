-- ===== src/Guardrail/Operations.antt =====
-- The operations of `GuardrailLedger` in p04_ledger.py. `sha256` is the hexadecimal digest of
-- `hashlib`; tokens and observation identifiers, which the source draws at random, are arguments.
use owasp_llm_lab_setup_guid.Base.{
  ℕ, Bool, true, false, ◌&&◌, not, ◌||◌, Option, none, some, String, ◌==◌, [], ◌∷◌, ok, err, guard,
  or_raise, ◌>>=◌, ◌>>◌, ltb, leb, if◌then◌else◌, is_some, is_none, lookup, append, update, exists,
  exists_other, text_in, codes, length, len,
}
use owasp_llm_lab_setup_guid.Json.{Json, obj, str, field, end, as_str, as_dict, get, canonical}
use owasp_llm_lab_setup_guid.Clock.{
  Checked, refused, type_error, Reading, stamp, within_window, identifier, digest, checked_token,
}
use owasp_llm_lab_setup_guid.Guardrail.Contract.{expected_arguments, operations}
use owasp_llm_lab_setup_guid.Guardrail.Rows.{
  State, pending, complete, error, Execution, Call, Ledger,
}

-- `call["state"] == "pending"`
abbrev pub is_pending : State → Bool
is_pending pending = true
is_pending complete = false
is_pending error = false

abbrev pub same_text? : String → Option String → Bool
same_text? s none = false
same_text? s (some t) = s == t

-- `_execution`
unfoldable pub find_execution : String → Ledger → Checked Execution
find_execution id l = or_raise (lookup id l.executions) (refused 404)

-- The test of `_pending` on the rows that it read.
unfoldable pub accepts_work : Execution → Call → ℕ → Bool
accepts_work e c t =
    is_none e.closed_at && is_pending c.state && within_window e.started_at t && leb c.started_at t

-- `_pending`
unfoldable pub find_pending : String → Reading → Ledger → Checked (Call × ℕ)
unfolding find_execution accepts_work
find_pending id now l = do
  e ← find_execution id l
  t ← stamp now
  c ← or_raise (lookup id l.calls) (refused 409)
  guard (accepts_work e c t) (refused 409)
  ok (c, t)

-- `canonical(value)` within a limit of bytes.
unfoldable pub encoded : Json → ℕ → ℕ → Checked String
encoded v limit status = do
  raw ← or_raise (canonical v) (refused status)
  guard (leb (len raw) limit) (refused status)
  ok raw

pub record Receipt : Type 0 where
  pub suite_id : String
  pub execution_id : String
  pub started_at : ℕ
  pub capability : String

abbrev pub reference_body : Json
reference_body =
    obj (field "operation" (str "apply_guardrail") (field "text" (str "reference") end))

module _ (sha256 : String → String) where
  -- The row of `INSERT INTO p04_executions`.
  abbrev pub new_execution :
      String → String → String → String → String → String → String → String → ℕ → Execution
  new_execution suite source runner resource mode body guardrail token t = record {
    suite_id = suite;
    source_digest = source;
    runner_digest = runner;
    resource_digest = resource;
    provider_mode = mode;
    body_json = body;
    guardrail_json = guardrail;
    capability_hash = sha256 token;
    started_at = t;
    closed_at = none;
  }

  -- `register`, with the token that `secrets.token_urlsafe` returns.
  unfoldable pub register :
      (suite_id execution_id source_digest runner_digest resource_digest : Json)
      → String
      → (body guardrail : Json) → String
      → Reading
      → Ledger
      → Checked (Receipt × Ledger)
  unfolding encoded
  register suite_id execution_id source_digest runner_digest resource_digest mode body guardrail
        token now l =
      do
        suite ← identifier suite_id
        execution ← identifier execution_id
        source ← digest source_digest
        runner ← digest runner_digest
        resource ← digest resource_digest
        guard (text_in mode ("aws" ∷ "contract" ∷ [])) (refused 422)
        guard (is_some (expected_arguments reference_body guardrail)) (refused 422)
        encoded_body ← encoded body 16384 422
        encoded_guardrail ← or_raise (canonical guardrail) (refused 422)
        t ← stamp now
        guard (is_none (lookup execution l.executions)) (refused 409)
        guard (not (exists (λ e. e.capability_hash == sha256 token) l.executions)) (refused 409)
        ok (
          record { suite_id = suite; execution_id = execution; started_at = t; capability = token },
          record l {
            executions =
                append execution
                  (new_execution suite source runner resource mode encoded_body encoded_guardrail
                    token t)
                  l.executions;
          },
        )

  -- `authorize`: the read-only test before a provider is resolved.
  unfoldable pub authorize : Json → String → String → Reading → Ledger → Checked (Unit {0})
  authorize token suite id now l = do
    secret ← checked_token token
    e ← or_raise (lookup id l.executions) (refused 401)
    guard (e.capability_hash == sha256 secret) (refused 401)
    guard (e.suite_id == suite) (refused 403)
    guard (is_none e.closed_at) (refused 409)
    t ← stamp now
    guard (within_window e.started_at t) (refused 409)

  -- The row of `INSERT INTO p04_calls`.
  abbrev pub new_call : String → String → ℕ → Call
  new_call operation raw t = record {
    operation = operation;
    request_json = raw;
    request_digest = sha256 raw;
    state = pending;
    started_at = t;
    dispatched_at = none;
    finished_at = none;
    response_json = none;
    observation_id = none;
    provider_request_id = none;
  }

  -- `reserve`
  unfoldable pub reserve :
      Json → String → String → String → Json → Reading → Ledger → Checked (Unit {0} × Ledger)
  unfolding find_execution encoded
  reserve token suite id operation payload now l = do
    guard (text_in operation operations) (refused 422)
    secret ← checked_token token
    raw ← encoded payload 32768 422
    guard (is_some (as_dict payload)) (refused 422)
    e ← find_execution id l
    guard (e.capability_hash == sha256 secret) (refused 401)
    guard (e.suite_id == suite) (refused 403)
    t ← stamp now
    guard (is_none e.closed_at && within_window e.started_at t) (refused 409)
    guard (is_none (lookup id l.calls)) (refused 409)
    ok (tt, record l { calls = append id (new_call operation raw t) l.calls })

-- `dispatch`
unfoldable pub dispatch : String → Reading → Ledger → Checked (Unit {0} × Ledger)
unfolding find_pending
dispatch id now l = do
  (c, t) ← find_pending id now l
  guard (is_none c.dispatched_at) (refused 409)
  ok (tt, record l { calls = update id (λ r. record r { dispatched_at = some t }) l.calls })

-- `response.get("ResponseMetadata").get("RequestId")`, if it is a text of 1 to 256 characters.
unfoldable pub request_id : Json → Checked String
request_id response = do
  fs ← or_raise (as_dict response) (refused 502)
  m ← or_raise (get "ResponseMetadata" fs) (refused 502)
  metadata ← or_raise (as_dict m) (refused 502)
  v ← or_raise (get "RequestId" metadata) (refused 502)
  id ← or_raise (as_str v) (refused 502)
  guard (leb 1 (length (codes id)) && leb (length (codes id)) 256) (refused 502)
  ok id

-- The text of a response that is given: its first test in `finish`.
unfoldable pub encoded_response : Option Json → Checked (Option String)
unfolding encoded
encoded_response none = ok none
encoded_response (some response) = do
  raw ← encoded response 32768 502
  guard (is_some (as_dict response)) (refused 502)
  ok (some raw)

-- The tests of `finish` against the rows, and the provider's identifier.
unfoldable pub provider_id : Execution → Call → ℕ → Option Json → Checked (Option String)
unfolding request_id
provider_id e c t none = elim c.dispatched_at [
  | none ↦ ok none
  | some d ↦ if ltb t d then err (refused 409) else ok none
]
provider_id e c t (some response) = do
  d ← or_raise c.dispatched_at (refused 409)
  guard (leb d t) (refused 409)
  if e.provider_mode == "aws" then (do id ← request_id response; ok (some id)) else ok none

abbrev outcome : Option Json → State
outcome none = error
outcome (some response) = complete

-- The columns that `finish` writes.
abbrev pub finished : ℕ → Option Json → Option String → String → Option String → Call → Call
finished t response raw observation provider c = record c {
  state = outcome response;
  finished_at = some t;
  response_json = raw;
  observation_id = some observation;
  provider_request_id = provider;
}

abbrev clash : Option String → Call → Bool
clash none c = false
clash (some id) c = same_text? id c.provider_request_id

-- `finish`, with the identifier that `uuid4` returns.
unfoldable pub finish :
    String → Option Json → String → Reading → Ledger → Checked (Unit {0} × Ledger)
unfolding encoded_response find_pending find_execution provider_id
finish id response observation now l = do
  raw ← encoded_response response
  (c, t) ← find_pending id now l
  e ← find_execution id l
  provider ← provider_id e c t response
  guard
      (not (
        exists_other id (λ r. same_text? observation r.observation_id || clash provider r) l.calls))
      (refused 409)
  ok (tt, record l { calls = update id (finished t response raw observation provider) l.calls })

-- The test of `close` on the call of the execution, if there is one.
unfoldable pub allows_close : ℕ → Option Call → Checked (Unit {0})
allows_close t none = ok tt
allows_close t (some c) = if is_pending c.state then err (refused 409) else elim c.finished_at [
  | none ↦ err type_error
  | some f ↦ if ltb t f then err (refused 409) else ok tt
]

-- `close` of an execution that is open.
unfoldable pub close_open : String → Execution → Reading → Ledger → Checked (ℕ × Ledger)
unfolding allows_close
close_open id e now l = do
  t ← stamp now
  guard (leb e.started_at t) (refused 409)
  allows_close t (lookup id l.calls)
  ok (t, record l { executions = update id (λ r. record r { closed_at = some t }) l.executions })

-- `close`: the time at which the execution closed.
unfoldable pub close : String → Reading → Ledger → Checked (ℕ × Ledger)
unfolding find_execution close_open
close id now l = do
  e ← find_execution id l
  elim e.closed_at [ some t ↦ ok (t, l) | none ↦ close_open id e now l ]
