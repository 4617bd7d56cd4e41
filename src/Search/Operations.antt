-- ===== src/Search/Operations.antt =====
-- The operations of `SearchLedger`. `sha256` is the hexadecimal digest of `hashlib`; tokens are
-- arguments. The tests of identifiers, digests, tokens and the clock are those of Clock.
use owasp_llm_lab_setup_guid.Base.{
  ℕ, suc, Bool, true, false, not, ◌&&◌, ◌||◌, Option, none, some, String, List, [], ◌∷◌, ◌++◌, ◌==◌,
  lookup, append, update, exists, length, codes, all, any, text_in, is_ascii, is_none, ltb, leb,
  nat_eq, len, ok, err, ◌>>=◌, ◌>>◌, guard, or_raise, if◌then◌else◌,
}
use owasp_llm_lab_setup_guid.Json.{Json, Fields, null, as_str, as_dict, get, dumps}
use owasp_llm_lab_setup_guid.Clock.{
  Checked, refused, type_error, Reading, stamp, within_window, identifier, digest, checked_token,
}
use owasp_llm_lab_setup_guid.Guardrail.Rows.{State, pending, complete, error}
use owasp_llm_lab_setup_guid.Guardrail.Operations.{is_pending, same_text?}
use owasp_llm_lab_setup_guid.Search.Rows.{
  Execution, Call, Ledger, has_key, calls_of, find_call, update_call,
}

-- `OPERATIONS`
abbrev pub operations : List String
operations = "job_status" ∷ "retrieve" ∷ []

-- `[A-Za-z0-9-]`
abbrev is_job_char : ℕ → Bool
is_job_char c =
    (leb b'A' c && leb c b'Z')
    || (leb b'a' c && leb c b'z')
    || (leb b'0' c && leb c b'9')
    || nat_eq c b'-'

-- `re.fullmatch(r"[A-Za-z0-9-]{1,128}", s)`
unfoldable pub is_job_id : String → Bool
unfolding all
is_job_id s = all is_job_char (codes s) && leb 1 (length (codes s)) && leb (length (codes s)) 128

-- `_execution`
unfoldable pub find_execution : String → Ledger → Checked Execution
find_execution id l = or_raise (lookup id l.executions) (refused 404)

-- What `register` returns of its result that is not constant.
pub record Receipt : Type 0 where
  pub suite_id : String
  pub execution_id : String
  pub started_at : ℕ
  pub current_job_id : String
  pub capability : String

abbrev pub is_complete : State → Bool
is_complete pending = false
is_complete complete = true
is_complete error = false

-- The test of `reserve` on a call that the execution has.
abbrev pub blocks : String → Call → Bool
blocks operation c = not (is_complete c.state) || c.operation == operation

module _ (sha256 : String → String) where
  -- `register`, with the token that `secrets.token_urlsafe` returns.
  unfoldable pub register :
      (suite_id execution_id source_digest runner_digest current_job_id : Json)
      → String
      → Reading
      → Ledger
      → Checked (Receipt × Ledger)
  unfolding is_job_id
  register suite_id execution_id source_digest runner_digest current_job_id token now l = do
    suite ← identifier suite_id
    execution ← identifier execution_id
    source ← digest source_digest
    runner ← digest runner_digest
    job ← or_raise (as_str current_job_id) (refused 422)
    guard (is_job_id job) (refused 422)
    t ← stamp now
    guard (is_none (lookup execution l.executions)) (refused 409)
    guard (not (exists (λ e. e.capability_hash == sha256 token) l.executions)) (refused 409)
    ok (
      record {
        suite_id = suite;
        execution_id = execution;
        started_at = t;
        current_job_id = job;
        capability = token;
      },
      record l {
        executions =
            append execution
              (record {
                suite_id = suite;
                source_digest = source;
                runner_digest = runner;
                current_job_id = job;
                capability_hash = sha256 token;
                started_at = t;
                closed_at = none;
              })
              l.executions;
      },
    )

  -- `reserve`: the sequence number of the new call.
  unfoldable pub reserve :
      Json → String → String → String → Json → Reading → Ledger → Checked (ℕ × Ledger)
  unfolding find_execution calls_of
  reserve token suite id operation request_digest now l = do
    guard (text_in operation operations) (refused 422)
    request ← digest request_digest
    secret ← checked_token token
    e ← find_execution id l
    guard (e.capability_hash == sha256 secret) (refused 401)
    guard (e.suite_id == suite) (refused 403)
    t ← stamp now
    guard (is_none e.closed_at && within_window e.started_at t) (refused 409)
    guard (not (any (blocks operation) (calls_of id l.calls))) (refused 409)
    ok (
      suc (length (calls_of id l.calls)),
      record l {
        calls =
            l.calls
            ++ record {
              execution_id = id;
              operation = operation;
              sequence = suc (length (calls_of id l.calls));
              request_digest = request;
              state = pending;
              started_at = t;
              finished_at = none;
              response_json = none;
              observation_id = none;
              provider_request_id = none;
            }
              ∷ [];
      },
    )

  -- `authorize_native`
  unfoldable pub authorize_native : Json → Json → Json → Reading → Ledger → Checked (Unit {0})
  unfolding find_execution
  authorize_native token suite_id execution_id now l = do
    suite ← identifier suite_id
    id ← identifier execution_id
    secret ← or_raise (as_str token) (refused 401)
    guard (is_ascii secret) (refused 401)
    e ← find_execution id l
    guard (e.capability_hash == sha256 secret) (refused 401)
    guard (e.suite_id == suite) (refused 403)
    guard (is_none e.closed_at) (refused 409)
    t ← stamp now
    guard (within_window e.started_at t) (refused 409)

-- `claim_native_grant`
unfoldable pub claim_native_grant : String → Ledger → Checked (Unit {0} × Ledger)
claim_native_grant id l = do
  guard (not (text_in id l.native_grants)) (refused 409)
  ok (tt, record l { native_grants = l.native_grants ++ id ∷ [] })

-- A text of 1 to 256 characters.
unfoldable pub checked_text : Json → Checked String
checked_text v = do
  s ← or_raise (as_str v) (refused 502)
  guard (leb 1 (length (codes s)) && leb (length (codes s)) 256) (refused 502)
  ok s

-- The same, where the value may be None.
unfoldable pub checked_option : Json → Checked (Option String)
unfolding checked_text
checked_option null = ok none
checked_option v = do s ← checked_text v; ok (some s)

-- The columns that a response gives.
pub record Answer : Type 0 where
  pub state : State
  pub serialized : Option String
  pub observation_id : Option String
  pub provider_id : Option String

-- Those of a call that failed.
abbrev pub no_answer : Answer
no_answer = record { state = error; serialized = none; observation_id = none; provider_id = none }

-- `response.get(key)`, with None for a missing key.
abbrev pub value_at : String → Fields → Json
value_at key fs = elim (get key fs) [ none ↦ null | some v ↦ v ]

-- The tests of `finish` on the response.
unfoldable pub read_response : Option Json → Checked Answer
unfolding checked_text checked_option get
read_response none = ok no_answer
read_response (some response) = do
  fs ← or_raise (as_dict response) (refused 502)
  observation ← checked_text (value_at "observation_id" fs)
  provider ← checked_option (value_at "provider_request_id" fs)
  raw ← or_raise (dumps response) (refused 502)
  guard (leb (len raw) 16384) (refused 502)
  ok (record {
    state = complete;
    serialized = some raw;
    observation_id = some observation;
    provider_id = provider;
  })

abbrev same_option : Option String → Option String → Bool
same_option none b = false
same_option (some a) b = same_text? a b

-- A violation of one of the two `UNIQUE` columns by the row with the key.
abbrev pub clashes : String → String → Answer → Call → Bool
clashes id operation a c =
    not (has_key id operation c)
    && (same_option a.observation_id c.observation_id
        || same_option a.provider_id c.provider_request_id)

-- The columns that `finish` writes.
abbrev pub finished : ℕ → Answer → Call → Call
finished t a c = record c {
  state = a.state;
  finished_at = some t;
  response_json = a.serialized;
  observation_id = a.observation_id;
  provider_request_id = a.provider_id;
}

-- `finish`
unfoldable pub finish :
    String → String → Option Json → Reading → Ledger → Checked (Unit {0} × Ledger)
unfolding read_response find_execution find_call
finish id operation response now l = do
  a ← read_response response
  e ← find_execution id l
  t ← stamp now
  guard (is_none e.closed_at) (refused 409)
  c ← or_raise (find_call id operation l.calls) (refused 409)
  guard (is_pending c.state && leb c.started_at t) (refused 409)
  guard (not (any (clashes id operation a) l.calls)) (refused 409)
  ok (tt, record l { calls = update_call id operation (finished t a) l.calls })

-- `any(…)` of `close`, over the calls in turn: a pending call or one that finished later refuses.
unfoldable pub allow_close : ℕ → List Call → Checked (Unit {0})
allow_close t [] = ok tt
allow_close t (c ∷ cs) =
    let rest = allow_close t cs in
    if is_pending c.state then err (refused 409) else elim c.finished_at [
      | none ↦ err type_error
      | some f ↦ if ltb t f then err (refused 409) else rest
    ]

-- `close` of an execution that is open.
unfoldable pub close_open : String → Execution → Reading → Ledger → Checked (ℕ × Ledger)
unfolding allow_close calls_of
close_open id e now l = do
  t ← stamp now
  guard (leb e.started_at t) (refused 409)
  allow_close t (calls_of id l.calls)
  ok (t, record l { executions = update id (λ r. record r { closed_at = some t }) l.executions })

-- `close`
unfoldable pub close : String → Reading → Ledger → Checked (ℕ × Ledger)
unfolding find_execution close_open
close id now l = do
  e ← find_execution id l
  elim e.closed_at [ some t ↦ ok (t, l) | none ↦ close_open id e now l ]
