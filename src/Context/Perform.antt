-- ===== src/Context/Perform.antt =====
-- The two transactions of `execute`, with `_perform`.
use owasp_llm_lab_setup_guid.Base.{
  ℕ, Bool, true, false, not, ◌&&◌, Option, none, some, String, List, [], ◌∷◌, ◌++◌, ◌==◌, lookup,
  any, map, is_none, is_some, len, ok, err, Result, ◌>>=◌, ◌>>◌, guard, or_raise, if◌then◌else◌,
}
use owasp_llm_lab_setup_guid.Json.{Json}
use owasp_llm_lab_setup_guid.Clock.{within_window}
use owasp_llm_lab_setup_guid.Base.Finds.{find, update_all}
use owasp_llm_lab_setup_guid.Context.Rows.{
  Checked, refused, value_error, Stage, authenticate, authorize, retrieval, Execution, Identity,
  Document, Hit, Evidence, authentication, authorization, retrieved, authorization_denied, State,
  pending, completed, rejected, error, Call, Store, is_execution, is_identity, is_call,
}
use owasp_llm_lab_setup_guid.Context.Stages.{
  Task, as_stage, read_value, Reply, decided, found, Failure, unique, take, join, filter, quoted,
  is_empty,
}

-- What the source takes from the standard library, SQLite and its configuration.
pub record Service : Type 0 where
  pub digest : String → String
  pub uuid : String → Option String
  pub words : String → List String
  pub search : String → List Document → Option (List Document)
  pub source_digest : String

-- The columns of an execution that authentication and authorization write.
abbrev pub identified : Identity → Execution → Execution
identified i e = record e { subject = some i.subject; tenant = some i.tenant }

abbrev pub allowed_as : Bool → Execution → Execution
allowed_as b e = record e { authorized = b }

-- `column = ?`, where NULL equals nothing.
abbrev pub equals : String → Option String → Bool
equals s none = false
equals s (some t) = s == t

-- `SELECT * FROM identities WHERE suite_id=? AND subject=?`
abbrev pub of_subject : String → Option String → Identity → Bool
of_subject suite_id subject i = i.suite_id == suite_id && equals i.subject subject

abbrev pub may_read : String → Option Identity → Bool
may_read tenant none = false
may_read tenant (some i) = i.can_read && i.tenant == tenant

-- The columns that a call is finished with.
abbrev pub finished_as : ℕ → State → Option Evidence → Call → Call
finished_as t state evidence c = record c { finished = some t; state = state; evidence = evidence }

abbrev subject_of : Option Identity → Option String
subject_of none = none
subject_of (some i) = some i.subject

-- `_perform` of authentication, with the identity of the token.
unfoldable pub authenticated :
    Execution → Option Identity → List Execution → (Reply × Evidence) × List Execution
unfolding update_all
authenticated e none es = ((decided false, authentication none), es)
authenticated e (some i) es = (
  (decided true, authentication (some i.subject)),
  update_all (is_execution e.suite_id e.execution_id) (identified i) es,
)

-- The columns of the call of a task.
abbrev pub mark_call : Task → ℕ → State → Option Evidence → List Call → List Call
mark_call t now state evidence calls =
    update_all (is_call t.suite_id t.execution_id t.stage) (finished_as now state evidence) calls

-- What is written for the result of `_perform`.
unfoldable pub conclude :
    Task
    → ℕ
    → Store
    → Result Failure ((Reply × Evidence) × List Execution)
    → Checked (Reply × Evidence) × Store
unfolding update_all
conclude t now s (ok (r, executions)) = (
  ok r,
  record s { executions = executions; calls = mark_call t now completed (some (r.1)) s.calls },
)
conclude t now s (err f) = (
  err (refused f.status),
  record s {
    calls = mark_call t now (if is_some f.evidence then rejected else error) f.evidence s.calls;
  },
)

module _ (service : Service) where
  abbrev hit_of : Document → Hit
  hit_of x = record {
    document_id = x.document_id;
    tenant = x.tenant;
    text_digest = service.digest x.text;
  }

  -- The rows of the query, of which there are at most three.
  unfoldable pub query : Execution → String → Store → Result Failure (Bool × List Document)
  unfolding unique take join filter
  query e value s =
      let terms = take 16 (unique [] (service.words value)) in
      if is_empty terms then ok (false, []) else do
        rows ←
            or_raise (service.search (join " OR " (map (λ t. quoted t) terms)) s.documents)
              (record { status = 503; evidence = none })
        ok (true, take 3 (filter (λ x. x.suite_id == e.suite_id && equals x.tenant e.tenant) rows))

  -- The retrieval of `_perform`.
  unfoldable pub retrieve : Execution → String → Store → Result Failure (Reply × Evidence)
  unfolding query join
  retrieve e value s = do
    guard e.authorized (record { status = 403; evidence = some authorization_denied })
    (executed, rows) ← query e value s
    let text = join "\n\n" (map (λ x. x.text) rows)
    ok (found text, retrieved executed e.tenant (map hit_of rows) (service.digest text) (len text))

  -- `_perform`: the reply with its evidence, and the executions after it.
  unfoldable pub perform :
      Execution → Stage → String → Store → Result Failure ((Reply × Evidence) × List Execution)
  unfolding find update_all retrieve authenticated
  perform e authenticate value s = ok (
      authenticated e (find (is_identity e.suite_id (service.digest value)) s.identities)
        s.executions)
  perform e authorize value s =
      let allowed = may_read value (find (of_subject e.suite_id e.subject) s.identities) in
      ok (
        (decided allowed, authorization allowed e.subject value),
        update_all (is_execution e.suite_id e.execution_id) (allowed_as allowed) s.executions,
      )
  perform e retrieval value s = do r ← retrieve e value s; ok (r, s.executions)

  -- The first transaction of `execute`, and the tests before it.
  unfoldable pub begin_stage :
      (suite_text execution_text stage_text : String)
      → Json
      → (checked started : ℕ) → Store
      → Checked (Task × Store)
  unfolding read_value find lookup any
  begin_stage suite_text execution_text stage_text v checked started s = do
    suite_id ← or_raise (service.uuid suite_text) value_error
    id ← or_raise (service.uuid execution_text) value_error
    stage ← or_raise (as_stage stage_text) (refused 422)
    value ← read_value stage v
    suite ← or_raise (lookup suite_id s.suites) (refused 404)
    guard (any (is_execution suite_id id) s.executions) (refused 404)
    guard (is_none suite.closed && within_window suite.created checked) (refused 409)
    guard (suite.source_digest == service.source_digest) (refused 409)
    guard (not (any (is_call suite_id id stage) s.calls)) (refused 409)
    ok (
      record { suite_id = suite_id; execution_id = id; stage = stage; value = value },
      record s {
        calls =
            s.calls
            ++ record {
              suite_id = suite_id;
              execution_id = id;
              stage = stage;
              started = started;
              finished = none;
              state = pending;
              input_digest = service.digest value;
              evidence = none;
            }
              ∷ [];
      },
    )

  -- What the second transaction does: `_perform` on the row of the execution, which a missing row
  -- makes fail.
  unfoldable pub attempt : Task → Store → Result Failure ((Reply × Evidence) × List Execution)
  unfolding perform find
  attempt t s = do
    e ←
        or_raise (find (is_execution t.suite_id t.execution_id) s.executions)
          (record { status = 503; evidence = none })
    perform e t.stage t.value s

  -- The second transaction, which commits the call also where the stage failed.
  unfoldable pub end_stage : Task → ℕ → Store → Checked (Reply × Evidence) × Store
  unfolding attempt conclude
  end_stage t now s = conclude t now s (attempt t s)

  -- `execute`, with nothing between its transactions.
  unfoldable pub execute :
      (suite_text execution_text stage_text : String)
      → Json
      → (checked started now : ℕ) → Store
      → Checked (Reply × Evidence) × Store
  unfolding begin_stage end_stage
  execute suite_text execution_text stage_text v checked started now s =
      elim (begin_stage suite_text execution_text stage_text v checked started s) [
        | ok (t, s') ↦ end_stage t now s'
        | err e ↦ (err e, s)
      ]
