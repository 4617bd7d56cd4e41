-- ===== src/Guardrail/Invariant.antt =====
-- The well-formed ledgers of P04, and the requests that lead from one to the next.
use owasp_llm_lab_setup_guid.Base.{ℕ, ◌+◌, ◌≤◌, ◌<◌, ◌≡◌, Option, none, some, String, lookup}
use owasp_llm_lab_setup_guid.Clock.{window}
use owasp_llm_lab_setup_guid.Guardrail.Rows.{
  State, pending, complete, error, Execution, Call, Ledger,
}

-- A time that is NULL, or lies in the window and is not before `first`.
abbrev pub TimeFrom : ℕ → ℕ → Option ℕ → Type 0
TimeFrom first started none = Unit
TimeFrom first started (some t) = (first ≤ t) × (t < started + window)

abbrev pub DispatchedBy : ℕ → Option ℕ → Type 0
DispatchedBy t none = Unit
DispatchedBy t (some d) = d ≤ t

-- The columns that go with each state of a call.
abbrev pub StateFits : State → Call → Type 0
StateFits pending c =
    (c.finished_at ≡ none)
    × (c.response_json ≡ none)
    × (c.observation_id ≡ none)
    × (c.provider_request_id ≡ none)
StateFits complete c =
    (f : ℕ) × (c.finished_at ≡ some f)
    × ((d : ℕ) × (c.dispatched_at ≡ some d) × (d ≤ f))
    × ((raw : String) × (c.response_json ≡ some raw))
StateFits error c =
    (f : ℕ) × (c.finished_at ≡ some f)
    × DispatchedBy f c.dispatched_at
    × (c.response_json ≡ none)
    × (c.provider_request_id ≡ none)

pub record CallFits (e : Execution) (c : Call) : Type 0 where
  pub starts : (e.started_at ≤ c.started_at) × (c.started_at < e.started_at + window)
  pub dispatches : TimeFrom c.started_at e.started_at c.dispatched_at
  pub finishes : TimeFrom c.started_at e.started_at c.finished_at
  pub columns : StateFits c.state c

-- A closed execution has no pending call, and closed at or after all its work.
abbrev pub ClosedFits : Option ℕ → ℕ → Option Call → Type 0
ClosedFits none started call = Unit
ClosedFits (some t) started none = started ≤ t
ClosedFits (some t) started (some c) =
    (started ≤ t) × ((f : ℕ) × (c.finished_at ≡ some f) × (f ≤ t))

-- The rows of one execution.
abbrev pub RowsFit : Option Execution → Option Call → Type 0
RowsFit none none = Unit
RowsFit none (some c) = ⊥
RowsFit (some e) none = ClosedFits e.closed_at e.started_at none
RowsFit (some e) (some c) = CallFits e c × ClosedFits e.closed_at e.started_at (some c)

pub record IsValid (l : Ledger) : Type 0 where
  pub rows : (id : String) → RowsFit (lookup id l.executions) (lookup id l.calls)
