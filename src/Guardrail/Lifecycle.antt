-- ===== src/Guardrail/Lifecycle.antt =====
-- The life of one execution of P04 as a step relation on its two rows, and what an operation does
-- to the ledger: a step at one identifier, and nothing at the others.
use owasp_llm_lab_setup_guid.Base.{
  ℕ, ◌+◌, ◌≤◌, ◌<◌, ◌≡◌, ◌≢◌, false, Option, none, some, String, lookup,
}
use owasp_llm_lab_setup_guid.Clock.{window}
use owasp_llm_lab_setup_guid.Guardrail.Rows.{pending, complete, error, Execution, Call, Ledger}
use owasp_llm_lab_setup_guid.Guardrail.Operations.{is_pending}
use owasp_llm_lab_setup_guid.Guardrail.Invariant.{DispatchedBy}

abbrev pub InWindow : Execution → ℕ → Type 0
InWindow x t = (x.started_at ≤ t) × (t < x.started_at + window)

-- What a pending call needs at the time `t` of a step.
abbrev pub Working : Execution → Call → ℕ → Type 0
Working x y t = (x.closed_at ≡ none) × (y.state ≡ pending) × InWindow x t × (y.started_at ≤ t)

-- A call as it is reserved.
abbrev pub Fresh : Call → Type 0
Fresh y =
    (y.state ≡ pending)
    × (y.dispatched_at ≡ none)
    × (y.finished_at ≡ none)
    × (y.response_json ≡ none)
    × (y.observation_id ≡ none)
    × (y.provider_request_id ≡ none)

-- No work is left at the time of a close.
abbrev pub Settled : ℕ → Option Call → Type 0
Settled t none = Unit
Settled t (some y) = (is_pending y.state ≡ false) × ((f : ℕ) × (y.finished_at ≡ some f) × (f ≤ t))

pub data Move (e : Option Execution) (c : Option Call) (e' : Option Execution) (c' : Option Call)
    : Type 0 where
  stays : e' ≡ e → c' ≡ c → Move e c e' c'
  registers :
      (x : Execution) → e ≡ none → x.closed_at ≡ none → e' ≡ some x → c' ≡ c → Move e c e' c'
  reserves :
      (x : Execution) (y : Call)
      → e ≡ some x
      → c ≡ none
      → x.closed_at ≡ none
      → InWindow x y.started_at
      → Fresh y
      → e' ≡ e
      → c' ≡ some y
      → Move e c e' c'
  dispatches :
      (x : Execution) (y : Call) (t : ℕ)
      → e ≡ some x
      → c ≡ some y
      → Working x y t
      → y.dispatched_at ≡ none
      → e' ≡ e
      → c' ≡ some (record y { dispatched_at = some t })
      → Move e c e' c'
  completes :
      (x : Execution) (y : Call) (d t : ℕ) (raw observation : String) (provider : Option String)
      → e ≡ some x
      → c ≡ some y
      → Working x y t
      → y.dispatched_at ≡ some d
      → d ≤ t
      → e' ≡ e
      → c'
        ≡ some (record y {
          state = complete;
          finished_at = some t;
          response_json = some raw;
          observation_id = some observation;
          provider_request_id = provider;
        })
      → Move e c e' c'
  fails :
      (x : Execution) (y : Call) (t : ℕ) (observation : String)
      → e ≡ some x
      → c ≡ some y
      → Working x y t
      → DispatchedBy t y.dispatched_at
      → e' ≡ e
      → c'
        ≡ some (record y {
          state = error;
          finished_at = some t;
          response_json = none;
          observation_id = some observation;
          provider_request_id = none;
        })
      → Move e c e' c'
  closes :
      (x : Execution) (t : ℕ)
      → e ≡ some x
      → x.closed_at ≡ none
      → x.started_at ≤ t
      → Settled t c
      → e' ≡ some (record x { closed_at = some t })
      → c' ≡ c
      → Move e c e' c'

-- What an operation on the execution `id` does to the rows of the ledger.
pub record Effect (id : String) (l l' : Ledger) : Type 0 where
  pub move :
      Move
        (lookup id l.executions)
        (lookup id l.calls)
        (lookup id l'.executions)
        (lookup id l'.calls)
  pub other_executions : (j : String) → id ≢ j → lookup j l'.executions ≡ lookup j l.executions
  pub other_calls : (j : String) → id ≢ j → lookup j l'.calls ≡ lookup j l.calls
