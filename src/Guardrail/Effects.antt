-- ===== src/Guardrail/Effects.antt =====
-- Dispatch, finish and close are steps of the execution that they name.
use owasp_llm_lab_setup_guid.Base.{
  ℕ, ◌≡◌, refl, true, Option, none, some, String, lookup, arith, update_at, update_elsewhere, inl,
  inr, is_none, leb, update, ◌≤◌, Option-cases,
}
use owasp_llm_lab_setup_guid.Base.Ensures.{
  Ensures, returns, after_bind, after_or_raise, after_guard,
}
use owasp_llm_lab_setup_guid.Json.{Json}
use owasp_llm_lab_setup_guid.Clock.{Reading, stamp}
use owasp_llm_lab_setup_guid.Guardrail.Rows.{Execution, Call, Ledger}
use owasp_llm_lab_setup_guid.Guardrail.Operations.{
  find_execution, find_pending, accepts_work, dispatch, finish, finished, encoded, encoded_response,
  provider_id, close, close_open, allows_close,
}
use owasp_llm_lab_setup_guid.Guardrail.Invariant.{DispatchedBy}
use owasp_llm_lab_setup_guid.Guardrail.Lifecycle.{
  Working, Settled, Move, Effect, stays, dispatches, completes, fails, closes,
}

accepts_work-Working :
    (e : Execution) (c : Call) (t : ℕ) → accepts_work e c t ≡ true → Working e c t
unfolding accepts_work
accepts_work-Working e c t h = ground arith

-- What `_pending` returns: the pending call of an open execution, within the window.
abbrev Found : String → Ledger → Call × ℕ → Type 0
Found id l (c, t) =
    (e : Execution) × (lookup id l.executions ≡ some e)
    × (lookup id l.calls ≡ some c)
    × Working e c t

find_pending-Found :
    (id : String) (now : Reading) (l : Ledger) → Ensures (Found id l) (find_pending id now l)
unfolding find_pending
find_pending-Found id now l = after_or_raise (lookup id l.executions) _ _ λ e he.
    after_bind (stamp now) _ λ t ht. after_or_raise (lookup id l.calls) _ _ λ c hc.
      after_guard (accepts_work e c t) _ _
        λ w. returns (c, t) (e, he, hc, accepts_work-Working e c t w)

-- An `UPDATE` of the call of `id`.
call_update :
    (id : String) (f : Call → Call) (l : Ledger)
    → Move
        (lookup id l.executions)
        (lookup id l.calls)
        (lookup id l.executions)
        (lookup id (update id f l.calls))
    → Effect id l (record l { calls = update id f l.calls })
call_update id f l m = record {
  move = m;
  other_executions = λ j ne. refl;
  other_calls = λ j ne. update_elsewhere id j f l.calls ne;
}

-- An operation that leaves both tables alone.
pub same_rows :
    (id : String) (l l' : Ledger)
    → l'.executions ≡ l.executions
    → l'.calls ≡ l.calls
    → Effect id l l'
same_rows id l l' e c = record {
  move = stays (rw e) (rw c);
  other_executions = λ j ne. rw e;
  other_calls = λ j ne. rw c;
}

pub dispatch-Effect :
    (id : String) (now : Reading) (l : Ledger) → Ensures (λ r. Effect id l r.1) (dispatch id now l)
unfolding dispatch
dispatch-Effect id now l = after_bind (find_pending id now l) _ λ (c, t) h.
    let (e, he, hc, w) = (find_pending-Found id now l).at (c, t) h in
    after_guard (is_none c.dispatched_at) _ _ λ first. returns _ (
      call_update id _ l (dispatches e c t he hc w (ground arith) refl (update_at id _ l.calls hc)))

-- The tests of `finish` on the rows.
abbrev Answered : Call → ℕ → Option Json → Option String → Type 0
Answered c t none provider = DispatchedBy t c.dispatched_at × (provider ≡ none)
Answered c t (some response) provider = (d : ℕ) × (c.dispatched_at ≡ some d) × (d ≤ t)

provider_id-Answered :
    (e : Execution) (c : Call) (t : ℕ) (response : Option Json)
    → Ensures (Answered c t response) (provider_id e c t response)
unfolding provider_id
provider_id-Answered e c t none = record { at = λ p h. ground arith }
provider_id-Answered e c t (some response) =
    after_or_raise c.dispatched_at _ _
      λ d hd. after_guard (leb d t) _ _ λ le. record { at = λ p h. (d, hd, ground arith) }

-- A response that is given is stored, and none is stored where none is given.
abbrev Stored : Option Json → Option String → Type 0
Stored none raw = raw ≡ none
Stored (some response) raw = (s : String) × (raw ≡ some s)

encoded_response-Stored :
    (response : Option Json) → Ensures (Stored response) (encoded_response response)
unfolding encoded_response
encoded_response-Stored none = returns none refl
encoded_response-Stored (some response) =
    after_bind (encoded response 32768 502) _
      λ raw h. after_guard _ _ _ λ d. returns (some raw) (raw, refl)

finish-Move :
    (id : String) (response : Option Json) (raw : Option String) (observation : String)
    (provider : Option String) (e : Execution) (c : Call) (t : ℕ) (l : Ledger)
    → lookup id l.executions ≡ some e
    → lookup id l.calls ≡ some c
    → Working e c t
    → Stored response raw
    → Answered c t response provider
    → Move
        (lookup id l.executions)
        (lookup id l.calls)
        (lookup id l.executions)
        (lookup id (update id (finished t response raw observation provider) l.calls))
finish-Move id none raw observation provider e c t l he hc w stored (d, p) =
    fails e c t observation he hc w d refl (rw (update_at id _ l.calls hc) (rw (stored, p)))
finish-Move id (some response) raw observation provider e c t l he hc w (s, stored) (d, hd, le) =
    completes e c d t s observation provider he hc w hd le refl
      (rw (update_at id _ l.calls hc) (rw stored))

pub finish-Effect :
    (id : String) (response : Option Json) (observation : String) (now : Reading) (l : Ledger)
    → Ensures (λ r. Effect id l r.1) (finish id response observation now l)
unfolding finish
finish-Effect id response observation now l = after_bind (encoded_response response) _ λ raw hr.
    after_bind (find_pending id now l) _ λ (c, t) h. after_bind (find_execution id l) _ λ e he.
      after_bind (provider_id e c t response) _ λ provider hp. after_guard _ _ _ λ fresh.
        let (x, hx, hc, w) = (find_pending-Found id now l).at (c, t) h in
        returns _ (
          call_update id _ l (
            finish-Move id response raw observation provider x c t l hx hc w
              ((encoded_response-Stored response).at raw hr)
              ((provider_id-Answered e c t response).at provider hp)))

allows_close-Settled : (t : ℕ) (c : Option Call) → Ensures (λ r. Settled t c) (allows_close t c)
unfolding allows_close
allows_close-Settled t none = returns tt tt
allows_close-Settled t (some c) = record { at = λ r h. ground arith }

close_open-Effect :
    (id : String) (e : Execution) (now : Reading) (l : Ledger)
    → lookup id l.executions ≡ some e
    → e.closed_at ≡ none
    → Ensures (λ r. Effect id l r.1) (close_open id e now l)
unfolding close_open
close_open-Effect id e now l he still = after_bind (stamp now) _ λ t ht.
    after_guard (leb e.started_at t) _ _ λ late.
      after_bind (allows_close t (lookup id l.calls)) _ λ u hu. returns _ (record {
        move =
            closes e t he still (ground arith)
              ((allows_close-Settled t (lookup id l.calls)).at u hu)
              (update_at id _ l.executions he) refl;
        other_executions = λ j ne. update_elsewhere id j _ l.executions ne;
        other_calls = λ j ne. refl;
      })

pub close-Effect :
    (id : String) (now : Reading) (l : Ledger) → Ensures (λ r. Effect id l r.1) (close id now l)
unfolding close
close-Effect id now l = after_or_raise (lookup id l.executions) _ _ λ e he.
    elim (Option-cases e.closed_at) [
      | inr (t, ht) ↦ rw ht (returns _ (same_rows id l l refl refl))
      | inl still ↦ rw still (close_open-Effect id e now l he still)
    ]
