-- ===== src/Search/Closing.antt =====
-- What `close` of P03 promises.
use owasp_llm_lab_setup_guid.Base.{
  ℕ, suc, ◌≡◌, ◌≢◌, ◌≤◌, refl, ◌∙◌, Bool, true, false, not, ◌&&◌, none, some, String, List, [], ◌∷◌,
  lookup, all, leb, ok, err, update_at, arith,
}
use owasp_llm_lab_setup_guid.Base.Ensures.{Ensures, returns, after_bind, after_guard}
use owasp_llm_lab_setup_guid.Clock.{type_error, Reading, at, unusable, stamp}
use owasp_llm_lab_setup_guid.Guardrail.Operations.{is_pending}
use owasp_llm_lab_setup_guid.Search.Rows.{Execution, Call, Ledger, calls_of}
use owasp_llm_lab_setup_guid.Search.Operations.{allow_close, close_open, close}
use owasp_llm_lab_setup_guid.Search.Lanes.{in_sequence, IsOrdered}

-- The call ended at or before `t`.
abbrev pub ended_by : ℕ → Call → Bool
ended_by t c = not (is_pending c.state) && elim c.finished_at [ none ↦ false | some f ↦ leb f t ]

allow_close-settled :
    (t : ℕ) (cs : List Call) → allow_close t cs ≡ ok tt → all (ended_by t) cs ≡ true
unfolding allow_close all
allow_close-settled t [] h = refl
allow_close-settled t (c ∷ cs) h = ground (arith, allow_close-settled t cs)

allow_close-typed :
    (n t : ℕ) (cs : List Call) → in_sequence n cs ≡ true → allow_close t cs ≢ err type_error
unfolding allow_close in_sequence
allow_close-typed n t [] h e = ground arith
allow_close-typed n t (c ∷ cs) h e = ground (arith, allow_close-typed (suc n) t cs)

-- In a ledger whose calls are in sequence, `close` compares no time with None: it refuses or returns.
close-ne-untyped :
    (id : String) (now : Reading) (l : Ledger) → IsOrdered l → close id now l ≢ err type_error
unfolding close close_open
close-ne-untyped id unusable l v h = ground arith
close-ne-untyped id (at x) l v h =
    ground (arith, allow_close-typed 0 x (calls_of id l.calls) (v id))

-- What a close leaves.
abbrev Settles : String → Execution → ℕ → Ledger → Type 0
Settles id e t l' =
    (lookup id l'.executions ≡ some (record e { closed_at = some t }))
    × (e.started_at ≤ t)
    × (all (ended_by t) (calls_of id l'.calls) ≡ true)

close_open-Settles :
    (id : String) (e : Execution) (now : Reading) (l : Ledger)
    → lookup id l.executions ≡ some e
    → Ensures (λ r. Settles id e r.0 r.1) (close_open id e now l)
unfolding close_open
close_open-Settles id e now l found = after_bind (stamp now) _ λ t ht.
    after_guard (leb e.started_at t) _ _ λ late.
      after_bind (allow_close t (calls_of id l.calls)) _ λ u hu. returns _ (
        update_at id _ l.executions found,
        ground arith,
        allow_close-settled t (calls_of id l.calls) hu,
      )

close_open-run :
    (id : String) (now : Reading) (l : Ledger) (e : Execution)
    → lookup id l.executions ≡ some e
    → e.closed_at ≡ none
    → close_open id e now l ≡ close id now l
unfolding close
close_open-run id now l e found open_now = ground arith

-- A close of an open execution that returns leaves it closed at the returned time, which is not
-- before its start, and no call of it is pending or finished later.
pub close_settles :
    (id : String) (now : Reading) (l : Ledger) (e : Execution) (t : ℕ) (l' : Ledger)
    → lookup id l.executions ≡ some e
    → e.closed_at ≡ none
    → close id now l ≡ ok (t, l')
    → (lookup id l'.executions ≡ some (record e { closed_at = some t }))
      × (e.started_at ≤ t)
      × (all (ended_by t) (calls_of id l'.calls) ≡ true)
unfolding close close_open
close_settles id now l e t l' found open_now h =
    (close_open-Settles id e now l found).at (t, l') (close_open-run id now l e found open_now ∙ h)
