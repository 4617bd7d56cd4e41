-- ===== src/Guardrail/Guarantees.antt =====
-- What the P04 ledger promises to its callers: of reservations, of the read-only test and of `close`.
use owasp_llm_lab_setup_guid.Base.{
  update_at, ℕ, ◌≡◌, ◌≢◌, refl, true, false, none, some, String, List, lookup, arith, ok, err, inl,
  inr, Option-cases, is_ok, is_some, leb, text_in,
}
use owasp_llm_lab_setup_guid.Base.Ensures.{
  Ensures, refuses, returns, after_bind, after_guard, after_or_raise,
}
use owasp_llm_lab_setup_guid.Json.{Json, as_dict}
use owasp_llm_lab_setup_guid.Clock.{Reading, type_error, stamp}
use owasp_llm_lab_setup_guid.Guardrail.Contract.{operations}
use owasp_llm_lab_setup_guid.Guardrail.Rows.{Execution, Call, Ledger}
use owasp_llm_lab_setup_guid.Guardrail.Operations.{reserve, close, authorize, allows_close, encoded}
use owasp_llm_lab_setup_guid.Guardrail.Invariant.{IsValid}
use owasp_llm_lab_setup_guid.Guardrail.Runs.{Request, run, run-call, reserve-stored, reserve-unused}

-- In a well-formed ledger `close` compares no time with None: it refuses or returns.
pub close-ne-type_error :
    (id : String) (now : Reading) (l : Ledger) → IsValid l → close id now l ≢ err type_error
unfolding close
close-ne-type_error id now l v h = ground (arith, v.rows id)

-- What a close leaves behind.
close-closed :
    (id : String) (now : Reading) (l : Ledger)
    → Ensures
        (λ r. (x : Execution) × (lookup id (r.1).executions ≡ some x) × (x.closed_at ≡ some r.0))
        (close id now l)
unfolding close
close-closed id now l = after_or_raise (lookup id l.executions) _ _ λ e he.
    elim (Option-cases e.closed_at) [
      | inr (t, ht) ↦ rw ht (returns (t, l) (e, he, ht))
      | inl still ↦ rw still (
          after_bind (stamp now) _ λ t ht. after_guard (leb e.started_at t) _ _ λ late.
            after_bind (allows_close t (lookup id l.calls)) _
              λ u hu. returns _ (_, update_at id _ l.executions he, refl))
    ]

close_again :
    (id : String) (now : Reading) (l : Ledger) (x : Execution) (t : ℕ)
    → lookup id l.executions ≡ some x
    → x.closed_at ≡ some t
    → close id now l ≡ ok (t, l)
unfolding close
close_again id now l x t hx hc = ground arith

-- Closing an execution that was closed returns the time of the first close, at any reading of the
-- clock, and changes nothing.
pub close_twice :
    (id : String) (now later : Reading) (l l' : Ledger) (t : ℕ)
    → close id now l ≡ ok (t, l')
    → close id later l' ≡ ok (t, l')
unfolding close
close_twice id now later l l' t h =
    let (x, hx, hc) = (close-closed id now l).at (t, l') h in close_again id later l' x t hx hc

module _ (sha256 : String → String) where
  -- A reservation that returns is the only one of its execution: none returns after it, whatever
  -- requests come between.
  pub reserve_once :
      (token : Json) (suite id operation : String) (payload : Json) (now : Reading) (l l' : Ledger)
      → reserve sha256 token suite id operation payload now l ≡ ok (tt, l')
      → (rs : List Request) (token' : Json) (suite' operation' : String) (payload' : Json)
        (later : Reading)
      → is_ok (reserve sha256 token' suite' id operation' payload' later (run sha256 rs l')) ≡ false
  reserve_once token suite id operation payload now l l' h rs token' suite' operation' payload'
        later =
      refuses _ (record {
        at = λ r again.
            let (z, hz, _) = run-call sha256 rs l' id _ (stored.1) in
            let unused =
              (reserve-unused sha256 token' suite' id operation' payload' later
                  (run sha256 rs l')).at
                r again in
            cc;
      })
    where
      stored : (y : Call) × (lookup id l'.calls ≡ some y)
      stored =
          ground
            (arith, (reserve-stored sha256 token suite id operation payload now l).at (tt, l') h)

  -- Where `authorize` accepts a token, a suite and an execution, and the execution has no call yet,
  -- `reserve` returns at the same reading of the clock, for a known operation and a payload that is a
  -- JSON object of at most 32768 bytes.
  pub authorize-reserve :
      (token : Json) (suite id operation raw : String) (payload : Json) (now : Reading) (l : Ledger)
      → authorize sha256 token suite id now l ≡ ok tt
      → lookup id l.calls ≡ none
      → text_in operation operations ≡ true
      → encoded payload 32768 422 ≡ ok raw
      → is_some (as_dict payload) ≡ true
      → is_ok (reserve sha256 token suite id operation payload now l) ≡ true
  unfolding authorize reserve
  authorize-reserve token suite id operation raw payload now l h unused known small dict =
      ground arith
