-- ===== src/Guardrail/Runs.antt =====
-- Histories of P04: any sequence of requests to the ledger, and what holds through it.
use owasp_llm_lab_setup_guid.Base.{
  append_at, ℕ, ◌≡◌, ◌≢◌, refl, ap, true, Option, none, some, String, List, [], ◌∷◌, lookup, arith,
  ok, err, after, inl, inr, ◌⊎◌, is_none, is_some, ◌&&◌, ◌==◌, text_in,
}
use owasp_llm_lab_setup_guid.Base.Ensures.{
  Ensures, Ensures-after, returns, after_or_raise, after_guard, after_bind,
}
use owasp_llm_lab_setup_guid.Json.{Json, as_dict}
use owasp_llm_lab_setup_guid.Clock.{Reading, Checked, refused, checked_token, stamp, within_window}
use owasp_llm_lab_setup_guid.Guardrail.Contract.{operations}
use owasp_llm_lab_setup_guid.Guardrail.Rows.{Execution, Call, Ledger, pending}
use owasp_llm_lab_setup_guid.Guardrail.Operations.{
  register, reserve, dispatch, finish, close, Receipt, encoded,
}
use owasp_llm_lab_setup_guid.Guardrail.Audit.{policy_audit}
use owasp_llm_lab_setup_guid.Guardrail.Invariant.{IsValid}
use owasp_llm_lab_setup_guid.Guardrail.Lifecycle.{Effect}
use owasp_llm_lab_setup_guid.Guardrail.Effects.{
  dispatch-Effect, finish-Effect, close-Effect, same_rows,
}
use owasp_llm_lab_setup_guid.Guardrail.Admission.{
  register-Effect, reserve-Effect, policy_audit-Effect,
}
use owasp_llm_lab_setup_guid.Guardrail.Preserve.{
  Effect-IsValid, Effect-closed, Effect-SameRequest, SameRequest,
}

-- One call of a method that writes, with the clock's reading and the drawn identifiers.
pub data Request : Type 0 where
  registering :
      (suite_id execution_id source runner resource : Json)
      → String
      → (body guardrail : Json) → String
      → Reading
      → Request
  reserving : Json → (suite id operation : String) → Json → Reading → Request
  dispatching : String → Reading → Request
  auditing : (id phase : String) → Json → Reading → Request
  finishing : String → Option Json → String → Reading → Request
  closing : String → Reading → Request

module _ (sha256 : String → String) where
  -- The ledger after the request, whether it returns or raises.
  unfoldable pub handle : Request → Ledger → Ledger
  handle (registering suite_id execution_id source runner resource mode body guardrail token now)
        l =
      after
        (register sha256 suite_id execution_id source runner resource mode body guardrail token now
          l)
        l
  handle (reserving token suite id operation payload now) l =
      after (reserve sha256 token suite id operation payload now l) l
  handle (dispatching id now) l = after (dispatch id now l) l
  handle (auditing id phase receipt now) l = after (policy_audit sha256 id phase receipt now l) l
  handle (finishing id response observation now) l = after (finish id response observation now l) l
  handle (closing id now) l = after (close id now l) l

  unfoldable pub run : List Request → Ledger → Ledger
  unfolding handle
  run [] l = l
  run (r ∷ rs) l = run rs (handle r l)

  -- Every request is one step of the life of one execution, and touches no other execution; a
  -- request that raises is the step that stays.
  pub handle-Effect : (r : Request) (l : Ledger) → (id : String) × Effect id l (handle r l)
  unfolding handle
  handle-Effect
        (registering suite_id execution_id source runner resource mode body guardrail token now) l =
      register_effect _ (
        register-Effect sha256 suite_id execution_id source runner resource mode body guardrail
          token now l)
    where
      register_effect :
          (m : Checked (Receipt × Ledger))
          → Ensures (λ r. Effect r.0.execution_id l r.1) m
          → (id : String) × Effect id l (after m l)
      register_effect (ok (receipt, l')) h = (receipt.execution_id, h.at (receipt, l') refl)
      register_effect (err e) h = ("", same_rows "" l l refl refl)
  handle-Effect (reserving token suite id operation payload now) l = (
    id,
    Ensures-after (Effect id l) (reserve sha256 token suite id operation payload now l)
        (same_rows id l l refl refl) (reserve-Effect sha256 token suite id operation payload now l),
  )
  handle-Effect (dispatching id now) l = (
    id,
    Ensures-after (Effect id l) (dispatch id now l) (same_rows id l l refl refl)
        (dispatch-Effect id now l),
  )
  handle-Effect (auditing id phase receipt now) l = (
    id,
    Ensures-after (Effect id l) (policy_audit sha256 id phase receipt now l)
        (same_rows id l l refl refl) (policy_audit-Effect sha256 id phase receipt now l),
  )
  handle-Effect (finishing id response observation now) l = (
    id,
    Ensures-after (Effect id l) (finish id response observation now l) (same_rows id l l refl refl)
        (finish-Effect id response observation now l),
  )
  handle-Effect (closing id now) l = (
    id,
    Ensures-after (Effect id l) (close id now l) (same_rows id l l refl refl)
        (close-Effect id now l),
  )

  -- Whatever requests come, with whatever clock readings, a well-formed ledger stays well formed.
  pub run-IsValid : (rs : List Request) (l : Ledger) → IsValid l → IsValid (run rs l)
  unfolding run
  run-IsValid [] l v = v
  run-IsValid (r ∷ rs) l v =
      let (id, f) = handle-Effect r l in run-IsValid rs (handle r l) (Effect-IsValid id f v)

  -- Once an execution is closed, no sequence of requests changes its execution row or its call.
  pub run-closed :
      (rs : List Request) (l : Ledger) (j : String) (x : Execution) (t : ℕ)
      → lookup j l.executions ≡ some x
      → x.closed_at ≡ some t
      → (lookup j (run rs l).executions ≡ some x) × (lookup j (run rs l).calls ≡ lookup j l.calls)
  unfolding run
  run-closed [] l j x t h k = (h, refl)
  run-closed (r ∷ rs) l j x t h k =
      let (id, f) = handle-Effect r l in
      let (he, hc) = Effect-closed id f j x t h k in
      let (he', hc') = run-closed rs (handle r l) j x t (rw he h) k in (he', rw hc' hc)

  pub run-call :
      (rs : List Request) (l : Ledger) (j : String) (y : Call)
      → lookup j l.calls ≡ some y
      → (z : Call) × (lookup j (run rs l).calls ≡ some z) × SameRequest y z
  unfolding run
  run-call [] l j y h = (y, h, ground arith)
  run-call (r ∷ rs) l j y h =
      let (id, f) = handle-Effect r l in
      let (z, hz, same, _) = Effect-SameRequest id f j y h in
      let (w, hw, same') = run-call rs (handle r l) j z hz in (w, hw, ground arith)

  -- A call that is not pending keeps all of its columns, whatever requests come.
  pub run-finished :
      (rs : List Request) (l : Ledger) (j : String) (y : Call)
      → lookup j l.calls ≡ some y
      → y.state ≢ pending
      → lookup j (run rs l).calls ≡ some y
  unfolding run
  run-finished [] l j y h done = h
  run-finished (r ∷ rs) l j y h done =
      let (id, f) = handle-Effect r l in
      let (z, hz, same, fixed) = Effect-SameRequest id f j y h in
      run-finished rs (handle r l) j y (rw hz (ap some (settle fixed))) done
    where
      settle : {z : Call} → ((y.state ≡ pending) ⊎ (z ≡ y)) → z ≡ y
      settle (inl p) = absurd (done p)
      settle (inr e) = e

  -- A reservation that returns leaves a call at its identifier.
  pub reserve-stored :
      (token : Json) (suite id operation : String) (payload : Json) (now : Reading) (l : Ledger)
      → Ensures
          (λ r. is_some (lookup id (r.1).calls) ≡ true)
          (reserve sha256 token suite id operation payload now l)
  unfolding reserve
  reserve-stored token suite id operation payload now l =
      after_guard (text_in operation operations) (refused 422) _ λ known.
        after_bind (checked_token token) _ λ secret hs.
          after_bind (encoded payload 32768 422) _ λ raw hr.
            after_guard (is_some (as_dict payload)) _ _ λ dict.
              after_or_raise (lookup id l.executions) _ _ λ e he.
                after_guard (e.capability_hash == sha256 secret) _ _ λ holder.
                  after_guard (e.suite_id == suite) _ _ λ scope. after_bind (stamp now) _ λ t ht.
                    after_guard (is_none e.closed_at && within_window e.started_at t) _ _
                      λ open_now.
                        after_guard (is_none (lookup id l.calls)) _ _
                          λ unused. returns _ (rw (append_at id _ l.calls (ground arith)) refl)

  -- A reservation returns only where its execution has no call yet.
  pub reserve-unused :
      (token : Json) (suite id operation : String) (payload : Json) (now : Reading) (l : Ledger)
      → Ensures
          (λ r. lookup id l.calls ≡ none)
          (reserve sha256 token suite id operation payload now l)
  unfolding reserve
  reserve-unused token suite id operation payload now l =
      after_guard (text_in operation operations) (refused 422) _ λ known.
        after_bind (checked_token token) _ λ secret hs.
          after_bind (encoded payload 32768 422) _ λ raw hr.
            after_guard (is_some (as_dict payload)) _ _ λ dict.
              after_or_raise (lookup id l.executions) _ _ λ e he.
                after_guard (e.capability_hash == sha256 secret) _ _ λ holder.
                  after_guard (e.suite_id == suite) _ _ λ scope. after_bind (stamp now) _ λ t ht.
                    after_guard (is_none e.closed_at && within_window e.started_at t) _ _
                      λ open_now.
                        after_guard (is_none (lookup id l.calls)) _ _
                          λ unused. returns _ (ground arith)
