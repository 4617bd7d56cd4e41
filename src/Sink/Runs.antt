-- ===== src/Sink/Runs.antt =====
-- Histories of the sink, and deliveries to a case that is closed.
use owasp_llm_lab_setup_guid.Base.{
  ◌∙◌, refl, ℕ, ◌≡◌, true, false, Option, some, String, List, [], ◌∷◌, ok, after, is_ok,
}
use owasp_llm_lab_setup_guid.Base.Ensures.{Ensures-after, refuses}
use owasp_llm_lab_setup_guid.Actions.Tokens.{Library}
use owasp_llm_lab_setup_guid.Sink.Rows.{CaseId, as_case, Database}
use owasp_llm_lab_setup_guid.Sink.Service.{SuiteRequest, create_suite, DeliveryRequest, deliver}
use owasp_llm_lab_setup_guid.Sink.Closing.{close_suite, has_closure, close_case}
use owasp_llm_lab_setup_guid.Sink.Sealed.{IsSealed}
use owasp_llm_lab_setup_guid.Sink.Deliveries.{case_deliveries}
use owasp_llm_lab_setup_guid.Sink.Next.{
  Next, close_suite-IsSealed, close_case-IsSealed, create_suite-IsSealed, deliver-IsSealed,
}

-- One call of an endpoint that writes.
pub data Request : Type 0 where
  creating : Option String → SuiteRequest → (CaseId → String) → (CaseId → ℕ) → ℕ → Request
  delivering : Option String → DeliveryRequest → String → (checked now : ℕ) → Request
  closing : Option String → String → ℕ → Request
  closing_case : Option String → (suite_id case_id : String) → ℕ → Request

module _ (library : Library) (control_token : String) where
  unfoldable pub handle : Request → Database → Database
  unfolding create_suite deliver close_suite close_case
  handle (creating authorization r nonces times now) d =
      after (create_suite library control_token authorization r nonces times now d) d
  handle (delivering authorization r delivery_id checked now) d =
      after (deliver library authorization r delivery_id checked now d) d
  handle (closing authorization id now) d =
      after (close_suite control_token authorization id now d) d
  handle (closing_case authorization id text now) d =
      after (close_case control_token authorization id text now d) d

  unfoldable pub run : List Request → Database → Database
  unfolding handle
  run [] d = d
  run (r ∷ rs) d = run rs (handle r d)

  handle-Next : (r : Request) (d : Database) → IsSealed d → Next d (handle r d)
  unfolding handle
  handle-Next (creating authorization r nonces times now) d v =
      Ensures-after (Next d) (create_suite library control_token authorization r nonces times now d)
        (v, λ j y h. (h, refl))
        (create_suite-IsSealed library control_token authorization r nonces times now d v)
  handle-Next (delivering authorization r delivery_id checked now) d v =
      Ensures-after (Next d) (deliver library authorization r delivery_id checked now d)
        (v, λ j y h. (h, refl))
        (record {
          at = λ x e.
              ((deliver-IsSealed library authorization r delivery_id checked now d v).at x e).0;
        })
  handle-Next (closing authorization id now) d v =
      Ensures-after (Next d) (close_suite control_token authorization id now d)
        (v, λ j y h. (h, refl)) (close_suite-IsSealed control_token authorization id now d v)
  handle-Next (closing_case authorization id text now) d v =
      Ensures-after (Next d) (close_case control_token authorization id text now d)
        (v, λ j y h. (h, refl))
        (record {
          at = λ x e. ((close_case-IsSealed control_token authorization id text now d v).at x e).0;
        })

  run-Next : (rs : List Request) (d : Database) → IsSealed d → Next d (run rs d)
  unfolding run
  run-Next [] d v = (v, λ j y h. (h, refl))
  run-Next (r ∷ rs) d v =
      let (a, b) = handle-Next r d v in
      let (a', b') = run-Next rs (handle r d) a in
      (a', λ j y h. let (k, e) = b j y h in let (k', e') = b' j y k in (k', e' ∙ e))

  -- Where every closed case is sealed, a case that is closed stays closed to deliveries: after a close
  -- of the case that returns, no delivery to the case in the suite returns, with any token and at any
  -- time, whatever requests come between.
  pub deliver_closed :
      (authorization : Option String) (id text : String) (x : CaseId) (now t : ℕ) (d d' : Database)
      → IsSealed d
      → as_case text ≡ some x
      → close_case control_token authorization id text now d ≡ ok (t, d')
      → (rs : List Request) (authorization' : Option String) (r : DeliveryRequest)
        (delivery_id : String) (checked later : ℕ)
      → r.suite_id ≡ id
      → r.case_id ≡ x
      → is_ok (deliver library authorization' r delivery_id checked later (run rs d')) ≡ false
  deliver_closed authorization id text x now t d d' v hx h rs authorization' r delivery_id checked
        later a b =
      let ((sealed, _), closed) =
        (close_case-IsSealed control_token authorization id text now d v).at (t, d') h in
      let (still, kept) = run-Next rs d' sealed in
      let shut : has_closure r.suite_id r.case_id (run rs d') ≡ true =
        rw (a, b) ((kept id x (closed x hx)).0) in
      refuses _ (record {
        at = λ q again.
            let (_, free) =
              (deliver-IsSealed library authorization' r delivery_id checked later (run rs d')
                  still).at
                q again in
            cc;
      })

  -- Where every closed case is sealed, the deliveries to a case stay as they are from its close: after
  -- a close of the case that returns, whatever requests come, the deliveries to the case in the suite
  -- are those that the close leaves.
  pub closed_case_kept :
      (authorization : Option String) (id text : String) (x : CaseId) (now t : ℕ) (d d' : Database)
      → IsSealed d
      → as_case text ≡ some x
      → close_case control_token authorization id text now d ≡ ok (t, d')
      → (rs : List Request) → case_deliveries id x (run rs d') ≡ case_deliveries id x d'
  closed_case_kept authorization id text x now t d d' v hx h rs =
      let ((sealed, same), closed) =
        (close_case-IsSealed control_token authorization id text now d v).at (t, d') h in
      let (still, kept) = run-Next rs d' sealed in (kept id x (closed x hx)).1
