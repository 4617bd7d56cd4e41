-- ===== src/Sink/Next.antt =====
-- What each operation of the sink leaves of closed cases.
use owasp_llm_lab_setup_guid.Base.{
  ℕ, refl, ◌≡◌, sym, subst, true, false, not, ◌&&◌, Option, some, String, ◌==◌, lookup, any, all,
  map, is_none, arith, eq_refl, Bool-cases, ◌∙◌, Option-cases, inl, inr,
}
use owasp_llm_lab_setup_guid.Base.Ensures.{
  Ensures, returns, after_bind, after_or_raise, after_guard,
}
use owasp_llm_lab_setup_guid.Base.Finds.{find, find-all, find-any, any-append, any_last}
use owasp_llm_lab_setup_guid.Retrieval.Policy.{before_space, after_space, is_bearer}
use owasp_llm_lab_setup_guid.Actions.Tokens.{Library, bearer}
use owasp_llm_lab_setup_guid.Sink.Rows.{
  CaseId, case_text, as_case, earlier, is_issued, Capability, Database, is_closure,
}
use owasp_llm_lab_setup_guid.Sink.Tokens.{verify_capability}
use owasp_llm_lab_setup_guid.Sink.Service.{
  SuiteRequest, is_suite_request, new_capability, insert_all, create_suite, DeliveryRequest,
  is_delivery_request, header_text, in_scope, matches, repeats, new_delivery, deliver,
}
use owasp_llm_lab_setup_guid.Sink.Closing.{
  end_suite, close_suite, has_closure, end_case, close_open, close_case,
}
use owasp_llm_lab_setup_guid.Sink.Sealed.{
  is_open, IsSealed, insert_all-all, new_capabilities-shut, created-Sealed, consumed-Sealed,
  end_suite-Sealed, end_case-IsSealed,
}
use owasp_llm_lab_setup_guid.Sink.Deliveries.{case_deliveries, unmoved}

-- What a request leaves: every closed case sealed, every closure, and the deliveries to each closed
-- case.
abbrev pub Next : Database → Database → Type 0
Next d d' =
    IsSealed d'
    × ((j : String) (y : CaseId)
        → has_closure j y d ≡ true
        → (has_closure j y d' ≡ true) × (case_deliveries j y d' ≡ case_deliveries j y d))

pub close_suite-IsSealed :
    (control_token : String) (authorization : Option String) (id : String) (now : ℕ) (d : Database)
    → IsSealed d
    → Ensures (λ r. Next d r.1) (close_suite control_token authorization id now d)
unfolding close_suite has_closure case_deliveries
close_suite-IsSealed control_token authorization id now d v =
    after_bind (bearer control_token authorization) _ λ u hu.
      after_or_raise (lookup id d.suites) _ _ λ suite found. elim (Option-cases suite.closed_at) [
        | inr (t, ht) ↦ rw ht (returns (t, d) (v, λ j y h. (h, refl)))
        | inl still ↦ rw still (
            returns (now, end_suite id now d)
              ((λ j y h. end_suite-Sealed j (case_text y) id now d (v j y h)), λ j y h. (h, refl)))
      ]

one_case : (x y : CaseId) → ◌≡◌ {A = Option CaseId} (some x) (some y) → x ≡ y
one_case x y h = cc

-- What a close of a case that returns leaves.
pub close_case-IsSealed :
    (control_token : String) (authorization : Option String) (id text : String) (now : ℕ)
    (d : Database)
    → IsSealed d
    → Ensures
        (λ r. Next d r.1 × ((x : CaseId) → as_case text ≡ some x → has_closure id x r.1 ≡ true))
        (close_case control_token authorization id text now d)
unfolding close_case close_open has_closure case_deliveries
close_case-IsSealed control_token authorization id text now d v =
    after_bind (bearer control_token authorization) _ λ u hu.
      after_or_raise (as_case text) _ _ λ x hx.
        after_or_raise (lookup id d.suites) _ _ λ suite found.
          elim (Option-cases (find (is_closure id x) d.case_closures)) [
            | inr (c, hc) ↦ rw hc (
                returns (c.closed_at, d)
                  (
                    (v, λ j y h. (h, refl)),
                    λ y hy.
                        let same = one_case x y (sym hx ∙ hy) in
                        subst (λ z. has_closure id z d ≡ true) same
                          (find-any (is_closure id x) c d.case_closures hc),
                  ))
            | inl fresh ↦ rw fresh (
                after_guard (is_none suite.closed_at) _ _ λ open_now.
                  after_guard (all (λ c. has_closure id c d) (earlier x)) _ _ λ before.
                    returns (now, end_case id x now d)
                      (
                        (
                          end_case-IsSealed id x now d (ground arith) v,
                          λ j y h. (any-append (is_closure j y) _ d.case_closures h, refl),
                        ),
                        λ y hy.
                            let same = one_case x y (sym hx ∙ hy) in
                            subst (λ z. has_closure id z (end_case id x now d) ≡ true) same
                              (any_last (is_closure id x) _ d.case_closures
                                (ground (arith, eq_refl id, eq_refl (case_text x)))),
                      ))
          ]

-- The case of a capability that may be used is not closed.
open_case :
    (id : String) (x : CaseId) (digest : String) (c : Capability) (d : Database)
    → IsSealed d
    → find (λ c. c.capability_digest == digest) d.capabilities ≡ some c
    → is_open id (case_text x) c ≡ true
    → has_closure id x d ≡ false
open_case id x digest c d v found open_now = elim (Bool-cases (has_closure id x d)) [
  | inr free ↦ free
  | inl closed ↦
      let shut =
        find-all (λ c. c.capability_digest == digest) (λ c. not (is_open id (case_text x) c)) c
          d.capabilities found (v id x closed).shut in
      absurd (ground arith)
]

module _ (library : Library) where
  pub create_suite-IsSealed :
      (control_token : String) (authorization : Option String) (r : SuiteRequest)
      (nonces : CaseId → String) (times : CaseId → ℕ) (now : ℕ) (d : Database)
      → IsSealed d
      → Ensures
          (λ x. Next d x.1)
          (create_suite library control_token authorization r nonces times now d)
  unfolding create_suite has_closure case_deliveries
  create_suite-IsSealed control_token authorization r nonces times now d v =
      let rows = map (new_capability library nonces times r.suite_id) r.executions in
      after_bind (bearer control_token authorization) _ λ u hu.
        after_guard (is_suite_request r) _ _ λ fits.
          after_guard (is_none (lookup r.suite_id d.suites)) _ _ λ absent.
            after_bind (insert_all rows d.capabilities) _ λ cs hcs. returns _ (
              (λ id x h.
                  created-Sealed id (case_text x) r.suite_id _ cs d (ground arith) (v id x h) λ ne.
                    (insert_all-all (λ c. not (is_open id (case_text x) c)) rows d.capabilities
                        (new_capabilities-shut library nonces times r.suite_id id (case_text x)
                          r.executions ne)
                        ((v id x h).shut)).at
                      cs hcs),
              λ j y h. (h, refl),
            )

  -- A delivery that returns leaves what is sealed, and is to a case that is not closed.
  pub deliver-IsSealed :
      (authorization : Option String) (r : DeliveryRequest) (delivery_id : String) (checked now : ℕ)
      (d : Database)
      → IsSealed d
      → Ensures
          (λ x. Next d x.1 × (has_closure r.suite_id r.case_id d ≡ false))
          (deliver library authorization r delivery_id checked now d)
  unfolding deliver has_closure matches case_deliveries
  deliver-IsSealed authorization r delivery_id checked now d v =
      let token = after_space (header_text authorization) in
      let digest = library.sha256 token in
      after_guard (is_delivery_request r) _ _ λ fits.
        after_guard (is_bearer (before_space (header_text authorization))) _ _ λ h1.
          after_bind (verify_capability library token checked) _ λ fs h2.
            after_guard (in_scope r fs) _ _ λ h3.
              after_or_raise (lookup r.suite_id d.suites) _ _ λ suite h4.
                after_or_raise (find (λ c. c.capability_digest == digest) d.capabilities) _ _
                  λ c found.
                    after_guard (is_none suite.closed_at && is_issued c.status) _ _ λ ready.
                      after_guard (matches r fs c) _ _ λ own.
                        after_guard
                          (not (
                            any (repeats (new_delivery library r digest delivery_id now))
                              d.deliveries))
                          _ _
                          λ h5. returns _ (
                            (
                              (λ id x h.
                                  consumed-Sealed id (case_text x) digest now _ d (v id x h)),
                              λ j y h. (
                                h,
                                unmoved j y (new_delivery library r digest delivery_id now) d
                                    (open_case r.suite_id r.case_id digest c d v found
                                      (ground arith))
                                    h,
                              ),
                            ),
                            open_case r.suite_id r.case_id digest c d v found (ground arith),
                          )
