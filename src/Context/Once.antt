-- ===== src/Context/Once.antt =====
-- Stages that were begun.
use owasp_llm_lab_setup_guid.Base.{
  ℕ, ◌≡◌, refl, is_some, if◌then◌else◌, Bool, true, false, not, ◌&&◌, Option, some, String, List,
  [], ◌∷◌, ◌==◌, lookup, any, is_none, leb, length, Result, ok, err, arith, eq_refl,
}
use owasp_llm_lab_setup_guid.Base.Ensures.{
  Ensures, returns, after_bind, after_or_raise, after_guard,
}
use owasp_llm_lab_setup_guid.Json.{Json, as_list, to_list}
use owasp_llm_lab_setup_guid.Clock.{within_window}
use owasp_llm_lab_setup_guid.Base.Finds.{any-append, any_last, update_all}
use owasp_llm_lab_setup_guid.Context.Rows.{
  Stage, authenticate, authorize, retrieval, same_stage, Execution, Call, State, Store, completed,
  rejected, error, Evidence, is_execution, is_identity, is_call,
}
use owasp_llm_lab_setup_guid.Context.Register.{
  register, close, is_pending, read_ids, read_documents, distinct,
}
use owasp_llm_lab_setup_guid.Context.Stages.{Task, Reply, Failure, as_stage, read_value}
use owasp_llm_lab_setup_guid.Context.Perform.{
  Service, attempt, conclude, finished_as, begin_stage, end_stage,
}
use owasp_llm_lab_setup_guid.Context.Steps.{
  Step, registers, begins, ends, closes, Reach, start, later,
}

-- Whether the execution has a call of the stage.
unfoldable pub has_call : String → String → Stage → Store → Bool
unfolding any
has_call suite_id id stage s = any (is_call suite_id id stage) s.calls

any-update_all :
    (p q : Call → Bool) (f : Call → Call) (cs : List Call)
    → ((c : Call) → p (f c) ≡ p c)
    → any p (update_all q f cs) ≡ any p cs
unfolding any update_all
any-update_all p q f [] same = ground arith
any-update_all p q f (c ∷ cs) same = ground (arith, any-update_all p q f cs same, same c)

same_stage_refl : (x : Stage) → same_stage x x ≡ true
same_stage_refl authenticate = ground arith
same_stage_refl authorize = ground arith
same_stage_refl retrieval = ground arith

marked_call :
    (x y : String) (z : Stage) (q : Call → Bool) (now : ℕ) (state : State)
    (evidence : Option Evidence) (cs : List Call)
    → any (is_call x y z) cs ≡ true
    → any (is_call x y z) (update_all q (finished_as now state evidence) cs) ≡ true
marked_call x y z q now state evidence cs h =
    rw (any-update_all (is_call x y z) q (finished_as now state evidence) cs (λ c. refl)) h

module _ (service : Service) where
  -- What a beginning that returns finds and leaves.
  begin_stage-call :
      (suite execution stage : String) (v : Json) (checked started : ℕ) (s : Store)
      → Ensures
          (λ r.
            (has_call (r.0).suite_id (r.0).execution_id (r.0).stage s ≡ false)
            × (has_call (r.0).suite_id (r.0).execution_id (r.0).stage r.1 ≡ true)
            × ((x y : String) (z : Stage) → has_call x y z s ≡ true → has_call x y z r.1 ≡ true))
          (begin_stage service suite execution stage v checked started s)
  unfolding begin_stage has_call
  begin_stage-call suite_text execution_text stage_text v checked started s =
      after_or_raise (service.uuid suite_text) _ _ λ suite_id h1.
        after_or_raise (service.uuid execution_text) _ _ λ id h2.
          after_or_raise (as_stage stage_text) _ _ λ stage h3.
            after_bind (read_value stage v) _ λ value h4.
              after_or_raise (lookup suite_id s.suites) _ _ λ suite h5.
                after_guard (any (is_execution suite_id id) s.executions) _ _ λ h6.
                  after_guard (is_none suite.closed && within_window suite.created checked) _ _
                    λ h7. after_guard (suite.source_digest == service.source_digest) _ _ λ h8.
                      after_guard (not (any (is_call suite_id id stage) s.calls)) _ _ λ h9.
                        returns _ (
                          ground arith,
                          any_last _ _ s.calls
                              (ground (arith, eq_refl suite_id, eq_refl id, same_stage_refl stage)),
                          λ x y z h. any-append _ _ s.calls h,
                        )

  conclude-call :
      (x y : String) (z : Stage) (t : Task) (now : ℕ) (s : Store)
      (m : Result Failure ((Reply × Evidence) × List Execution))
      → has_call x y z s ≡ true
      → has_call x y z ((conclude t now s m).1) ≡ true
  unfolding conclude has_call
  conclude-call x y z t now s (ok (r, es)) h =
      marked_call x y z (is_call t.suite_id t.execution_id t.stage) now completed (some (r.1))
        s.calls h
  conclude-call x y z t now s (err f) h =
      marked_call x y z (is_call t.suite_id t.execution_id t.stage) now
        (if is_some f.evidence then rejected else error) f.evidence s.calls h

  register-call :
      (x y : String) (z : Stage) (suite : String) (executions : List String) (documents : Json)
      (reader visitor : String) (now : ℕ) (s : Store)
      → has_call x y z s ≡ true
      → Ensures
          (λ r. has_call x y z r.1 ≡ true)
          (register service.digest service.uuid service.source_digest suite executions documents
            reader visitor now s)
  unfolding register has_call
  register-call x y z suite executions documents reader visitor now s h =
      after_or_raise (service.uuid suite) _ _ λ suite_id h1.
        after_bind (read_ids service.uuid executions) _ λ ids h2.
          after_guard (leb 1 (length ids) && leb (length ids) 32 && distinct ids) _ _ λ h3.
            after_or_raise (as_list documents) _ _ λ items h4.
              after_guard (leb 1 (length (to_list items)) && leb (length (to_list items)) 8) _ _
                λ h5. after_bind (read_documents suite_id [] (to_list items)) _ λ rows h6.
                  after_guard (is_none (lookup suite_id s.suites)) _ _ λ h7.
                    after_guard (not (any (λ id. any (is_execution suite_id id) s.executions) ids))
                      _ _
                      λ h8.
                        after_guard
                          (not (service.digest reader == service.digest visitor)
                            && not (any (is_identity suite_id (service.digest reader)) s.identities)
                            && not
                                (any (is_identity suite_id (service.digest visitor)) s.identities))
                          _ _ λ h9. returns _ h

  close-call :
      (x y : String) (z : Stage) (suite : String) (now : ℕ) (s : Store)
      → has_call x y z s ≡ true
      → Ensures (λ r. has_call x y z r.1 ≡ true) (close service.uuid suite now s)
  unfolding close has_call
  close-call x y z suite_text now s h = after_or_raise (service.uuid suite_text) _ _ λ suite_id h1.
      after_or_raise (lookup suite_id s.suites) _ _ λ suite h2.
        after_guard (not (any (λ c. c.suite_id == suite_id && is_pending c.state) s.calls)) _ _
          λ h3. returns _ h

  step-call :
      (x y : String) (z : Stage) (s t : Store)
      → Step service s t
      → has_call x y z s ≡ true
      → has_call x y z t ≡ true
  unfolding end_stage
  step-call x y z s t (registers suite es ds reader visitor now r e) h =
      (register-call x y z suite es ds reader visitor now s h).at (r, t) e
  step-call x y z s t (begins suite execution stage value checked started task e) h =
      let (_, _, kept) =
        (begin_stage-call suite execution stage value checked started s).at (task, t) e in
      kept x y z h
  step-call x y z s t (ends task now c hc waits input) h =
      conclude-call x y z task now s (attempt service task s) h
  step-call x y z s t (closes suite now closed e) h =
      (close-call x y z suite now s h).at (closed, t) e

  reach-call :
      (x y : String) (z : Stage) (s t : Store)
      → Reach service s t
      → has_call x y z s ≡ true
      → has_call x y z t ≡ true
  reach-call x y z s t start h = h
  reach-call x y z s t (later {t = u} r step) h =
      step-call x y z u t step (reach-call x y z s u r h)

  -- A stage of an execution is begun once: after a beginning that returns, in every store that is
  -- reached, none returns a task of the same suite, execution and stage.
  pub begin_once :
      (suite execution stage : String) (v : Json) (checked started : ℕ) (s s' : Store) (t : Task)
      → begin_stage service suite execution stage v checked started s ≡ ok (t, s')
      → (u u' : Store) (t' : Task) → Reach service s' u
      → (suite' execution' stage' : String) (v' : Json) (checked' started' : ℕ)
      → begin_stage service suite' execution' stage' v' checked' started' u ≡ ok (t', u')
      → ¬ ((t'.suite_id ≡ t.suite_id) × (t'.execution_id ≡ t.execution_id) × (t'.stage ≡ t.stage))
  begin_once suite execution stage v checked started s s' t e u u' t' reach suite' execution' stage'
        v' checked' started' e' (a, b, c) =
      let (_, there, _) =
        (begin_stage-call suite execution stage v checked started s).at (t, s') e in
      let (free, _, _) =
        (begin_stage-call suite' execution' stage' v' checked' started' u).at (t', u') e' in
      let kept = reach-call t.suite_id t.execution_id t.stage s' u reach there in cc
