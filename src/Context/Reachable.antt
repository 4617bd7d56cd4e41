-- ===== src/Context/Reachable.antt =====
-- What is granted in every store that is reached, and what a retrieval that runs shows.
use owasp_llm_lab_setup_guid.Base.{
  ℕ, ◌≡◌, refl, true, not, ◌&&◌, some, String, List, [], ◌==◌, lookup, any, is_none, is_some, leb,
  length, Result, ok, err, if◌then◌else◌, arith,
}
use owasp_llm_lab_setup_guid.Base.Ensures.{
  Ensures, returns, after_bind, after_or_raise, after_guard,
}
use owasp_llm_lab_setup_guid.Json.{Json, as_list, to_list}
use owasp_llm_lab_setup_guid.Clock.{within_window}
use owasp_llm_lab_setup_guid.Base.Finds.{find}
use owasp_llm_lab_setup_guid.Context.Rows.{
  Execution, Call, completed, rejected, error, Store, Evidence, is_execution, is_identity, is_call,
}
use owasp_llm_lab_setup_guid.Context.Register.{
  register, close, is_pending, read_ids, read_documents, distinct,
}
use owasp_llm_lab_setup_guid.Context.Stages.{Task, Reply, Failure, as_stage, read_value}
use owasp_llm_lab_setup_guid.Context.Perform.{Service, attempt, conclude, begin_stage, end_stage}
use owasp_llm_lab_setup_guid.Context.Steps.{
  Step, registers, begins, ends, closes, Reach, start, later,
}
use owasp_llm_lab_setup_guid.Context.Granted.{IsGranted}
use owasp_llm_lab_setup_guid.Context.Preserve.{
  registered-IsGranted, begun-IsGranted, closed-IsGranted, ended,
}
use owasp_llm_lab_setup_guid.Context.Ending.{perform-IsGranted, unchanged-IsGranted}

module _ (service : Service) where
  register-IsGranted :
      (suite : String) (executions : List String) (documents : Json) (reader visitor : String)
      (now : ℕ) (s : Store)
      → IsGranted s
      → Ensures
          (λ r. IsGranted r.1)
          (register service.digest service.uuid service.source_digest suite executions documents
            reader visitor now s)
  unfolding register
  register-IsGranted suite executions documents reader visitor now s v =
      after_or_raise (service.uuid suite) _ _ λ suite_id h1.
        after_bind (read_ids service.uuid executions) _ λ ids h2.
          after_guard (leb 1 (length ids) && leb (length ids) 32 && distinct ids) _ _ λ h3.
            after_or_raise (as_list documents) _ _ λ items h4.
              after_guard (leb 1 (length (to_list items)) && leb (length (to_list items)) 8) _ _
                λ h5. after_bind (read_documents suite_id [] (to_list items)) _ λ rows h6.
                  after_guard (is_none (lookup suite_id s.suites)) _ _ λ h7.
                    after_guard (not (any (λ id. any (is_execution suite_id id) s.executions) ids))
                      _ _
                      λ h8.
                        after_guard
                          (not (service.digest reader == service.digest visitor)
                            && not (any (is_identity suite_id (service.digest reader)) s.identities)
                            && not
                                (any (is_identity suite_id (service.digest visitor)) s.identities))
                          _ _
                          λ h9. returns _ (
                            registered-IsGranted _ suite_id ids (service.digest reader)
                              (service.digest visitor) rows s v)

  begin_stage-IsGranted :
      (suite execution stage : String) (v : Json) (checked started : ℕ) (s : Store)
      → IsGranted s
      → Ensures (λ r. IsGranted r.1) (begin_stage service suite execution stage v checked started s)
  unfolding begin_stage
  begin_stage-IsGranted suite_text execution_text stage_text v checked started s g =
      after_or_raise (service.uuid suite_text) _ _ λ suite_id h1.
        after_or_raise (service.uuid execution_text) _ _ λ id h2.
          after_or_raise (as_stage stage_text) _ _ λ stage h3.
            after_bind (read_value stage v) _ λ value h4.
              after_or_raise (lookup suite_id s.suites) _ _ λ suite h5.
                after_guard (any (is_execution suite_id id) s.executions) _ _ λ h6.
                  after_guard (is_none suite.closed && within_window suite.created checked) _ _
                    λ h7. after_guard (suite.source_digest == service.source_digest) _ _ λ h8.
                      after_guard (not (any (is_call suite_id id stage) s.calls)) _ _
                        λ h9. returns _ (begun-IsGranted _ s g)

  attempt-IsGranted :
      (t : Task) (now : ℕ) (c : Call) (s : Store)
      → IsGranted s
      → find (is_call t.suite_id t.execution_id t.stage) s.calls ≡ some c
      → is_pending c.state ≡ true
      → c.input_digest ≡ service.digest t.value
      → Ensures
          (λ r.
            IsGranted (ended t.suite_id t.execution_id t.stage now completed (some (r.0.1)) r.1 s))
          (attempt service t s)
  unfolding attempt
  attempt-IsGranted t now c s v hc waits input =
      after_or_raise (find (is_execution t.suite_id t.execution_id) s.executions) _ _ λ e he.
        perform-IsGranted service t.suite_id t.execution_id e t.stage t.value now c s v he hc waits
          input

  conclude-IsGranted :
      (t : Task) (now : ℕ) (s : Store) (m : Result Failure ((Reply × Evidence) × List Execution))
      → IsGranted s
      → Ensures
          (λ r.
            IsGranted (ended t.suite_id t.execution_id t.stage now completed (some (r.0.1)) r.1 s))
          m
      → IsGranted ((conclude t now s m).1)
  unfolding conclude
  conclude-IsGranted t now s (ok (r, es)) v h = h.at (r, es) refl
  conclude-IsGranted t now s (err f) v h =
      unchanged-IsGranted t.suite_id t.execution_id t.stage now
        (if is_some f.evidence then rejected else error) f.evidence s (ground arith) v

  close-IsGranted :
      (suite : String) (now : ℕ) (s : Store)
      → IsGranted s
      → Ensures (λ r. IsGranted r.1) (close service.uuid suite now s)
  unfolding close
  close-IsGranted suite_text now s v = after_or_raise (service.uuid suite_text) _ _ λ suite_id h1.
      after_or_raise (lookup suite_id s.suites) _ _ λ suite h2.
        after_guard (not (any (λ c. c.suite_id == suite_id && is_pending c.state) s.calls)) _ _
          λ h3. returns _ (closed-IsGranted _ s v)

  step-IsGranted : (s t : Store) → Step service s t → IsGranted s → IsGranted t
  unfolding end_stage
  step-IsGranted s t (registers suite es ds reader visitor now r h) v =
      (register-IsGranted suite es ds reader visitor now s v).at (r, t) h
  step-IsGranted s t (begins suite execution stage value checked started task h) v =
      (begin_stage-IsGranted suite execution stage value checked started s v).at (task, t) h
  step-IsGranted s t (ends task now c hc waits input) v =
      conclude-IsGranted task now s (attempt service task s) v
        (attempt-IsGranted task now c s v hc waits input)
  step-IsGranted s t (closes suite now closed h) v =
      (close-IsGranted suite now s v).at (closed, t) h

  -- In every store that is reached, whatever transactions are committed in between, the subject of an
  -- execution is that of an identity whose token the execution presented in a settled call of
  -- authentication, an execution that is authorized has the subject reader, and the identities that
  -- may read are those of the reader, if this holds at the start.
  pub reach-IsGranted : (s t : Store) → Reach service s t → IsGranted s → IsGranted t
  reach-IsGranted s t start v = v
  reach-IsGranted s t (later {t = u} r step) v = step-IsGranted u t step (reach-IsGranted s u r v)
