-- ===== src/Context/Presented.antt =====
-- What a retrieval that runs shows of its execution.
use owasp_llm_lab_setup_guid.Base.{
  ℕ, ◌≡◌, subst, true, some, String, List, Result, ok, err, arith, eq_iff,
}
use owasp_llm_lab_setup_guid.Base.Ensures.{
  Ensures, returns, after_bind, after_or_raise, after_guard,
}
use owasp_llm_lab_setup_guid.Context.Rows.{
  authenticate, retrieval, Execution, Identity, Call, Store, Evidence, is_execution, is_identity,
  is_call,
}
use owasp_llm_lab_setup_guid.Context.Stages.{Task, Reply, Failure}
use owasp_llm_lab_setup_guid.Context.Perform.{
  Service, query, retrieve, perform, attempt, conclude, end_stage,
}
use owasp_llm_lab_setup_guid.Context.Steps.{Reach}
use owasp_llm_lab_setup_guid.Base.Finds.{find, find-all}
use owasp_llm_lab_setup_guid.Context.Granted.{is_honest, IsGranted}
use owasp_llm_lab_setup_guid.Context.Updates.{execution_key}
use owasp_llm_lab_setup_guid.Context.Reachable.{reach-IsGranted}

-- An identity of the suite that may read, whose token the execution presented.
pub record Presented (suite_id id : String) (s : Store) : Type 0 where
  pub identity : Identity
  pub call : Call
  pub found : find (is_identity suite_id identity.token_digest) s.identities ≡ some identity
  pub may_read : identity.can_read ≡ true
  pub called : find (is_call suite_id id authenticate) s.calls ≡ some call
  pub presented : call.input_digest ≡ identity.token_digest

abbrev pub retrieval_of : String → String → String → Task
retrieval_of suite_id id value = record {
  suite_id = suite_id;
  execution_id = id;
  stage = retrieval;
  value = value;
}

authorized-Presented :
    (suite_id id : String) (e : Execution) (s : Store)
    → IsGranted s
    → find (is_execution suite_id id) s.executions ≡ some e
    → e.authorized ≡ true
    → Presented suite_id id s
authorized-Presented suite_id id e s v found granted =
    let fits = v.executions suite_id id e found in
    let k = fits.known "reader" (fits.granted granted) in
    let (a, b) = execution_key suite_id id e s found in
    let honest =
      find-all (is_identity e.suite_id k.identity.token_digest) is_honest k.identity s.identities
        k.found v.honest in
    let reader = k.named in
    record {
      identity = k.identity;
      call = k.call;
      found =
          subst (λ x. find (is_identity x k.identity.token_digest) s.identities ≡ some k.identity) a
            k.found;
      may_read = ground (arith, eq_iff k.identity.subject "reader");
      called =
          subst (λ x. find (is_call x id authenticate) s.calls ≡ some k.call) a
            (subst (λ x. find (is_call e.suite_id x authenticate) s.calls ≡ some k.call) b
              k.called);
      presented = k.presented;
    }

ok_result :
    (t : Task) (now : ℕ) (s : Store) (m : Result Failure ((Reply × Evidence) × List Execution))
    (r : Reply × Evidence)
    → (conclude t now s m).0 ≡ ok r
    → (es : List Execution) × (m ≡ ok (r, es))
unfolding conclude
ok_result t now s (ok (q, es)) r h = (es, cc)
ok_result t now s (err f) r h = absurd (ground arith)

module _ (service : Service) where
  attempt-Presented :
      (suite_id id value : String) (s : Store)
      → IsGranted s
      → Ensures (λ r. Presented suite_id id s) (attempt service (retrieval_of suite_id id value) s)
  unfolding attempt perform retrieve
  attempt-Presented suite_id id value s v =
      after_or_raise (find (is_execution suite_id id) s.executions) _ _ λ e he.
        after_bind (retrieve service e value s) _ λ r hr. returns _ (
          (after_guard {P = λ x. Presented suite_id id s} e.authorized _ _ λ granted.
              after_bind (query service e value s) _ λ (executed, rows) h.
                returns _ (authorized-Presented suite_id id e s v he granted)).at
            r hr)

  -- In every store that is reached from one in which it holds what is granted, a retrieval that
  -- returns is of an execution that presented, in its call of authentication, the token of an
  -- identity of its suite that may read.
  pub retrieval-Presented :
      (s0 s : Store)
      → Reach service s0 s
      → IsGranted s0
      → (suite_id id value : String) (now : ℕ) (r : Reply × Evidence)
      → (end_stage service (retrieval_of suite_id id value) now s).0 ≡ ok r
      → Presented suite_id id s
  unfolding end_stage
  retrieval-Presented s0 s reach v suite_id id value now r h =
      let (es, e) =
        ok_result (retrieval_of suite_id id value) now s
          (attempt service (retrieval_of suite_id id value) s) r h in
      (attempt-Presented suite_id id value s (reach-IsGranted service s0 s reach v)).at (r, es) e
