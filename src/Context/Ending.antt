-- ===== src/Context/Ending.antt =====
-- The second transaction of `execute` keeps what is granted.
use owasp_llm_lab_setup_guid.Base.{
  ℕ, ◌≡◌, ◌∙◌, refl, sym, subst, true, false, Option, none, some, String, List, arith, eq_iff,
  Bool-cases, inl, inr,
}
use owasp_llm_lab_setup_guid.Base.Ensures.{Ensures, returns, after_bind}
use owasp_llm_lab_setup_guid.Context.Rows.{
  Stage, authenticate, authorize, retrieval, Execution, Identity, Call, State, completed, Store,
  Evidence, is_execution, is_identity, is_call,
}
use owasp_llm_lab_setup_guid.Context.Register.{is_pending}
use owasp_llm_lab_setup_guid.Context.Perform.{
  Service, perform, retrieve, authenticated, identified, allowed_as, of_subject, equals, may_read,
  finished_as,
}
use owasp_llm_lab_setup_guid.Base.Finds.{find, update_all, find-holds, find-all, find-updated}
use owasp_llm_lab_setup_guid.Context.Granted.{is_honest, Fits, IsGranted, Grows, grown-Fits}
use owasp_llm_lab_setup_guid.Context.Preserve.{ended, ended-Grows}
use owasp_llm_lab_setup_guid.Context.Updates.{execution_key, updated-Fits}

-- A stage that leaves the executions.
pub unchanged-IsGranted :
    (suite_id id : String) (stage : Stage) (now : ℕ) (state : State) (evidence : Option Evidence)
    (s : Store)
    → is_pending state ≡ false
    → IsGranted s
    → IsGranted (ended suite_id id stage now state evidence s.executions s)
unchanged-IsGranted suite_id id stage now state evidence s done v = record {
  honest = v.honest;
  executions = λ x y e h.
      grown-Fits s (ended suite_id id stage now state evidence s.executions s) e
        (ended-Grows suite_id id stage now state evidence s.executions s done)
        (v.executions x y e h);
}

-- A token of the identity, in a call that is still pending.
record Presents (service : Service) (suite_id id value : String) (s : Store) : Type 0 where
  call : Call
  called : find (is_call suite_id id authenticate) s.calls ≡ some call
  waits : is_pending call.state ≡ true
  input : call.input_digest ≡ service.digest value

same_call : (c d : Call) → ◌≡◌ {A = Option Call} (some c) (some d) → c ≡ d
same_call c d h = cc

no_subject :
    (service : Service) (suite_id id value : String) (e : Execution) (s : Store)
    → e.suite_id ≡ suite_id
    → e.execution_id ≡ id
    → Fits s e
    → Presents service suite_id id value s
    → e.authorized ≡ false
no_subject service suite_id id value e s a b v p = elim (Bool-cases e.authorized) [
  | inr free ↦ free
  | inl granted ↦
      let k = v.known "reader" (v.granted granted) in
      let called : find (is_call suite_id id authenticate) s.calls ≡ some k.call =
        subst (λ x. find (is_call x id authenticate) s.calls ≡ some k.call) a
          (subst (λ x. find (is_call e.suite_id x authenticate) s.calls ≡ some k.call) b
            k.called) in
      let same : p.call ≡ k.call = same_call p.call k.call (sym p.called ∙ called) in
      let waits = p.waits in let settled = k.settled in cc
]

authenticated-Fits :
    (service : Service) (suite_id id value : String) (now : ℕ) (evidence : Option Evidence)
    (i : Identity) (e : Execution) (es : List Execution) (s : Store)
    → e.suite_id ≡ suite_id
    → e.execution_id ≡ id
    → Fits s e
    → Presents service suite_id id value s
    → find (is_identity e.suite_id (service.digest value)) s.identities ≡ some i
    → Fits (ended suite_id id authenticate now completed evidence es s) (identified i e)
authenticated-Fits service suite_id id value now evidence i e es s a b v p hi =
    let digest : i.token_digest ≡ service.digest value =
      let own = find-holds (is_identity e.suite_id (service.digest value)) i s.identities hi in
      ground (arith, eq_iff i.token_digest (service.digest value)) in
    let kept =
      find-updated (is_call suite_id id authenticate) (finished_as now completed evidence) p.call
        s.calls (λ c. refl) p.called in
    record {
      known = λ x h. record {
        identity = i;
        call = finished_as now completed evidence p.call;
        found = subst (λ d. find (is_identity e.suite_id d) s.identities ≡ some i) (sym digest) hi;
        named = ground arith;
        tenant = refl;
        called = rw (a, b) kept;
        presented = p.input ∙ sym digest;
        settled = refl;
      };
      granted = λ granted.
          let free = no_subject service suite_id id value e s a b v p in absurd (ground arith);
    }

token-IsGranted :
    (service : Service) (suite_id id value : String) (now : ℕ) (evidence : Option Evidence)
    (i : Identity) (e : Execution) (s : Store)
    → IsGranted s
    → find (is_execution suite_id id) s.executions ≡ some e
    → Presents service suite_id id value s
    → find (is_identity e.suite_id (service.digest value)) s.identities ≡ some i
    → IsGranted (
        ended suite_id id authenticate now completed evidence
          (update_all (is_execution e.suite_id e.execution_id) (identified i) s.executions)
          s)
token-IsGranted service suite_id id value now evidence i e s v he p hi =
    let (a, b) = execution_key suite_id id e s he in
    let es = update_all (is_execution e.suite_id e.execution_id) (identified i) s.executions in
    record {
      honest = v.honest;
      executions =
          updated-Fits suite_id id e (identified i) s
            (ended suite_id id authenticate now completed evidence es s) he (λ d. (refl, refl)) v
            (ended-Grows suite_id id authenticate now completed evidence es s refl) refl
            (authenticated-Fits service suite_id id value now evidence i e es s a b
              (v.executions suite_id id e he) p hi);
    }

authorized-Fits :
    (tenant : String) (e : Execution) (s s' : Store)
    → IsGranted s
    → Fits s e
    → Grows s s'
    → Fits s' (allowed_as (may_read tenant (find (of_subject e.suite_id e.subject) s.identities)) e)
authorized-Fits tenant e s s' v fits g =
    let moved = grown-Fits s s' e g fits in
    record {
      known = λ x h.
          let k = moved.known x h in
          record {
            identity = k.identity;
            call = k.call;
            found = k.found;
            named = k.named;
            tenant = k.tenant;
            called = k.called;
            presented = k.presented;
            settled = k.settled;
          };
      granted =
          λ granted. readable (find (of_subject e.suite_id e.subject) s.identities) refl granted;
    }
  where
    readable :
        (o : Option Identity)
        → find (of_subject e.suite_id e.subject) s.identities ≡ o
        → may_read tenant o ≡ true
        → e.subject ≡ some "reader"
    readable none h granted = absurd (ground arith)
    readable (some j) h granted =
        let own = find-holds (of_subject e.suite_id e.subject) j s.identities h in
        let honest =
          find-all (of_subject e.suite_id e.subject) is_honest j s.identities h v.honest in
        reader j e.subject (ground arith) (ground arith) honest
      where
        reader :
            (j : Identity) (o : Option String)
            → equals j.subject o ≡ true
            → j.can_read ≡ true
            → is_honest j ≡ true
            → o ≡ some "reader"
        reader j none a b c = absurd (ground arith)
        reader j (some z) a b c = ground (arith, eq_iff j.subject z, eq_iff j.subject "reader")

decision-IsGranted :
    (suite_id id tenant : String) (now : ℕ) (evidence : Option Evidence) (e : Execution) (s : Store)
    → IsGranted s
    → find (is_execution suite_id id) s.executions ≡ some e
    → IsGranted (
        ended suite_id id authorize now completed evidence
          (update_all
            (is_execution e.suite_id e.execution_id)
            (allowed_as (may_read tenant (find (of_subject e.suite_id e.subject) s.identities)))
            s.executions)
          s)
decision-IsGranted suite_id id tenant now evidence e s v he =
    let f = allowed_as (may_read tenant (find (of_subject e.suite_id e.subject) s.identities)) in
    let es = update_all (is_execution e.suite_id e.execution_id) f s.executions in
    let s' = ended suite_id id authorize now completed evidence es s in
    let grows = ended-Grows suite_id id authorize now completed evidence es s refl in
    record {
      honest = v.honest;
      executions =
          updated-Fits suite_id id e f s s' he (λ d. (refl, refl)) v grows refl
            (authorized-Fits tenant e s s' v (v.executions suite_id id e he) grows);
    }

module _ (service : Service) where
  pub perform-IsGranted :
      (suite_id id : String) (e : Execution) (stage : Stage) (value : String) (now : ℕ) (c : Call)
      (s : Store)
      → IsGranted s
      → find (is_execution suite_id id) s.executions ≡ some e
      → find (is_call suite_id id stage) s.calls ≡ some c
      → is_pending c.state ≡ true
      → c.input_digest ≡ service.digest value
      → Ensures
          (λ r. IsGranted (ended suite_id id stage now completed (some (r.0.1)) r.1 s))
          (perform service e stage value s)
  unfolding perform
  perform-IsGranted suite_id id e authenticate value now c s v he hc waits input =
      returns _
        (after_token (find (is_identity e.suite_id (service.digest value)) s.identities) refl)
    where
      after_token :
          (o : Option Identity)
          → find (is_identity e.suite_id (service.digest value)) s.identities ≡ o
          → IsGranted (
              ended suite_id id authenticate now completed
                (some ((authenticated e o s.executions).0.1))
                (authenticated e o s.executions).1
                s)
      after_token none h = unchanged-IsGranted suite_id id authenticate now completed _ s refl v
      after_token (some i) h =
          token-IsGranted service suite_id id value now _ i e s v he
            (record { call = c; called = hc; waits = waits; input = input }) h
  perform-IsGranted suite_id id e authorize value now c s v he hc waits input =
      returns _ (decision-IsGranted suite_id id value now _ e s v he)
  perform-IsGranted suite_id id e retrieval value now c s v he hc waits input =
      after_bind (retrieve service e value s) _
        λ r hr. returns _ (unchanged-IsGranted suite_id id retrieval now completed _ s refl v)
