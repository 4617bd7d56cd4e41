-- ===== src/Actions/Runs.antt =====
-- Histories of the provider, and its accounts through them.
use owasp_llm_lab_setup_guid.Base.{
  ℕ, refl, ◌+◌, not, ◌&&◌, Option, String, List, [], ◌∷◌, ◌==◌, lookup, any, is_none, after, arith,
}
use owasp_llm_lab_setup_guid.Base.Ensures.{
  Ensures, Ensures-after, returns, after_bind, after_or_raise, after_guard,
}
use owasp_llm_lab_setup_guid.Clock.{seconds}
use owasp_llm_lab_setup_guid.Actions.Rows.{CaseId, is_write, Database, find_capability}
use owasp_llm_lab_setup_guid.Actions.Tokens.{Library, bearer, verify_capability}
use owasp_llm_lab_setup_guid.Actions.Provider.{
  SuiteRequest, is_suite_request, ExecuteRequest, is_execute_request, grant_all, create_suite,
}
use owasp_llm_lab_setup_guid.Actions.Execution.{in_scope, is_assigned, execute_action}
use owasp_llm_lab_setup_guid.Actions.Balance.{
  IsBalanced, created-Accounted, grant_all-used, apply_action-IsBalanced,
}

-- One call of an endpoint that writes.
pub data Request : Type 0 where
  creating : Option String → SuiteRequest → (CaseId → String) → ℕ → Request
  acting :
      Option String → ExecuteRequest → (call_id effect_id : String) → (checked now : ℕ) → Request

module _ (library : Library) (control_token action_token : String) where
  create_suite-IsBalanced :
      (authorization : Option String) (r : SuiteRequest) (nonces : CaseId → String) (now : ℕ)
      (d : Database)
      → IsBalanced d
      → Ensures
          (λ x. IsBalanced x.1)
          (create_suite library control_token authorization r nonces now d)
  unfolding create_suite
  create_suite-IsBalanced authorization r nonces now d v =
      after_bind (bearer control_token authorization) _ λ u hu.
        after_guard (is_suite_request r) _ _ λ fits.
          after_guard (is_none (lookup r.suite_id d.suites)) _ _ λ absent.
            after_bind
              (grant_all library nonces r.suite_id (now + seconds 300) r.executions d.capabilities)
              _
              λ (grants, rows) h.
                let used =
                  (grant_all-used library nonces r.suite_id (now + seconds 300) r.executions
                      d.capabilities).at
                    (grants, rows) h in
                returns _ (record {
                  suites = λ id.
                      created-Accounted id r.suite_id _ d.suites _ (ground arith) refl
                        (v.suites id);
                  writes = v.writes;
                  calls = ground (arith, v.calls, used);
                })

  execute_action-IsBalanced :
      (authorization : Option String) (r : ExecuteRequest) (call_id effect_id : String)
      (checked now : ℕ) (d : Database)
      → IsBalanced d
      → Ensures
          (λ x. IsBalanced x.1)
          (execute_action library action_token authorization r call_id effect_id checked now d)
  unfolding execute_action
  execute_action-IsBalanced authorization r call_id effect_id checked now d v =
      let digest = library.sha256 r.capability in
      after_bind (bearer action_token authorization) _ λ u hu.
        after_guard (is_execute_request r) _ _ λ fits.
          after_bind (verify_capability library r.capability checked) _ λ payload hp.
            after_guard (in_scope r payload) _ _ λ scope.
              after_guard (is_assigned r.case_id r.action_id) _ _ λ assigned.
                after_or_raise (find_capability digest d.capabilities) _ _ λ c found.
                  after_guard (is_none c.used_at) _ _ λ unused.
                    after_or_raise (lookup r.suite_id d.suites) _ _ λ s known.
                      after_guard (not (any (λ x. x.provider_call_id == call_id) d.calls)) _ _ λ h1.
                        after_guard
                          (not
                            (is_write r.action_id && any (λ e. e.effect_id == effect_id) d.effects))
                          _ _
                          λ h2. returns _ (
                            apply_action-IsBalanced r digest call_id effect_id now s c d v found
                              (ground arith) known)

  unfoldable pub handle : Request → Database → Database
  unfolding create_suite execute_action
  handle (creating authorization r nonces now) d =
      after (create_suite library control_token authorization r nonces now d) d
  handle (acting authorization r call_id effect_id checked now) d =
      after (execute_action library action_token authorization r call_id effect_id checked now d) d

  unfoldable pub run : List Request → Database → Database
  unfolding handle
  run [] d = d
  run (r ∷ rs) d = run rs (handle r d)

  handle-IsBalanced : (r : Request) (d : Database) → IsBalanced d → IsBalanced (handle r d)
  unfolding handle
  handle-IsBalanced (creating authorization r nonces now) d v =
      Ensures-after IsBalanced (create_suite library control_token authorization r nonces now d) v
        (create_suite-IsBalanced authorization r nonces now d v)
  handle-IsBalanced (acting authorization r call_id effect_id checked now) d v =
      Ensures-after IsBalanced
        (execute_action library action_token authorization r call_id effect_id checked now d) v
        (execute_action-IsBalanced authorization r call_id effect_id checked now d v)

  -- Whatever requests come, at whatever times, the balance of each suite is 10000 less 100 for each
  -- effect of the suite, a suite that is not stored has no effect, the effects of a suite are as many
  -- as its calls of actions that write, and all calls are as many as the capabilities that are used,
  -- if this holds at first.
  pub run-IsBalanced : (rs : List Request) (d : Database) → IsBalanced d → IsBalanced (run rs d)
  unfolding run
  run-IsBalanced [] d v = v
  run-IsBalanced (r ∷ rs) d v = run-IsBalanced rs (handle r d) (handle-IsBalanced r d v)
