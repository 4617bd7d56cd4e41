-- ===== src/Actions/Once.antt =====
-- Capabilities of the provider that are used.
use owasp_llm_lab_setup_guid.Base.{
  ℕ, ◌+◌, ◌≡◌, Bool, true, false, not, ◌&&◌, Option, none, some, String, List, [], ◌∷◌, ◌++◌, ◌==◌,
  lookup, any, is_none, ok, is_ok, arith,
}
use owasp_llm_lab_setup_guid.Base.Ensures.{
  Ensures, Ensures-after, returns, refuses, after_bind, after_or_raise, after_guard,
}
use owasp_llm_lab_setup_guid.Clock.{seconds}
use owasp_llm_lab_setup_guid.Actions.Rows.{
  CaseId, is_write, Capability, Database, find_capability, use_capability,
}
use owasp_llm_lab_setup_guid.Actions.Tokens.{Library, bearer, verify_capability}
use owasp_llm_lab_setup_guid.Actions.Provider.{
  SuiteExecution, SuiteRequest, is_suite_request, ExecuteRequest, is_execute_request,
  ActionResponse, new_capability, conflicts, token_of, grant_all, create_suite,
}
use owasp_llm_lab_setup_guid.Actions.Execution.{in_scope, is_assigned, apply_action, execute_action}
use owasp_llm_lab_setup_guid.Actions.Runs.{Request, creating, acting, handle, run}

-- The capability is there and used.
abbrev is_spent : Option Capability → Bool
is_spent none = false
is_spent (some c) = not (is_none c.used_at)

spent-append :
    (digest : String) (c : Capability) (cs : List Capability)
    → is_spent (find_capability digest cs) ≡ true
    → is_spent (find_capability digest (cs ++ c ∷ [])) ≡ true
unfolding find_capability
spent-append digest c [] h = cc
spent-append digest c (d ∷ cs) h = ground (arith, spent-append digest c cs)

spent-use :
    (digest key : String) (t : ℕ) (cs : List Capability)
    → is_spent (find_capability digest cs) ≡ true
    → is_spent (find_capability digest (use_capability t key cs)) ≡ true
unfolding find_capability use_capability
spent-use digest key t [] h = cc
spent-use digest key t (d ∷ cs) h = ground (arith, spent-use digest key t cs)

use-spent :
    (digest : String) (t : ℕ) (cs : List Capability) (c : Capability)
    → find_capability digest cs ≡ some c
    → is_spent (find_capability digest (use_capability t digest cs)) ≡ true
unfolding find_capability use_capability
use-spent digest t [] c h = cc
use-spent digest t (d ∷ cs) c h = ground (arith, use-spent digest t cs c)

module _ (library : Library) where
  grant_all-spent :
      (key : String) (nonces : CaseId → String) (suite_id : String) (expires_at : ℕ)
      (xs : List SuiteExecution) (cs : List Capability)
      → is_spent (find_capability key cs) ≡ true
      → Ensures
          (λ r. is_spent (find_capability key r.1) ≡ true)
          (grant_all library nonces suite_id expires_at xs cs)
  unfolding grant_all
  grant_all-spent key nonces suite_id expires_at [] cs h = returns _ h
  grant_all-spent key nonces suite_id expires_at (x ∷ xs) cs h =
      let digest = library.sha256 (token_of library nonces suite_id expires_at x) in
      let row = new_capability suite_id expires_at digest x in
      after_guard (not (any (conflicts suite_id x.case_id digest) cs)) _ _ λ fresh.
        after_bind (grant_all library nonces suite_id expires_at xs (cs ++ row ∷ [])) _
          λ (grants, rows) e. returns _ (
            (grant_all-spent key nonces suite_id expires_at xs (cs ++ row ∷ [])
                (spent-append key row cs h)).at
              (grants, rows) e)

module _ (library : Library) (control_token action_token : String) where
  create_suite-spent :
      (key : String) (authorization : Option String) (r : SuiteRequest) (nonces : CaseId → String)
      (now : ℕ) (d : Database)
      → is_spent (find_capability key d.capabilities) ≡ true
      → Ensures
          (λ x. is_spent (find_capability key (x.1).capabilities) ≡ true)
          (create_suite library control_token authorization r nonces now d)
  unfolding create_suite
  create_suite-spent key authorization r nonces now d v =
      after_bind (bearer control_token authorization) _ λ u hu.
        after_guard (is_suite_request r) _ _ λ fits.
          after_guard (is_none (lookup r.suite_id d.suites)) _ _ λ absent.
            after_bind
              (grant_all library nonces r.suite_id (now + seconds 300) r.executions d.capabilities)
              _
              λ (grants, rows) h. returns _ (
                (grant_all-spent library key nonces r.suite_id (now + seconds 300) r.executions
                    d.capabilities v).at
                  (grants, rows) h)

  -- What an action that returns finds and leaves, of its own capability and of another that is used.
  execute_action-spent :
      (authorization : Option String) (r : ExecuteRequest) (call_id effect_id : String)
      (checked now : ℕ) (d : Database)
      → Ensures
          (λ x.
            (is_spent (find_capability (library.sha256 r.capability) d.capabilities) ≡ false)
            × (is_spent (find_capability (library.sha256 r.capability) (x.1).capabilities) ≡ true)
            × ((key : String)
                → is_spent (find_capability key d.capabilities) ≡ true
                → is_spent (find_capability key (x.1).capabilities) ≡ true))
          (execute_action library action_token authorization r call_id effect_id checked now d)
  unfolding execute_action apply_action
  execute_action-spent authorization r call_id effect_id checked now d =
      let digest = library.sha256 r.capability in
      after_bind (bearer action_token authorization) _ λ u hu.
        after_guard (is_execute_request r) _ _ λ fits.
          after_bind (verify_capability library r.capability checked) _ λ payload hp.
            after_guard (in_scope r payload) _ _ λ scope.
              after_guard (is_assigned r.case_id r.action_id) _ _ λ assigned.
                after_or_raise (find_capability digest d.capabilities) _ _ λ c found.
                  after_guard (is_none c.used_at) _ _ λ unused.
                    after_or_raise (lookup r.suite_id d.suites) _ _ λ s known.
                      after_guard (not (any (λ x. x.provider_call_id == call_id) d.calls)) _ _ λ h1.
                        after_guard
                          (not
                            (is_write r.action_id && any (λ e. e.effect_id == effect_id) d.effects))
                          _ _
                          λ h2. returns _ (
                            ground arith,
                            use-spent digest now d.capabilities c found,
                            λ key h. spent-use key digest now d.capabilities h,
                          )

  handle-spent :
      (key : String) (r : Request) (d : Database)
      → is_spent (find_capability key d.capabilities) ≡ true
      → is_spent (find_capability key (handle library control_token action_token r d).capabilities)
        ≡ true
  unfolding handle
  handle-spent key (creating authorization r nonces now) d h =
      Ensures-after (λ x. is_spent (find_capability key x.capabilities) ≡ true)
        (create_suite library control_token authorization r nonces now d) h
        (create_suite-spent key authorization r nonces now d h)
  handle-spent key (acting authorization r call_id effect_id checked now) d h =
      Ensures-after (λ x. is_spent (find_capability key x.capabilities) ≡ true)
        (execute_action library action_token authorization r call_id effect_id checked now d) h
        (record {
          at = λ x e.
              let (_, _, kept) =
                (execute_action-spent authorization r call_id effect_id checked now d).at x e in
              kept key h;
        })

  run-spent :
      (key : String) (rs : List Request) (d : Database)
      → is_spent (find_capability key d.capabilities) ≡ true
      → is_spent (find_capability key (run library control_token action_token rs d).capabilities)
        ≡ true
  unfolding run
  run-spent key [] d h = h
  run-spent key (r ∷ rs) d h =
      run-spent key rs (handle library control_token action_token r d) (handle-spent key r d h)

  -- A capability is used once: after an action that returns, no action with the same token returns,
  -- for any request and at any time, whatever requests come between.
  pub act_once :
      (authorization : Option String) (r : ExecuteRequest) (call_id effect_id : String)
      (checked now : ℕ) (d d' : Database) (response : ActionResponse)
      → execute_action library action_token authorization r call_id effect_id checked now d
        ≡ ok (response, d')
      → (rs : List Request) (authorization' : Option String) (r' : ExecuteRequest)
        (call_id' effect_id' : String) (checked' later : ℕ)
      → r'.capability ≡ r.capability
      → is_ok (
          execute_action library action_token authorization' r' call_id' effect_id' checked' later
            (run library control_token action_token rs d'))
        ≡ false
  act_once authorization r call_id effect_id checked now d d' response h rs authorization' r'
        call_id' effect_id' checked' later same =
      let (_, spent, _) =
        (execute_action-spent authorization r call_id effect_id checked now d).at (response, d')
          h in
      let kept = run-spent (library.sha256 r.capability) rs d' spent in
      refuses _ (record {
        at = λ x again.
            let (free, _, _) =
              (execute_action-spent authorization' r' call_id' effect_id' checked' later
                  (run library control_token action_token rs d')).at
                x again in
            cc;
      })
