-- ===== src/Approval/Once.antt =====
-- Approvals that are denied or consumed, through the histories of `ApprovalStore`.
use owasp_llm_lab_setup_guid.Base.{
  ℕ, ◌≡◌, refl, Bool, true, false, not, ◌&&◌, Option, none, some, String, List, [], ◌∷◌, ◌==◌,
  Table, lookup, is_none, ltb, ok, is_ok, arith, eq_iff, lookup-append, lookup-update, update_at,
}
use owasp_llm_lab_setup_guid.Base.Ensures.{
  Ensures, Ensures-after, returns, refuses, after_bind, after_or_raise, after_guard,
}
use owasp_llm_lab_setup_guid.Json.{Fields}
use owasp_llm_lab_setup_guid.Approval.Store.{
  Credential, Approval, Store, is_pending, is_approved, payload_of, as_bool, actor, propose, review,
  execute,
}
use owasp_llm_lab_setup_guid.Approval.Evidence.{Request, proposing, reviewing, executing}
use owasp_llm_lab_setup_guid.Approval.Review.{handle, run}

-- The approval was denied or consumed.
abbrev pub is_decided : Option Approval → Bool
is_decided none = false
is_decided (some r) = not (is_pending r.state) && not (is_approved r.state)

module _ (sha256 : String → String) (credentials : Table Credential) where
  -- What an execution that returns finds and leaves.
  execute-decided :
      (token identifier : String) (action : Fields) (now : ℕ) (s : Store)
      → Ensures
          (λ r.
            (is_decided (lookup identifier s.approvals) ≡ false)
            × (is_decided (lookup identifier (r.1).approvals) ≡ true))
          (execute sha256 credentials token identifier action now s)
  unfolding execute
  execute-decided token identifier action now s =
      after_bind (actor sha256 credentials token) _ λ (subject, role) ha.
        after_bind (payload_of action) _ λ (text, notice) hp.
          after_guard (role == "requester") _ _ λ h1.
            after_or_raise (lookup identifier s.approvals) _ _ λ row found.
              after_guard (row.requester == subject) _ _ λ own.
                after_guard (row.payload == text && ltb now row.expires && is_approved row.state) _
                  _
                  λ ready. after_guard (is_none (lookup identifier s.effects)) _ _ λ fresh.
                    returns _ (ground arith, rw (update_at identifier _ s.approvals found) refl)

  handle-decided :
      (id : String) (r : Request) (s : Store)
      → is_decided (lookup id s.approvals) ≡ true
      → is_decided (lookup id (handle sha256 credentials r s).approvals) ≡ true
  unfolding handle propose review execute
  handle-decided id (proposing token action identifier now) s h =
      Ensures-after (λ u. is_decided (lookup id u.approvals) ≡ true)
        (propose sha256 credentials token action identifier now s) h
        (after_bind (actor sha256 credentials token) _ λ (subject, role) ha.
          after_guard (role == "requester") _ _ λ h1.
            after_bind (payload_of action) _ λ (text, notice) hp.
              after_guard (is_none (lookup identifier s.approvals)) _ _
                λ fresh. returns _ (rw lookup-append (ground arith)))
  handle-decided id (reviewing token identifier approve now) s h =
      Ensures-after (λ u. is_decided (lookup id u.approvals) ≡ true)
        (review sha256 credentials token identifier approve now s) h
        (after_bind (actor sha256 credentials token) _ λ (subject, role) ha.
          after_guard (role == "reviewer") _ _ λ h1.
            after_or_raise (as_bool approve) _ _ λ decision hd.
              after_or_raise (lookup identifier s.approvals) _ _ λ row found.
                after_guard
                  (not (row.requester == subject) && ltb now row.expires && is_pending row.state) _
                  _ λ open_now. returns _ (rw lookup-update (ground (arith, eq_iff identifier id))))
  handle-decided id (executing token identifier action now) s h =
      Ensures-after (λ u. is_decided (lookup id u.approvals) ≡ true)
        (execute sha256 credentials token identifier action now s) h
        (after_bind (actor sha256 credentials token) _ λ (subject, role) ha.
          after_bind (payload_of action) _ λ (text, notice) hp.
            after_guard (role == "requester") _ _ λ h1.
              after_or_raise (lookup identifier s.approvals) _ _ λ row found.
                after_guard (row.requester == subject) _ _ λ own.
                  after_guard (row.payload == text && ltb now row.expires && is_approved row.state)
                    _ _
                    λ ready.
                      after_guard (is_none (lookup identifier s.effects)) _ _ λ fresh.
                        returns _ (rw lookup-update (ground (arith, eq_iff identifier id))))

  run-decided :
      (id : String) (rs : List Request) (s : Store)
      → is_decided (lookup id s.approvals) ≡ true
      → is_decided (lookup id (run sha256 credentials rs s).approvals) ≡ true
  unfolding run
  run-decided id [] s h = h
  run-decided id (r ∷ rs) s h =
      run-decided id rs (handle sha256 credentials r s) (handle-decided id r s h)

  -- An approval that was denied or consumed is never executed again, whatever requests come between.
  pub decided_final :
      (id : String) (s : Store)
      → is_decided (lookup id s.approvals) ≡ true
      → (rs : List Request) (token : String) (action : Fields) (later : ℕ)
      → is_ok (execute sha256 credentials token id action later (run sha256 credentials rs s))
        ≡ false
  decided_final id s h rs token action later = refuses _ (record {
    at = λ r again.
        let (free, _) =
          (execute-decided token id action later (run sha256 credentials rs s)).at r again in
        let kept = run-decided id rs s h in cc;
  })

  -- An approval is executed once: after an execution that returns, none of the same approval returns,
  -- by any token, whatever requests come between.
  pub execute_once :
      (token identifier : String) (action : Fields) (now : ℕ) (s s' : Store)
      → execute sha256 credentials token identifier action now s ≡ ok (tt, s')
      → (rs : List Request) (token' : String) (action' : Fields) (later : ℕ)
      → is_ok (
          execute sha256 credentials token' identifier action' later (run sha256 credentials rs s'))
        ≡ false
  execute_once token identifier action now s s' h =
      let (_, decided) = (execute-decided token identifier action now s).at (tt, s') h in
      decided_final identifier s' decided
