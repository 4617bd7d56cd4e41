-- ===== src/Approval/Review.antt =====
-- Histories of `ApprovalStore`: the proposal, the review and the execution behind every row.
use owasp_llm_lab_setup_guid.Base.{
  ℕ, ◌≡◌, ◌≢◌, refl, subst, Bool, true, false, not, ◌&&◌, Option, none, some, String, List, [], ◌∷◌,
  ◌==◌, Table, lookup, is_none, ltb, ok, after, arith, eq_iff, inl, inr, update_at,
  update_elsewhere, append_at, append_elsewhere,
}
use owasp_llm_lab_setup_guid.Base.Ensures.{
  Ensures, Ensures-after, returns, after_bind, after_or_raise, after_guard,
}
use owasp_llm_lab_setup_guid.Json.{Json, Fields, bool}
use owasp_llm_lab_setup_guid.Approval.Store.{
  Credential, Approval, Store, is_pending, is_approved, payload_of, as_bool, actor, propose,
  reviewed, review, execute,
}
use owasp_llm_lab_setup_guid.Approval.Evidence.{
  Request, past, proposing, reviewing, executing, RowsFit, IsReviewed, IsReviewed-later, changed,
  pending_alone, no_approval, approved_by, as_bool-some,
}

module _ (sha256 : String → String) (credentials : Table Credential) where
  in_role :
      (token subject role wanted : String)
      → actor sha256 credentials token ≡ ok (subject, role)
      → (role == wanted) ≡ true
      → actor sha256 credentials token ≡ ok (subject, wanted)
  in_role token subject role wanted h e =
      subst (λ x. actor sha256 credentials token ≡ ok (subject, x)) ((eq_iff role wanted).0 e) h

  propose-IsReviewed :
      (log : List Request) (token : String) (action : Fields) (identifier : String) (now : ℕ)
      (s : Store)
      → IsReviewed sha256 credentials log s
      → Ensures
          (λ r. IsReviewed sha256 credentials (proposing token action identifier now ∷ log) r.1)
          (propose sha256 credentials token action identifier now s)
  unfolding propose
  propose-IsReviewed log token action identifier now s v =
      after_bind (actor sha256 credentials token) _ λ (subject, role) ha.
        after_guard (role == "requester") _ _ λ h1.
          after_bind (payload_of action) _ λ (text, notice) hp.
            after_guard (is_none (lookup identifier s.approvals)) _ _ λ fresh.
              let unused : lookup identifier s.approvals ≡ none = ground arith in
              let alone =
                no_approval sha256 credentials log identifier (lookup identifier s.effects) (
                  subst
                    (λ x. RowsFit sha256 credentials log identifier x (lookup identifier s.effects))
                    unused (v.rows identifier)) in
              let acts = in_role token subject role "requester" ha h1 in
              returns _ (
                changed sha256 credentials _ log identifier s _ v
                  (rw (append_at identifier _ s.approvals unused)
                    (alone, inl (refl, acts, (notice, hp), refl)))
                  (λ j ne. (append_elsewhere identifier j _ s.approvals ne, refl)))

  -- The row after a review, with the review as its evidence.
  decided_fits :
      (log : List Request) (token identifier subject : String) (approve : Json) (now : ℕ)
      (answer : Bool) (r : Approval) (e : Option String)
      → actor sha256 credentials token ≡ ok (subject, "reviewer")
      → as_bool approve ≡ some answer
      → (not (r.requester == subject) && ltb now r.expires && is_pending r.state) ≡ true
      → RowsFit sha256 credentials log identifier (some r) e
      → RowsFit sha256 credentials
          (reviewing token identifier approve now ∷ log)
          identifier
          (some (reviewed answer subject r))
          e
  decided_fits log token identifier subject approve now answer r e acts given open_now h =
      by_answer answer (as_bool-some approve answer given)
    where
      other : subject ≢ r.requester
      other = ground (arith, eq_iff r.requester subject)

      alone : e ≡ none
      alone = pending_alone sha256 credentials log identifier r e h (ground arith)

      by_answer :
          (b : Bool)
          → approve ≡ bool b
          → RowsFit sha256 credentials
              (reviewing token identifier approve now ∷ log)
              identifier
              (some (reviewed b subject r))
              e
      by_answer true same =
          ((alone, inl (refl, same, (subject, acts, refl, other), ground arith)), inr h.1)
      by_answer false same =
          ((alone, inl (refl, same, (subject, acts, refl, other), ground arith)), inr h.1)

  review-IsReviewed :
      (log : List Request) (token identifier : String) (approve : Json) (now : ℕ) (s : Store)
      → IsReviewed sha256 credentials log s
      → Ensures
          (λ r. IsReviewed sha256 credentials (reviewing token identifier approve now ∷ log) r.1)
          (review sha256 credentials token identifier approve now s)
  unfolding review
  review-IsReviewed log token identifier approve now s v =
      after_bind (actor sha256 credentials token) _ λ (subject, role) ha.
        after_guard (role == "reviewer") _ _ λ h1.
          after_or_raise (as_bool approve) _ _ λ decision hd.
            after_or_raise (lookup identifier s.approvals) _ _ λ row found.
              after_guard
                (not (row.requester == subject) && ltb now row.expires && is_pending row.state) _ _
                λ open_now. returns _ (
                  changed sha256 credentials _ log identifier s _ v
                    (rw (update_at identifier _ s.approvals found) (
                      decided_fits log token identifier subject approve now decision row _
                        (in_role token subject role "reviewer" ha h1) hd open_now
                        (subst
                          (λ x.
                            RowsFit sha256 credentials log identifier x
                              (lookup identifier s.effects))
                          found (v.rows identifier))))
                    (λ j ne. (update_elsewhere identifier j _ s.approvals ne, refl)))

  execute-IsReviewed :
      (log : List Request) (token identifier : String) (action : Fields) (now : ℕ) (s : Store)
      → IsReviewed sha256 credentials log s
      → Ensures
          (λ r. IsReviewed sha256 credentials (executing token identifier action now ∷ log) r.1)
          (execute sha256 credentials token identifier action now s)
  unfolding execute
  execute-IsReviewed log token identifier action now s v =
      after_bind (actor sha256 credentials token) _ λ (subject, role) ha.
        after_bind (payload_of action) _ λ (text, notice) hp.
          after_guard (role == "requester") _ _ λ h1.
            after_or_raise (lookup identifier s.approvals) _ _ λ row found.
              after_guard (row.requester == subject) _ _ λ own.
                after_guard (row.payload == text && ltb now row.expires && is_approved row.state) _
                  _
                  λ ready. after_guard (is_none (lookup identifier s.effects)) _ _ λ fresh.
                    let unused : lookup identifier s.effects ≡ none = ground arith in
                    let before =
                      subst
                        (λ x.
                          RowsFit sha256 credentials log identifier x (lookup identifier s.effects))
                        found (v.rows identifier) in
                    let granted =
                      approved_by sha256 credentials log identifier row _ before (ground arith) in
                    let same : text ≡ row.payload = ground (arith, eq_iff row.payload text) in
                    let self : subject ≡ row.requester =
                      ground (arith, eq_iff row.requester subject) in
                    let acts =
                      subst (λ x. actor sha256 credentials token ≡ ok (x, "requester")) self
                        (in_role token subject role "requester" ha h1) in
                    let told = subst (λ x. payload_of action ≡ ok (x, notice)) same hp in
                    returns _ (
                      changed sha256 credentials _ log identifier s _ v
                        (rw
                          (
                            update_at identifier _ s.approvals found,
                            append_at identifier notice s.effects unused,
                          )
                          (
                            ((notice, refl, inl (refl, acts, told, ground arith)), inr granted),
                            inr before.1,
                          ))
                        (λ j ne. (
                          update_elsewhere identifier j _ s.approvals ne,
                          append_elsewhere identifier j notice s.effects ne,
                        )))

  unfoldable pub handle : Request → Store → Store
  unfolding propose review execute
  handle (proposing token action identifier now) s =
      after (propose sha256 credentials token action identifier now s) s
  handle (reviewing token identifier approve now) s =
      after (review sha256 credentials token identifier approve now s) s
  handle (executing token identifier action now) s =
      after (execute sha256 credentials token identifier action now s) s

  unfoldable pub run : List Request → Store → Store
  unfolding handle
  run [] s = s
  run (r ∷ rs) s = run rs (handle r s)

  handle-IsReviewed :
      (r : Request) (log : List Request) (s : Store)
      → IsReviewed sha256 credentials log s
      → IsReviewed sha256 credentials (r ∷ log) (handle r s)
  unfolding handle
  handle-IsReviewed (proposing token action identifier now) log s v =
      Ensures-after (IsReviewed sha256 credentials (proposing token action identifier now ∷ log))
        (propose sha256 credentials token action identifier now s)
        (IsReviewed-later sha256 credentials _ log s v)
        (propose-IsReviewed log token action identifier now s v)
  handle-IsReviewed (reviewing token identifier approve now) log s v =
      Ensures-after (IsReviewed sha256 credentials (reviewing token identifier approve now ∷ log))
        (review sha256 credentials token identifier approve now s)
        (IsReviewed-later sha256 credentials _ log s v)
        (review-IsReviewed log token identifier approve now s v)
  handle-IsReviewed (executing token identifier action now) log s v =
      Ensures-after (IsReviewed sha256 credentials (executing token identifier action now ∷ log))
        (execute sha256 credentials token identifier action now s)
        (IsReviewed-later sha256 credentials _ log s v)
        (execute-IsReviewed log token identifier action now s v)

  -- Whatever requests come, at whatever times, to a store that the requests so far account for, those
  -- and the new ones account for it: every effect is that of an approval which its requester proposed,
  -- which a reviewer other than the requester approved before it expired, and which the requester then
  -- executed with the same text and the notice of the effect; every approved or denied row was decided
  -- so by another person; and an approval that is not consumed has no effect.
  pub run-IsReviewed :
      (rs log : List Request) (s : Store)
      → IsReviewed sha256 credentials log s
      → IsReviewed sha256 credentials (past rs log) (run rs s)
  unfolding run past
  run-IsReviewed [] log s v = v
  run-IsReviewed (r ∷ rs) log s v =
      run-IsReviewed rs (r ∷ log) (handle r s) (handle-IsReviewed r log s v)
