-- ===== src/Capability/Preserve.antt =====
-- What the operations of P12 do to the invariant of the store and to the uses of its grants.
use owasp_llm_lab_setup_guid.Base.{
  all_updated, ◌∙◌, subst, same_value, sym, ℕ, ◌≡◌, ◌≢◌, refl, ap, ◌&&◌, not, some, String, Table,
  lookup, update, exists, arith, eq_iff, ◌==◌, Bool-cases, inl, inr, is_none, ltb, leb, update_at,
  update_elsewhere,
}
use owasp_llm_lab_setup_guid.Base.Ensures.{
  Ensures, returns, after_bind, after_or_raise, after_guard,
}
use owasp_llm_lab_setup_guid.Json.{Json, Fields}
use owasp_llm_lab_setup_guid.Capability.Rows.{Grant, Store}
use owasp_llm_lab_setup_guid.Capability.Operations.{
  is_issued, is_reserved, checked_binding, in_scope, reserve, fail,
}
use owasp_llm_lab_setup_guid.Capability.Completion.{complete, read_reply, role_evidence}
use owasp_llm_lab_setup_guid.Capability.Invariant.{GrantFits, IsValid, Later, Step}

pub Later-refl : (g : Grant) → Later g g
Later-refl g = record {
  suite_id = refl;
  execution_id = refl;
  role = refl;
  model = refl;
  expires = refl;
  spent = λ h. h;
  final = λ h. refl;
}

module _ {s : Store} (v : IsValid s) (key : String) (f : Grant → Grant) {g : Grant}
    (found : lookup key s.grants ≡ some g) where
  update-IsValid :
      (ids : Table String)
      → GrantFits s.suites (f g)
      → IsValid (record s { grants = update key f s.grants; provider_ids = ids })
  update-IsValid ids fits = record {
    grants = all_updated key f s.grants (GrantFits s.suites) found fits v.grants;
  }

  update-Step :
      (ids : Table String)
      → Later g (f g)
      → Step s (record s { grants = update key f s.grants; provider_ids = ids })
  update-Step ids later = record {
    grants = λ k h hk. elim (Bool-cases (key == k)) [
      | inl same ↦
          let eq : key ≡ k = (eq_iff key k).0 same in
          let old : lookup key s.grants ≡ some h = ap (λ x. lookup x s.grants) eq ∙ hk in
          (
            f g,
            ap (λ x. lookup x (update key f s.grants)) (sym eq) ∙ update_at key f s.grants found,
            subst (λ x. Later x (f g)) (same_value g h (sym found ∙ old)) later,
          )
      | inr other ↦
          let ne : key ≢ k = ground (arith, eq_iff key k) in
          (h, update_elsewhere key k f s.grants ne ∙ hk, Later-refl h)
    ];
    closed = λ k x t h c. h;
  }

-- An operation that keeps the store well formed, in a step that takes no use back.
abbrev pub Good : {A : Type 0} → Store → A × Store → Type 0
Good s r = IsValid r.1 × Step s r.1

module _ (sha256 : String → String) (s : Store) (v : IsValid s) where
  pub reserve-Good :
      (token : Json) (suite execution role model : String) (request : Json) (current : ℕ)
      → Ensures (Good s) (reserve sha256 token suite execution role model request current s)
  unfolding reserve
  reserve-Good token suite execution role model request current =
      after_bind (checked_binding token request) _ λ (secret, d) hb.
        after_or_raise (lookup (sha256 secret) s.grants) _ _ λ g hg.
          after_or_raise (lookup g.suite_id s.suites) _ _ λ parent hp.
            after_guard (in_scope g suite execution role model) _ _ λ scope.
              after_guard (is_none parent.closed && is_issued g.state) _ _ λ fresh.
                after_guard (leb g.issued_at current && ltb current g.expires) _ _ λ alive.
                  let fits = v.grants (sha256 secret) g hg in
                  returns _ (
                    update-IsValid v (sha256 secret) _ hg s.provider_ids (ground arith),
                    update-Step v (sha256 secret) _ hg s.provider_ids (ground arith),
                  )

  pub fail-Good : (token : String) (current : ℕ) → Ensures (Good s) (fail sha256 token current s)
  unfolding fail
  fail-Good token current = after_or_raise (lookup (sha256 token) s.grants) _ _ λ g hg.
      after_guard (is_reserved g.state) _ _ λ busy.
        let fits = v.grants (sha256 token) g hg in
        returns _ (
          update-IsValid v (sha256 token) _ hg s.provider_ids (ground arith),
          update-Step v (sha256 token) _ hg s.provider_ids (ground arith),
        )

  pub complete-Good :
      (token : String) (provider : Fields) (current : ℕ)
      → Ensures (Good s) (complete sha256 token provider current s)
  unfolding complete
  complete-Good token provider current = after_bind (read_reply provider) _ λ r hr.
      after_or_raise (lookup (sha256 token) s.grants) _ _ λ g hg.
        after_guard (is_reserved g.state) _ _ λ busy.
          after_bind (role_evidence g.role r.text provider) _ λ more hm.
            after_guard (is_none (lookup r.request_id s.provider_ids)) _ _ λ h1.
              after_guard (not (exists (λ d. d == sha256 token) s.provider_ids)) _ _ λ h2.
                let fits = v.grants (sha256 token) g hg in
                returns _ (
                  update-IsValid v (sha256 token) _ hg _ (ground arith),
                  update-Step v (sha256 token) _ hg _ (ground arith),
                )
