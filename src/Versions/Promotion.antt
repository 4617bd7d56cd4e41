-- ===== src/Versions/Promotion.antt =====
-- Promotion and rollback of `PolicyStore`: what they find and what they leave.
use owasp_llm_lab_setup_guid.Base.{
  ℕ, ◌+◌, ◌≤◌, ◌≡◌, ◌≢◌, refl, sym, subst, true, ◌&&◌, Option, some, String, ◌==◌, lookup, text_in,
  leb, ok, arith, eq_iff,
}
use owasp_llm_lab_setup_guid.Base.Ensures.{Ensures, returns, after_bind, after_guard}
use owasp_llm_lab_setup_guid.Versions.Store.{
  State, tested, Draft, Bundle, Store, get_draft, promote, rollback, remember, is_tested, test_time,
}
use owasp_llm_lab_setup_guid.Versions.Activation.{IsSound, get_draft-checked, remember-kept}

is_tested-tested : (x : State) → is_tested x ≡ true → x ≡ tested
is_tested-tested x h = ground arith

-- What a promotion found, and what it leaves.
pub record IsPromotion (digest : String) (now : ℕ) (s : Store) (r : (Bundle × String) × Store)
    : Type 0 where
  pub metadata : Draft
  pub found : lookup digest s.drafts ≡ some metadata
  pub based : metadata.base_digest ≡ s.active.digest
  pub state : metadata.state ≡ tested
  pub recent : now ≤ test_time metadata.tested_at + 3600
  pub active : r.1.active ≡ r.0.0
  pub digest_of : r.1.active.digest ≡ digest
  pub pointer : r.1.pointer ≡ digest
  pub previous : r.0.1 ≡ s.active.digest
  pub activated : r.1.activated ≡ remember digest s.activated

module _ (load : String → Option Bundle) where
  promote-checked :
      (digest expected : String) (now : ℕ) (s : Store)
      → Ensures (IsPromotion digest now s) (promote load digest expected now s)
  unfolding promote
  promote-checked digest expected now s =
      after_bind (get_draft load digest s) _ λ (metadata, bundle) found.
        after_guard (s.active.digest == expected && metadata.base_digest == expected) _ _ λ current.
          after_guard (is_tested metadata.state && leb now (test_time metadata.tested_at + 3600)) _
            _
            λ fresh.
              let (held, same, hex) =
                (get_draft-checked load digest s).at (metadata, bundle) found in
              returns _ (record {
                metadata = metadata;
                found = held;
                based =
                    ground (
                      arith,
                      eq_iff s.active.digest expected,
                      eq_iff metadata.base_digest expected,
                    );
                state = is_tested-tested metadata.state (ground arith);
                recent = ground arith;
                active = refl;
                digest_of = same;
                pointer = refl;
                previous = refl;
                activated = refl;
              })

  -- A version is promoted only from a draft of the active version that was tested at most 3600 seconds
  -- before, and is then the active version, to which the pointer points.
  pub promote-IsPromotion :
      (digest expected : String) (now : ℕ) (s : Store) (r : (Bundle × String) × Store)
      → promote load digest expected now s ≡ ok r
      → IsPromotion digest now s r
  promote-IsPromotion digest expected now s = (promote-checked digest expected now s).at

  -- A promotion can be taken back: in a sound store, where the promoted version is another than the
  -- active one, and the bundle of the old version can still be read, a rollback to it returns and
  -- makes it the active version again.
  pub promote-rollback :
      (digest expected : String) (now : ℕ) (s s' : Store) (bundle : Bundle) (previous : String)
      → IsSound s
      → promote load digest expected now s ≡ ok ((bundle, previous), s')
      → s.active.digest ≢ digest
      → (load' : String → Option Bundle) (old : Bundle) → load' previous ≡ some old
      → old.digest ≡ previous
      → rollback load' previous digest s'
        ≡ ok ((old, digest), record s' { pointer = s.pointer; active = old })
  unfolding rollback
  promote-rollback digest expected now s s' bundle previous v h other load' old read same =
      let p = promote-IsPromotion digest expected now s ((bundle, previous), s') h in
      let known : text_in s.active.digest s'.activated ≡ true =
        subst (λ x. text_in s.active.digest x ≡ true) (sym p.activated)
          (remember-kept digest s.active.digest s.activated v.marked) in
      ground (
        arith,
        known,
        p.digest_of,
        p.previous,
        v.hexadecimal,
        v.pointed,
        eq_iff previous digest,
        eq_iff s'.active.digest digest,
        eq_iff old.digest previous,
      )
