-- ===== src/Versions/Activation.antt =====
-- Histories of `PolicyStore`: the pointer, the active version and the versions that were activated.
use owasp_llm_lab_setup_guid.Base.{
  ℕ, ◌+◌, ◌≡◌, ◌⊎◌, sym, subst, Bool, true, false, not, ◌&&◌, Option, some, String, List, [], ◌∷◌,
  ◌==◌, lookup, update, text_in, is_sha256_hex, leb, after, arith, eq_iff, eq_refl, lookup-append,
  lookup-update, Option-cases, Bool-cases, inl, inr,
}
use owasp_llm_lab_setup_guid.Base.Ensures.{
  Ensures, Ensures-after, returns, raises, after_bind, after_or_raise, after_guard, after_if,
}
use owasp_llm_lab_setup_guid.Versions.Store.{
  State, draft, tested, active, Draft, Bundle, Store, new_draft, record_draft, create_draft,
  get_draft, mark_tested, promote, rollback, remember, is_testable, is_tested, test_time,
}

abbrev is_active : State → Bool
is_active draft = false
is_active tested = false
is_active active = true

-- A state whose pointer names the active version, which was activated, as was every draft that is
-- marked active.
pub record IsSound (s : Store) : Type 0 where
  pub pointed : s.pointer ≡ s.active.digest
  pub hexadecimal : is_sha256_hex s.active.digest ≡ true
  pub marked : text_in s.active.digest s.activated ≡ true
  pub drafts :
      (k : String) (d : Draft)
      → lookup k s.drafts ≡ some d
      → is_active d.state ≡ true
      → text_in k s.activated ≡ true

-- One call of a method that writes.
pub data Request : Type 0 where
  creating : Bundle → String → ℕ → Request
  testing : (String → Option Bundle) → (digest expected : String) → ℕ → Request
  promoting : (String → Option Bundle) → (digest expected : String) → ℕ → Request
  returning : (String → Option Bundle) → (target expected : String) → Request

unfoldable pub handle : Request → Store → Store
unfolding create_draft mark_tested promote rollback
handle (creating bundle base now) s = after (create_draft bundle base now s) s
handle (testing load digest expected now) s = after (mark_tested load digest expected now s) s
handle (promoting load digest expected now) s = after (promote load digest expected now s) s
handle (returning load target expected) s = after (rollback load target expected s) s

unfoldable pub run : List Request → Store → Store
unfolding handle
run [] s = s
run (r ∷ rs) s = run rs (handle r s)

create_draft-IsSound :
    (bundle : Bundle) (base : String) (now : ℕ) (s : Store)
    → IsSound s
    → Ensures (λ r. IsSound r.1) (create_draft bundle base now s)
unfolding create_draft record_draft
create_draft-IsSound bundle base now s v = after_guard (base == s.active.digest) _ _ λ current.
    after_guard (not (bundle.version == s.active.version)) _ _ λ differs.
      elim (Option-cases (lookup bundle.digest s.drafts)) [
        | inr (previous, known) ↦
            rw (known, record_draft)
              (after_if (previous.base_digest == base) _ _ (λ same. returns _ v)
                (λ other. raises _))
        | inl absent ↦
            rw (absent, record_draft)
              (returns _ (record {
                pointed = v.pointed;
                hexadecimal = v.hexadecimal;
                marked = v.marked;
                drafts = λ k d h a. ground (
                  arith,
                  v.drafts k d,
                  lookup-append bundle.digest k (new_draft bundle base now) s.drafts,
                );
              }))
      ]

pub remember-kept :
    (digest k : String) (names : List String)
    → text_in k names ≡ true
    → text_in k (remember digest names) ≡ true
unfolding remember text_in
remember-kept digest k names h = ground arith

remember-marked :
    (digest : String) (names : List String) → text_in digest (remember digest names) ≡ true
unfolding remember text_in
remember-marked digest names = ground (arith, eq_refl digest)

-- No draft is marked active by a test.
not_marked :
    (digest k : String) (now : ℕ) (s : Store)
    → IsSound s
    → ((digest == k) ≡ true) ⊎ ((digest == k) ≡ false)
    → (d : Draft)
    → lookup k (update digest (λ e. record e { state = tested; tested_at = some now }) s.drafts)
      ≡ some d
    → is_active d.state ≡ true
    → text_in k s.activated ≡ true
not_marked digest k now s v (inl same) d h a = ground (
  arith,
  lookup-update digest k (λ e. record e { state = tested; tested_at = some now }) s.drafts,
)
not_marked digest k now s v (inr other) d h a = ground (
  arith,
  v.drafts k d,
  lookup-update digest k (λ e. record e { state = tested; tested_at = some now }) s.drafts,
)

-- A draft that is active after a promotion was activated.
activated_draft :
    (digest k : String) (now : ℕ) (s : Store)
    → IsSound s
    → ((digest == k) ≡ true) ⊎ ((digest == k) ≡ false)
    → (d : Draft)
    → lookup k (update digest (λ e. record e { state = active; activated_at = some now }) s.drafts)
      ≡ some d
    → is_active d.state ≡ true
    → text_in k (remember digest s.activated) ≡ true
activated_draft digest k now s v (inl same) d h a =
    subst (λ x. text_in x (remember digest s.activated) ≡ true) ((eq_iff digest k).0 same)
      (remember-marked digest s.activated)
activated_draft digest k now s v (inr other) d h a = remember-kept digest k s.activated (
    ground (
      arith,
      v.drafts k d,
      lookup-update digest k (λ e. record e { state = active; activated_at = some now }) s.drafts,
    ))

module _ (load : String → Option Bundle) where
  -- What `get_draft` returns.
  pub get_draft-checked :
      (digest : String) (s : Store)
      → Ensures
          (λ r.
            (lookup digest s.drafts ≡ some r.0)
            × (r.1.digest ≡ digest)
            × (is_sha256_hex digest ≡ true))
          (get_draft load digest s)
  unfolding get_draft
  get_draft-checked digest s = after_guard (is_sha256_hex digest) _ _ λ hex.
      after_or_raise (lookup digest s.drafts) _ _ λ metadata found.
        after_or_raise (load digest) _ _ λ bundle read.
          after_guard (metadata.digest == digest && bundle.digest == digest) _ _
            λ same. returns _ (found, ground (arith, eq_iff bundle.digest digest), hex)

  mark_tested-IsSound :
      (digest expected : String) (now : ℕ) (s : Store)
      → IsSound s
      → Ensures (λ r. IsSound r.1) (mark_tested load digest expected now s)
  unfolding mark_tested
  mark_tested-IsSound digest expected now s v =
      after_bind (get_draft load digest s) _ λ (metadata, bundle) found.
        after_guard (s.active.digest == expected && metadata.base_digest == expected) _ _ λ current.
          after_guard (is_testable metadata.state) _ _ λ open_now. returns _ (record {
            pointed = v.pointed;
            hexadecimal = v.hexadecimal;
            marked = v.marked;
            drafts = λ k d h a. not_marked digest k now s v (Bool-cases (digest == k)) d h a;
          })

  promote-IsSound :
      (digest expected : String) (now : ℕ) (s : Store)
      → IsSound s
      → Ensures (λ r. IsSound r.1) (promote load digest expected now s)
  unfolding promote
  promote-IsSound digest expected now s v =
      after_bind (get_draft load digest s) _ λ (metadata, bundle) found.
        after_guard (s.active.digest == expected && metadata.base_digest == expected) _ _ λ current.
          after_guard (is_tested metadata.state && leb now (test_time metadata.tested_at + 3600)) _
            _
            λ recent.
              let (held, same, hex) = (get_draft-checked digest s).at (metadata, bundle) found in
              returns _ (record {
                pointed = sym same;
                hexadecimal = subst (λ x. is_sha256_hex x ≡ true) (sym same) hex;
                marked =
                    subst (λ x. text_in x (remember digest s.activated) ≡ true) (sym same)
                      (remember-marked digest s.activated);
                drafts =
                    λ k d h a. activated_draft digest k now s v (Bool-cases (digest == k)) d h a;
              })

  rollback-IsSound :
      (target expected : String) (s : Store)
      → IsSound s
      → Ensures (λ r. IsSound r.1) (rollback load target expected s)
  unfolding rollback
  rollback-IsSound target expected s v = after_guard (s.active.digest == expected) _ _ λ current.
      after_guard (not (target == expected)) _ _ λ other.
        after_guard (is_sha256_hex target) _ _ λ hex.
          after_guard (text_in target s.activated) _ _ λ known.
            after_or_raise (load target) _ _ λ bundle read.
              after_guard (bundle.digest == target) _ _ λ same.
                let eq = (eq_iff bundle.digest target).0 same in
                returns _ (record {
                  pointed = sym eq;
                  hexadecimal = subst (λ x. is_sha256_hex x ≡ true) (sym eq) hex;
                  marked = subst (λ x. text_in x s.activated ≡ true) (sym eq) known;
                  drafts = v.drafts;
                })

handle-IsSound : (r : Request) (s : Store) → IsSound s → IsSound (handle r s)
unfolding handle
handle-IsSound (creating bundle base now) s v =
    Ensures-after IsSound (create_draft bundle base now s) v
      (create_draft-IsSound bundle base now s v)
handle-IsSound (testing load digest expected now) s v =
    Ensures-after IsSound (mark_tested load digest expected now s) v
      (mark_tested-IsSound load digest expected now s v)
handle-IsSound (promoting load digest expected now) s v =
    Ensures-after IsSound (promote load digest expected now s) v
      (promote-IsSound load digest expected now s v)
handle-IsSound (returning load target expected) s v =
    Ensures-after IsSound (rollback load target expected s) v
      (rollback-IsSound load target expected s v)

-- Whatever requests come, and whatever the bundles hold, the pointer names the active version, and
-- that version and every draft that is marked active were activated.
pub run-IsSound : (rs : List Request) (s : Store) → IsSound s → IsSound (run rs s)
unfolding run
run-IsSound [] s v = v
run-IsSound (r ∷ rs) s v = run-IsSound rs (handle r s) (handle-IsSound r s v)
