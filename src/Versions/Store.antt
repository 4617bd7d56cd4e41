-- ===== src/Versions/Store.antt =====
-- The state of `PolicyStore` and its operations on drafts and the active version. A method holds the
-- lock throughout. The files of a bundle are not modelled: `load` is what `load_bundle` finds in the
-- directory of a digest when the method runs, or None where it raises.
use owasp_llm_lab_setup_guid.Base.{
  ℕ, ◌+◌, Bool, true, false, not, ◌&&◌, Option, none, some, String, List, ◌∷◌, ◌==◌, Table, lookup,
  append, update, text_in, is_sha256_hex, leb, Result, ok, err, ◌>>=◌, ◌>>◌, guard, or_raise,
  if◌then◌else◌,
}

-- The value of "state" in the metadata of a draft.
pub data State : Type 0 where
  draft tested active : State

-- The metadata of a draft, in the file of its digest.
pub record Draft : Type 0 where
  pub digest : String
  pub base_digest : String
  pub version : String
  pub state : State
  pub created_at : ℕ
  pub tested_at : Option ℕ
  pub activated_at : Option ℕ

pub record Bundle : Type 0 where
  pub digest : String
  pub version : String

pub record Store : Type 0 where
  -- active.json
  pub pointer : String
  -- self.active
  pub active : Bundle
  -- The directory drafts, by digest.
  pub drafts : Table Draft
  -- The names in the directory activated.
  pub activated : List String

-- The `ValueError` of a method by its text, and every exception of `load_bundle`.
pub data Error : Type 0 where
  active_policy_changed : Error
  draft_version_must_differ : Error
  draft_base_conflict : Error
  invalid_draft_digest : Error
  draft_missing : Error
  draft_digest_mismatch : Error
  draft_not_testable : Error
  draft_requires_recent_tests : Error
  target_already_active : Error
  invalid_rollback_target : Error
  target_was_never_active : Error
  rollback_digest_mismatch : Error
  unreadable_bundle : Error

-- The metadata of a new draft.
abbrev pub new_draft : Bundle → String → ℕ → Draft
new_draft bundle base now = record {
  digest = bundle.digest;
  base_digest = base;
  version = bundle.version;
  state = draft;
  created_at = now;
  tested_at = none;
  activated_at = none;
}

-- The last part of `create_draft`, where its bundle was written: the metadata of the draft.
unfoldable pub record_draft : Bundle → String → ℕ → Store → Result Error (Draft × Store)
record_draft bundle base now s = elim (lookup bundle.digest s.drafts) [
  | some previous ↦
      if previous.base_digest == base then ok (previous, s) else err draft_base_conflict
  | none ↦ ok (
    new_draft bundle base now,
    record s { drafts = append bundle.digest (new_draft bundle base now) s.drafts },
  )
]

-- `create_draft` with valid fields; `bundle` is the one that it writes.
unfoldable pub create_draft : Bundle → String → ℕ → Store → Result Error (Draft × Store)
unfolding record_draft
create_draft bundle base now s = do
  guard (base == s.active.digest) active_policy_changed
  guard (not (bundle.version == s.active.version)) draft_version_must_differ
  record_draft bundle base now s

abbrev pub is_testable : State → Bool
is_testable draft = true
is_testable tested = true
is_testable active = false

-- `metadata.get("tested_at", 0)`
abbrev pub test_time : Option ℕ → ℕ
test_time none = 0
test_time (some t) = t

abbrev pub is_tested : State → Bool
is_tested draft = false
is_tested tested = true
is_tested active = false

-- `_remember_activation` of a digest that is valid.
unfoldable pub remember : String → List String → List String
unfolding text_in
remember digest names = if text_in digest names then names else digest ∷ names

module _ (load : String → Option Bundle) where
  -- `get_draft`
  unfoldable pub get_draft : String → Store → Result Error (Draft × Bundle)
  get_draft digest s = do
    guard (is_sha256_hex digest) invalid_draft_digest
    metadata ← or_raise (lookup digest s.drafts) draft_missing
    bundle ← or_raise (load digest) unreadable_bundle
    guard (metadata.digest == digest && bundle.digest == digest) draft_digest_mismatch
    ok (metadata, bundle)

  -- `mark_tested`; the summary of the tests is not kept.
  unfoldable pub mark_tested : String → String → ℕ → Store → Result Error (Unit {0} × Store)
  unfolding get_draft
  mark_tested digest expected now s = do
    (metadata, bundle) ← get_draft digest s
    guard (s.active.digest == expected && metadata.base_digest == expected) active_policy_changed
    guard (is_testable metadata.state) draft_not_testable
    ok (
      tt,
      record s {
        drafts = update digest (λ d. record d { state = tested; tested_at = some now }) s.drafts;
      },
    )

  -- `promote`: the new version and the digest of the one before it.
  unfoldable pub promote : String → String → ℕ → Store → Result Error ((Bundle × String) × Store)
  unfolding get_draft remember
  promote digest expected now s = do
    (metadata, bundle) ← get_draft digest s
    guard (s.active.digest == expected && metadata.base_digest == expected) active_policy_changed
    guard (is_tested metadata.state && leb now (test_time metadata.tested_at + 3600))
        draft_requires_recent_tests
    ok (
      (bundle, s.active.digest),
      record {
        pointer = digest;
        active = bundle;
        drafts = update digest (λ d. record d { state = active; activated_at = some now }) s.drafts;
        activated = remember digest s.activated;
      },
    )

  -- `rollback`
  unfoldable pub rollback : String → String → Store → Result Error ((Bundle × String) × Store)
  unfolding text_in
  rollback target expected s = do
    guard (s.active.digest == expected) active_policy_changed
    guard (not (target == expected)) target_already_active
    guard (is_sha256_hex target) invalid_rollback_target
    guard (text_in target s.activated) target_was_never_active
    bundle ← or_raise (load target) unreadable_bundle
    guard (bundle.digest == target) rollback_digest_mismatch
    ok ((bundle, s.active.digest), record s { pointer = target; active = bundle })
