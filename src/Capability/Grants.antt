-- ===== src/Capability/Grants.antt =====
-- The grants that `issue` of P12 inserts.
use owasp_llm_lab_setup_guid.Base.{
  ℕ, ◌+◌, ◌≡◌, refl, ◌∙◌, ◌&&◌, not, Option, none, some, String, List, [], ◌∷◌, Table, lookup,
  append, exists, length, arith, inl, inr, ◌⊎◌, is_none, leb, lookup-append, append_at,
}
use owasp_llm_lab_setup_guid.Base.Ensures.{
  Ensures, returns, after_bind, after_or_raise, after_guard,
}
use owasp_llm_lab_setup_guid.Json.{Json}
use owasp_llm_lab_setup_guid.Capability.Rows.{Suite, Grant, Store}
use owasp_llm_lab_setup_guid.Capability.Operations.{
  issue, insert_grants, new_grant, same_slot, Handout, slots, parse_ids, distinct,
}
use owasp_llm_lab_setup_guid.Capability.Invariant.{GrantFits, IsValid, SuiteFits}
use owasp_llm_lab_setup_guid.Capability.Preserve.{Good, Later-refl}

-- A row that was there is still found after an insert of a new key.
pub append_kept :
    {V : Type 0} (key k : String) (v w : V) (t : Table V)
    → lookup k t ≡ some w
    → lookup k (append key v t) ≡ some w
append_kept key k v w t h = lookup-append key k v t ∙ ground arith

append_row :
    {V : Type 0} (key k : String) (v w : V) (t : Table V)
    → lookup k (append key v t) ≡ some w
    → (lookup k t ≡ some w) ⊎ (w ≡ v)
append_row key k v w t h = ground (arith, lookup-append key k v t)

module _ (sha256 : String → String) (parse_uuid : Json → Option String) (draw : ℕ → String)
    (suite : String) (created : ℕ) where
  abbrev made : String → String → Grant
  made execution role = new_grant sha256 parse_uuid suite execution role created

  abbrev pub IsMade : Grant → Type 0
  IsMade g = (e : String) × (role : String) × (g ≡ made e role)

  -- The table after the inserts: the old rows, and rows as they are made.
  pub record Inserted (t : Table Grant) (r : List Handout × Table Grant) : Type 0 where
    pub old : (k : String) (g : Grant) → lookup k t ≡ some g → lookup k r.1 ≡ some g
    pub new : (k : String) (g : Grant) → lookup k r.1 ≡ some g → (lookup k t ≡ some g) ⊎ IsMade g

  older :
      (n : ℕ) (e role : String) (k : String) (g : Grant) (t : Table Grant)
      → ((lookup k (append (sha256 (draw n)) (made e role) t) ≡ some g) ⊎ IsMade g)
      → (lookup k t ≡ some g) ⊎ IsMade g
  older n e role k g t (inr m) = inr m
  older n e role k g t (inl h) = elim (append_row (sha256 (draw n)) k (made e role) g t h) [
    | inl old ↦ inl old
    | inr fresh ↦ inr (e, role, fresh)
  ]

  insert_grants-Inserted :
      (n : ℕ) (todo : List (String × String)) (t : Table Grant)
      → Ensures (Inserted t) (insert_grants sha256 parse_uuid draw n suite created todo t)
  unfolding insert_grants
  insert_grants-Inserted n [] t = returns _ (record { old = λ k g h. h; new = λ k g h. inl h })
  insert_grants-Inserted n ((e, role) ∷ todo) t =
      after_guard (is_none (lookup (sha256 (draw n)) t)) _ _ λ fresh.
        after_guard (not (exists (same_slot sha256 parse_uuid suite e role) t)) _ _ λ unique.
          after_bind
            (insert_grants sha256 parse_uuid draw (n + 1) suite created todo
              (append (sha256 (draw n)) (made e role) t))
            _
            λ (more, t') h.
              let rest = (insert_grants-Inserted (n + 1) todo _).at (more, t') h in
              returns _ (record {
                old = λ k g hk. rest.old k g (append_kept (sha256 (draw n)) k (made e role) g t hk);
                new = λ k g hk. older n e role k g t (rest.new k g hk);
              })

  abbrev new_suite : Suite
  new_suite = record { created = created; closed = none }

  suites_kept :
      (s : Store) (x : String) (g : Grant)
      → lookup suite s.suites ≡ none
      → SuiteFits (lookup x s.suites) g
      → SuiteFits (lookup x (append suite new_suite s.suites)) g
  suites_kept s x g absent fits = ground (arith, lookup-append suite x new_suite s.suites)

  Inserted-Good :
      (s : Store) (hs : List Handout) (t : Table Grant)
      → IsValid s
      → lookup suite s.suites ≡ none
      → Inserted s.grants (hs, t)
      → Good {A = ℕ × List Handout} s
          ((created, hs), record s { suites = append suite new_suite s.suites; grants = t })
  Inserted-Good s hs t v absent i = (
    record { grants = λ k g h. fits k g (i.new k g h) },
    record {
      grants = λ k g h. (g, i.old k g h, Later-refl g);
      closed = λ k x c h hc. append_kept suite k new_suite x s.suites h;
    },
  )
    where
      fits :
          (k : String) (g : Grant)
          → ((lookup k s.grants ≡ some g) ⊎ IsMade g)
          → GrantFits (append suite new_suite s.suites) g
      fits k g (inl old) =
          let f = v.grants k g old in
          record {
            lifetime = f.lifetime;
            columns = f.columns;
            suite = suites_kept s g.suite_id g absent f.suite;
          }
      fits k g (inr (e, role, same)) = rw same (record {
        lifetime = refl;
        columns = (refl, refl, refl);
        suite = rw (append_at suite new_suite s.suites absent) tt;
      })

-- `issue` keeps the store well formed.
pub issue-Good :
    (sha256 : String → String) (parse_uuid : Json → Option String) (suite_id : Json)
    (ids : List Json) (draw : ℕ → String) (created : ℕ) (s : Store)
    → IsValid s
    → Ensures (Good s) (issue sha256 parse_uuid suite_id ids draw created s)
unfolding issue
issue-Good sha256 parse_uuid suite_id ids draw created s v =
    after_or_raise (parse_uuid suite_id) _ _ λ suite hs.
      after_bind (parse_ids sha256 parse_uuid ids) _ λ names hn.
        after_guard (leb 1 (length names) && leb (length names) 32 && distinct names) _ _ λ few.
          after_guard (is_none (lookup suite s.suites)) _ _ λ absent.
            after_bind (insert_grants sha256 parse_uuid draw 0 suite created (slots names) s.grants)
              _
              λ (hs, t) h. returns _ (
                Inserted-Good sha256 parse_uuid draw suite created s hs t v (ground arith) (
                  (insert_grants-Inserted sha256 parse_uuid draw suite created 0 (slots names)
                      s.grants).at
                    (hs, t) h))
