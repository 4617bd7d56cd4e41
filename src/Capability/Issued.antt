-- ===== src/Capability/Issued.antt =====
-- What `issue` of P12 returns: the capability of each execution and role, and the grant it names.
use Prim.Native.String.{◌++◌}
use owasp_llm_lab_setup_guid.Base.{
  ℕ, ◌+◌, ◌*◌, ◌≡◌, refl, ap, ◌∙◌, true, ◌&&◌, not, Option, none, some, String, List, [], ◌∷◌,
  Table, lookup, append, exists, length, arith, is_none, leb, ◌≤◌, ok, lookup-append, append_at,
}
use owasp_llm_lab_setup_guid.Base.Ensures.{
  Ensures, returns, after_bind, after_or_raise, after_guard,
}
use owasp_llm_lab_setup_guid.Json.{Json}
use owasp_llm_lab_setup_guid.Capability.Rows.{issued, Grant, Store}
use owasp_llm_lab_setup_guid.Capability.Operations.{
  issue, insert_grants, new_grant, same_slot, Handout, slots, parse_ids, distinct,
}
use owasp_llm_lab_setup_guid.Capability.Grants.{append_kept}

-- Four roles for each execution, written out.
abbrev pub four_each : List String → List (String × String)
four_each [] = []
four_each (e ∷ es) =
    (e, "input_rail") ∷ (e, "retrieval_rail") ∷ (e, "output_rail") ∷ (e, "main") ∷ four_each es

-- The executions and roles that were handed out, in order.
abbrev pub bound_to : List Handout → List (String × String)
bound_to [] = []
bound_to (h ∷ hs) = (h.execution_id, h.role) ∷ bound_to hs

-- The identifiers are, in order, the texts of the names.
abbrev pub Named : (Json → Option String) → List Json → List String → Type 0
Named parse_uuid [] [] = Unit
Named parse_uuid [] (e ∷ es) = ⊥
Named parse_uuid (v ∷ vs) [] = ⊥
Named parse_uuid (v ∷ vs) (e ∷ es) = (parse_uuid v ≡ some e) × Named parse_uuid vs es

module _ (sha256 : String → String) (draw : ℕ → String) (suite : String) (created : ℕ) where
  -- The entry is the n-th that was drawn, and names a grant of the second table that the first has
  -- not: unused, of the suite, for its execution, role and model, and for 180 seconds.
  pub record Names (n : ℕ) (h : Handout) (t t' : Table Grant) : Type 0 where
    pub drawn : h.capability ≡ draw n
    pub model : h.model ≡ "us.amazon.nova-lite-v1:0" ++ "#p12-" ++ h.role
    pub expires : h.expires_at ≡ created + 180000000
    pub fresh : lookup (sha256 h.capability) t ≡ none
    pub granted :
        lookup (sha256 h.capability) t'
        ≡ some (record {
          suite_id = suite;
          execution_id = h.execution_id;
          role = h.role;
          model = "us.amazon.nova-lite-v1:0" ++ "#p12-" ++ h.role;
          issued_at = created;
          expires = created + 180000000;
          state = issued;
          reserved_at = none;
          finished = none;
          request_digest = none;
          evidence = none;
        })

  abbrev pub Covered : ℕ → List Handout → Table Grant → Table Grant → Type 0
  Covered n [] t t' = Unit
  Covered n (h ∷ hs) t t' = Names n h t t' × Covered (n + 1) hs t t'

  pub record Outcome (n : ℕ) (todo : List (String × String)) (t : Table Grant)
      (r : List Handout × Table Grant) : Type 0 where
    pub bound : bound_to r.0 ≡ todo
    pub covered : Covered n r.0 t r.1
    pub old : (k : String) (g : Grant) → lookup k t ≡ some g → lookup k r.1 ≡ some g

  -- What is fresh after an insert was so before.
  Covered-append :
      (n : ℕ) (key : String) (g : Grant) (hs : List Handout) (t t' : Table Grant)
      → Covered n hs (append key g t) t'
      → Covered n hs t t'
  Covered-append n key g [] t t' c = tt
  Covered-append n key g (h ∷ hs) t t' (a, c) = (
    record {
      drawn = a.drawn;
      model = a.model;
      expires = a.expires;
      fresh = ground (arith, a.fresh, lookup-append key (sha256 h.capability) g t);
      granted = a.granted;
    },
    Covered-append (n + 1) key g hs t t' c,
  )

  insert_grants-Outcome :
      (parse_uuid : Json → Option String) (n : ℕ) (todo : List (String × String)) (t : Table Grant)
      → Ensures (Outcome n todo t) (insert_grants sha256 parse_uuid draw n suite created todo t)
  unfolding insert_grants
  insert_grants-Outcome parse_uuid n [] t =
      returns _ (record { bound = refl; covered = tt; old = λ k g h. h })
  insert_grants-Outcome parse_uuid n ((e, role) ∷ todo) t =
      after_guard (is_none (lookup (sha256 (draw n)) t)) _ _ λ fresh.
        after_guard (not (exists (same_slot sha256 parse_uuid suite e role) t)) _ _ λ unique.
          after_bind
            (insert_grants sha256 parse_uuid draw (n + 1) suite created todo
              (append (sha256 (draw n)) (new_grant sha256 parse_uuid suite e role created) t))
            _
            λ (more, t') h.
              let made = new_grant sha256 parse_uuid suite e role created in
              let rest = (insert_grants-Outcome parse_uuid (n + 1) todo _).at (more, t') h in
              let unused : lookup (sha256 (draw n)) t ≡ none = ground arith in
              returns _ (record {
                bound = ap (λ x. (e, role) ∷ x) rest.bound;
                covered = (
                  record {
                    drawn = refl;
                    model = refl;
                    expires = refl;
                    fresh = unused;
                    granted = rest.old _ _ (append_at (sha256 (draw n)) made t unused);
                  },
                  Covered-append (n + 1) (sha256 (draw n)) made more t t' rest.covered,
                );
                old = λ k g hk. rest.old k g (append_kept (sha256 (draw n)) k made g t hk);
              })

slots-four_each : (names : List String) → slots names ≡ four_each names
unfolding slots
slots-four_each [] = refl
slots-four_each (e ∷ es) =
    ap (λ x. (e, "input_rail") ∷ (e, "retrieval_rail") ∷ (e, "output_rail") ∷ (e, "main") ∷ x)
      (slots-four_each es)

length-bound_to : (hs : List Handout) → length (bound_to hs) ≡ length hs
length-bound_to [] = refl
length-bound_to (h ∷ hs) = omega (arith, length-bound_to hs)

length-four_each : (names : List String) → length (four_each names) ≡ 4 * length names
length-four_each [] = refl
length-four_each (e ∷ es) = omega (arith, length-four_each es)

parse_ids-Named :
    (sha256 : String → String) (parse_uuid : Json → Option String) (ids : List Json)
    → Ensures (Named parse_uuid ids) (parse_ids sha256 parse_uuid ids)
unfolding parse_ids
parse_ids-Named sha256 parse_uuid [] = returns _ tt
parse_ids-Named sha256 parse_uuid (v ∷ vs) = after_or_raise (parse_uuid v) _ _ λ e he.
    after_bind (parse_ids sha256 parse_uuid vs) _
      λ es hes. returns _ (he, (parse_ids-Named sha256 parse_uuid vs).at es hes)

-- What `issue` hands out and leaves, for the identifiers of a suite and of executions.
pub record Handed (sha256 : String → String) (parse_uuid : Json → Option String) (suite_id : Json)
    (ids : List Json) (draw : ℕ → String) (created : ℕ) (s : Store) (r : (ℕ × List Handout) × Store)
    : Type 0 where
  pub suite : String
  pub names : List String
  pub suite_named : parse_uuid suite_id ≡ some suite
  pub named : Named parse_uuid ids names
  pub time : r.0.0 ≡ created
  pub bound : bound_to r.0.1 ≡ four_each names
  pub most : length r.0.1 ≤ 128
  pub covered : Covered sha256 draw suite created 0 r.0.1 s.grants r.1.grants
  pub unused : lookup suite s.suites ≡ none
  pub opened : lookup suite r.1.suites ≡ some (record { created = created; closed = none })
  pub kept : (k : String) (g : Grant) → lookup k s.grants ≡ some g → lookup k r.1.grants ≡ some g

issue-Handed :
    (sha256 : String → String) (parse_uuid : Json → Option String) (suite_id : Json)
    (ids : List Json) (draw : ℕ → String) (created : ℕ) (s : Store)
    → Ensures
        (Handed sha256 parse_uuid suite_id ids draw created s)
        (issue sha256 parse_uuid suite_id ids draw created s)
unfolding issue
issue-Handed sha256 parse_uuid suite_id ids draw created s =
    after_or_raise (parse_uuid suite_id) _ _ λ suite hs.
      after_bind (parse_ids sha256 parse_uuid ids) _ λ names hn.
        after_guard (leb 1 (length names) && leb (length names) 32 && distinct names) _ _ λ few.
          after_guard (is_none (lookup suite s.suites)) _ _ λ absent.
            after_bind (insert_grants sha256 parse_uuid draw 0 suite created (slots names) s.grants)
              _
              λ (handouts, t) h.
                let o =
                  (insert_grants-Outcome sha256 draw suite created parse_uuid 0 (slots names)
                      s.grants).at
                    (handouts, t) h in
                let unused : lookup suite s.suites ≡ none = ground arith in
                let bound = o.bound ∙ slots-four_each names in
                returns _ (record {
                  suite = suite;
                  names = names;
                  suite_named = hs;
                  named = (parse_ids-Named sha256 parse_uuid ids).at names hn;
                  time = refl;
                  bound = bound;
                  most = few_handouts names handouts few bound;
                  covered = o.covered;
                  unused = unused;
                  opened = append_at suite _ s.suites unused;
                  kept = o.old;
                })
  where
    few_handouts :
        (names : List String) (hs : List Handout)
        → (leb 1 (length names) && leb (length names) 32 && distinct names) ≡ true
        → bound_to hs ≡ four_each names
        → length hs ≤ 128
    few_handouts names hs few bound =
        let n : length names ≤ 32 = ground arith in
        let same = ap length bound in
        omega (arith, n, same, length-bound_to hs, length-four_each names)

-- An `issue` that returns hands out, for each of the executions in turn, one capability for each of
-- the roles input_rail, retrieval_rail, output_rail and main, at most 128 in all. Each capability is
-- the next one that was drawn and names a grant that was not there before: unused, of the new suite,
-- for that execution and role, with the model of the role, for 180 seconds. The grants that were
-- there stay, and the suite is opened, which was not there before.
pub issue_complete :
    (sha256 : String → String) (parse_uuid : Json → Option String) (suite_id : Json)
    (ids : List Json) (draw : ℕ → String) (created : ℕ) (s : Store) (r : (ℕ × List Handout) × Store)
    → issue sha256 parse_uuid suite_id ids draw created s ≡ ok r
    → Handed sha256 parse_uuid suite_id ids draw created s r
issue_complete sha256 parse_uuid suite_id ids draw created s =
    (issue-Handed sha256 parse_uuid suite_id ids draw created s).at
