-- ===== src/Sink/Sealed.antt =====
-- Cases of the sink that are closed, through its histories.
use owasp_llm_lab_setup_guid.Base.{
  ℕ, ◌≡◌, ◌≢◌, ◌⊎◌, refl, subst, Bool, true, false, not, ◌&&◌, none, some, String, List, [], ◌∷◌,
  ◌++◌, ◌==◌, lookup, append, any, all, map, is_some, arith, eq_iff, Bool-cases, inl, inr,
  lookup-append, lookup-update,
}
use owasp_llm_lab_setup_guid.Base.Ensures.{Ensures, returns, after_guard}
use owasp_llm_lab_setup_guid.Base.Finds.{update_all}
use owasp_llm_lab_setup_guid.Actions.Tokens.{Library}
use owasp_llm_lab_setup_guid.Sink.Rows.{
  CaseId, case_text, Suite, is_issued, Capability, Delivery, Closure, Database, is_closure,
}
use owasp_llm_lab_setup_guid.Sink.Service.{
  Execution, conflicts, insert_all, consumed, unused, new_capability,
}
use owasp_llm_lab_setup_guid.Sink.Closing.{end_suite, has_closure, end_case}

-- A capability of the case that may still be used.
abbrev pub is_open : String → String → Capability → Bool
is_open id text c = (c.suite_id == id && case_text c.case_id == text) && is_issued c.status

-- The suite is stored, and no capability of the case with the text may be used.
pub record Sealed (id text : String) (d : Database) : Type 0 where
  pub stored : is_some (lookup id d.suites) ≡ true
  pub shut : all (λ c. not (is_open id text c)) d.capabilities ≡ true

-- Every case that is closed is sealed.
abbrev pub IsSealed : Database → Type 0
IsSealed d = (id : String) (x : CaseId) → has_closure id x d ≡ true → Sealed id (case_text x) d

all-update_all :
    (p q : Capability → Bool) (f : Capability → Capability) (cs : List Capability)
    → ((c : Capability) → p c ≡ true → p (f c) ≡ true)
    → all p cs ≡ true
    → all p (update_all q f cs) ≡ true
unfolding all update_all
all-update_all p q f [] keeps h = refl
all-update_all p q f (c ∷ cs) keeps h = ground (arith, all-update_all p q f cs keeps, keeps c)

all_marked :
    (p : Capability → Bool) (f : Capability → Capability) (cs : List Capability)
    → ((c : Capability) → p (f c) ≡ false)
    → all (λ c. not (p c)) (update_all p f cs) ≡ true
unfolding all update_all
all_marked p f [] ends = refl
all_marked p f (c ∷ cs) ends = ground (arith, all_marked p f cs ends, ends c)

all-append :
    (p : Capability → Bool) (c : Capability) (cs : List Capability)
    → all p cs ≡ true
    → p c ≡ true
    → all p (cs ++ c ∷ []) ≡ true
unfolding all
all-append p c [] h k = ground arith
all-append p c (d ∷ cs) h k = ground (arith, all-append p c cs)

pub insert_all-all :
    (p : Capability → Bool) (xs cs : List Capability)
    → all p xs ≡ true
    → all p cs ≡ true
    → Ensures (λ r. all p r ≡ true) (insert_all xs cs)
unfolding insert_all all
insert_all-all p [] cs h k = returns _ k
insert_all-all p (x ∷ xs) cs h k =
    after_guard (not (any (conflicts x) cs)) _ _ λ fresh.
      insert_all-all p xs (cs ++ x ∷ []) (ground arith) (all-append p x cs k (ground arith))

pub new_capabilities-shut :
    (library : Library) (nonces : CaseId → String) (times : CaseId → ℕ) (suite_id id text : String)
    (xs : List Execution)
    → suite_id ≢ id
    → all (λ c. not (is_open id text c)) (map (new_capability library nonces times suite_id) xs)
      ≡ true
unfolding all new_capability
new_capabilities-shut library nonces times suite_id id text [] ne = refl
new_capabilities-shut library nonces times suite_id id text (x ∷ xs) ne =
    ground
      (arith, new_capabilities-shut library nonces times suite_id id text xs, eq_iff suite_id id)

any_or_last :
    (p : Closure → Bool) (c : Closure) (cs : List Closure)
    → any p (cs ++ c ∷ []) ≡ true
    → (any p cs ≡ true) ⊎ (p c ≡ true)
unfolding any
any_or_last p c [] h = inr (ground arith)
any_or_last p c (d ∷ cs) h = elim (Bool-cases (p d)) [
  | inl here ↦ inl (ground arith)
  | inr other ↦ elim (any_or_last p c cs (ground arith)) [
    | inl a ↦ inl (ground arith)
    | inr b ↦ inr b
  ]
]

-- The changes of the tables keep a case sealed.
pub created-Sealed :
    (id text key : String) (s : Suite) (cs : List Capability) (d : Database)
    → lookup key d.suites ≡ none
    → Sealed id text d
    → (key ≢ id → all (λ c. not (is_open id text c)) cs ≡ true)
    → Sealed id text (record d { suites = append key s d.suites; capabilities = cs })
created-Sealed id text key s cs d absent v shut =
    let stored = v.stored in
    let different : key ≢ id =
      λ e. let gone = subst (λ x. lookup x d.suites ≡ none) e absent in ground arith in
    record { stored = rw (lookup-append key id s d.suites) (ground arith); shut = shut different }

pub consumed-Sealed :
    (id text digest : String) (now : ℕ) (deliveries : List Delivery) (d : Database)
    → Sealed id text d
    → Sealed id text (record d {
      deliveries = deliveries;
      capabilities = update_all (λ c. c.capability_digest == digest) (consumed now) d.capabilities;
    })
consumed-Sealed id text digest now deliveries d v = record {
  stored = v.stored;
  shut =
      all-update_all (λ c. not (is_open id text c)) _ (consumed now) d.capabilities
        (λ c h. ground arith) v.shut;
}

pub end_suite-Sealed :
    (id text key : String) (now : ℕ) (d : Database)
    → Sealed id text d
    → Sealed id text (end_suite key now d)
end_suite-Sealed id text key now d v =
    let stored = v.stored in
    record {
      stored =
          rw (lookup-update key id (λ s. record s { closed_at = some now }) d.suites)
            (ground arith);
      shut =
          all-update_all (λ c. not (is_open id text c)) _ unused d.capabilities
            (λ c h. ground arith) v.shut;
    }

pub end_case-Sealed :
    (id text key : String) (x : CaseId) (now : ℕ) (d : Database)
    → Sealed id text d
    → Sealed id text (end_case key x now d)
end_case-Sealed id text key x now d v = record {
  stored = v.stored;
  shut =
      all-update_all (λ c. not (is_open id text c)) _ unused d.capabilities (λ c h. ground arith)
        v.shut;
}

-- The case that is closed is sealed.
pub ended_case-Sealed :
    (id : String) (x : CaseId) (now : ℕ) (d : Database)
    → is_some (lookup id d.suites) ≡ true
    → Sealed id (case_text x) (end_case id x now d)
ended_case-Sealed id x now d stored = record {
  stored = stored;
  shut = all_marked (is_open id (case_text x)) unused d.capabilities (λ c. ground arith);
}

pub end_case-IsSealed :
    (id : String) (x : CaseId) (now : ℕ) (d : Database)
    → is_some (lookup id d.suites) ≡ true
    → IsSealed d
    → IsSealed (end_case id x now d)
unfolding has_closure
end_case-IsSealed id x now d stored v j y h =
    elim (any_or_last (is_closure j y) _ d.case_closures h) [
      | inl old ↦ end_case-Sealed j (case_text y) id x now d (v j y old)
      | inr new ↦
          let a : id ≡ j = ground (arith, eq_iff id j) in
          let b : case_text x ≡ case_text y = ground (arith, eq_iff (case_text x) (case_text y)) in
          subst (λ t. Sealed j t (end_case id x now d)) b
            (subst (λ i. Sealed i (case_text x) (end_case id x now d)) a
              (ended_case-Sealed id x now d stored))
    ]
