-- ===== src/Search/Lanes.antt =====
-- The sequences of calls that an execution of P03 may have: numbered from one, each call but the last
-- complete, and each with the times of its state.
use owasp_llm_lab_setup_guid.Base.{
  ℕ, suc, ◌+◌, ◌≡◌, ◌⊎◌, ◌∙◌, refl, subst, Bool, true, false, ◌&&◌, ◌||◌, Option, none, some,
  String, List, [], ◌∷◌, ◌++◌, ◌==◌, length, any, is_none, nat_eq, leb, if◌then◌else◌, arith,
  eq_iff, Bool-cases, inl, inr,
}
use owasp_llm_lab_setup_guid.Guardrail.Operations.{is_pending}
use owasp_llm_lab_setup_guid.Search.Rows.{Call, Ledger, has_key, calls_of, find_call, update_call}
use owasp_llm_lab_setup_guid.Search.Operations.{is_complete, blocks}

abbrev finished_after : ℕ → Option ℕ → Bool
finished_after t none = false
finished_after t (some f) = leb t f

-- The times of a call agree with its state.
abbrev pub times_fit : Call → Bool
times_fit c =
    if is_pending c.state then is_none c.finished_at else finished_after c.started_at c.finished_at

abbrev is_empty : List Call → Bool
is_empty [] = true
is_empty (c ∷ cs) = false

-- The calls are numbered from `n + 1`, and all but the last are complete.
unfoldable pub in_sequence : ℕ → List Call → Bool
in_sequence n [] = true
in_sequence n (c ∷ cs) =
    nat_eq c.sequence (suc n)
    && times_fit c
    && (is_empty cs || is_complete c.state)
    && in_sequence (suc n) cs

abbrev pub IsOrdered : Ledger → Type 0
IsOrdered l = (id : String) → in_sequence 0 (calls_of id l.calls) ≡ true

calls_of-append :
    (id : String) (c : Call) (cs : List Call)
    → calls_of id (cs ++ c ∷ [])
      ≡ (if c.execution_id == id then calls_of id cs ++ c ∷ [] else calls_of id cs)
unfolding calls_of
calls_of-append id c [] = ground arith
calls_of-append id c (d ∷ cs) = ground (arith, calls_of-append id c cs)

calls_of-update :
    (id operation j : String) (f : Call → Call) (cs : List Call)
    → ((c : Call) → (f c).execution_id ≡ c.execution_id)
    → calls_of j (update_call id operation f cs)
      ≡ (if id == j then update_call id operation f (calls_of j cs) else calls_of j cs)
unfolding calls_of update_call
calls_of-update id operation j f [] keeps = ground arith
calls_of-update id operation j f (c ∷ cs) keeps = ground (
  arith,
  calls_of-update id operation j f cs keeps,
  keeps c,
  eq_iff id j,
  eq_iff c.execution_id id,
  eq_iff c.execution_id j,
)

find_call-calls_of :
    (id operation : String) (cs : List Call)
    → find_call id operation (calls_of id cs) ≡ find_call id operation cs
unfolding calls_of find_call
find_call-calls_of id operation [] = refl
find_call-calls_of id operation (c ∷ cs) = ground (arith, find_call-calls_of id operation cs)

in_sequence-append :
    (n : ℕ) (operation : String) (c : Call) (cs : List Call)
    → in_sequence n cs ≡ true
    → any (blocks operation) cs ≡ false
    → c.sequence ≡ n + suc (length cs)
    → times_fit c ≡ true
    → in_sequence n (cs ++ c ∷ []) ≡ true
unfolding in_sequence any
in_sequence-append n operation c [] h free s fits = ground arith
in_sequence-append n operation c (d ∷ cs) h free s fits =
    ground (arith, in_sequence-append (suc n) operation c cs)

update-empty :
    (id operation : String) (f : Call → Call) (cs : List Call)
    → is_empty (update_call id operation f cs) ≡ is_empty cs
unfolding update_call
update-empty id operation f [] = refl
update-empty id operation f (c ∷ cs) = ground arith

pending_last :
    (n : ℕ) (f : Call → Call) (c : Call) (cs : List Call)
    → in_sequence n (c ∷ cs) ≡ true
    → is_pending c.state ≡ true
    → (f c).sequence ≡ c.sequence
    → times_fit (f c) ≡ true
    → in_sequence n (f c ∷ cs) ≡ true
unfolding in_sequence
pending_last n f c [] h waits s fits = ground arith
pending_last n f c (d ∷ cs) h waits s fits = ground arith

in_sequence-update :
    (n : ℕ) (id operation : String) (f : Call → Call) (c : Call) (cs : List Call)
    → in_sequence n cs ≡ true
    → find_call id operation cs ≡ some c
    → is_pending c.state ≡ true
    → (f c).sequence ≡ c.sequence
    → times_fit (f c) ≡ true
    → in_sequence n (update_call id operation f cs) ≡ true
unfolding in_sequence find_call update_call
in_sequence-update n id operation f c [] h found waits s fits = cc
in_sequence-update n id operation f c (d ∷ cs) h found waits s fits =
    elim (Bool-cases (has_key id operation d)) [
      | inl here ↦
          let same : d ≡ c = first_call here found in
          rw (here, same)
            (pending_last n f c cs (subst (λ x. in_sequence n (x ∷ cs) ≡ true) same h) waits s fits)
      | inr later ↦
          ground
            (arith, in_sequence-update (suc n) id operation f c cs, update-empty id operation f cs)
    ]
  where
    first_call : has_key id operation d ≡ true → find_call id operation (d ∷ cs) ≡ some c → d ≡ c
    first_call here found = ground arith

-- A new call at the end of the sequence of its execution.
pub append-ordered :
    (operation : String) (c : Call) (cs : List Call)
    → ((j : String) → in_sequence 0 (calls_of j cs) ≡ true)
    → any (blocks operation) (calls_of c.execution_id cs) ≡ false
    → c.sequence ≡ suc (length (calls_of c.execution_id cs))
    → times_fit c ≡ true
    → (j : String) → in_sequence 0 (calls_of j (cs ++ c ∷ [])) ≡ true
append-ordered operation c cs v free s fits j = elim (Bool-cases (c.execution_id == j)) [
  | inr other ↦ rw (calls_of-append, other) (v j)
  | inl same ↦
      let eq : c.execution_id ≡ j = (eq_iff c.execution_id j).0 same in
      rw (calls_of-append, same)
        (in_sequence-append 0 operation c (calls_of j cs) (v j)
          (subst (λ x. any (blocks operation) (calls_of x cs) ≡ false) eq free)
          (omega (arith, subst (λ x. c.sequence ≡ suc (length (calls_of x cs))) eq s)) fits)
]

-- The update of a pending call of its execution.
pub update-ordered :
    (id operation : String) (f : Call → Call) (c : Call) (cs : List Call)
    → ((j : String) → in_sequence 0 (calls_of j cs) ≡ true)
    → find_call id operation cs ≡ some c
    → is_pending c.state ≡ true
    → ((d : Call) → (f d).execution_id ≡ d.execution_id)
    → (f c).sequence ≡ c.sequence
    → times_fit (f c) ≡ true
    → (j : String) → in_sequence 0 (calls_of j (update_call id operation f cs)) ≡ true
update-ordered id operation f c cs v found waits keeps s fits j =
    rw (calls_of-update id operation j f cs keeps) (decided (Bool-cases (id == j)))
  where
    decided :
        ((id == j) ≡ true) ⊎ ((id == j) ≡ false)
        → in_sequence 0
            (if id == j then update_call id operation f (calls_of j cs) else calls_of j cs)
          ≡ true
    decided (inr other) = rw other (v j)
    decided (inl same) =
        let eq : id ≡ j = (eq_iff id j).0 same in
        rw same (
          in_sequence-update 0 id operation f c (calls_of j cs) (v j)
            (subst (λ x. find_call id operation (calls_of x cs) ≡ some c) eq
              (find_call-calls_of id operation cs ∙ found))
            waits s fits)
