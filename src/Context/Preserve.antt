-- ===== src/Context/Preserve.antt =====
-- Each transaction of `ContextStore` keeps what is granted.
use owasp_llm_lab_setup_guid.Base.{
  ℕ, ◌≡◌, refl, Bool, false, Option, none, some, String, List, [], ◌∷◌, ◌++◌, Table, map,
  if◌then◌else◌, arith, Bool-cases, inl, inr,
}
use mathlib.Core.Option
use owasp_llm_lab_setup_guid.Context.Rows.{
  Stage, authenticate, Suite, Execution, Document, Call, State, Store, Evidence, is_execution,
  is_identity, is_call,
}
use owasp_llm_lab_setup_guid.Context.Register.{is_pending, new_execution, new_identity}
use owasp_llm_lab_setup_guid.Context.Perform.{finished_as}
use owasp_llm_lab_setup_guid.Base.Finds.{update_all, find-append, find-either, find-update_all}
use owasp_llm_lab_setup_guid.Context.Granted.{
  IsGranted, Follows, Grows, grown-Fits, same_calls, new_executions, blank-Fits, honest_more,
}

-- The store after the writes of `register`.
abbrev pub registered :
    Table Suite → String → List String → String → String → List Document → Store → Store
registered suites suite_id ids a b rows s = record {
  suites = suites;
  executions = s.executions ++ map (new_execution suite_id) ids;
  identities =
      s.identities ++ (new_identity suite_id "reader" a ∷ new_identity suite_id "visitor" b ∷ []);
  documents = s.documents ++ rows;
  calls = s.calls;
}

pub registered-IsGranted :
    (suites : Table Suite) (suite_id : String) (ids : List String) (a b : String)
    (rows : List Document) (s : Store)
    → IsGranted s
    → IsGranted (registered suites suite_id ids a b rows s)
registered-IsGranted suites suite_id ids a b rows s v = record {
  honest = honest_more suite_id a b s.identities v.honest;
  executions = λ x id e h. elim (find-either (is_execution x id) e s.executions _ h) [
    | inl old ↦ grown-Fits s s' e grows (v.executions x id e old)
    | inr new ↦
        let (no_subject, no_grant) = new_executions (is_execution x id) suite_id ids e new in
        blank-Fits s' e no_subject no_grant
  ];
}
  where
    s' : Store
    s' = registered suites suite_id ids a b rows s

    grows : Grows s s'
    grows = record {
      identities = λ x d i h. find-append (is_identity x d) i s.identities _ h;
      calls = λ x id c h. same_calls c _ h;
    }

pub begun-IsGranted :
    (c : Call) (s : Store) → IsGranted s → IsGranted (record s { calls = s.calls ++ c ∷ [] })
begun-IsGranted c s v = record {
  honest = v.honest;
  executions = λ x id e h.
      grown-Fits s (record s { calls = s.calls ++ c ∷ [] }) e
        (record {
          identities = λ y d i k. k;
          calls = λ y j d k. same_calls d _ (find-append (is_call y j authenticate) d s.calls _ k);
        })
        (v.executions x id e h);
}

pub closed-IsGranted :
    (suites : Table Suite) (s : Store) → IsGranted s → IsGranted (record s { suites = suites })
closed-IsGranted suites s v = record {
  honest = v.honest;
  executions = λ x id e h.
      grown-Fits s (record s { suites = suites }) e
        (record { identities = λ y d i k. k; calls = λ y j d k. same_calls d _ k })
        (v.executions x id e h);
}

-- The store after the second transaction, with the executions that the stage leaves.
abbrev pub ended :
    (suite_id id : String) → Stage → ℕ → State → Option Evidence → List Execution → Store → Store
ended suite_id id stage now state evidence executions s = record s {
  executions = executions;
  calls = update_all (is_call suite_id id stage) (finished_as now state evidence) s.calls;
}

pub map-some {ℓ} :
    {A : Type ℓ} (g : A → A) (o : Option A) (y : A)
    → Option.map g o ≡ some y
    → (x : A) × (o ≡ some x) × (g x ≡ y)
map-some g none y h = absurd (ground arith)
map-some g (some x) y h = (x, refl, ground arith)

marked-Follows :
    (q : Call → Bool) (now : ℕ) (state : State) (evidence : Option Evidence) (c : Call)
    → is_pending state ≡ false
    → Follows c (some (if q c then finished_as now state evidence c else c))
marked-Follows q now state evidence c h = elim (Bool-cases (q c)) [
  | inl here ↦ rw here (record {
    next = finished_as now state evidence c;
    found = refl;
    input = refl;
    settled = λ k. h;
  })
  | inr other ↦ rw other (record { next = c; found = refl; input = refl; settled = λ k. k })
]

pub ended-Grows :
    (suite_id id : String) (stage : Stage) (now : ℕ) (state : State) (evidence : Option Evidence)
    (executions : List Execution) (s : Store)
    → is_pending state ≡ false
    → Grows s (ended suite_id id stage now state evidence executions s)
ended-Grows suite_id id stage now state evidence executions s h = record {
  identities = λ y d i k. k;
  calls = λ y j c k.
      rw
        (
          find-update_all (is_call y j authenticate) (is_call suite_id id stage)
              (finished_as now state evidence) s.calls (λ d. refl),
          k,
        )
        (marked-Follows (is_call suite_id id stage) now state evidence c h);
}
