-- ===== src/Context/Updates.antt =====
-- One row of the executions is written.
use owasp_llm_lab_setup_guid.Base.{
  ◌≡◌, ◌∙◌, refl, sym, subst, true, some, String, if◌then◌else◌, arith, eq_iff, Bool-cases, inl,
  inr,
}
use owasp_llm_lab_setup_guid.Context.Rows.{Execution, Store, is_execution}
use owasp_llm_lab_setup_guid.Base.Finds.{find, update_all, find-holds, find-update_all}
use owasp_llm_lab_setup_guid.Context.Granted.{Fits, IsGranted, Grows, grown-Fits}
use owasp_llm_lab_setup_guid.Context.Preserve.{map-some}

-- The key of the row that is found.
pub execution_key :
    (suite_id id : String) (e : Execution) (s : Store)
    → find (is_execution suite_id id) s.executions ≡ some e
    → (e.suite_id ≡ suite_id) × (e.execution_id ≡ id)
execution_key suite_id id e s h =
    let k : is_execution suite_id id e ≡ true =
      find-holds (is_execution suite_id id) e s.executions h in
    (ground (arith, eq_iff e.suite_id suite_id), ground (arith, eq_iff e.execution_id id))

pub one_row :
    (x y suite_id id : String) (e e0 : Execution) (s : Store)
    → find (is_execution x y) s.executions ≡ some e
    → find (is_execution suite_id id) s.executions ≡ some e0
    → e.suite_id ≡ e0.suite_id
    → e.execution_id ≡ e0.execution_id
    → e ≡ e0
one_row x y suite_id id e e0 s h h0 same_suite same_id =
    let (a, b) = execution_key x y e s h in
    let (c, d) = execution_key suite_id id e0 s h0 in
    let there : find (is_execution suite_id id) s.executions ≡ some e =
      subst (λ k. find (is_execution k id) s.executions ≡ some e) (sym a ∙ same_suite ∙ c)
        (subst (λ k. find (is_execution x k) s.executions ≡ some e) (sym b ∙ same_id ∙ d) h) in
    cc

-- A row of a store in which one row is written, whose new columns fit.
pub written_row :
    (suite_id id x y : String) (e0 d : Execution) (f : Execution → Execution) (s s' : Store)
    → find (is_execution suite_id id) s.executions ≡ some e0
    → find (is_execution x y) s.executions ≡ some d
    → IsGranted s
    → Grows s s'
    → Fits s' (f e0)
    → Fits s' (if is_execution e0.suite_id e0.execution_id d then f d else d)
written_row suite_id id x y e0 d f s s' h0 old v grows fits =
    elim (Bool-cases (is_execution e0.suite_id e0.execution_id d)) [
      | inl here ↦
          let same : d ≡ e0 =
            one_row x y suite_id id d e0 s old h0 (ground (arith, eq_iff d.suite_id e0.suite_id))
              (ground (arith, eq_iff d.execution_id e0.execution_id)) in
          rw here (subst (λ z. Fits s' (f z)) (sym same) fits)
      | inr other ↦ rw other (grown-Fits s s' d grows (v.executions x y d old))
    ]

pub updated-Fits :
    (suite_id id : String) (e0 : Execution) (f : Execution → Execution) (s s' : Store)
    → find (is_execution suite_id id) s.executions ≡ some e0
    → ((e : Execution) → ((f e).suite_id ≡ e.suite_id) × ((f e).execution_id ≡ e.execution_id))
    → IsGranted s
    → Grows s s'
    → s'.executions ≡ update_all (is_execution e0.suite_id e0.execution_id) f s.executions
    → Fits s' (f e0)
    → (x y : String) (e : Execution) → find (is_execution x y) s'.executions ≡ some e
    → Fits s' e
updated-Fits suite_id id e0 f s s' h0 keys v grows written fits x y e h =
    let q = is_execution e0.suite_id e0.execution_id in
    let stored =
      find-update_all (is_execution x y) q f s.executions
        (λ d. let (a, b) = keys d in rw (a, b) refl) in
    let (d, old, new) =
      map-some (λ d. if q d then f d else d) (find (is_execution x y) s.executions) e
        (sym stored ∙ subst (λ es. find (is_execution x y) es ≡ some e) written h) in
    subst (Fits s') new (written_row suite_id id x y e0 d f s s' h0 old v grows fits)
