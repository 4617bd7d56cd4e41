-- ===== src/Sink/Deliveries.antt =====
-- The deliveries to a case, and those to another one.
use owasp_llm_lab_setup_guid.Base.{
  List, [], ◌∷◌, ◌++◌, Bool, ◌⊎◌, eq_iff, ◌≡◌, sym, subst, true, false, ◌&&◌, String, ◌==◌, any,
  arith, Bool-cases, inl, inr,
}
use owasp_llm_lab_setup_guid.Sink.Rows.{
  CaseId, case_text, Delivery, Database, is_closure, same_case,
}
use owasp_llm_lab_setup_guid.Sink.Closing.{filter, has_closure}

-- The deliveries to a case.
unfoldable pub case_deliveries : String → CaseId → Database → List Delivery
unfolding filter
case_deliveries id x d = filter (λ y. y.suite_id == id && same_case y.case_id x) d.deliveries

filter_other :
    (p : Delivery → Bool) (x : Delivery) (xs : List Delivery)
    → p x ≡ false
    → filter p (xs ++ x ∷ []) ≡ filter p xs
unfolding filter
filter_other p x [] h = ground arith
filter_other p x (y ∷ xs) h = ground (arith, filter_other p x xs)

-- A delivery to another case leaves those of a closed one.
pub unmoved :
    (j : String) (y : CaseId) (x : Delivery) (d : Database)
    → has_closure x.suite_id x.case_id d ≡ false
    → has_closure j y d ≡ true
    → case_deliveries j y (record d { deliveries = d.deliveries ++ x ∷ [] }) ≡ case_deliveries j y d
unfolding case_deliveries has_closure
unmoved j y x d free h = filter_other _ x d.deliveries (other (Bool-cases own))
  where
    own : Bool
    own = x.suite_id == j && same_case x.case_id y

    other : (own ≡ true) ⊎ (own ≡ false) → own ≡ false
    other (inr n) = n
    other (inl m) = absurd (ground (arith, closed_there m))
      where
        closed_there : own ≡ true → any (is_closure x.suite_id x.case_id) d.case_closures ≡ true
        closed_there m =
            let a : x.suite_id ≡ j = ground (arith, eq_iff x.suite_id j) in
            let b : case_text x.case_id ≡ case_text y =
              ground (arith, eq_iff (case_text x.case_id) (case_text y)) in
            subst
              (λ i.
                any (λ c. c.suite_id == i && case_text c.case_id == case_text x.case_id)
                  d.case_closures
                ≡ true)
              (sym a)
              (subst
                (λ t. any (λ c. c.suite_id == j && case_text c.case_id == t) d.case_closures ≡ true)
                (sym b) h)
