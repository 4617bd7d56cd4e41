-- ===== src/Guardrail/Preserve.antt =====
-- What the steps of an execution do to its invariant, and to rows that are final.
use owasp_llm_lab_setup_guid.Base.{
  ℕ, ◌≡◌, ◌≢◌, refl, Option, none, some, String, lookup, arith, eq_iff, ◌==◌, Bool-cases, inl, inr,
  ◌⊎◌, true, false,
}
use owasp_llm_lab_setup_guid.Guardrail.Rows.{pending, Execution, Call, Ledger}
use owasp_llm_lab_setup_guid.Guardrail.Invariant.{RowsFit, IsValid}
use owasp_llm_lab_setup_guid.Guardrail.Lifecycle.{
  Move, Effect, stays, registers, reserves, dispatches, completes, fails, closes,
}

Move-RowsFit :
    (e : Option Execution) (c : Option Call) {e' : Option Execution} {c' : Option Call}
    → Move e c e' c'
    → RowsFit e c
    → RowsFit e' c'
Move-RowsFit e c (stays he hc) h = rw (he, hc) h
Move-RowsFit e none (registers x absent still he hc) h = rw (he, hc, still) tt
Move-RowsFit e (some y) (registers x absent still he hc) h = ground arith
Move-RowsFit e c (reserves x y hx unused still w fresh he hc) h = rw (he, hx, hc) (ground arith)
Move-RowsFit e c (dispatches x y t hx hy w first he hc) h = rw (he, hx, hc) (ground arith)
Move-RowsFit e c (completes x y d t raw observation provider hx hy w hd le he hc) h =
    rw (he, hx, hc) (ground arith)
Move-RowsFit e c (fails x y t observation hx hy w hd he hc) h = rw (he, hx, hc) (ground arith)
Move-RowsFit e none (closes x t hx still le settled he hc) h = rw (he, hc) le
Move-RowsFit e (some y) (closes x t hx still le settled he hc) h = rw (he, hc) (ground arith)

-- A step of one execution keeps the whole ledger well formed.
pub Effect-IsValid : (id : String) {l l' : Ledger} → Effect id l l' → IsValid l → IsValid l'
Effect-IsValid id {l} {l'} f v = record { rows = λ j. rows_at j (Bool-cases (id == j)) }
  where
    rows_at :
        (j : String)
        → ((id == j) ≡ true) ⊎ ((id == j) ≡ false)
        → RowsFit (lookup j l'.executions) (lookup j l'.calls)
    rows_at j (inl same) =
        rw (← (eq_iff id j).0 same)
          (Move-RowsFit (lookup id l.executions) (lookup id l.calls) f.move (v.rows id))
    rows_at j (inr other) =
        let ne : id ≢ j = ground (arith, eq_iff id j) in
        rw (f.other_executions j ne, f.other_calls j ne) (v.rows j)

-- The rows of a closed execution are final.
Move-closed :
    {e : Option Execution} {c : Option Call} {e' : Option Execution} {c' : Option Call}
    → Move e c e' c'
    → (x : Execution) (t : ℕ) → e ≡ some x
    → x.closed_at ≡ some t
    → (e' ≡ e) × (c' ≡ c)
Move-closed (stays he hc) z u h k = (he, hc)
Move-closed (registers x absent still he hc) z u h k = absurd (cc)
Move-closed (reserves x y hx unused still w fresh he hc) z u h k = ground arith
Move-closed (dispatches x y t hx hy w first he hc) z u h k = ground arith
Move-closed (completes x y d t raw observation provider hx hy w hd le he hc) z u h k = ground arith
Move-closed (fails x y t observation hx hy w hd he hc) z u h k = ground arith
Move-closed (closes x t hx still le settled he hc) z u h k = ground arith

-- What a step leaves of a call: the request and its time; and all of it, once it has finished.
pub record SameRequest (y z : Call) : Type 0 where
  pub operation : z.operation ≡ y.operation
  pub request_json : z.request_json ≡ y.request_json
  pub request_digest : z.request_digest ≡ y.request_digest
  pub started_at : z.started_at ≡ y.started_at

Move-SameRequest :
    {e : Option Execution} {c : Option Call} {e' : Option Execution} {c' : Option Call}
    → Move e c e' c'
    → (y : Call) → c ≡ some y
    → (z : Call) × (c' ≡ some z) × SameRequest y z × ((y.state ≡ pending) ⊎ (z ≡ y))
Move-SameRequest (stays he hc) y h = (y, rw (hc, h) refl, ground arith, inr refl)
Move-SameRequest (registers x absent still he hc) y h = (y, rw (hc, h) refl, ground arith, inr refl)
Move-SameRequest (reserves x z hx unused still w fresh he hc) y h = absurd (cc)
Move-SameRequest (dispatches x z t hx hz w first he hc) y h =
    (_, hc, ground arith, inl (ground arith))
Move-SameRequest (completes x z d t raw observation provider hx hz w hd le he hc) y h =
    (_, hc, ground arith, inl (ground arith))
Move-SameRequest (fails x z t observation hx hz w hd he hc) y h =
    (_, hc, ground arith, inl (ground arith))
Move-SameRequest (closes x t hx still le settled he hc) y h =
    (y, rw (hc, h) refl, ground arith, inr refl)

module _ (id : String) {l l' : Ledger} (f : Effect id l l') (j : String) where
  pub Effect-closed :
      (x : Execution) (t : ℕ)
      → lookup j l.executions ≡ some x
      → x.closed_at ≡ some t
      → (lookup j l'.executions ≡ lookup j l.executions) × (lookup j l'.calls ≡ lookup j l.calls)
  Effect-closed x t h k = elim (Bool-cases (id == j)) [
    | inl same ↦
        let e : id ≡ j = (eq_iff id j).0 same in rw (← e) (Move-closed f.move x t (rw e h) k)
    | inr other ↦
        let ne : id ≢ j = ground (arith, eq_iff id j) in
        (f.other_executions j ne, f.other_calls j ne)
  ]

  pub Effect-SameRequest :
      (y : Call)
      → lookup j l.calls ≡ some y
      → (z : Call) × (lookup j l'.calls ≡ some z)
        × SameRequest y z
        × ((y.state ≡ pending) ⊎ (z ≡ y))
  Effect-SameRequest y h = elim (Bool-cases (id == j)) [
    | inl same ↦
        let e : id ≡ j = (eq_iff id j).0 same in rw (← e) (Move-SameRequest f.move y (rw e h))
    | inr other ↦
        let ne : id ≢ j = ground (arith, eq_iff id j) in
        (y, rw (f.other_calls j ne) h, ground arith, inr refl)
  ]
