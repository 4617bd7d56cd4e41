-- ===== src/Quota/Budget.antt =====
-- Histories of `GatewayOperations`: the requests and the output tokens of a principal in a window,
-- against the limits of the policy.
use owasp_llm_lab_setup_guid.Base.{
  ℕ, ◌+◌, ◌≤◌, ◌≡◌, refl, Bool, true, not, ◌&&◌, none, some, String, [], ◌∷◌, ◌==◌, lookup, append,
  text_in, len, is_none, leb, ltb, if◌then◌else◌, arith, eq_iff, Bool-cases, inl, inr,
}
use owasp_llm_lab_setup_guid.Base.Ensures.{Ensures, returns, after_or_raise, after_guard}
use owasp_llm_lab_setup_guid.Quota.Policy.{Client, Policy}
use owasp_llm_lab_setup_guid.Quota.Rows.{
  Admission, is_pending, in_window, committed_by, sum_over, usage_in, update_row,
}
use owasp_llm_lab_setup_guid.Quota.Operations.{
  Admissions, before_hash, window_of, new_admission, admit, settled, settle, made_uncertain,
  mark_uncertain,
}

-- A pending row has no output tokens yet, and no row has more than it reserved.
abbrev pub row_fits : Admission → Bool
row_fits r = elim r.output_tokens [
  | none ↦ true
  | some n ↦ not (is_pending r.outcome) && leb n r.reserved
]

unfoldable pub rows_fit : Admissions → Bool
rows_fit [] = true
rows_fit ((k, r) ∷ t) = row_fits r && rows_fit t

-- No principal of the policy is above its limits in any window.
pub record IsWithin (policy : Policy) (t : Admissions) : Type 0 where
  pub rows : rows_fit t ≡ true
  pub requests :
      (principal : String) (client : Client) (window : ℕ)
      → lookup principal policy.clients ≡ some client
      → sum_over (λ r. 1) principal window t ≤ client.requests
  pub output :
      (principal : String) (client : Client) (window : ℕ)
      → lookup principal policy.clients ≡ some client
      → sum_over committed_by principal window t ≤ client.output_tokens

abbrev share : (Admission → ℕ) → String → ℕ → Admission → ℕ
share column principal window r = if in_window principal window r then column r else 0

sum_over-append :
    (column : Admission → ℕ) (principal : String) (window : ℕ) (k : String) (r : Admission)
    (t : Admissions)
    → sum_over column principal window (append k r t)
      ≡ sum_over column principal window t + share column principal window r
unfolding sum_over append
sum_over-append column principal window k r [] = ground arith
sum_over-append column principal window k r ((j, s) ∷ t) =
    ground (arith, sum_over-append column principal window k r t)

rows_fit-append :
    (k : String) (r : Admission) (t : Admissions)
    → row_fits r ≡ true
    → rows_fit t ≡ true
    → rows_fit (append k r t) ≡ true
unfolding rows_fit append
rows_fit-append k r [] h v = ground arith
rows_fit-append k r ((j, s) ∷ t) h v = ground (arith, rows_fit-append k r t)

-- The update of the row that is found, which does not add to a sum.
sum_over-update :
    (column : Admission → ℕ) (principal : String) (window : ℕ) (id : String)
    (f : Admission → Admission) (t : Admissions)
    → ((r : Admission)
        → lookup id t ≡ some r
        → share column principal window (f r) ≤ share column principal window r)
    → sum_over column principal window (update_row id f t) ≤ sum_over column principal window t
unfolding sum_over update_row lookup
sum_over-update column principal window id f [] h = ground arith
sum_over-update column principal window id f ((j, s) ∷ t) h = elim (Bool-cases (j == id)) [
  | inl here ↦ ground (arith, h s)
  | inr later ↦
      let rest = sum_over-update column principal window id f t (λ r e. h r (ground arith)) in
      ground arith
]

rows_fit-update :
    (id : String) (f : Admission → Admission) (t : Admissions)
    → ((r : Admission) → lookup id t ≡ some r → row_fits r ≡ true → row_fits (f r) ≡ true)
    → rows_fit t ≡ true
    → rows_fit (update_row id f t) ≡ true
unfolding rows_fit update_row lookup
rows_fit-update id f [] h v = refl
rows_fit-update id f ((j, s) ∷ t) h v = elim (Bool-cases (j == id)) [
  | inl here ↦ ground (arith, h s)
  | inr later ↦ let rest = rows_fit-update id f t (λ r e. h r (ground arith)) in ground arith
]

rows_fit-lookup :
    (id : String) (r : Admission) (t : Admissions)
    → lookup id t ≡ some r
    → rows_fit t ≡ true
    → row_fits r ≡ true
unfolding rows_fit lookup
rows_fit-lookup id r [] h v = cc
rows_fit-lookup id r ((j, s) ∷ t) h v = ground (arith, rows_fit-lookup id r t)

share-le : {a b : Bool} {x y : ℕ} → a ≡ b → x ≤ y → (if a then x else 0) ≤ (if b then y else 0)
share-le e h = ground arith

module _ (policy : Policy) where
  pub admit-IsWithin :
      (principal model text : String) (max_tokens now : ℕ) (id : String) (t : Admissions)
      → IsWithin policy t
      → Ensures (λ r. IsWithin policy r.1) (admit policy principal model text max_tokens now id t)
  unfolding admit usage_in
  admit-IsWithin principal model text max_tokens now id t v =
      after_or_raise (lookup principal policy.clients) _ _ λ client found.
        after_guard (text_in (before_hash model) client.models) _ _ λ h1.
          after_guard (leb (len text) client.max_input_bytes) _ _ λ h2.
            after_guard (leb 1 max_tokens && leb max_tokens client.max_output_tokens) _ _ λ h3.
              after_guard
                (ltb (sum_over (λ r. 1) principal (window_of policy now) t) client.requests) _ _
                λ h4.
                  after_guard
                    (leb (sum_over committed_by principal (window_of policy now) t + max_tokens)
                      client.output_tokens)
                    _ _
                    λ h5. after_guard (is_none (lookup id t)) _ _ λ fresh.
                      let row = new_admission principal (window_of policy now) max_tokens in
                      returns _ (record {
                        rows = rows_fit-append id row t refl v.rows;
                        requests = λ p c w e. ground (
                          arith,
                          v.requests p c w e,
                          sum_over-append (λ r. 1) p w id row t,
                          eq_iff principal p,
                        );
                        output = λ p c w e. ground (
                          arith,
                          v.output p c w e,
                          sum_over-append committed_by p w id row t,
                          eq_iff principal p,
                        );
                      })

  update-IsWithin :
      (id : String) (f : Admission → Admission) (t : Admissions)
      → IsWithin policy t
      → ((r : Admission) → lookup id t ≡ some r → row_fits r ≡ true → row_fits (f r) ≡ true)
      → ((r : Admission) → ((f r).principal ≡ r.principal) × ((f r).window ≡ r.window))
      → ((r : Admission)
          → lookup id t ≡ some r
          → row_fits r ≡ true
          → committed_by (f r) ≤ committed_by r)
      → IsWithin policy (update_row id f t)
  update-IsWithin id f t v fits same less = record {
    rows = rows_fit-update id f t fits v.rows;
    requests = λ p c w e.
        let smaller =
          sum_over-update (λ r. 1) p w id f t
            (λ r h. share-le (same_window r p w) (ground arith)) in
        ground (arith, v.requests p c w e);
    output = λ p c w e.
        let smaller =
          sum_over-update committed_by p w id f t
            (λ r h. share-le (same_window r p w) (less r h (rows_fit-lookup id r t h v.rows))) in
        ground (arith, v.output p c w e);
  }
    where
      same_window : (r : Admission) (p : String) (w : ℕ) → in_window p w (f r) ≡ in_window p w r
      same_window r p w = let (a, b) = same r in rw (a, b) refl

  pub settle-IsWithin :
      (id : String) (input output : ℕ) (t : Admissions)
      → IsWithin policy t
      → Ensures (λ r. IsWithin policy r.1) (settle id input output t)
  unfolding settle
  settle-IsWithin id input output t v = after_or_raise (lookup id t) _ _ λ r found.
      after_guard (is_pending r.outcome) _ _ λ waits. after_guard (leb output r.reserved) _ _ λ few.
        returns _ (
          update-IsWithin id (settled input output) t v (λ s h fits. ground arith)
            (λ s. (refl, refl)) (λ s h fits. ground arith))

  pub mark_uncertain-IsWithin :
      (id : String) (t : Admissions) → IsWithin policy t → IsWithin policy (mark_uncertain id t)
  unfolding mark_uncertain
  mark_uncertain-IsWithin id t v =
      update-IsWithin id made_uncertain t v (λ s h fits. ground arith) (λ s. ground arith)
        (λ s h fits. ground arith)
