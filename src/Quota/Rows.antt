-- ===== src/Quota/Rows.antt =====
-- The table `admissions` and the sums that `_usage` takes over a window of a principal.
use owasp_llm_lab_setup_guid.Base.{
  ℕ, ◌+◌, Bool, true, false, ◌&&◌, Option, none, some, String, [], ◌∷◌, ◌==◌, Table, nat_eq,
  if◌then◌else◌,
}

-- The column `outcome`.
pub data Outcome : Type 0 where
  pending complete uncertain : Outcome

-- A row of admissions; the key is id.
pub record Admission : Type 0 where
  pub principal : String
  pub window : ℕ
  pub reserved : ℕ
  pub input_tokens : Option ℕ
  pub output_tokens : Option ℕ
  pub outcome : Outcome

abbrev pub is_pending : Outcome → Bool
is_pending pending = true
is_pending complete = false
is_pending uncertain = false

-- `WHERE principal=? AND window=?`
abbrev pub in_window : String → ℕ → Admission → Bool
in_window principal window r = r.principal == principal && nat_eq r.window window

-- `COALESCE(output_tokens, reserved)`
abbrev pub committed_by : Admission → ℕ
committed_by r = elim r.output_tokens [ none ↦ r.reserved | some n ↦ n ]

-- A nullable number in a sum.
abbrev pub or_zero : Option ℕ → ℕ
or_zero none = 0
or_zero (some n) = n

-- `CASE WHEN output_tokens IS NULL THEN reserved ELSE 0 END`
abbrev pub still_reserved : Admission → ℕ
still_reserved r = elim r.output_tokens [ none ↦ r.reserved | some n ↦ 0 ]

-- The sum of a column over the rows of a window.
unfoldable pub sum_over : (Admission → ℕ) → String → ℕ → Table Admission → ℕ
sum_over column principal window [] = 0
sum_over column principal window ((k, r) ∷ t) =
    let rest = sum_over column principal window t in
    if in_window principal window r then column r + rest else rest

pub record Usage : Type 0 where
  pub requests : ℕ
  pub output_committed : ℕ
  pub input_tokens : ℕ
  pub output_tokens : ℕ
  pub output_reserved : ℕ

-- `_usage`
unfoldable pub usage_in : String → ℕ → Table Admission → Usage
unfolding sum_over
usage_in principal window t = record {
  requests = sum_over (λ r. 1) principal window t;
  output_committed = sum_over committed_by principal window t;
  input_tokens = sum_over (λ r. or_zero r.input_tokens) principal window t;
  output_tokens = sum_over (λ r. or_zero r.output_tokens) principal window t;
  output_reserved = sum_over still_reserved principal window t;
}

-- `UPDATE admissions SET … WHERE id=?`, of the one row with the key.
unfoldable pub update_row : String → (Admission → Admission) → Table Admission → Table Admission
update_row id f [] = []
update_row id f ((k, r) ∷ t) =
    let rest = update_row id f t in if k == id then (k, f r) ∷ t else (k, r) ∷ rest
