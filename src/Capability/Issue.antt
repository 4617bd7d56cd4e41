-- ===== src/Capability/Issue.antt =====
-- `issue` and `close` of P12: what they add and what they retire.
use owasp_llm_lab_setup_guid.Base.{
  ℕ, ◌≡◌, sym, ◌∙◌, subst, false, not, none, some, String, lookup, update, update_where, exists,
  arith, eq_iff, Option-cases, inl, inr, lookup-update, lookup-update_where, exists-lookup,
  same_value, if◌then◌else◌,
}
use owasp_llm_lab_setup_guid.Base.Ensures.{Ensures, returns, after_or_raise, after_guard}
use owasp_llm_lab_setup_guid.Capability.Rows.{Suite, Grant, Store}
use owasp_llm_lab_setup_guid.Capability.Operations.{close, busy_in, unused_in, retire, close_time}
use owasp_llm_lab_setup_guid.Capability.Invariant.{GrantFits, IsValid, Later}
use owasp_llm_lab_setup_guid.Capability.Preserve.{Good}

-- A grant after the `UPDATE`s of `close`.
abbrev kept_or_retired : String → Grant → Grant
kept_or_retired suite g = if unused_in suite g then retire g else g

module _ (suite : String) (current : ℕ) (s : Store) (v : IsValid s) (parent : Suite)
    (found : lookup suite s.suites ≡ some parent)
    (idle : exists (busy_in suite) s.grants ≡ false) where
  abbrev closing : Suite → Suite
  closing r = record r { closed = some (close_time parent.closed current) }

  retired-fits :
      (k : String) (g : Grant)
      → lookup k s.grants ≡ some g
      → GrantFits (update suite closing s.suites) (kept_or_retired suite g)
  retired-fits k g h =
      let fits = v.grants k g h in
      ground (
        arith,
        exists-lookup (busy_in suite) k g s.grants idle h,
        lookup-update suite g.suite_id closing s.suites,
        eq_iff suite g.suite_id,
      )

  kept_row :
      (k : String) (g : Grant)
      → lookup k s.grants ≡ some g
      → lookup k (update_where (unused_in suite) retire s.grants) ≡ some (kept_or_retired suite g)
  kept_row k g e = lookup-update_where (unused_in suite) k retire s.grants ∙ ground arith

  -- Every row after the update comes from a row before it.
  retired_row :
      (k : String) (g : Grant)
      → lookup k (update_where (unused_in suite) retire s.grants) ≡ some g
      → (h : Grant) × (lookup k s.grants ≡ some h) × (kept_or_retired suite h ≡ g)
  retired_row k g e = elim (Option-cases (lookup k s.grants)) [
    | inl absent ↦ absurd (
        none-ne-some
          (sym (lookup-update_where (unused_in suite) k retire s.grants ∙ ground arith) ∙ e))
    | inr (h, hh) ↦ (h, hh, same_value _ _ (sym (kept_row k h hh) ∙ e))
  ]
    where
      none-ne-some : {x : Grant} → none ≡ some x → ⊥
      none-ne-some p = cc

  kept-Later : (g : Grant) → Later g (kept_or_retired suite g)
  kept-Later g = ground arith

  closed_row :
      (k : String) (x : Suite) (t : ℕ)
      → lookup k s.suites ≡ some x
      → x.closed ≡ some t
      → lookup k (update suite closing s.suites) ≡ some x
  closed_row k x t e c = lookup-update suite k closing s.suites ∙ ground (arith, eq_iff suite k)

  close_state-Good : Good s (
    close_time parent.closed current,
    record s {
      suites = update suite closing s.suites;
      grants = update_where (unused_in suite) retire s.grants;
    },
  )
  close_state-Good = (
    record {
      grants = λ k g e.
          let (h, hh, same) = retired_row k g e in
          subst (GrantFits (update suite closing s.suites)) same (retired-fits k h hh);
    },
    record {
      grants = λ k g e. (kept_or_retired suite g, kept_row k g e, kept-Later g);
      closed = λ k x t e c. closed_row k x t e c;
    },
  )

-- Closing a suite keeps the store well formed.
pub close-Good :
    (suite : String) (current : ℕ) (s : Store)
    → IsValid s
    → Ensures (Good s) (close suite current s)
unfolding close
close-Good suite current s v = after_or_raise (lookup suite s.suites) _ _ λ parent hp.
    after_guard (not (exists (busy_in suite) s.grants)) _ _
      λ idle. returns _ (close_state-Good suite current s v parent hp (ground arith))
