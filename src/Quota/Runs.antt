-- ===== src/Quota/Runs.antt =====
-- Histories of `GatewayOperations`, what `usage` reports through them, and repeated settlements.
use owasp_llm_lab_setup_guid.Base.{
  ℕ, ◌+◌, ◌≤◌, ◌≡◌, refl, Bool, true, false, not, ◌&&◌, Option, none, some, String, List, [], ◌∷◌,
  ◌==◌, lookup, is_none, leb, ltb, text_in, len, lookup-append, ok, after, is_ok, arith, Bool-cases,
  inl, inr,
}
use owasp_llm_lab_setup_guid.Base.Ensures.{
  Ensures, Ensures-after, returns, refuses, after_or_raise, after_guard,
}
use owasp_llm_lab_setup_guid.Quota.Policy.{Client, Policy}
use owasp_llm_lab_setup_guid.Quota.Rows.{
  Admission, is_pending, committed_by, or_zero, still_reserved, sum_over, Usage, usage_in,
  update_row,
}
use owasp_llm_lab_setup_guid.Quota.Operations.{
  Admissions, admit, before_hash, new_admission, made_uncertain, settled, settle, mark_uncertain,
  Report, usage, window_of,
}
use owasp_llm_lab_setup_guid.Quota.Budget.{
  IsWithin, admit-IsWithin, settle-IsWithin, mark_uncertain-IsWithin,
}

-- One call of a method that writes.
pub data Request : Type 0 where
  admitting : (principal model text : String) → (max_tokens now : ℕ) → (id : String) → Request
  settling : (id : String) → (input output : ℕ) → Request
  giving_up : String → Request

module _ (policy : Policy) where
  unfoldable pub handle : Request → Admissions → Admissions
  unfolding admit settle mark_uncertain
  handle (admitting principal model text max_tokens now id) t =
      after (admit policy principal model text max_tokens now id t) t
  handle (settling id input output) t = after (settle id input output t) t
  handle (giving_up id) t = mark_uncertain id t

  unfoldable pub run : List Request → Admissions → Admissions
  unfolding handle
  run [] t = t
  run (r ∷ rs) t = run rs (handle r t)

  handle-IsWithin :
      (r : Request) (t : Admissions) → IsWithin policy t → IsWithin policy (handle r t)
  unfolding handle
  handle-IsWithin (admitting principal model text max_tokens now id) t v =
      Ensures-after (IsWithin policy) (admit policy principal model text max_tokens now id t) v
        (admit-IsWithin policy principal model text max_tokens now id t v)
  handle-IsWithin (settling id input output) t v =
      Ensures-after (IsWithin policy) (settle id input output t) v
        (settle-IsWithin policy id input output t v)
  handle-IsWithin (giving_up id) t v = mark_uncertain-IsWithin policy id t v

  -- Whatever requests come, at whatever times, no principal of the policy has more requests in a
  -- window, or more output tokens used and reserved, than the policy permits, if none had at first.
  pub run-IsWithin :
      (rs : List Request) (t : Admissions) → IsWithin policy t → IsWithin policy (run rs t)
  unfolding run
  run-IsWithin [] t v = v
  run-IsWithin (r ∷ rs) t v = run-IsWithin rs (handle r t) (handle-IsWithin r t v)

committed_split :
    (principal : String) (window : ℕ) (t : Admissions)
    → sum_over (λ r. or_zero r.output_tokens) principal window t
        + sum_over still_reserved principal window t
      ≡ sum_over committed_by principal window t
unfolding sum_over
committed_split principal window [] = ground arith
committed_split principal window ((k, r) ∷ t) = ground (arith, committed_split principal window t)

-- What a report says of the use of a principal, against its limits.
pub record IsFair (u : Usage) (limits : Client) : Type 0 where
  pub committed : u.output_tokens + u.output_reserved ≡ u.output_committed
  pub output : u.output_committed ≤ limits.output_tokens
  pub requests : u.requests ≤ limits.requests

usage_lem :
    (policy : Policy) (principal : String) (now : ℕ) (t : Admissions)
    → IsWithin policy t
    → Ensures (λ r. IsFair r.used r.limits) (usage policy principal now t)
unfolding usage usage_in
usage_lem policy principal now t v =
    after_or_raise (lookup principal policy.clients) _ _ λ client found.
      let window = window_of policy now in
      returns _ (record {
        committed = committed_split principal window t;
        output = v.output principal client window found;
        requests = v.requests principal client window found;
      })

-- Where the limits hold, what `usage` returns is fair: the output tokens used and those still
-- reserved are together what is committed, which is within the limit, as the requests are.
pub usage-IsFair :
    (policy : Policy) (principal : String) (now : ℕ) (t : Admissions) (report : Report)
    → IsWithin policy t
    → usage policy principal now t ≡ ok report
    → IsFair report.used report.limits
usage-IsFair policy principal now t report v h = (usage_lem policy principal now t v).at report h

-- Whether the reservation is settled.
abbrev pub is_final : Option Admission → Bool
is_final none = false
is_final (some r) = not (is_pending r.outcome)

final_kept :
    (id key : String) (f : Admission → Admission) (t : Admissions)
    → ((r : Admission)
        → lookup key t ≡ some r
        → is_pending r.outcome ≡ false
        → is_pending (f r).outcome ≡ false)
    → is_final (lookup id t) ≡ true
    → is_final (lookup id (update_row key f t)) ≡ true
unfolding lookup update_row
final_kept id key f [] keeps h = h
final_kept id key f ((k, r) ∷ t) keeps h = elim (Bool-cases (k == key)) [
  | inl here ↦ ground (arith, keeps r)
  | inr later ↦ let rest = final_kept id key f t (λ s e. keeps s (ground arith)) in ground arith
]

stored-final :
    (id : String) (f : Admission → Admission) (t : Admissions) (r : Admission)
    → lookup id t ≡ some r
    → is_pending (f r).outcome ≡ false
    → is_final (lookup id (update_row id f t)) ≡ true
unfolding lookup update_row
stored-final id f [] r h done = cc
stored-final id f ((k, s) ∷ t) r h done = ground (arith, stored-final id f t r)

settle-final :
    (id : String) (input output : ℕ) (t : Admissions)
    → Ensures
        (λ r. (is_final (lookup id t) ≡ false) × (is_final (lookup id r.1) ≡ true))
        (settle id input output t)
unfolding settle
settle-final id input output t = after_or_raise (lookup id t) _ _ λ r found.
    after_guard (is_pending r.outcome) _ _ λ waits.
      after_guard (leb output r.reserved) _ _
        λ few. returns _ (ground arith, stored-final id (settled input output) t r found refl)

module _ (policy : Policy) where
  admit-final :
      (id principal model text : String) (max_tokens now : ℕ) (key : String) (t : Admissions)
      → is_final (lookup id t) ≡ true
      → Ensures
          (λ r. is_final (lookup id r.1) ≡ true)
          (admit policy principal model text max_tokens now key t)
  unfolding admit
  admit-final id principal model text max_tokens now key t h =
      after_or_raise (lookup principal policy.clients) _ _ λ client found.
        after_guard (text_in (before_hash model) client.models) _ _ λ h1.
          after_guard (leb (len text) client.max_input_bytes) _ _ λ h2.
            after_guard (leb 1 max_tokens && leb max_tokens client.max_output_tokens) _ _ λ h3.
              after_guard
                (ltb (usage_in principal (window_of policy now) t).requests client.requests) _ _
                λ h4.
                  after_guard
                    (leb
                      ((usage_in principal (window_of policy now) t).output_committed + max_tokens)
                      client.output_tokens)
                    _ _
                    λ h5. after_guard (is_none (lookup key t)) _ _ λ fresh. returns _ (
                      ground (
                        arith,
                        lookup-append key id
                            (new_admission principal (window_of policy now) max_tokens) t,
                      ))

  handle-final :
      (id : String) (r : Request) (t : Admissions)
      → is_final (lookup id t) ≡ true
      → is_final (lookup id (handle policy r t)) ≡ true
  unfolding handle mark_uncertain settle
  handle-final id (admitting principal model text max_tokens now key) t h =
      Ensures-after (λ u. is_final (lookup id u) ≡ true)
        (admit policy principal model text max_tokens now key t) h
        (admit-final id principal model text max_tokens now key t h)
  handle-final id (settling key input output) t h =
      Ensures-after (λ u. is_final (lookup id u) ≡ true) (settle key input output t) h
        (after_or_raise (lookup key t) _ _ λ r found.
          after_guard (is_pending r.outcome) _ _ λ waits.
            after_guard (leb output r.reserved) _ _
              λ few. returns _ (final_kept id key (settled input output) t (λ s e k. refl) h))
  handle-final id (giving_up key) t h = final_kept id key made_uncertain t (λ s e k. ground arith) h

  run-final :
      (id : String) (rs : List Request) (t : Admissions)
      → is_final (lookup id t) ≡ true
      → is_final (lookup id (run policy rs t)) ≡ true
  unfolding run
  run-final id [] t h = h
  run-final id (r ∷ rs) t h = run-final id rs (handle policy r t) (handle-final id r t h)

  -- A reservation is settled once: after a settlement that returns, none of the same reservation
  -- returns, whatever requests come between.
  pub settle_once :
      (id : String) (input output : ℕ) (t t' : Admissions)
      → settle id input output t ≡ ok (tt, t')
      → (rs : List Request) (input' output' : ℕ)
      → is_ok (settle id input' output' (run policy rs t')) ≡ false
  settle_once id input output t t' h rs input' output' = refuses _ (record {
    at = λ r again.
        let (_, done) = (settle-final id input output t).at (tt, t') h in
        let (waits, _) = (settle-final id input' output' (run policy rs t')).at r again in
        let kept = run-final id rs t' done in cc;
  })
