-- ===== src/Actions/Balance.antt =====
-- The accounts of each suite: its balance, effects and calls, and the capabilities that are used.
use owasp_llm_lab_setup_guid.Base.{
  ℕ, suc, ◌+◌, ◌*◌, ◌≡◌, ◌≢◌, refl, sym, subst, not, ◌&&◌, Option, none, some, String, List, [],
  ◌∷◌, ◌++◌, ◌==◌, lookup, append, update, any, length, is_none, if◌then◌else◌, arith, eq_iff,
  Bool-cases, inl, inr, update_at, update_elsewhere, append_at, append_elsewhere,
}
use owasp_llm_lab_setup_guid.Base.Ensures.{Ensures, returns, after_bind, after_guard}
use owasp_llm_lab_setup_guid.Json.{Integer, plus, minus}
use owasp_llm_lab_setup_guid.Actions.Rows.{
  CaseId, is_write, Suite, Capability, Call, Effect, Database, take_amount, starting_balance,
  find_capability, use_capability, effects_of, calls_of,
}
use owasp_llm_lab_setup_guid.Actions.Tokens.{Library}
use owasp_llm_lab_setup_guid.Actions.Provider.{
  SuiteExecution, ExecuteRequest, conflicts, new_capability, token_of, grant_all,
}
use owasp_llm_lab_setup_guid.Actions.Execution.{call_row, effect_row, apply_action}

-- The capabilities that are used.
unfoldable pub count_used : List Capability → ℕ
count_used [] = 0
count_used (c ∷ cs) = (if is_none c.used_at then 0 else 1) + count_used cs

-- The calls that write.
unfoldable pub count_writes : List Call → ℕ
count_writes [] = 0
count_writes (c ∷ cs) = (if is_write c.action_id then 1 else 0) + count_writes cs

-- A balance from which `n` transfers of 100 were taken at 10000.
abbrev pub Spent : Integer → ℕ → Type 0
Spent (plus b) n = b + 100 * n ≡ 10000
Spent (minus b) n = 100 * n ≡ 10001 + b

abbrev pub Accounted : Option Suite → ℕ → Type 0
Accounted none n = n ≡ 0
Accounted (some s) n = Spent s.balance n

-- The accounts of the suites agree with the effects, these with the calls, and the calls with the
-- capabilities that are used.
pub record IsBalanced (d : Database) : Type 0 where
  pub suites : (id : String) → Accounted (lookup id d.suites) (length (effects_of id d.effects))
  pub writes : (id : String) → count_writes (calls_of id d.calls) ≡ length (effects_of id d.effects)
  pub calls : length d.calls ≡ count_used d.capabilities

take_amount-Spent : (b : Integer) (n : ℕ) → Spent b n → Spent (take_amount b) (suc n)
take_amount-Spent (plus b) n h = ground arith
take_amount-Spent (minus b) n h = ground arith

length-append : {A : Type 0} (x : A) (xs : List A) → length (xs ++ x ∷ []) ≡ suc (length xs)
length-append x [] = refl
length-append x (y ∷ ys) = ground (arith, length-append x ys)

effects_of-append :
    (id : String) (e : Effect) (es : List Effect)
    → length (effects_of id (es ++ e ∷ []))
      ≡ length (effects_of id es) + (if e.suite_id == id then 1 else 0)
unfolding effects_of
effects_of-append id e [] = ground arith
effects_of-append id e (f ∷ es) = ground (arith, effects_of-append id e es)

effects_of-own :
    (id : String) (e : Effect) (es : List Effect)
    → e.suite_id ≡ id
    → length (effects_of id (es ++ e ∷ [])) ≡ suc (length (effects_of id es))
effects_of-own id e es h = ground (arith, effects_of-append id e es, eq_iff e.suite_id id)

effects_of-other :
    (id : String) (e : Effect) (es : List Effect)
    → e.suite_id ≢ id
    → length (effects_of id (es ++ e ∷ [])) ≡ length (effects_of id es)
effects_of-other id e es h = ground (arith, effects_of-append id e es, eq_iff e.suite_id id)

writes-append :
    (id : String) (c : Call) (cs : List Call)
    → count_writes (calls_of id (cs ++ c ∷ []))
      ≡ count_writes (calls_of id cs)
        + (if (c.suite_id == id) && is_write c.action_id then 1 else 0)
unfolding calls_of count_writes
writes-append id c [] = ground arith
writes-append id c (d ∷ cs) = ground (arith, writes-append id c cs)

used-append :
    (c : Capability) (cs : List Capability)
    → c.used_at ≡ none
    → count_used (cs ++ c ∷ []) ≡ count_used cs
unfolding count_used
used-append c [] h = ground arith
used-append c (d ∷ cs) h = ground (arith, used-append c cs h)

used-mark :
    (t : ℕ) (digest : String) (cs : List Capability) (c : Capability)
    → find_capability digest cs ≡ some c
    → c.used_at ≡ none
    → count_used (use_capability t digest cs) ≡ suc (count_used cs)
unfolding count_used use_capability find_capability
used-mark t digest [] c h u = cc
used-mark t digest (d ∷ cs) c h u = ground (arith, used-mark t digest cs c)

module _ (library : Library) where
  pub grant_all-used :
      (nonces : CaseId → String) (suite_id : String) (expires_at : ℕ) (xs : List SuiteExecution)
      (cs : List Capability)
      → Ensures
          (λ r. count_used r.1 ≡ count_used cs)
          (grant_all library nonces suite_id expires_at xs cs)
  unfolding grant_all
  grant_all-used nonces suite_id expires_at [] cs = returns _ refl
  grant_all-used nonces suite_id expires_at (x ∷ xs) cs =
      let digest = library.sha256 (token_of library nonces suite_id expires_at x) in
      let row = new_capability suite_id expires_at digest x in
      after_guard (not (any (conflicts suite_id x.case_id digest) cs)) _ _ λ fresh.
        after_bind (grant_all library nonces suite_id expires_at xs (cs ++ row ∷ [])) _
          λ (grants, rows) h. returns _ (
            let rest =
              (grant_all-used nonces suite_id expires_at xs (cs ++ row ∷ [])).at (grants, rows) h in
            ground (arith, used-append row cs refl, rest))

pub created-Accounted :
    (id key : String) (s : Suite) (t : List (String × Suite)) (n : ℕ)
    → lookup key t ≡ none
    → s.balance ≡ starting_balance
    → Accounted (lookup id t) n
    → Accounted (lookup id (append key s t)) n
created-Accounted id key s t n absent h v = elim (Bool-cases (key == id)) [
  | inl here ↦
      let same : key ≡ id = (eq_iff key id).0 here in
      let nothing : n ≡ 0 =
        subst (λ o. Accounted o n) (subst (λ k. lookup k t ≡ none) same absent) v in
      rw (sym same, append_at key s t absent, h) (ground arith)
  | inr other ↦ rw (append_elsewhere key id s t (ground (arith, eq_iff key id))) v
]

-- The balance that an action stores, of which `k` transfers were taken.
stored-Accounted :
    (id key : String) (b : Integer) (t : List (String × Suite)) (s : Suite) (n k : ℕ)
    → lookup key t ≡ some s
    → Accounted (lookup id t) n
    → (key ≡ id → Spent s.balance n → Spent b k)
    → (key ≢ id → k ≡ n)
    → Accounted (lookup id (update key (λ s. record s { balance = b }) t)) k
stored-Accounted id key b t s n k found v next same = elim (Bool-cases (key == id)) [
  | inl here ↦
      let one : key ≡ id = (eq_iff key id).0 here in
      rw (sym one, update_at key (λ s. record s { balance = b }) t found)
        (next one
          (subst (λ o. Accounted o n) found (subst (λ i. Accounted (lookup i t) n) (sym one) v)))
  | inr other ↦
      let ne : key ≢ id = ground (arith, eq_iff key id) in
      rw (update_elsewhere key id (λ s. record s { balance = b }) t ne, same ne) v
]

one_more :
    (x : Call) (t : ℕ) (digest : String) (c : Capability) (d : Database)
    → IsBalanced d
    → find_capability digest d.capabilities ≡ some c
    → c.used_at ≡ none
    → length (d.calls ++ x ∷ []) ≡ count_used (use_capability t digest d.capabilities)
one_more x t digest c d v found unused =
    ground
      (arith, length-append x d.calls, used-mark t digest d.capabilities c found unused, v.calls)

pub apply_action-IsBalanced :
    (r : ExecuteRequest) (digest call_id effect_id : String) (now : ℕ) (s : Suite) (c : Capability)
    (d : Database)
    → IsBalanced d
    → find_capability digest d.capabilities ≡ some c
    → c.used_at ≡ none
    → lookup r.suite_id d.suites ≡ some s
    → IsBalanced (apply_action r digest call_id effect_id now s.balance d)
unfolding apply_action
apply_action-IsBalanced r digest call_id effect_id now s c d v found unused known =
    let call = call_row r call_id now s.balance in
    let effect = effect_row r call_id effect_id now in
    elim (Bool-cases (is_write r.action_id)) [
      | inl writes ↦ rw writes (record {
        suites = λ id.
            stored-Accounted id r.suite_id _ d.suites s _ _ known (v.suites id)
              (λ one h.
                subst (Spent (take_amount s.balance)) (sym (effects_of-own id effect d.effects one))
                  (take_amount-Spent s.balance _ h))
              (effects_of-other id effect d.effects);
        writes = λ id. ground (
          arith,
          writes-append id call d.calls,
          effects_of-append id effect d.effects,
          v.writes id,
        );
        calls = one_more _ now digest c d v found unused;
      })
      | inr reads ↦ rw reads (record {
        suites = λ id. v.suites id;
        writes = λ id. ground (arith, writes-append id call d.calls, v.writes id);
        calls = one_more _ now digest c d v found unused;
      })
    ]
