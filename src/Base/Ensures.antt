-- ===== src/Base/Ensures.antt =====
-- Partial correctness of an operation that may raise, with one rule for each form of `do` line.
use mathlib.Core.Path.{◌≡◌, refl, subst}
use mathlib.Core.Bool.{Bool, true, false}
use mathlib.Core.Option.{Option, none, some}
use owasp_llm_lab_setup_guid.Base.Tests.{if◌then◌else◌}
use owasp_llm_lab_setup_guid.Base.Results.{
  Result, ok, err, ◌>>=◌, ◌>>◌, guard, or_raise, after, is_ok,
}

-- What the operation returns has the property.
pub record Ensures {ℓ κ μ} {E : Type ℓ} {A : Type κ} (P : A → Type μ) (m : Result E A)
    : Type (ℓ ⊔ κ ⊔ μ) where
  pub at : (a : A) → m ≡ ok a → P a

ok_injective {ℓ κ} :
    (E : Type ℓ) {A : Type κ} (x y : A) → ◌≡◌ {A = Result E A} (ok x) (ok y) → x ≡ y
ok_injective E x y e = cc

module _ {ℓ κ μ} {E : Type ℓ} {A : Type κ} {P : A → Type μ} where
  pub returns : (a : A) → P a → Ensures P (let r : Result E A = ok a in r)
  returns a p = record { at = λ b e. subst P (ok_injective E a b e) p }

  pub raises : (e : E) → Ensures P (let r : Result E A = err e in r)
  raises e = record { at = λ b e. cc }

module _ {ℓ κ μ ν} {E : Type ℓ} {A : Type κ} {B : Type μ} {P : B → Type ν} where
  pub after_bind :
      (m : Result E A) (f : A → Result E B)
      → ((a : A) → m ≡ ok a → Ensures P (f a))
      → Ensures P (m >>= f)
  after_bind (ok a) f h = h a refl
  after_bind (err e) f h = raises e

  pub after_or_raise :
      (o : Option A) (e : E) (f : A → Result E B)
      → ((a : A) → o ≡ some a → Ensures P (f a))
      → Ensures P (or_raise o e >>= f)
  after_or_raise none e f h = raises e
  after_or_raise (some a) e f h = h a refl

module _ {ℓ μ ν} {E : Type ℓ} {B : Type μ} {P : B → Type ν} where
  pub after_guard :
      (b : Bool) (e : E) (m : Result E B) → (b ≡ true → Ensures P m) → Ensures P (guard b e >> m)
  after_guard true e m h = h refl
  after_guard false e m h = raises e

  pub after_if :
      (b : Bool) (m n : Result E B)
      → (b ≡ true → Ensures P m)
      → (b ≡ false → Ensures P n)
      → Ensures P (if b then m else n)
  after_if true m n h k = h refl
  after_if false m n h k = k refl

-- An operation that keeps or establishes `P` leaves it in the state after it, if the state before
-- it had `P`: what raises is rolled back.
pub Ensures-after {ℓ κ μ ν} :
    {E : Type ℓ} {S : Type κ} {A : Type μ} (P : S → Type ν) (m : Result E (A × S)) {s : S}
    → P s
    → Ensures (λ (r : A × S). P (r.1)) m
    → P (after m s)
Ensures-after P (ok r) h p = p.at r refl
Ensures-after P (err e) h p = h

-- An operation that can return nothing raises.
pub refuses {ℓ κ} :
    {E : Type ℓ} {A : Type κ} (m : Result E A) → Ensures (λ r. ⊥) m → is_ok m ≡ false
refuses (ok a) h = absurd (h.at a refl)
refuses (err e) h = refl
