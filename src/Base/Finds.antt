-- ===== src/Base/Finds.antt =====
-- Rows that have a property: the first of them, and the writes of all of them.
use mathlib.Core.Path.{◌≡◌, refl}
use mathlib.Core.Logic.{◌⊎◌, inl, inr}
use mathlib.Core.Bool.{Bool, true}
use mathlib.Core.Option
use mathlib.Core.Option.{Option, none, some}
use mathlib.Core.List.{List, [], ◌∷◌, ◌++◌}
use native.Mathlib.Omega.{arith}
use owasp_llm_lab_setup_guid.Base.Tests.{if◌then◌else◌, Bool-cases}
use owasp_llm_lab_setup_guid.Base.Text.{all, any}

-- The first row with the property.
unfoldable pub find {ℓ} : {A : Type ℓ} → (A → Bool) → List A → Option A
find p [] = none
find p (x ∷ xs) = let rest = find p xs in if p x then some x else rest

-- `UPDATE … WHERE` the property.
unfoldable pub update_all {ℓ} : {A : Type ℓ} → (A → Bool) → (A → A) → List A → List A
update_all p f [] = []
update_all p f (x ∷ xs) = let rest = update_all p f xs in (if p x then f x else x) ∷ rest

module _ {ℓ} {A : Type ℓ} where
  pub find-holds : (p : A → Bool) (x : A) (xs : List A) → find p xs ≡ some x → p x ≡ true
  unfolding find
  find-holds p x [] h = cc
  find-holds p x (y ∷ xs) h = ground (arith, find-holds p x xs)

  pub find-all :
      (p q : A → Bool) (x : A) (xs : List A) → find p xs ≡ some x → all q xs ≡ true → q x ≡ true
  unfolding find all
  find-all p q x [] h k = cc
  find-all p q x (y ∷ xs) h k = ground (arith, find-all p q x xs)

  pub find-append :
      (p : A → Bool) (x : A) (xs ys : List A) → find p xs ≡ some x → find p (xs ++ ys) ≡ some x
  unfolding find
  find-append p x [] ys h = cc
  find-append p x (y ∷ xs) ys h = ground (arith, find-append p x xs ys)

  pub find-either :
      (p : A → Bool) (x : A) (xs ys : List A)
      → find p (xs ++ ys) ≡ some x
      → (find p xs ≡ some x) ⊎ (find p ys ≡ some x)
  unfolding find
  find-either p x [] ys h = inr h
  find-either p x (y ∷ xs) ys h = elim (Bool-cases (p y)) [
    | inl here ↦ inl (ground arith)
    | inr later ↦ elim (find-either p x xs ys (ground arith)) [
      | inl a ↦ inl (ground arith)
      | inr b ↦ inr b
    ]
  ]

  pub find-update_all :
      (p q : A → Bool) (f : A → A) (xs : List A)
      → ((x : A) → p (f x) ≡ p x)
      → find p (update_all q f xs) ≡ Option.map (λ x. if q x then f x else x) (find p xs)
  unfolding find update_all
  find-update_all p q f [] same = refl
  find-update_all p q f (x ∷ xs) same = ground (arith, find-update_all p q f xs same, same x)

  pub find-updated :
      (p : A → Bool) (f : A → A) (x : A) (xs : List A)
      → ((x : A) → p (f x) ≡ p x)
      → find p xs ≡ some x
      → find p (update_all p f xs) ≡ some (f x)
  find-updated p f x xs same h = rw (find-update_all p p f xs same, h, find-holds p x xs h) refl

  pub find-any : (p : A → Bool) (x : A) (xs : List A) → find p xs ≡ some x → any p xs ≡ true
  unfolding find any
  find-any p x [] h = cc
  find-any p x (y ∷ xs) h = ground (arith, find-any p x xs)

  pub any-append :
      (p : A → Bool) (x : A) (xs : List A) → any p xs ≡ true → any p (xs ++ x ∷ []) ≡ true
  unfolding any
  any-append p x [] h = cc
  any-append p x (y ∷ xs) h = ground (arith, any-append p x xs)

  pub any_last : (p : A → Bool) (x : A) (xs : List A) → p x ≡ true → any p (xs ++ x ∷ []) ≡ true
  unfolding any
  any_last p x [] h = ground arith
  any_last p x (y ∷ xs) h = ground (arith, any_last p x xs h)
