-- ===== src/Base/Tables.antt =====
-- A database table with a text primary key: its rows in the order of their insertion.
use mathlib.Core.Path.{◌≡◌, refl, sym, ap, ◌∙◌, subst}
use mathlib.Core.Bool.{Bool, false, not, ◌&&◌, false, ◌||◌}
use mathlib.Core.Option
use mathlib.Core.Option.{Option, none, some}
use mathlib.Core.List.{List, [], ◌∷◌, ◌++◌}
use native.Mathlib.Omega.{arith}
use Prim.Native.String.{String}
use text.Mathlib.Text.{◌==◌}
use text.Mathlib.TextEquality.{eq_iff}
use text.Mathlib.TextPositions.{eq_refl}
use mathlib.Core.Logic.{◌≢◌, inl, inr}
use owasp_llm_lab_setup_guid.Base.Tests.{if◌then◌else◌, is_some, Bool-cases}

abbrev pub Table {ℓ} : Type ℓ → Type ℓ
Table V = List (String × V)

module _ {ℓ} {V : Type ℓ} where
  -- `SELECT * FROM t WHERE key=?`, the one row or none.
  unfoldable pub lookup : String → Table V → Option V
  lookup k [] = none
  lookup k ((j, v) ∷ t) = if j == k then some v else lookup k t

  -- The row of `INSERT`, after the test of the primary key.
  unfoldable pub append : String → V → Table V → Table V
  append k v t = t ++ (k, v) ∷ []

  -- `UPDATE t SET … WHERE key=?`
  unfoldable pub update : String → (V → V) → Table V → Table V
  update k f [] = []
  update k f ((j, v) ∷ t) = (j, if j == k then f v else v) ∷ update k f t

  -- `UPDATE t SET … WHERE test`
  unfoldable pub update_where : (V → Bool) → (V → V) → Table V → Table V
  update_where p f [] = []
  update_where p f ((j, v) ∷ t) = (j, if p v then f v else v) ∷ update_where p f t

  -- Whether a row has the property: the test of a `UNIQUE` column.
  unfoldable pub exists : (V → Bool) → Table V → Bool
  exists p [] = false
  exists p ((j, v) ∷ t) = p v || exists p t

  -- The test of a `UNIQUE` column by `UPDATE`, which leaves out the row that it writes.
  unfoldable pub exists_other : String → (V → Bool) → Table V → Bool
  exists_other k p [] = false
  exists_other k p ((j, v) ∷ t) = (not (j == k) && p v) || exists_other k p t

  pub lookup-append :
      (k j : String) (v : V) (t : Table V)
      → lookup j (append k v t)
        ≡ (if is_some (lookup j t) then lookup j t else if k == j then some v else none)
  unfolding lookup append
  lookup-append k j v [] = ground arith
  lookup-append k j v ((i, w) ∷ t) = ground (arith, lookup-append k j v t)

  pub lookup-update :
      (k j : String) (f : V → V) (t : Table V)
      → lookup j (update k f t) ≡ (if k == j then Option.map f (lookup j t) else lookup j t)
  unfolding lookup update
  lookup-update k j f [] = ground arith
  lookup-update k j f ((i, w) ∷ t) =
      ground (arith, lookup-update k j f t, eq_iff i k, eq_iff i j, eq_iff k j)

  pub lookup-update_where :
      (p : V → Bool) (j : String) (f : V → V) (t : Table V)
      → lookup j (update_where p f t) ≡ Option.map (λ v. if p v then f v else v) (lookup j t)
  unfolding lookup update_where
  lookup-update_where p j f [] = refl
  lookup-update_where p j f ((i, w) ∷ t) = ground (arith, lookup-update_where p j f t)

  -- No row that is found has a property that no row has.
  pub exists-lookup :
      (p : V → Bool) (j : String) (v : V) (t : Table V)
      → exists p t ≡ false
      → lookup j t ≡ some v
      → p v ≡ false
  unfolding lookup exists
  exists-lookup p j v [] h k = cc
  exists-lookup p j v ((i, w) ∷ t) h k = ground (arith, exists-lookup p j v t)

  pub update_at :
      (id : String) (f : V → V) (t : Table V) {v : V}
      → lookup id t ≡ some v
      → lookup id (update id f t) ≡ some (f v)
  update_at id f t h = simp (lookup-update, eq_refl, h)

  pub update_elsewhere :
      (id j : String) (f : V → V) (t : Table V) → id ≢ j → lookup j (update id f t) ≡ lookup j t
  update_elsewhere id j f t h = rw lookup-update (ground (arith, eq_iff id j))

  pub append_at :
      (id : String) (v : V) (t : Table V) → lookup id t ≡ none → lookup id (append id v t) ≡ some v
  append_at id v t h = simp (lookup-append, eq_refl, h)

  pub append_elsewhere :
      (id j : String) (v : V) (t : Table V) → id ≢ j → lookup j (append id v t) ≡ lookup j t
  append_elsewhere id j v t h = rw lookup-append (ground (arith, eq_iff id j))

  pub same_value : (a b : V) → some a ≡ some b → a ≡ b
  same_value a b e = cc

  -- What holds of every row holds of every row after an `UPDATE`, if it holds of the new one.
  pub all_updated {κ} :
      (key : String) (f : V → V) (t : Table V) (P : V → Type κ) {v : V}
      → lookup key t ≡ some v
      → P (f v)
      → ((k : String) (w : V) → lookup k t ≡ some w → P w)
      → (k : String) (w : V) → lookup k (update key f t) ≡ some w
      → P w
  all_updated key f t P {v} h p old k w e = elim (Bool-cases (key == k)) [
    | inl same ↦
        let eq : key ≡ k = (eq_iff key k).0 same in
        let new : lookup key (update key f t) ≡ some w =
          ap (λ x. lookup x (update key f t)) eq ∙ e in
        subst P (same_value (f v) w (sym (update_at key f t h) ∙ new)) p
    | inr other ↦
        let ne : key ≢ k = ground (arith, eq_iff key k) in
        old k w (sym (update_elsewhere key k f t ne) ∙ e)
  ]
