-- ===== src/Delivery/Rows.antt =====
-- The table `pending` of `AuditDelivery`: its oldest row, and the deletion of a row.
use owasp_llm_lab_setup_guid.Base.{
  ℕ, suc, ◌≡◌, ◌≤◌, refl, Bool, true, ◌&&◌, Option, none, some, String, [], ◌∷◌, ◌==◌, Table,
  lookup, append, lookup-append, length, is_none, is_some, leb, Option-cases, inl, inr,
  if◌then◌else◌, arith, eq_iff, eq_refl,
}

-- The columns of a row but its key event_id. Times are whole microseconds.
pub record Pending : Type 0 where
  pub body : String
  pub created : ℕ

-- `DELETE FROM pending WHERE event_id=?`
unfoldable pub remove : String → Table Pending → Table Pending
remove k [] = []
remove k ((j, v) ∷ t) = let rest = remove k t in if j == k then rest else (j, v) ∷ rest

abbrev earlier : String × Pending → Option (String × Pending) → String × Pending
earlier r none = r
earlier r (some s) = if leb r.1.created s.1.created then r else s

-- `SELECT … FROM pending ORDER BY created LIMIT 1`
unfoldable pub oldest : Table Pending → Option (String × Pending)
oldest [] = none
oldest (r ∷ t) = some (earlier r (oldest t))

-- The primary key.
unfoldable pub unique : Table Pending → Bool
unique [] = true
unique ((k, v) ∷ t) = is_none (lookup k t) && unique t

pub length-append :
    (k : String) (v : Pending) (t : Table Pending) → length (append k v t) ≡ suc (length t)
unfolding append
length-append k v [] = refl
length-append k v (r ∷ t) = omega (arith, length-append k v t)

pub unique-append :
    (k : String) (v : Pending) (t : Table Pending)
    → lookup k t ≡ none
    → unique t ≡ true
    → unique (append k v t) ≡ true
unfolding unique append lookup
unique-append k v [] h u = refl
unique-append k v ((j, w) ∷ t) h u =
    ground (arith, unique-append k v t, lookup-append k j v t, eq_iff k j, eq_iff j k)

pub remove-absent : (k : String) (t : Table Pending) → lookup k t ≡ none → remove k t ≡ t
unfolding remove lookup
remove-absent k [] h = refl
remove-absent k ((j, v) ∷ t) h = ground (arith, remove-absent k t)

pub lookup-remove :
    (k j : String) (t : Table Pending)
    → lookup j (remove k t) ≡ (if k == j then none else lookup j t)
unfolding remove lookup
lookup-remove k j [] = ground arith
lookup-remove k j ((i, v) ∷ t) =
    ground (arith, lookup-remove k j t, eq_iff i k, eq_iff i j, eq_iff k j)

pub unique-remove : (k : String) (t : Table Pending) → unique t ≡ true → unique (remove k t) ≡ true
unfolding unique remove lookup
unique-remove k [] u = refl
unique-remove k ((j, v) ∷ t) u = ground (arith, unique-remove k t, lookup-remove k j t)

pub length-remove :
    (k : String) (t : Table Pending)
    → unique t ≡ true
    → is_some (lookup k t) ≡ true
    → suc (length (remove k t)) ≡ length t
unfolding unique remove lookup
length-remove k [] u h = cc
length-remove k ((j, v) ∷ t) u h = ground (arith, length-remove k t, remove-absent k t, eq_iff j k)

-- The oldest row is in the table.
pub oldest-lookup :
    (t : Table Pending) (r : String × Pending)
    → unique t ≡ true
    → oldest t ≡ some r
    → lookup r.0 t ≡ some r.1
unfolding oldest unique lookup
oldest-lookup [] r u h = cc
oldest-lookup ((j, v) ∷ t) r u h = elim (Option-cases (oldest t)) [
  | inl last ↦ ground (arith, eq_refl j)
  | inr (s, more) ↦
      let inside = oldest-lookup t s (ground arith) more in ground (arith, eq_refl j, eq_iff j s.0)
]

oldest-none : (k : String) (t : Table Pending) → oldest t ≡ none → lookup k t ≡ none
unfolding oldest lookup
oldest-none k [] h = refl
oldest-none k (r ∷ t) h = cc

-- No row is older than the oldest.
pub oldest-first :
    (t : Table Pending) (r : String × Pending) (k : String) (v : Pending)
    → oldest t ≡ some r
    → lookup k t ≡ some v
    → r.1.created ≤ v.created
unfolding oldest lookup
oldest-first [] r k v h e = cc
oldest-first ((j, w) ∷ t) r k v h e = elim (Option-cases (oldest t)) [
  | inl last ↦ ground (arith, oldest-none k t last)
  | inr (s, more) ↦ ground (arith, oldest-first t s k v more)
]
