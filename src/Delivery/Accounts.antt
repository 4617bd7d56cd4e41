-- ===== src/Delivery/Accounts.antt =====
-- The events that `AuditDelivery` accepted and delivered: the rows of the table `pending`, up to
-- their order, through an insert and through the answer to a delivery.
use mathlib.Core.List.{Perm, ◌++◌, perm_append_singleton, perm_middle}
use mathlib.Core.List.Perm
use owasp_llm_lab_setup_guid.Base.{
  ℕ, Result, ok, err, after, is_some, is_none, length, if◌then◌else◌, ◌≡◌, refl, true, Option, none,
  some, String, List, [], ◌∷◌, ◌==◌, Table, lookup, append, Bool-cases, subst, inl, inr, arith,
  eq_iff,
}
use owasp_llm_lab_setup_guid.Json.{Json}
use owasp_llm_lab_setup_guid.Delivery.Queue.{
  Queue, Error, insert_event, acknowledges, settle, is_refused,
}
use owasp_llm_lab_setup_guid.Delivery.Rows.{Pending, remove, unique, remove-absent}

-- A row that is inserted.
pub append-Perm :
    (k : String) (v : Pending) (t : Table Pending) (log d : List (String × Pending))
    → Perm log (t ++ d)
    → Perm ((k, v) ∷ log) (append k v t ++ d)
unfolding append
append-Perm k v t log d h =
    Perm.trans (Perm.cons (k, v) h)
      (Perm.append_right d (Perm.symm (perm_append_singleton (k, v) t)))

-- A row that is deleted.
remove-Perm :
    (k : String) (v : Pending) (t : Table Pending)
    → unique t ≡ true
    → lookup k t ≡ some v
    → Perm t ((k, v) ∷ remove k t)
unfolding unique lookup remove
remove-Perm k v [] u h = absurd (ground arith)
remove-Perm k v ((j, w) ∷ t) u h = elim (Bool-cases (j == k)) [
  | inl here ↦
      let same : ((j, w) ∷ t) ≡ ((k, v) ∷ t) = ground (arith, eq_iff j k) in
      rw (here, remove-absent k t (ground (arith, eq_iff j k)))
        (subst (Perm ((j, w) ∷ t)) same (Perm.refl ((j, w) ∷ t)))
  | inr other ↦ rw other (
      Perm.trans (Perm.cons (j, w) (remove-Perm k v t (ground arith) (ground (arith, eq_iff j k))))
        (Perm.swap (k, v) (j, w) (remove k t)))
]

-- A row that is moved from the one list to the other.
pub move-Perm :
    (k : String) (v : Pending) (t : Table Pending) (log d : List (String × Pending))
    → unique t ≡ true
    → lookup k t ≡ some v
    → Perm log (t ++ d)
    → Perm log (remove k t ++ (k, v) ∷ d)
move-Perm k v t log d u found h = Perm.trans h (
    Perm.trans (Perm.append_right d (remove-Perm k v t u found))
      (Perm.symm (perm_middle (remove k t) d)))

-- The events that were accepted are, up to their order, the rows that are pending and those that were
-- delivered, and the statistics count them.
pub record Accounts (q : Queue) (accepted delivered : List (String × Pending)) : Type 0 where
  pub events : Perm accepted (q.pending ++ delivered)
  pub accepted_count : q.accepted ≡ length accepted
  pub delivered_count : q.delivered ≡ length delivered

-- What an enqueue returned, if it returned.
abbrev pub returned : Result Error (Option String × Queue) → Option String
returned (ok r) = r.0
returned (err e) = none

-- The events with one more row, if there is one.
abbrev pub recorded : Option String → Pending → List (String × Pending) → List (String × Pending)
recorded none row log = log
recorded (some id) row log = (id, row) ∷ log

abbrev found_event : String → Option Pending → List (String × Pending) → List (String × Pending)
found_event id none log = log
found_event id (some row) log = (id, row) ∷ log

-- The events with the one that is being sent, if the answer acknowledges it.
unfoldable pub confirmed :
    Option String → Option Json → Queue → List (String × Pending) → List (String × Pending)
confirmed none answer q log = log
confirmed (some id) answer q log =
    if acknowledges id answer then found_event id (lookup id q.pending) log else log

pub insert_event-Accounts :
    (capacity : ℕ) (id body : String) (now : ℕ) (q : Queue)
    (accepted delivered : List (String × Pending))
    → Accounts q accepted delivered
    → Accounts
        (after (insert_event capacity id body now q) q)
        (recorded
          (returned (insert_event capacity id body now q))
          (record { body = body; created = now })
          accepted)
        delivered
unfolding insert_event
insert_event-Accounts capacity id body now q accepted delivered v =
    elim (Bool-cases (is_refused capacity body q)) [
      | inl full ↦
          rw (full, insert_event)
            (record {
              events = v.events;
              accepted_count = v.accepted_count;
              delivered_count = v.delivered_count;
            })
      | inr free ↦ elim (Bool-cases (is_none (lookup id q.pending))) [
        | inl fresh ↦
            rw (free, fresh, insert_event)
              (record {
                events = append-Perm id _ q.pending accepted delivered v.events;
                accepted_count = omega (arith, v.accepted_count);
                delivered_count = v.delivered_count;
              })
        | inr known ↦ rw (free, known, insert_event) v
      ]
    ]

pub settle-Accounts :
    (id : String) (answer : Option Json) (q : Queue) (accepted delivered : List (String × Pending))
    → unique q.pending ≡ true
    → is_some (lookup id q.pending) ≡ true
    → Accounts q accepted delivered
    → Accounts (settle id answer q).1 accepted (confirmed (some id) answer q delivered)
unfolding settle confirmed
settle-Accounts id answer q accepted delivered keyed held v =
    elim (Bool-cases (acknowledges id answer)) [
      | inl known ↦
          let (row, found) = is_some-found (lookup id q.pending) held in
          rw (known, settle, found)
            (record {
              events = move-Perm id row q.pending accepted delivered keyed found v.events;
              accepted_count = v.accepted_count;
              delivered_count = omega (arith, v.delivered_count);
            })
      | inr unknown ↦
          rw (unknown, settle)
            (record {
              events = v.events;
              accepted_count = v.accepted_count;
              delivered_count = v.delivered_count;
            })
    ]
  where
    is_some-found : (o : Option Pending) → is_some o ≡ true → (row : Pending) × (o ≡ some row)
    is_some-found none h = absurd (ground arith)
    is_some-found (some row) h = (row, refl)
