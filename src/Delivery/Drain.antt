-- ===== src/Delivery/Drain.antt =====
-- What `AuditDelivery` delivers, in which order, and with which fields of a payload.
use owasp_llm_lab_setup_guid.Base.{
  ℕ, zero, suc, ◌+◌, ◌≤◌, ◌≡◌, refl, true, Option, some, String, Table, [], ◌∷◌, lookup, length,
  append_at, is_none, ok, arith, Option-cases, inl, inr,
}
use owasp_llm_lab_setup_guid.Base.Ensures.{Ensures, returns, after_if, after_guard}
use owasp_llm_lab_setup_guid.Json.{Json, Fields, obj, compact}
use owasp_llm_lab_setup_guid.Delivery.Event.{event_of, event_of-Allowed, Allowed, allowed_fields}
use owasp_llm_lab_setup_guid.Delivery.Rows.{
  Pending, remove, oldest, unique, lookup-remove, unique-remove, length-remove, oldest-lookup,
  oldest-first,
}
use owasp_llm_lab_setup_guid.Delivery.Queue.{
  Queue, insert_event, enqueue, acknowledges, settle, is_refused, flush_once,
}

-- `run`: the worker's calls of `flush_once`, as many as `n`.
unfoldable pub drain : ℕ → (String → Option Json) → Queue → Queue
unfolding flush_once
drain zero collector q = q
drain (suc n) collector q = drain n collector (flush_once collector q).1

-- The collector acknowledges every pending event.
abbrev pub Answers : (String → Option Json) → Queue → Type 0
Answers collector q =
    (id : String) (row : Pending)
    → lookup id q.pending ≡ some row
    → acknowledges id (collector row.body) ≡ true

-- One delivery that is acknowledged.
abbrev pub with_delivered : Queue → String → Queue
with_delivered q id = record q { pending = remove id q.pending; delivered = suc q.delivered }

settle-delivered :
    (id : String) (answer : Option Json) (q : Queue)
    → acknowledges id answer ≡ true
    → (settle id answer q).1 ≡ with_delivered q id
unfolding settle
settle-delivered id answer q a = rw (a, settle) refl

flush_once-delivered :
    (collector : String → Option Json) (q : Queue) (id : String) (row : Pending)
    → oldest q.pending ≡ some (id, row)
    → acknowledges id (collector row.body) ≡ true
    → (flush_once collector q).1 ≡ with_delivered q id
unfolding flush_once
flush_once-delivered collector q id row h a =
    rw (h, flush_once) (settle-delivered id (collector row.body) q a)

some-oldest :
    (t : Table Pending) (n : ℕ) → length t ≡ suc n → (r : String × Pending) × (oldest t ≡ some r)
unfolding oldest
some-oldest [] n h = absurd (ground arith)
some-oldest (r ∷ t) n h = (_, refl)

length-zero : (t : Table Pending) → length t ≡ 0 → t ≡ []
length-zero [] h = refl
length-zero (r ∷ t) h = absurd (ground arith)

-- All that is pending was delivered, and nothing failed.
abbrev pub Emptied : Queue → ℕ → Queue → Type 0
Emptied q n q' = (q'.pending ≡ []) × (q'.delivered ≡ q.delivered + n) × (q'.failures ≡ q.failures)

drain_all :
    (n : ℕ) (collector : String → Option Json) (q : Queue)
    → length q.pending ≡ n
    → unique q.pending ≡ true
    → Answers collector q
    → Emptied q n (drain n collector q)
unfolding drain
drain_all zero collector q h u a = (length-zero q.pending h, ground arith, refl)
drain_all (suc n) collector q h u a =
    let ((id, row), found) = some-oldest q.pending n h in
    let held = oldest-lookup q.pending (id, row) u found in
    let step = flush_once-delivered collector q id row found (a id row held) in
    let shorter = length-remove id q.pending u (ground arith) in
    let (e, d, f) =
      drain_all n collector (with_delivered q id) (omega (arith, shorter, h))
        (unique-remove id q.pending u)
        (λ j r hj. a j r (ground (arith, lookup-remove id j q.pending))) in
    rw (step, drain) (e, omega (arith, d), f)

-- With a collector that acknowledges every pending event, as many deliveries as there are pending
-- events leave none pending, each of them delivered, and no failure more.
pub drain-Emptied :
    (collector : String → Option Json) (q : Queue)
    → unique q.pending ≡ true
    → Answers collector q
    → Emptied q (length q.pending) (drain (length q.pending) collector q)
drain-Emptied collector q u a = drain_all (length q.pending) collector q refl u a

-- A delivery that succeeds takes the oldest event: the event is pending, the collector acknowledged
-- it, no pending event is older, and it alone leaves the queue.
pub flush_once-oldest :
    (collector : String → Option Json) (q : Queue)
    → unique q.pending ≡ true
    → (flush_once collector q).0 ≡ true
    → (id : String) × (row : Pending) × (lookup id q.pending ≡ some row)
      × (acknowledges id (collector row.body) ≡ true)
      × ((j : String) (r : Pending) → lookup j q.pending ≡ some r → row.created ≤ r.created)
      × ((flush_once collector q).1 ≡ with_delivered q id)
unfolding flush_once settle
flush_once-oldest collector q u h = elim (Option-cases (oldest q.pending)) [
  | inl idle ↦ absurd (ground arith)
  | inr ((id, row), found) ↦
      let acknowledged : acknowledges id (collector row.body) ≡ true = ground arith in
      (
        id,
        row,
        oldest-lookup q.pending (id, row) u found,
        acknowledged,
        λ j r hj. oldest-first q.pending (id, row) j r found hj,
        flush_once-delivered collector q id row found acknowledged,
      )
]

insert_event-stored :
    (capacity : ℕ) (event_id body : String) (now : ℕ) (q : Queue)
    → Ensures
        (λ r.
          (id : String)
          → r.0 ≡ some id
          → lookup id (r.1).pending ≡ some (record { body = body; created = now }))
        (insert_event capacity event_id body now q)
unfolding insert_event
insert_event-stored capacity event_id body now q =
    after_if (is_refused capacity body q) _ _ (λ full. returns _ (λ id h. cc))
      (λ free. after_guard (is_none (lookup event_id q.pending)) _ _ λ fresh. returns _ (λ id h.
        let row : Pending = record { body = body; created = now } in
        let there = append_at event_id row q.pending (ground arith) in cc))

module _ (hmac : String → String) (text_of : Json → String) where
  -- An event that `enqueue` accepts is pending under its identifier, as the text of an event with no
  -- other fields of the payload than those of `FIELDS`.
  pub enqueue-Allowed :
      (capacity : ℕ) (payload : Fields) (event_id now_ns : String) (now : ℕ) (q : Queue)
      (id : String) (q' : Queue)
      → enqueue hmac text_of capacity payload event_id now_ns now q ≡ ok (some id, q')
      → (event : Fields) × (row : Pending) × (lookup id q'.pending ≡ some row)
        × (row.body ≡ compact (obj event))
        × Allowed allowed_fields event
  unfolding enqueue
  enqueue-Allowed capacity payload event_id now_ns now q id q' h =
      let event = event_of hmac text_of payload event_id now_ns in
      (
        event,
        record { body = compact (obj event); created = now },
        (insert_event-stored capacity event_id (compact (obj event)) now q).at (some id, q') h id
            refl,
        refl,
        event_of-Allowed hmac text_of payload event_id now_ns,
      )
