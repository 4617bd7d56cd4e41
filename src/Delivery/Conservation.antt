-- ===== src/Delivery/Conservation.antt =====
-- Histories of `AuditDelivery`: any number of threads enqueue while one worker delivers.
use owasp_llm_lab_setup_guid.Base.{
  ℕ, ◌+◌, ◌≤◌, ◌≡◌, refl, true, Option, none, some, String, List, [], ◌∷◌, lookup, length,
  lookup-append, ◌⊎◌, is_some, is_none, after, arith, Bool-cases, Option-cases, inl, inr,
}
use owasp_llm_lab_setup_guid.Base.Ensures.{Ensures, Ensures-after, returns, after_if, after_guard}
use owasp_llm_lab_setup_guid.Json.{Json, Fields, obj, compact}
use owasp_llm_lab_setup_guid.Delivery.Event.{event_of}
use owasp_llm_lab_setup_guid.Delivery.Rows.{
  Pending, oldest, unique, length-append, unique-append, unique-remove, length-remove,
  oldest-lookup,
}
use owasp_llm_lab_setup_guid.Delivery.Accounts.{
  Accounts, returned, recorded, confirmed, insert_event-Accounts, settle-Accounts,
}
use owasp_llm_lab_setup_guid.Delivery.Queue.{
  Queue, insert_event, enqueue, acknowledges, settle, is_refused,
}

-- The tables, the identifier of the event that the worker sends, between the transactions of
-- `flush_once`, and the record of the events so far: those whose enqueue returned their identifier,
-- and those whose answer acknowledged them, each with its row. The last two no step reads.
pub record State : Type 0 where
  pub queue : Queue
  pub sending : Option String
  pub accepted_events : List (String × Pending)
  pub delivered_events : List (String × Pending)

pub data Step : Type 0 where
  -- `enqueue` by any thread.
  enqueueing : (payload : Fields) (event_id now_ns : String) (now : ℕ) → Step
  -- The first transaction of `flush_once`.
  picking : Step
  -- The answer of the collector and the second transaction.
  answering : Option Json → Step

-- As many events were accepted as are pending or delivered, the table holds at most `capacity` rows,
-- each under its own key, and the event that is being sent is still pending.
pub record Fits (capacity : ℕ) (q : Queue) (sending : Option String) : Type 0 where
  pub conserved : q.accepted ≡ length q.pending + q.delivered
  pub bounded : length q.pending ≤ capacity
  pub keyed : unique q.pending ≡ true
  pub held : (id : String) → sending ≡ some id → is_some (lookup id q.pending) ≡ true

abbrev pub Conserves : ℕ → State → Type 0
Conserves capacity s =
    Fits capacity s.queue s.sending × Accounts s.queue s.accepted_events s.delivered_events

abbrev pub key_of : Option (String × Pending) → Option String
key_of none = none
key_of (some (id, row)) = some id

-- The event that the worker sends after it looked for one: it keeps the one that it has.
unfoldable pub next_event : Option String → Queue → Option String
unfolding oldest
next_event none q = key_of (oldest q.pending)
next_event (some id) q = some id

-- The queue after the answer to the event that is being sent, if there is one.
unfoldable pub answered : Option String → Option Json → Queue → Queue
unfolding settle
answered none answer q = q
answered (some id) answer q = (settle id answer q).1

module _ (hmac : String → String) (text_of : Json → String) (capacity : ℕ) where
  unfoldable pub handle : Step → State → State
  unfolding enqueue next_event answered confirmed
  handle (enqueueing payload event_id now_ns now) s = record s {
    queue = after (enqueue hmac text_of capacity payload event_id now_ns now s.queue) s.queue;
    accepted_events =
        recorded (returned (enqueue hmac text_of capacity payload event_id now_ns now s.queue))
          (record {
            body = compact (obj (event_of hmac text_of payload event_id now_ns));
            created = now;
          })
          s.accepted_events;
  }
  handle picking s = record s { sending = next_event s.sending s.queue }
  handle (answering answer) s = record s {
    queue = answered s.sending answer s.queue;
    sending = none;
    delivered_events = confirmed s.sending answer s.queue s.delivered_events;
  }

  unfoldable pub run : List Step → State → State
  unfolding handle
  run [] s = s
  run (r ∷ rs) s = run rs (handle r s)

  insert_event-Fits :
      (id body : String) (now : ℕ) (q : Queue) (sending : Option String)
      → Fits capacity q sending
      → Ensures (λ r. Fits capacity (r.1) sending) (insert_event capacity id body now q)
  unfolding insert_event
  insert_event-Fits id body now q sending v =
      after_if (is_refused capacity body q) _ _
        (λ full.
          returns _ (record {
            conserved = v.conserved;
            bounded = v.bounded;
            keyed = v.keyed;
            held = v.held;
          }))
        (λ free. after_guard (is_none (lookup id q.pending)) _ _ λ fresh.
          let row : Pending = record { body = body; created = now } in
          let longer = length-append id row q.pending in
          returns _ (record {
            conserved = omega (arith, v.conserved, longer);
            bounded = ground (arith, longer);
            keyed = unique-append id row q.pending (ground arith) v.keyed;
            held = λ j h. ground (arith, v.held j h, lookup-append id j row q.pending);
          }))

  settle-Fits :
      (id : String) (answer : Option Json) (q : Queue)
      → Fits capacity q (some id)
      → Fits capacity (settle id answer q).1 none
  unfolding settle
  settle-Fits id answer q v = elim (Bool-cases (acknowledges id answer)) [
    | inl known ↦
        let shorter = length-remove id q.pending v.keyed (v.held id refl) in
        rw (known, settle)
          (record {
            conserved = omega (arith, v.conserved, shorter);
            bounded = omega (arith, v.bounded, shorter);
            keyed = unique-remove id q.pending v.keyed;
            held = λ j h. cc;
          })
    | inr unknown ↦
        rw (unknown, settle)
          (record {
            conserved = v.conserved;
            bounded = v.bounded;
            keyed = v.keyed;
            held = λ j h. cc;
          })
  ]

  next_event-Fits :
      (sending : Option String) (q : Queue)
      → Fits capacity q sending
      → Fits capacity q (next_event sending q)
  unfolding next_event
  next_event-Fits (some id) q v = v
  next_event-Fits none q v = record {
    conserved = v.conserved;
    bounded = v.bounded;
    keyed = v.keyed;
    held = λ id h. picked id h (Option-cases (oldest q.pending));
  }
    where
      picked :
          (id : String)
          → key_of (oldest q.pending) ≡ some id
          → ((oldest q.pending ≡ none) ⊎ ((r : String × Pending) × (oldest q.pending ≡ some r)))
          → is_some (lookup id q.pending) ≡ true
      picked id h (inl idle) = cc
      picked id h (inr ((k, row), e)) =
          let found = oldest-lookup q.pending (k, row) v.keyed e in ground arith

  answered-Fits :
      (sending : Option String) (answer : Option Json) (q : Queue)
      → Fits capacity q sending
      → Fits capacity (answered sending answer q) none
  unfolding answered
  answered-Fits none answer q v = v
  answered-Fits (some id) answer q v = settle-Fits id answer q v

  handle-Accounts :
      (r : Step) (s : State)
      → Conserves capacity s
      → Accounts (handle r s).queue (handle r s).accepted_events (handle r s).delivered_events
  unfolding handle enqueue answered confirmed
  handle-Accounts (enqueueing payload event_id now_ns now) s v =
      insert_event-Accounts capacity event_id
        (compact (obj (event_of hmac text_of payload event_id now_ns))) now s.queue
        s.accepted_events s.delivered_events v.1
  handle-Accounts picking s v = v.1
  handle-Accounts (answering answer) s v = answered_event s.sending (v.0.held)
    where
      answered_event :
          (sending : Option String)
          → ((id : String) → sending ≡ some id → is_some (lookup id s.queue.pending) ≡ true)
          → Accounts
              (answered sending answer s.queue)
              s.accepted_events
              (confirmed sending answer s.queue s.delivered_events)
      answered_event none held = v.1
      answered_event (some id) held =
          settle-Accounts id answer s.queue s.accepted_events s.delivered_events v.0.keyed
            (held id refl) v.1

  handle-Fits :
      (r : Step) (s : State)
      → Fits capacity s.queue s.sending
      → Fits capacity (handle r s).queue (handle r s).sending
  unfolding handle enqueue
  handle-Fits (enqueueing payload event_id now_ns now) s v =
      Ensures-after (λ q. Fits capacity q s.sending)
        (enqueue hmac text_of capacity payload event_id now_ns now s.queue) v
        (insert_event-Fits event_id (compact (obj (event_of hmac text_of payload event_id now_ns)))
          now s.queue s.sending v)
  handle-Fits picking s v = next_event-Fits s.sending s.queue v
  handle-Fits (answering answer) s v = answered-Fits s.sending answer s.queue v

  -- Whatever the order of the enqueues and of the two halves of each delivery, and whatever the
  -- collector answers, a queue stays valid: the events whose enqueue returned their identifier are,
  -- up to their order and each with its row, those pending and those delivered, which are the ones
  -- that the collector acknowledged; the statistics count both; never more than `capacity` are
  -- pending, each under its own key; and the event that is being sent is pending.
  pub run-Conserves :
      (rs : List Step) (s : State) → Conserves capacity s → Conserves capacity (run rs s)
  unfolding run
  run-Conserves [] s v = v
  run-Conserves (r ∷ rs) s v =
      run-Conserves rs (handle r s) (handle-Fits r s v.0, handle-Accounts r s v)
