-- ===== src/Delivery/Queue.antt =====
-- The queue of `AuditDelivery`: `enqueue` and `flush_once`. An operation on the database is one
-- transaction; `flush_once` is two, and other threads may enqueue between them.
use owasp_llm_lab_setup_guid.Base.{
  ℕ, suc, Bool, true, false, ◌||◌, Option, none, some, String, [], ◌==◌, Table, lookup, append,
  length, len, is_none, leb, ltb, Result, ok, ◌>>◌, guard, if◌then◌else◌,
}
use owasp_llm_lab_setup_guid.Json.{Json, Fields, obj, as_str, as_dict, get, compact}
use owasp_llm_lab_setup_guid.Delivery.Event.{event_of}
use owasp_llm_lab_setup_guid.Delivery.Rows.{Pending, remove, oldest}

-- The tables `pending` and `statistics`.
pub record Queue : Type 0 where
  pub pending : Table Pending
  pub accepted : ℕ
  pub delivered : ℕ
  pub failures : ℕ
  pub rejected : ℕ

-- What the constructor inserts.
abbrev pub empty : Queue
empty = record { pending = []; accepted = 0; delivered = 0; failures = 0; rejected = 0 }

-- `sqlite3.IntegrityError` of an event_id that is known.
pub data Error : Type 0 where
  integrity_error : Error

-- `size >= self.capacity or len(body.encode()) > 16384`
abbrev pub is_refused : ℕ → String → Queue → Bool
is_refused capacity body q = leb capacity (length q.pending) || ltb 16384 (len body)

-- The transaction of `enqueue`.
unfoldable pub insert_event : ℕ → String → String → ℕ → Queue → Result Error (Option String × Queue)
insert_event capacity event_id body created q =
    if is_refused capacity body q then ok (none, record q { rejected = suc q.rejected }) else (do
      guard (is_none (lookup event_id q.pending)) integrity_error
      ok (
        some event_id,
        record q {
          pending = append event_id (record { body = body; created = created }) q.pending;
          accepted = suc q.accepted;
        },
      ))

module _ (hmac : String → String) (text_of : Json → String) where
  -- `enqueue`, with the identifier that `uuid4` returns and the two readings of the clock.
  unfoldable pub enqueue :
      ℕ → Fields → String → String → ℕ → Queue → Result Error (Option String × Queue)
  unfolding event_of insert_event
  enqueue capacity payload event_id now_ns now q =
      insert_event capacity event_id (compact (obj (event_of hmac text_of payload event_id now_ns)))
        now q

-- `result.get("delivery_event_id") != row[0]`, where None is a request that raised.
unfoldable pub acknowledges : String → Option Json → Bool
unfolding get
acknowledges event_id none = false
acknowledges event_id (some answer) = elim (as_dict answer) [
  | none ↦ false
  | some fs ↦ elim (get "delivery_event_id" fs) [
    | none ↦ false
    | some v ↦ elim (as_str v) [ none ↦ false | some s ↦ s == event_id ]
  ]
]

-- The second transaction of `flush_once`, by the answer of the collector to the event.
unfoldable pub settle : String → Option Json → Queue → Bool × Queue
unfolding acknowledges remove
settle event_id answer q =
    if acknowledges event_id answer
    then (true, record q { pending = remove event_id q.pending; delivered = suc q.delivered })
    else (false, record q { failures = suc q.failures })

-- `flush_once`, where nothing comes between its transactions.
unfoldable pub flush_once : (String → Option Json) → Queue → Bool × Queue
unfolding oldest settle
flush_once collector q = elim (oldest q.pending) [
  | none ↦ (false, q)
  | some (event_id, row) ↦ settle event_id (collector row.body) q
]
