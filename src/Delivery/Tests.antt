-- ===== src/Delivery/Tests.antt =====
-- Two events, a delivery that fails and one that succeeds, and the theorems at them. The keyed
-- digest of a text is the text, and the collector returns the identifier "b" for every event.
use mathlib.Core.List.Perm
use owasp_llm_lab_setup_guid.Base.{
  ◌≡◌, ◌≤◌, refl, true, none, some, text_in, Option, String, List, [], ◌∷◌, lookup, append, ok,
  arith,
}
use owasp_llm_lab_setup_guid.Json.{Json, Fields, str, obj, end, field, get, compact}
use owasp_llm_lab_setup_guid.Delivery.Event.{Allowed, allowed_fields}
use owasp_llm_lab_setup_guid.Delivery.Rows.{Pending, unique, remove}
use owasp_llm_lab_setup_guid.Delivery.Queue.{Queue, empty, enqueue, acknowledges, flush_once}
use owasp_llm_lab_setup_guid.Delivery.Conservation.{
  State, Step, enqueueing, picking, answering, Conserves, run, run-Conserves,
}
use owasp_llm_lab_setup_guid.Delivery.Drain.{
  Emptied, Answers, with_delivered, drain, drain-Emptied, flush_once-oldest, enqueue-Allowed,
}

abbrev hmac : String → String
hmac s = s

abbrev text_of : Json → String
text_of v = "value"

abbrev payload : Fields
payload = field "decision" (str "allow") (field "prompt" (str "secret") end)

abbrev answer : Json
answer = obj (field "delivery_event_id" (str "b") end)

abbrev collector : String → Option Json
collector body = some answer

abbrev script : List Step
script =
    enqueueing payload "b" "7" 7
    ∷ picking
    ∷ enqueueing payload "c" "9" 9
    ∷ answering none
    ∷ picking
    ∷ answering (some answer)
    ∷ []

abbrev start : State
start = record { queue = empty; sending = none; accepted_events = []; delivered_events = [] }

abbrev stored : Queue
stored = record {
  pending =
      (
        "b",
        record {
          body = "{\"decision\":\"allow\",\"event_id\":\"b\",\"occurred_at_ns\":\"7\"}";
          created = 7;
        },
      )
      ∷ [];
  accepted = 1;
  delivered = 0;
  failures = 0;
  rejected = 0;
}

enqueued : enqueue hmac text_of 2 payload "b" "7" 7 empty ≡ ok (some "b", stored)
unfolding enqueue lookup append compact text_in
enqueued = refl

start-Conserves : Conserves 2 start
unfolding unique
start-Conserves = (
  record { conserved = refl; bounded = ground arith; keyed = refl; held = λ id h. cc },
  record { events = Perm.refl []; accepted_count = refl; delivered_count = refl },
)

counted : (run hmac text_of 2 script start).queue.delivered ≡ 1
unfolding run lookup append unique compact text_in get remove acknowledges
counted = refl

delivered_b :
    (run hmac text_of 2 script start).delivered_events
    ≡ (
      "b",
      record {
        body = "{\"decision\":\"allow\",\"event_id\":\"b\",\"occurred_at_ns\":\"7\"}";
        created = 7;
      },
    )
      ∷ []
unfolding run lookup append unique compact text_in get remove acknowledges
delivered_b = refl

run-Conserves_example : Conserves 2 (run hmac text_of 2 script start)
run-Conserves_example = run-Conserves hmac text_of 2 script start start-Conserves

collector-Answers : Answers collector stored
unfolding lookup acknowledges get
collector-Answers id row h = ground arith

drain-Emptied_example : Emptied stored 1 (drain 1 collector stored)
unfolding unique lookup
drain-Emptied_example = drain-Emptied collector stored refl collector-Answers

flush_once-oldest_example :
    (id : String) × (row : Pending) × (lookup id stored.pending ≡ some row)
    × (acknowledges id (collector row.body) ≡ true)
    × ((j : String) (r : Pending) → lookup j stored.pending ≡ some r → row.created ≤ r.created)
    × ((flush_once collector stored).1 ≡ with_delivered stored id)
unfolding unique flush_once acknowledges get lookup
flush_once-oldest_example = flush_once-oldest collector stored refl refl

enqueue-Allowed_example :
    (event : Fields) × (row : Pending) × (lookup "b" stored.pending ≡ some row)
    × (row.body ≡ compact (obj event))
    × Allowed allowed_fields event
enqueue-Allowed_example = enqueue-Allowed hmac text_of 2 payload "b" "7" 7 empty "b" stored enqueued
