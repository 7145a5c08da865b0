-- ===== src/Consumer/Tests.antt =====
-- Tests of the polling of a queue, and its theorem at a concrete input.
use exrdkafka.Base.{ℕ, ◌≡◌, ◌≢◌, refl, arith, List, [], ◌∷◌, Option, none, some}
use exrdkafka.Base.Int.{pos, minus_one}
use exrdkafka.Base.Text.{codes}
use exrdkafka.Erl.{int, tuple3, ok_term, nil, list_from_array}
use exrdkafka.Rd.{Kafka, Log, Handle, Event, Message, create_time, Call}
use exrdkafka.Rd.Sample.{willing, plain}
use exrdkafka.Consumer.{
  Batch, no_messages, enif_consumer_queue_poll, poll_loop, poll_result, push_messages, push_message,
  header_for,
}
use exrdkafka.Consumer.Poll.{
  batch_terms, last_offset, result_for, Polled, enif_consumer_queue_poll-Polled,
}

abbrev numbered : ℕ → Message
numbered n = record {
  topic_name = codes "orders";
  partition = pos 3;
  offset = pos n;
  key = none;
  payload = some (codes "v");
  timestamp = pos 1000;
  timestamp_type = create_time;
  headers = none;
}

-- The first poll hands out two messages, the second one, and then the queue is empty.
abbrev events : Log → Handle → Option Event
events [] q = some (record { address = 30; messages = numbered 7 ∷ numbered 8 ∷ [] })
events (c ∷ d ∷ []) q = some (record { address = 31; messages = numbered 9 ∷ [] })
events _ q = none

abbrev busy : Kafka
busy = record willing { queue_poll_answer = events }

filled : (l : Log) (e : Event) → events l 5 ≡ some e → e.messages ≢ []
filled [] e p q = ground arith
filled (c ∷ []) e p q = ground arith
filled (c ∷ d ∷ []) e p q = ground arith
filled (c ∷ d ∷ f ∷ l) e p q = ground arith

-- Two were asked for: the first event is enough.
abbrev two_log : Log
two_log =
    Call.event_destroy 30
    ∷ Call.queue_poll 5 (some (record { address = 30; messages = numbered 7 ∷ numbered 8 ∷ [] }))
    ∷ []

two :
    enif_consumer_queue_poll plain busy (some (some 5)) (int (pos 2)) []
    ≡ some (some (result_for (numbered 7 ∷ numbered 8 ∷ [])), two_log)
unfolding enif_consumer_queue_poll poll_loop poll_result push_messages push_message header_for
    batch_terms last_offset
two = refl

nothing :
    enif_consumer_queue_poll plain willing (some (some 5)) (int (pos 2)) []
    ≡ some (some (tuple3 ok_term nil (int minus_one)), Call.queue_poll 5 none ∷ [])
unfolding enif_consumer_queue_poll poll_loop poll_result list_from_array
nothing = refl

-- A queue that was given back: NULL reaches librdkafka.
gone : enif_consumer_queue_poll plain willing (some none) (int (pos 2)) [] ≡ some (none, [])
unfolding enif_consumer_queue_poll
gone = refl

enif_consumer_queue_poll-Polled_example :
    (msgs : List Message) × (b : Batch) × (l' : Log) × (enif_consumer_queue_poll plain busy
        (some (some 5))
        (int (pos 3))
        []
      ≡ some (some (result_for msgs), l'))
    × Polled busy 5 3 no_messages [] msgs b l'
enif_consumer_queue_poll-Polled_example =
    enif_consumer_queue_poll-Polled plain busy 5 filled (int (pos 3)) 3 [] refl
