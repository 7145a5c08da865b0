-- ===== src/Consumer.antt =====
-- c_src/exrdkafka_consumer.cc: `enif_consumer_queue_poll`.
--
-- The loop takes fuel, and `none` means that it did not suffice. A queue that was given back
-- (`q->queue` is NULL) is `none`, and so is the answer where NULL is handed to librdkafka.
pub mod Poll
pub mod Partitions
pub mod Create
pub mod Life
mod Tests
use exrdkafka.Base.{
  ℕ, zero, suc, List, [], ◌∷◌, ◌++◌, true, false, Option, none, some, ltb, if◌then◌else◌, length,
}
use exrdkafka.Base.Int.{ℤ, minus_one}
use exrdkafka.Erl.{Term, ErlNif, int, ok_term, tuple3, list_from_array}
use exrdkafka.Erl.Utils.{make_badarg}
use exrdkafka.Rd.{Kafka, Handle, Log, Message, Event, Call}
use exrdkafka.Message.{make_message_with, topic_term}

-- The variables of the loop. `topic` and `partition` are set by the first message, so `first` is
-- that they are not set.
pub record Batch : Type 0 where
  pub messages : List Term
  pub header : Option (Term × Term)
  pub last_offset : ℤ

abbrev pub no_messages : Batch
no_messages = record { messages = []; header = none; last_offset = minus_one }

-- The terms of the topic and the partition for a message.
unfoldable pub header_for : Option (Term × Term) → Message → Term × Term
header_for none msg = (topic_term msg, int msg.partition)
header_for (some h) msg = h

-- One round of the inner loop.
unfoldable pub push_message : Batch → Message → Batch
unfolding header_for
push_message b msg =
    let h = header_for b.header msg in
    record {
      messages = b.messages ++ make_message_with h.0 h.1 msg ∷ [];
      header = some h;
      last_offset = msg.offset;
    }

unfoldable pub push_messages : Batch → List Message → Batch
push_messages b [] = b
push_messages b (msg ∷ msgs) = push_messages (push_message b msg) msgs

module _ (k : Kafka) (queue : Handle) (max_batch_size : ℕ) where
  -- The outer loop.
  unfoldable pub poll_loop : ℕ → Batch → Log → Option (Batch × Log)
  poll_loop zero b l = none
  poll_loop (suc fuel) b l =
      let o = k.queue_poll_answer l queue in
      elim (ltb (length b.messages) max_batch_size) [
        | false ↦ some (b, l)
        | true ↦ elim o [
          | none ↦ some (b, Call.queue_poll queue none ∷ l)
          | some e ↦
              poll_loop fuel (push_messages b e.messages)
                (Call.event_destroy e.address ∷ Call.queue_poll queue (some e) ∷ l)
        ]
      ]

-- `{ok, Messages, LastOffset}`
unfoldable pub poll_result : Batch → Term
poll_result b = tuple3 ok_term (list_from_array b.messages) (int b.last_offset)

module _ (nif : ErlNif) (k : Kafka) where
  -- With fuel for as many events as there is room for messages, and one for the last test. Where the
  -- queue was given back and a message is asked for, NULL is handed to librdkafka.
  unfoldable pub poll_queue : Option Handle → ℕ → Log → Option (Option Term × Log)
  unfolding poll_result
  poll_queue none zero l = some (some (poll_result no_messages), l)
  poll_queue none (suc n) l = some (none, l)
  poll_queue (some queue) n l = elim (poll_loop k queue n (suc n) no_messages l) [
    | none ↦ none
    | some (b, l') ↦ some (some (poll_result b), l')
  ]

  -- On the `queue` of the resource that is found, if one is.
  unfoldable pub enif_consumer_queue_poll :
      Option (Option Handle) → Term → Log → Option (Option Term × Log)
  unfolding poll_queue
  enif_consumer_queue_poll none size l = some (some make_badarg, l)
  enif_consumer_queue_poll (some queue) size l = elim (nif.get_uint size) [
    | none ↦ some (some make_badarg, l)
    | some n ↦ poll_queue queue n l
  ]
