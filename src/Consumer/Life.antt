-- ===== src/Consumer/Life.antt =====
-- c_src/exrdkafka_consumer.cc: what becomes of a consumer after `enif_consumer_new`.
--
-- `std::async` starts a thread that runs `cleanup_consumer`; when that run takes place is left open,
-- but `get` waits for it. A run is one step. A result is `none` if NULL is handed to librdkafka.
pub mod Uses
pub mod Quiet
pub mod Phases
pub mod Closing
pub mod Twice
pub mod Offset
pub mod Guarded
pub mod Forwarding
mod Tests
use exrdkafka.Base.{
  ℕ, zero, suc, ◌+◌, List, [], ◌∷◌, Bool, true, false, Option, none, some, if◌then◌else◌,
}
use exrdkafka.Base.Int.{ℤ, is_zero}
use exrdkafka.Erl.{Bytes, Term, ErlNif, Atom, atom, int, tuple2, ok_term, raw}
use exrdkafka.Erl.Utils.{c_str, get_string, make_badarg, make_binary, make_error}
use exrdkafka.Rd.{Kafka, Handle, Log, Io, Call, Partition, pure, tell, ◌>>=◌, ◌>>◌}
use exrdkafka.Queues.{clear_all}
use exrdkafka.Dispatcher.{Dispatcher, remove}
use exrdkafka.Consumer.Partitions.{
  Consumer, EnifQueue, Rebalance, rebalance_cb, enif_queue_free, enif_consumer_queue_cleanup,
  enif_consumer_partition_revoke_completed,
}

-- A consumer, the dispatcher of the module, and how many runs of `cleanup_consumer` were started by
-- `std::async` and are still to come.
pub record Session : Type 0 where
  pub consumer : Consumer
  pub notifier : Dispatcher
  pub pending : ℕ

-- The message of `cleanup_consumer`.
unfoldable pub stop_feedback : Bool → ℕ → Log → Log
stop_feedback false owner l = l
stop_feedback true owner l = Call.send owner (atom Atom.client_stopped) ∷ l

module _ (k : Kafka) where
  unfoldable pub cleanup_consumer : Consumer → Bool → Io (Option Consumer)
  unfolding stop_feedback
  cleanup_consumer c feedback l =
      let r = clear_all k c.qm l in
      elim c.kf [
        | none ↦ (none, r.1)
        | some kf ↦ (
          some (record c { kf = none; qm = r.0 }),
          stop_feedback feedback c.owner (Call.client_destroy kf ∷ Call.consumer_close kf ∷ r.1),
        )
      ]

  -- `data->notifier_->remove(consumer->kf)`: NULL is never watched.
  unfoldable pub unwatch : Option Handle → Dispatcher → Io Dispatcher
  unwatch none d l = (d, l)
  unwatch (some kf) d l = let r = remove k kf d l in (r.0.0, r.1)

  unfoldable pub enif_consumer_cleanup : Option Session → Io (Term × Option Session)
  unfolding unwatch
  enif_consumer_cleanup none l = ((make_badarg, none), l)
  enif_consumer_cleanup (some s) l =
      let r = unwatch s.consumer.kf s.notifier l in
      let c = record s.consumer { running = false; closing = true } in
      ((ok_term, some (record { consumer = c; notifier = r.0; pending = suc s.pending })), r.1)

  -- A thread of `std::async` gets its turn, if there is one.
  unfoldable pub finish : ℕ → Session → Io (Option Session)
  finish zero s l = (some s, l)
  finish (suc n) s l =
      let r = cleanup_consumer s.consumer true l in
      elim r.0 [
        | none ↦ (none, r.1)
        | some c ↦ (some (record s { consumer = c; pending = n }), r.1)
      ]

  -- The branch of the destructor for a consumer that was never cleaned up.
  unfoldable pub close_unclosed : Option Handle → Session → Io (Option Session)
  unfolding unwatch
  close_unclosed none s l = (some s, l)
  close_unclosed (some kf) s l =
      let d = unwatch (some kf) s.notifier l in
      let r = cleanup_consumer s.consumer false d.1 in
      elim r.0 [
        | none ↦ (none, r.1)
        | some c ↦ (some (record s { consumer = c; notifier = d.0 }), r.1)
      ]

  -- The destructor of the resource of a consumer; `get` waits for the run that is still to come.
  unfoldable pub enif_consumer_free : Session → Io (Option Session)
  enif_consumer_free s l =
      let t = record s { consumer = record s.consumer { running = false } } in
      elim s.consumer.closing [
        | true ↦ finish s.pending t l
        | false ↦ close_unclosed s.consumer.kf t l
      ]

module _ (k : Kafka) where
  -- On a topic that was made for the call. What `make_error` is given is the error code itself.
  unfoldable pub store_offset : Handle → Bytes → ℤ → ℤ → Io (Option Term)
  store_offset kf name partition offset l =
      let answer = k.topic_new_answer l kf (c_str name) none in
      let l₁ = Call.topic_new kf (c_str name) none answer ∷ l in
      elim answer [
        | none ↦ (none, l₁)
        | some topic ↦
            let err = k.offset_store_answer l₁ topic partition offset in
            (
              some (if is_zero err then ok_term else make_error (raw err)),
              Call.topic_destroy topic ∷ Call.offset_store topic partition offset ∷ l₁,
            )
      ]

  module _ (nif : ErlNif) where
    unfoldable pub enif_consumer_offset_store :
        Option Consumer → Term → Term → Term → Io (Option Term)
    unfolding store_offset
    enif_consumer_offset_store none topic_term partition_term offset_term l = (some make_badarg, l)
    enif_consumer_offset_store (some c) topic_term partition_term offset_term l =
        elim (get_string nif topic_term) [
          | none ↦ (some make_badarg, l)
          | some name ↦ elim (nif.get_int partition_term) [
            | none ↦ (some make_badarg, l)
            | some partition ↦ elim (nif.get_int64 offset_term) [
              | none ↦ (some make_badarg, l)
              | some offset ↦ elim c.kf [
                | none ↦ (none, l)
                | some kf ↦ store_offset kf name partition offset l
              ]
            ]
          ]
        ]

-- What happens to a consumer: a rebalance, a clean-up or the destructor of a queue, the two calls
-- that hand its client to librdkafka, a clean-up, and the run of a clean-up.
pub data Happening : Type 0 where
  rebalances : ℕ → Handle → Rebalance → Option (List Partition) → Happening
  cleans_queue frees_queue : EnifQueue → Happening
  completes_revoke cleans finishes : Happening
  stores_offset : ErlNif → Term → Term → Term → Happening

-- The session after a call that leaves it alone, unless it hands NULL to librdkafka.
unfoldable pub answered : Session → Option Term → Option Session
answered s none = none
answered s (some t) = some s

module _ (k : Kafka) where
  unfoldable pub happen : Happening → Session → Io (Option Session)
  unfolding answered
  happen (rebalances log_pid rk code partitions) s l =
      let r = rebalance_cb k log_pid s.consumer rk code partitions l in
      (some (record s { consumer = r.0.0 }), r.1)
  happen (cleans_queue q) s l =
      let r = enif_consumer_queue_cleanup k s.consumer (some q) l in
      (some (record s { consumer = r.0.1 }), r.1)
  happen (frees_queue q) s l =
      let r = enif_queue_free k s.consumer q l in (some (record s { consumer = r.0 }), r.1)
  happen completes_revoke s l =
      let r = enif_consumer_partition_revoke_completed k (some s.consumer) l in
      (answered s r.0, r.1)
  happen (stores_offset nif topic_term partition_term offset_term) s l =
      let r =
        enif_consumer_offset_store k nif (some s.consumer) topic_term partition_term offset_term
          l in
      (answered s r.0, r.1)
  happen cleans s l = let r = enif_consumer_cleanup k (some s) l in (r.0.1, r.1)
  happen finishes s l = finish k s.pending s l

  -- Some happenings, and then the destructor.
  unfoldable pub life : List Happening → Session → Io (Option Session)
  life [] s l = enif_consumer_free k s l
  life (u ∷ us) s l =
      let r = happen u s l in elim r.0 [ none ↦ (none, r.1) | some s' ↦ life us s' r.1 ]

  -- The message with the statistics of a client.
  unfoldable pub stats_callback : Consumer → Bytes → Io ℕ
  stats_callback c json l = (0, Call.send c.owner (tuple2 (atom Atom.stats) (make_binary json)) ∷ l)
