-- ===== src/Producer/Life.antt =====
-- c_src/exrdkafka_producer.cc: what becomes of a producer after `enif_producer_new`, and the
-- callbacks that librdkafka makes for it.
--
-- `std::async` starts a thread that runs `cleanup_producer`; when that run takes place is left open,
-- but `get` waits for the run that was started last. A run is one step.
pub mod Standing
pub mod Closing
mod Tests
use exrdkafka.Base.{
  ℕ, zero, suc, List, [], ◌∷◌, Bool, true, false, Option, none, some, if◌then◌else◌,
}
use exrdkafka.Base.Int.{ℤ, is_zero}
use exrdkafka.Erl.{Bytes, Term, ErlNif, Atom, atom, tuple2, tuple3, ok_term}
use exrdkafka.Erl.Utils.{c_str, make_badarg, make_binary, make_error_text}
use exrdkafka.Rd.{Kafka, Handle, Log, Io, Call, Message}
use exrdkafka.Topics.{cleanup}
use exrdkafka.Dispatcher.{Dispatcher, remove}
use exrdkafka.Message.{make_message_nif}
use exrdkafka.Producer.Request.{Arguments}
use exrdkafka.Producer.{Producer, Others, enif_produce, enif_produce_sync, enif_produce_batch}
use exrdkafka.Producer.TopicNew.{enif_producer_topic_new}

-- A producer, the dispatcher of the module, and how many runs of `cleanup_producer` were started by
-- `std::async` and are still to come.
pub record Session : Type 0 where
  pub producer : Producer
  pub notifier : Dispatcher
  pub pending : ℕ

unfoldable pub cleanup_producer : Producer → Bool → Log → Log
cleanup_producer p true l =
    Call.send p.owner_pid (atom Atom.client_stopped) ∷ Call.flush p.kf 30000 ∷ l
cleanup_producer p false l = Call.flush p.kf 30000 ∷ l

unfoldable pub enif_producer_set_owner : ErlNif → Option Producer → Term → Term × Option Producer
enif_producer_set_owner nif none t = (make_badarg, none)
enif_producer_set_owner nif (some p) t = elim (nif.get_local_pid t) [
  | none ↦ (make_badarg, some p)
  | some pid ↦ (ok_term, some (record p { owner_pid = pid }))
]

-- For each message librdkafka has an error code, 0 if it was delivered.
unfoldable pub delivery_report_callback : Kafka → Producer → Message → ℤ → Log → Log
delivery_report_callback k p msg err l =
    let status = if is_zero err then ok_term else make_error_text (k.err2str err) in
    Call.send p.owner_pid (tuple3 (atom Atom.delivery_report) status (make_message_nif msg)) ∷ l

unfoldable pub stats_callback : Producer → Bytes → Log → ℕ × Log
stats_callback p json l = elim p.owner_pid [
  | zero ↦ (0, l)
  | suc n ↦ (0, Call.send p.owner_pid (tuple2 (atom Atom.stats) (make_binary json)) ∷ l)
]

module _ (k : Kafka) where
  unfoldable pub enif_producer_cleanup : Option Session → Io (Term × Option Session)
  enif_producer_cleanup none l = ((make_badarg, none), l)
  enif_producer_cleanup (some s) l =
      let r = remove k s.producer.kf s.notifier l in
      let p = record s.producer { closing = true } in
      ((ok_term, some (record { producer = p; notifier = r.0.0; pending = suc s.pending })), r.1)

  -- A thread of `std::async` gets its turn, if there is one.
  unfoldable pub finish : ℕ → Session → Io Session
  finish zero s l = (s, l)
  finish (suc n) s l = (record s { pending = n }, cleanup_producer s.producer true l)

  -- The destructor up to where no run of the clean-up is waited for any more.
  unfoldable pub settle : Session → Io Session
  settle s l = elim s.producer.closing [
    | true ↦ finish s.pending s l
    | false ↦
        let r = remove k s.producer.kf s.notifier l in
        (record s { notifier = r.0.0 }, cleanup_producer s.producer false r.1)
  ]

  -- The destructor of the resource of a producer; with `topics`, `TopicManager` cleans up.
  unfoldable pub enif_producer_free : Session → Io Session
  unfolding settle
  enif_producer_free s l =
      let r = settle s l in
      let c = cleanup r.0.producer.topics r.1 in
      (
        record r.0 { producer = record r.0.producer { topics = c.0 } },
        Call.client_destroy r.0.producer.kf ∷ c.1,
      )

-- What happens to a producer: the calls that change it or its topics, and the batch.
pub data Happening : Type 0 where
  produces produces_sync : Others → Arguments → Happening
  produces_batch : Term → Term → Happening
  adds_topic : Term → Term → Happening
  sets_owner : Term → Happening
  cleans finishes : Happening

-- The session after a call on its producer.
unfoldable pub with_producer : Session → Option Producer → Session
with_producer s none = s
with_producer s (some p) = record s { producer = p }

module _ (k : Kafka) (nif : ErlNif) where
  unfoldable pub happen : Happening → Session → Io Session
  unfolding with_producer
  happen (produces others args) s l =
      let r = enif_produce k others nif (some s.producer) args l in (with_producer s r.0.1, r.1)
  happen (produces_sync others args) s l =
      let r = enif_produce_sync k others nif (some s.producer) args l in
      (with_producer s r.0.1, r.1)
  happen (produces_batch topic_term list) s l =
      (s, (enif_produce_batch k (λ n. []) nif (some s.producer) topic_term list l).1)
  happen (adds_topic topic_term options) s l =
      let r = enif_producer_topic_new nif k (some s.producer) topic_term options l in
      (with_producer s r.0.1, r.1)
  happen (sets_owner t) s l =
      (with_producer s (enif_producer_set_owner nif (some s.producer) t).1, l)
  happen cleans s l =
      let r = enif_producer_cleanup k (some s) l in
      elim r.0.1 [ none ↦ (s, r.1) | some s' ↦ (s', r.1) ]
  happen finishes s l = finish k s.pending s l

  -- Some happenings, and then the destructor.
  unfoldable pub life : List Happening → Session → Io Session
  life [] s l = enif_producer_free k s l
  life (u ∷ us) s l = let r = happen u s l in life us r.0 r.1
