-- ===== src/Clients.antt =====
-- c_src/exrdkafka_producer.cc and c_src/exrdkafka_consumer.cc: all producers and consumers of the
-- module, and the one dispatcher that they share (`exrdkafka_data`).
--
-- A term refers to its resource by the place of the resource in the order of creation. A native
-- function, a callback, a run of a clean-up and a round of the polling thread are one step each.
pub mod Standing
pub mod Producers
pub mod Consumers
pub mod Watching
pub mod Cleaning
pub mod Leaving
pub mod Creating
pub mod Running
pub mod Reached
mod Tests
use exrdkafka.Base.{set_at, ℕ, zero, suc, List, [], ◌∷◌, ◌++◌, Option, none, some, get_elem?}
use exrdkafka.Erl.{Bytes, Term, ErlNif}
use exrdkafka.Rd.{Kafka, Handle, Log, Io}
use exrdkafka.Dispatcher.{Dispatcher, dispatcher, signal, take_event, process_round}
use exrdkafka.Producer.{Producer}
use exrdkafka.Producer.Create.{enif_producer_new}
use exrdkafka.Producer.Life.{
  Session as ProducerSession, Happening as ProducerHappening, happen as producer_happen,
  enif_producer_free,
}
use exrdkafka.Consumer.Partitions.{Consumer}
use exrdkafka.Consumer.Create.{Arguments, enif_consumer_new}
use exrdkafka.Consumer.Life.{
  Session as ConsumerSession, Happening as ConsumerHappening, happen as consumer_happen,
  enif_consumer_free,
}

-- A resource with the number of runs of its clean-up that are still to come.
pub data Resource : Type 0 where
  of_producer : Producer → ℕ → Resource
  of_consumer : Consumer → ℕ → Resource
  gone : Resource

pub record Clients : Type 0 where
  pub notifier : Dispatcher
  pub resources : List Resource

-- `on_nif_load` makes the dispatcher.
abbrev pub no_clients : Clients
no_clients = record { notifier = dispatcher; resources = [] }

-- A call that makes a client, at a time; what happens to a client, and its destructor; an event of
-- librdkafka for a client; a round of the polling thread, at a time.
pub data Event : Type 0 where
  new_producer : Term → Term → ℕ → Event
  new_consumer : Arguments → ℕ → Event
  on_producer : ℕ → ProducerHappening → Event
  on_consumer : ℕ → ConsumerHappening → Event
  frees : ℕ → Event
  signals : Handle → Event
  rounds : ℕ → ℕ → Event

abbrev pub with_producer : Option (Handle × Producer) → List Resource → List Resource
with_producer none rs = rs
with_producer (some (self, p)) rs = rs ++ of_producer p 0 ∷ []

abbrev pub with_consumer : Option Consumer → List Resource → List Resource
with_consumer none rs = rs
with_consumer (some c) rs = rs ++ of_consumer c 0 ∷ []

-- The clients once the resource at a place is another, and with it the dispatcher.
abbrev pub replaced : ℕ → Resource → Dispatcher → Clients → Clients
replaced i x d w = record { notifier = d; resources = set_at i x w.resources }

-- The clients after a step on the consumer at a place; `none` if NULL was handed to librdkafka.
unfoldable pub consumer_at : ℕ → Clients → Option ConsumerSession → Option Clients
consumer_at i w none = none
consumer_at i w (some s) = some (replaced i (of_consumer s.consumer s.pending) s.notifier w)

unfoldable pub consumer_gone : ℕ → Clients → Option ConsumerSession → Option Clients
consumer_gone i w none = none
consumer_gone i w (some s) = some (replaced i gone s.notifier w)

module _ (k : Kafka) (nif : ErlNif) where
  -- What happens to the producer that a term refers to, if it does.
  unfoldable pub with_producer_at : ProducerHappening → ℕ → Option Resource → Clients → Io Clients
  with_producer_at u i (some (of_producer p n)) w l =
      let s : ProducerSession = record { producer = p; notifier = w.notifier; pending = n } in
      let r = producer_happen k nif u s l in
      (replaced i (of_producer r.0.producer r.0.pending) r.0.notifier w, r.1)
  with_producer_at u i (some (of_consumer c n)) w l = (w, l)
  with_producer_at u i (some gone) w l = (w, l)
  with_producer_at u i none w l = (w, l)

  unfoldable pub with_consumer_at :
      ConsumerHappening → ℕ → Option Resource → Clients → Io (Option Clients)
  unfolding consumer_at
  with_consumer_at u i (some (of_consumer c n)) w l =
      let s : ConsumerSession = record { consumer = c; notifier = w.notifier; pending = n } in
      let r = consumer_happen k u s l in (consumer_at i w r.0, r.1)
  with_consumer_at u i (some (of_producer p n)) w l = (some w, l)
  with_consumer_at u i (some gone) w l = (some w, l)
  with_consumer_at u i none w l = (some w, l)

  -- The destructor of a resource, which runs once.
  unfoldable pub free_at : ℕ → Option Resource → Clients → Io (Option Clients)
  unfolding consumer_gone
  free_at i (some (of_producer p n)) w l =
      let s : ProducerSession = record { producer = p; notifier = w.notifier; pending = n } in
      let r = enif_producer_free k s l in (some (replaced i gone r.0.notifier w), r.1)
  free_at i (some (of_consumer c n)) w l =
      let s : ConsumerSession = record { consumer = c; notifier = w.notifier; pending = n } in
      let r = enif_consumer_free k s l in (consumer_gone i w r.0, r.1)
  free_at i (some gone) w l = (some w, l)
  free_at i none w l = (some w, l)

  module _ (sigio : Option Bytes) where
    -- `none` if the process has ended, or NULL was handed to librdkafka.
    unfoldable pub step : Event → Clients → Io (Option Clients)
    unfolding with_producer_at with_consumer_at free_at
    step (new_producer has_dr options now) w l =
        let r = enif_producer_new k nif sigio has_dr options now w.notifier l in
        elim r.0 [
          | none ↦ (none, r.1)
          | some (t, p, d) ↦
              (some (record { notifier = d; resources = with_producer p w.resources }), r.1)
        ]
    step (new_consumer args now) w l =
        let r = enif_consumer_new nif k sigio args now w.notifier l in
        elim r.0 [
          | none ↦ (none, r.1)
          | some (t, c, d) ↦
              (some (record { notifier = d; resources = with_consumer c w.resources }), r.1)
        ]
    step (on_producer i u) w l =
        let r = with_producer_at u i (get_elem? w.resources i) w l in (some r.0, r.1)
    step (on_consumer i u) w l = with_consumer_at u i (get_elem? w.resources i) w l
    step (frees i) w l = free_at i (get_elem? w.resources i) w l
    step (signals rk) w l = (some (record w { notifier = signal rk w.notifier }), l)
    step (rounds now pick) w l =
        let r = process_round k now (take_event pick w.notifier.events) w.notifier l in
        (some (record w { notifier = r.0.0 }), r.1)

    unfoldable pub run : List Event → Clients → Io (Option Clients)
    run [] w l = (some w, l)
    run (e ∷ es) w l =
        let r = step e w l in elim r.0 [ none ↦ (none, r.1) | some w' ↦ run es w' r.1 ]
