-- ===== src/Clients/Watching.antt =====
-- c_src/exrdkafka_producer.cc and c_src/exrdkafka_consumer.cc: the client of a new producer or
-- consumer is watched.
use exrdkafka.Base.{
  ℕ, ◌≡◌, refl, ◌∷◌, Bool, true, false, Option, none, some, inl, inr, Option-cases, Bool-cases,
}
use exrdkafka.Base.Int.{is_zero}
use exrdkafka.Base.Text.{codes}
use exrdkafka.Erl.{Bytes, Term, ErlNif}
use exrdkafka.Erl.Utils.{c_str, get_string, get_boolean}
use exrdkafka.Rd.{Kafka, Handle, Log, Call}
use exrdkafka.Rd.Owned.{Made-cases}
use exrdkafka.Config.{parse_kafka_config, parse_topic_config, is_ok, kafka_conf_value}
use exrdkafka.Dispatcher.{Dispatcher, Item}
use exrdkafka.Dispatcher.Fresh.{watching, watch-cases}
use exrdkafka.Producer.Create.{
  Created as ProducerCreated, start_producer, make_producer, alloc_producer, configure_producer,
  enif_producer_new,
}
use exrdkafka.Consumer.Create.{
  Arguments, Created as ConsumerCreated, topic_subscribe, start_consumer, subscribe_consumer,
  make_consumer, alloc_consumer, refuse_consumer, configure_consumer, enif_consumer_new,
}

-- A producer that is returned is open and watched; without one the dispatcher is as before.
abbrev pub ProducerWatched : Dispatcher → ProducerCreated → Type 0
ProducerWatched d (none, l) = Unit {0}
ProducerWatched d (some (t, none, d'), l) = d' ≡ d
ProducerWatched d (some (t, some (self, p), d'), l) =
    (p.closing ≡ false) × (it : Item) × (d' ≡ watching p.kf it d)

abbrev pub ConsumerWatched : Dispatcher → ConsumerCreated → Type 0
ConsumerWatched d (none, l) = Unit {0}
ConsumerWatched d (some (t, none, d'), l) = d' ≡ d
ConsumerWatched d (some (t, some c, d'), l) =
    (c.closing ≡ false) × (kf : Handle) × (c.kf ≡ some kf) × (it : Item) × (d' ≡ watching kf it d)

module _ (k : Kafka) where
  start_producer-Watched :
      (self rk : Handle) (now : ℕ) (d : Dispatcher) (l : Log)
      → ProducerWatched d (start_producer k self rk now d l)
  unfolding start_producer
  start_producer-Watched self rk now d l = elim (watch-cases k rk false now d l) [
    | inl e ↦ rw (e, start_producer) tt
    | inr (it, e) ↦ rw (e, start_producer) (refl, it, refl)
  ]

  make_producer-Watched :
      (self conf : Handle) (now : ℕ) (d : Dispatcher) (l : Log)
      → ProducerWatched d (make_producer k self conf now d l)
  unfolding make_producer
  make_producer-Watched self conf now d l = elim (Made-cases (k.client_new_answer l false conf)) [
    | inl (errstr, e) ↦ rw (e, make_producer) refl
    | inr (rk, e) ↦ rw (e, make_producer) (start_producer-Watched self rk now d _)
  ]

  alloc_producer-Watched :
      (conf : Handle) (now : ℕ) (d : Dispatcher) (l : Log)
      → ProducerWatched d (alloc_producer k conf now d l)
  unfolding alloc_producer
  alloc_producer-Watched conf now d l = elim (Bool-cases (k.alloc_fails l)) [
    | inl e ↦ rw (e, alloc_producer) refl
    | inr e ↦ rw (e, alloc_producer) (make_producer-Watched _ conf now d _)
  ]

  module _ (nif : ErlNif) (sigio : Option Bytes) where
    configure_producer-Watched :
        (has_dr : Bool) (options : Term) (conf : Handle) (now : ℕ) (d : Dispatcher) (l : Log)
        → ProducerWatched d (configure_producer k nif sigio has_dr options conf now d l)
    unfolding configure_producer
    configure_producer-Watched has_dr options conf now d l =
        let a = parse_kafka_config nif k sigio options conf l in
        elim (Bool-cases (is_ok a.0)) [
          | inl e ↦ rw (e, configure_producer) (alloc_producer-Watched conf now d _)
          | inr e ↦ rw (e, configure_producer) refl
        ]

    pub enif_producer_new-Watched :
        (has_dr options : Term) (now : ℕ) (d : Dispatcher) (l : Log)
        → ProducerWatched d (enif_producer_new k nif sigio has_dr options now d l)
    unfolding enif_producer_new
    enif_producer_new-Watched has_dr options now d l = elim (Option-cases (get_boolean has_dr)) [
      | inl e ↦ rw (e, enif_producer_new) refl
      | inr (b, e) ↦ rw (e, enif_producer_new) (configure_producer-Watched b options _ now d _)
    ]

module _ (nif : ErlNif) (k : Kafka) where
  start_consumer-Watched :
      (owner : ℕ) (self rk topics : Handle) (now : ℕ) (d : Dispatcher) (l : Log)
      → ConsumerWatched d (start_consumer nif k owner self rk topics now d l)
  unfolding start_consumer
  start_consumer-Watched owner self rk topics now d l =
      elim (Bool-cases (is_zero (k.subscribe_answer l rk topics))) [
        | inr e ↦ rw (e, start_consumer) refl
        | inl e ↦ elim (watch-cases k rk true now d (Call.subscribe rk topics ∷ l)) [
          | inl f ↦ rw (e, f, start_consumer) tt
          | inr (it, f) ↦ rw (e, f, start_consumer) (refl, rk, refl, it, refl)
        ]
      ]

  subscribe_consumer-Watched :
      (owner : ℕ) (self rk : Handle) (list : Term) (now : ℕ) (d : Dispatcher) (l : Log)
      → ConsumerWatched d (subscribe_consumer nif k owner self rk list now d l)
  unfolding subscribe_consumer
  subscribe_consumer-Watched owner self rk list now d l =
      elim (Option-cases (topic_subscribe nif k list (Call.poll_set_consumer rk ∷ l)).0) [
        | inl e ↦ rw (e, subscribe_consumer) refl
        | inr (topics, e) ↦
            rw (e, subscribe_consumer) (start_consumer-Watched owner self rk topics now d _)
      ]

  make_consumer-Watched :
      (owner : ℕ) (self conf : Handle) (list : Term) (now : ℕ) (d : Dispatcher) (l : Log)
      → ConsumerWatched d (make_consumer nif k owner self conf list now d l)
  unfolding make_consumer
  make_consumer-Watched owner self conf list now d l =
      elim (Made-cases (k.client_new_answer l true conf)) [
        | inl (errstr, e) ↦ rw (e, make_consumer) refl
        | inr (rk, e) ↦
            rw (e, make_consumer) (subscribe_consumer-Watched owner self rk list now d _)
      ]

  alloc_consumer-Watched :
      (owner : ℕ) (conf topic_conf : Handle) (list : Term) (now : ℕ) (d : Dispatcher) (l : Log)
      → ConsumerWatched d (alloc_consumer nif k owner conf topic_conf list now d l)
  unfolding alloc_consumer refuse_consumer
  alloc_consumer-Watched owner conf topic_conf list now d l = elim (Bool-cases (k.alloc_fails l)) [
    | inl e ↦ rw (e, alloc_consumer) refl
    | inr e ↦ rw (e, alloc_consumer) (make_consumer-Watched owner _ conf list now d _)
  ]

  module _ (sigio : Option Bytes) where
    configure_consumer-Watched :
        (owner : ℕ) (group : Bytes) (args : Arguments) (conf topic_conf : Handle) (now : ℕ)
        (d : Dispatcher) (l : Log)
        → ConsumerWatched d
            (configure_consumer nif k sigio owner group args conf topic_conf now d l)
    unfolding configure_consumer refuse_consumer
    configure_consumer-Watched owner group args conf topic_conf now d l =
        let a = parse_kafka_config nif k sigio args.client_config conf l in
        let b = parse_topic_config nif k args.topic_config topic_conf a.1 in
        let g = kafka_conf_value k conf (codes "group.id") (c_str group) b.1 in
        elim (Bool-cases (is_ok a.0)) [
          | inr e ↦ rw (e, configure_consumer) refl
          | inl e ↦ elim (Bool-cases (is_ok b.0)) [
            | inr f ↦ rw (e, f, configure_consumer) refl
            | inl f ↦ elim (Option-cases g.0) [
              | inr (errstr, w) ↦ rw (e, f, w, configure_consumer) refl
              | inl w ↦
                  rw (e, f, w, configure_consumer)
                    (alloc_consumer-Watched owner conf topic_conf args.topics now d _)
            ]
          ]
        ]

    pub enif_consumer_new-Watched :
        (args : Arguments) (now : ℕ) (d : Dispatcher) (l : Log)
        → ConsumerWatched d (enif_consumer_new nif k sigio args now d l)
    unfolding enif_consumer_new
    enif_consumer_new-Watched args now d l = elim (Option-cases args.self_pid) [
      | inl e ↦ rw (e, enif_consumer_new) refl
      | inr (owner, e) ↦ elim (Option-cases (get_string nif args.group_id)) [
        | inl f ↦ rw (e, f, enif_consumer_new) refl
        | inr (group, f) ↦
            rw (e, f, enif_consumer_new) (configure_consumer-Watched owner group args _ _ now d _)
      ]
    ]
