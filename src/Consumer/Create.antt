-- ===== src/Consumer/Create.antt =====
-- c_src/exrdkafka_consumer.cc: `enif_consumer_new`.
--
-- The objects that the function owns are destroyed where their scope ends, the newest first. A
-- result is `none` if `watch` ends the process. When the resource of a consumer that was never
-- filled is released, its destructor finds only NULL and does nothing.
pub mod Starting
pub mod Ownership
use exrdkafka.Base.{
  ℕ, zero, suc, List, [], ◌∷◌, Bool, true, false, Option, none, some, if◌then◌else◌,
}
use exrdkafka.Base.Int.{ℤ, is_zero}
use exrdkafka.Base.Text.{codes}
use exrdkafka.Erl.{
  Bytes, Term, ErlNif, nil, cell, atom, int, binary, tuple, map, resource, opaque, raw,
  get_list_length,
}
use exrdkafka.Erl.Utils.{c_str, get_string, make_badarg, make_error_text, make_ok_result}
use exrdkafka.Rd.{
  Kafka, Handle, Log, Io, Call, Made, made, refused, log_cb, stats_cb, rebalance_callback,
}
use exrdkafka.Config.{parse_kafka_config, parse_topic_config, kafka_conf_value, is_ok}
use exrdkafka.Queues.{queue_manager}
use exrdkafka.Dispatcher.{Dispatcher, watch}
use exrdkafka.Consumer.Partitions.{Consumer}

-- The arguments, and what `enif_self` answers.
pub record Arguments : Type 0 where
  pub self_pid : Option ℕ
  pub group_id : Term
  pub topics : Term
  pub client_config : Term
  pub topic_config : Term

-- The answer, the consumer behind the term, and the dispatcher of the module.
abbrev pub Created : Type 0
Created = Option (Term × Option Consumer × Dispatcher) × Log

-- The log once the configuration is complete: it has the resource for its callbacks, and owns the
-- configuration of the topics.
abbrev pub prepared : Handle → Handle → Handle → Log → Log
prepared conf topic_conf self l =
    Call.conf_set_callback conf stats_cb
    ∷ Call.conf_set_callback conf rebalance_callback
    ∷ Call.conf_set_callback conf log_cb
    ∷ Call.conf_set_default_topic_conf conf topic_conf
    ∷ Call.conf_set_opaque conf self
    ∷ Call.alloc_resource self
    ∷ l

module _ (nif : ErlNif) (k : Kafka) where
  -- The loop of `topic_subscribe`.
  unfoldable pub subscribe_each : Term → Handle → Io Bool
  subscribe_each (cell head list) out l = elim (get_string nif head) [
    | none ↦ (false, l)
    | some name ↦ subscribe_each list out (Call.partition_list_add out (c_str name) ∷ l)
  ]
  subscribe_each _ out l = (true, l)

  -- A list that is empty names no topic.
  unfoldable pub subscribe_some : ℕ → Term → Io (Option Handle)
  subscribe_some zero list l = (none, l)
  subscribe_some (suc n) list l =
      let out = k.partition_list_new_answer l (suc n) in
      let r = subscribe_each list out (Call.partition_list_new (suc n) out ∷ l) in
      if r.0 then (some out, r.1) else (none, Call.partition_list_destroy out ∷ r.1)

  unfoldable pub topic_subscribe : Term → Io (Option Handle)
  topic_subscribe list l = elim (get_list_length list) [
    | none ↦ (none, l)
    | some n ↦ subscribe_some n list l
  ]

  -- A client `rk` with its list of topics.
  unfoldable pub start_consumer : ℕ → Handle → Handle → Handle → ℕ → Dispatcher → Log → Created
  start_consumer owner self rk topics now d l =
      let err = k.subscribe_answer l rk topics in
      let c : Consumer = record {
        self = self;
        kf = some rk;
        owner = owner;
        qm = queue_manager rk;
        running = true;
        closing = false;
      } in
      let r = watch k rk true now d (Call.subscribe rk topics ∷ l) in
      if is_zero err
      then elim r.0 [
        | none ↦ (none, r.1)
        | some d' ↦ (
          some (make_ok_result (Term.resource self), some c, d'),
          Call.release_resource self
              ∷ Call.partition_list_destroy topics
              ∷ Call.make_resource self
              ∷ r.1,
        )
      ]
      else (
        some (make_error_text (k.err2str err), none, d),
        Call.release_resource self
            ∷ Call.client_destroy rk
            ∷ Call.partition_list_destroy topics
            ∷ Call.subscribe rk topics
            ∷ l,
      )

  -- A client `rk`, which owns its configuration.
  unfoldable pub subscribe_consumer : ℕ → Handle → Handle → Term → ℕ → Dispatcher → Log → Created
  subscribe_consumer owner self rk list now d l =
      let r = topic_subscribe list (Call.poll_set_consumer rk ∷ l) in
      elim r.0 [
        | none ↦ (
          some (make_error_text (codes "invalid topic list"), none, d),
          Call.release_resource self ∷ Call.client_destroy rk ∷ r.1,
        )
        | some topics ↦ start_consumer owner self rk topics now d r.1
      ]

  -- `rd_kafka_new` for a configuration that owns that of its topics.
  unfoldable pub make_consumer : ℕ → Handle → Handle → Term → ℕ → Dispatcher → Log → Created
  make_consumer owner self conf list now d l =
      let answer = k.client_new_answer l true conf in
      let l' = Call.client_new true conf answer ∷ l in
      elim answer [
        | refused errstr ↦ (
          some (make_error_text errstr, none, d),
          Call.conf_destroy conf ∷ Call.release_resource self ∷ l',
        )
        | made rk ↦ subscribe_consumer owner self rk list now d l'
      ]

  -- What the function ends in while it owns both configurations.
  unfoldable pub refuse_consumer : Term → Handle → Handle → Dispatcher → Log → Created
  refuse_consumer t conf topic_conf d l =
      (some (t, none, d), Call.conf_destroy conf ∷ Call.topic_conf_destroy topic_conf ∷ l)

  -- The resource, and the callbacks of the configuration.
  unfoldable pub alloc_consumer : ℕ → Handle → Handle → Term → ℕ → Dispatcher → Log → Created
  alloc_consumer owner conf topic_conf list now d l =
      let self = k.alloc_resource_answer l in
      if k.alloc_fails l
      then refuse_consumer (make_error_text (codes "failed to alloc consumer")) conf topic_conf d l
      else make_consumer owner self conf list now d (prepared conf topic_conf self l)

  module _ (sigio : Option Bytes) where
    -- The options of the client, of its topics, and the name of its group.
    unfoldable pub configure_consumer :
        ℕ → Bytes → Arguments → Handle → Handle → ℕ → Dispatcher → Log → Created
    unfolding refuse_consumer
    configure_consumer owner group args conf topic_conf now d l =
        let a = parse_kafka_config nif k sigio args.client_config conf l in
        let b = parse_topic_config nif k args.topic_config topic_conf a.1 in
        let g = kafka_conf_value k conf (codes "group.id") (c_str group) b.1 in
        if is_ok a.0
        then (if is_ok b.0
            then elim g.0 [
              | some errstr ↦ refuse_consumer (make_error_text errstr) conf topic_conf d g.1
              | none ↦ alloc_consumer owner conf topic_conf args.topics now d g.1
            ]
            else refuse_consumer b.0 conf topic_conf d b.1)
        else refuse_consumer a.0 conf topic_conf d a.1

    unfoldable pub enif_consumer_new : Arguments → ℕ → Dispatcher → Log → Created
    enif_consumer_new args now d l = elim args.self_pid [
      | none ↦ (some (make_badarg, none, d), l)
      | some owner ↦ elim (get_string nif args.group_id) [
        | none ↦ (some (make_badarg, none, d), l)
        | some group ↦
            let conf = k.conf_new_answer l in
            let l₁ = Call.conf_new conf ∷ l in
            let topic_conf = k.topic_conf_new_answer l₁ in
            configure_consumer owner group args conf topic_conf now d
              (Call.topic_conf_new topic_conf ∷ l₁)
      ]
    ]
