-- ===== src/Consumer/Create/Ownership.antt =====
-- c_src/exrdkafka_consumer.cc: who owns what `enif_consumer_new` creates.
use exrdkafka.Base.{
  ℕ, ◌≡◌, ap, ◌∷◌, true, Option, none, some, arith, inl, inr, Option-cases, Bool-cases, ◌∙◌,
}
use exrdkafka.Base.Text.{codes}
use exrdkafka.Erl.{Bytes, Term, ErlNif}
use exrdkafka.Erl.Utils.{c_str, get_string, make_badarg, make_error_text}
use exrdkafka.Rd.{Kafka, Handle, Log, Call, made, refused}
use exrdkafka.Rd.Books.{Kind, opened, closed, balance, balance-Quiet}
use exrdkafka.Rd.Owned.{Made-cases, Owned, nothing, both}
use exrdkafka.Rd.Quiet.{conf_set-Quiet, topic_conf_set-Quiet}
use exrdkafka.Config.{parse_kafka_config, parse_topic_config, is_ok, kafka_conf_value}
use exrdkafka.Config.Quiet.{view-parse_kafka_config, view-parse_topic_config}
use exrdkafka.Dispatcher.{Dispatcher}
use exrdkafka.Consumer.Create.{
  Arguments, Created, prepared, subscribe_consumer, make_consumer, alloc_consumer, refuse_consumer,
  configure_consumer, enif_consumer_new,
}
use exrdkafka.Consumer.Create.Starting.{Settles, subscribe_consumer-Settles}

module _ (nif : ErlNif) (k : Kafka) where
  no_client :
      (kd : Kind) (h self conf : Handle) (t : Term) (errstr : Bytes) (d : Dispatcher) (l : Log)
      → Settles kd h
          (record nothing { conf = some conf; self = some self })
          l
          (
            some (t, none, d),
            Call.conf_destroy conf
                ∷ Call.release_resource self
                ∷ Call.client_new true conf (refused errstr)
                ∷ l,
          )
  unfolding opened closed
  no_client Kind.confs h self conf t errstr d l = omega arith
  no_client _ h self conf t errstr d l = omega arith

  with_client :
      (kd : Kind) (h self conf rk : Handle) (l : Log) (r : Created)
      → Settles kd h
          (record nothing { client = some rk; self = some self })
          (Call.client_new true conf (made rk) ∷ l)
          r
      → Settles kd h (record nothing { conf = some conf; self = some self }) l r
  unfolding opened closed
  with_client kd h self conf rk l (none, l'') s = tt
  with_client Kind.confs h self conf rk l (some (t, c, d), l'') s = omega arith
  with_client _ h self conf rk l (some (t, c, d), l'') s = omega arith

  make_consumer-Settles :
      (kd : Kind) (h : Handle) (owner : ℕ) (self conf : Handle) (list : Term) (now : ℕ)
      (d : Dispatcher) (l : Log)
      → Settles kd h
          (record nothing { conf = some conf; self = some self })
          l
          (make_consumer nif k owner self conf list now d l)
  unfolding make_consumer
  make_consumer-Settles kd h owner self conf list now d l =
      elim (Made-cases (k.client_new_answer l true conf)) [
        | inl (errstr, e) ↦
            rw (e, make_consumer)
              (rw e (no_client kd h self conf (make_error_text errstr) errstr d l))
        | inr (rk, e) ↦
            rw (e, make_consumer)
              (rw e (
                with_client kd h self conf rk l
                  (subscribe_consumer nif k owner self rk list now d
                    (Call.client_new true conf (made rk) ∷ l))
                  (subscribe_consumer-Settles nif k kd h owner self rk list now d
                    (Call.client_new true conf (made rk) ∷ l))))
      ]

  with_resource :
      (kd : Kind) (h self conf topic_conf : Handle) (l : Log) (r : Created)
      → Settles kd h
          (record nothing { conf = some conf; self = some self })
          (prepared conf topic_conf self l)
          r
      → Settles kd h (both conf topic_conf) l r
  unfolding opened closed
  with_resource kd h self conf topic_conf l (none, l'') s = tt
  with_resource Kind.confs h self conf topic_conf l (some (t, c, d), l'') s = omega arith
  with_resource _ h self conf topic_conf l (some (t, c, d), l'') s = omega arith

  refuse_consumer-Settles :
      (kd : Kind) (h conf topic_conf : Handle) (t : Term) (d : Dispatcher) (l : Log)
      → Settles kd h (both conf topic_conf) l (refuse_consumer nif k t conf topic_conf d l)
  unfolding refuse_consumer opened closed
  refuse_consumer-Settles Kind.confs h conf topic_conf t d l = omega arith
  refuse_consumer-Settles _ h conf topic_conf t d l = omega arith

  alloc_consumer-Settles :
      (kd : Kind) (h : Handle) (owner : ℕ) (conf topic_conf : Handle) (list : Term) (now : ℕ)
      (d : Dispatcher) (l : Log)
      → Settles kd h
          (both conf topic_conf)
          l
          (alloc_consumer nif k owner conf topic_conf list now d l)
  unfolding alloc_consumer
  alloc_consumer-Settles kd h owner conf topic_conf list now d l =
      let self = k.alloc_resource_answer l in
      let l' = prepared conf topic_conf self l in
      elim (Bool-cases (k.alloc_fails l)) [
        | inl e ↦
            rw (e, alloc_consumer)
              (refuse_consumer-Settles kd h conf topic_conf
                (make_error_text (codes "failed to alloc consumer")) d l)
        | inr e ↦
            rw (e, alloc_consumer)
              (with_resource kd h self conf topic_conf l
                (make_consumer nif k owner self conf list now d l')
                (make_consumer-Settles kd h owner self conf list now d l'))
      ]

  balance-set :
      (kd : Kind) (h conf : Handle) (name value : Bytes) (l : Log)
      → balance kd h (kafka_conf_value k conf name value l).1 ≡ balance kd h l
  balance-set kd h conf name value l =
      balance-Quiet kd h (Call.conf_set conf name value) l (conf_set-Quiet kd h conf name value)

  balance-parse_kafka_config :
      (kd : Kind) (h conf : Handle) (sigio : Option Bytes) (list : Term) (l : Log)
      → balance kd h (parse_kafka_config nif k sigio list conf l).1 ≡ balance kd h l
  balance-parse_kafka_config kd h conf sigio list l =
      view-parse_kafka_config (balance kd h) k conf (balance-set kd h conf) nif sigio list l

  balance-parse_topic_config :
      (kd : Kind) (h conf : Handle) (list : Term) (l : Log)
      → balance kd h (parse_topic_config nif k list conf l).1 ≡ balance kd h l
  balance-parse_topic_config kd h conf list l =
      view-parse_topic_config (balance kd h) k conf
        (λ name value l'.
          balance-Quiet kd h (Call.topic_conf_set conf name value) l'
            (topic_conf_set-Quiet kd h conf name value))
        nif list l

  Settles-same :
      (kd : Kind) (h : Handle) (o : Owned) (l l' : Log) (r : Created)
      → balance kd h l' ≡ balance kd h l
      → Settles kd h o l' r
      → Settles kd h o l r
  Settles-same kd h o l l' (none, l'') e s = tt
  Settles-same kd h o l l' (some (t, c, d), l'') e s =
      omega (arith, ap (λ (p : ℕ × ℕ). p.0) e, ap (λ (p : ℕ × ℕ). p.1) e)

  module _ (sigio : Option Bytes) where
    configure_consumer-Settles :
        (kd : Kind) (h : Handle) (owner : ℕ) (group : Bytes) (args : Arguments)
        (conf topic_conf : Handle) (now : ℕ) (d : Dispatcher) (l : Log)
        → Settles kd h
            (both conf topic_conf)
            l
            (configure_consumer nif k sigio owner group args conf topic_conf now d l)
    unfolding configure_consumer
    configure_consumer-Settles kd h owner group args conf topic_conf now d l =
        let a = parse_kafka_config nif k sigio args.client_config conf l in
        let b = parse_topic_config nif k args.topic_config topic_conf a.1 in
        let g = kafka_conf_value k conf (codes "group.id") (c_str group) b.1 in
        let same_a = balance-parse_kafka_config kd h conf sigio args.client_config l in
        let same_b = balance-parse_topic_config kd h topic_conf args.topic_config a.1 ∙ same_a in
        let same_g = balance-set kd h conf (codes "group.id") (c_str group) b.1 ∙ same_b in
        let refuse = λ (t : Term) (l' : Log) (same : balance kd h l' ≡ balance kd h l).
          Settles-same kd h (both conf topic_conf) l l'
            (refuse_consumer nif k t conf topic_conf d l') same
            (refuse_consumer-Settles kd h conf topic_conf t d l') in
        elim (Bool-cases (is_ok a.0)) [
          | inr e ↦ rw (e, configure_consumer) (refuse a.0 a.1 same_a)
          | inl e ↦ elim (Bool-cases (is_ok b.0)) [
            | inr f ↦ rw (e, f, configure_consumer) (refuse b.0 b.1 same_b)
            | inl f ↦ elim (Option-cases g.0) [
              | inl x ↦
                  rw (e, f, x, configure_consumer)
                    (Settles-same kd h (both conf topic_conf) l g.1
                      (alloc_consumer nif k owner conf topic_conf args.topics now d g.1) same_g
                      (alloc_consumer-Settles kd h owner conf topic_conf args.topics now d g.1))
              | inr (errstr, x) ↦
                  rw (e, f, x, configure_consumer) (refuse (make_error_text errstr) g.1 same_g)
            ]
          ]
        ]

    new_confs :
        (kd : Kind) (h conf topic_conf : Handle) (l : Log) (r : Created)
        → Settles kd h
            (both conf topic_conf)
            (Call.topic_conf_new topic_conf ∷ Call.conf_new conf ∷ l)
            r
        → Settles kd h nothing l r
    unfolding opened closed
    new_confs kd h conf topic_conf l (none, l'') s = tt
    new_confs Kind.confs h conf topic_conf l (some (t, c, d), l'') s = omega arith
    new_confs _ h conf topic_conf l (some (t, c, d), l'') s = omega arith

    nothing_kept :
        (kd : Kind) (h : Handle) (t : Term) (d : Dispatcher) (l : Log)
        → Settles kd h nothing l (some (t, none, d), l)
    nothing_kept kd h t d l = omega arith

    -- On every path of `enif_consumer_new` on which the process does not end, each configuration,
    -- client, list of topics and reference to a resource that it creates is given up just once; a
    -- consumer that it returns keeps its client and one reference to its resource.
    pub enif_consumer_new-Settles :
        (kd : Kind) (h : Handle) (args : Arguments) (now : ℕ) (d : Dispatcher) (l : Log)
        → Settles kd h nothing l (enif_consumer_new nif k sigio args now d l)
    unfolding enif_consumer_new
    enif_consumer_new-Settles kd h args now d l = elim (Option-cases args.self_pid) [
      | inl e ↦ rw (e, enif_consumer_new) (nothing_kept kd h make_badarg d l)
      | inr (owner, e) ↦ elim (Option-cases (get_string nif args.group_id)) [
        | inl f ↦ rw (e, f, enif_consumer_new) (nothing_kept kd h make_badarg d l)
        | inr (group, f) ↦
            let conf = k.conf_new_answer l in
            let l₁ = Call.conf_new conf ∷ l in
            let topic_conf = k.topic_conf_new_answer l₁ in
            rw (e, f, enif_consumer_new)
              (new_confs kd h conf topic_conf l
                (configure_consumer nif k sigio owner group args conf topic_conf now d
                  (Call.topic_conf_new topic_conf ∷ l₁))
                (configure_consumer-Settles kd h owner group args conf topic_conf now d
                  (Call.topic_conf_new topic_conf ∷ l₁)))
      ]
    ]
