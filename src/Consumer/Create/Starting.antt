-- ===== src/Consumer/Create/Starting.antt =====
-- c_src/exrdkafka_consumer.cc: who owns what once the client of a consumer is made.
use exrdkafka.Base.{
  ℕ, zero, suc, ◌+◌, ◌≡◌, refl, ◌∷◌, true, Option, none, some, arith, inl, inr, Option-cases, ◌∙◌,
}
use exrdkafka.Base.Text.{codes}
use exrdkafka.Erl.{Term, ErlNif, cell, get_list_length}
use exrdkafka.Erl.Utils.{c_str, get_string, make_error_text}
use exrdkafka.Rd.{Kafka, Handle, Log, Call}
use exrdkafka.Rd.Books.{Kind, opened, closed, balance, balance-Quiet}
use exrdkafka.Rd.Owned.{Owned, nothing, owned}
use exrdkafka.Rd.Quiet.{partition_list_add-Quiet}
use exrdkafka.Dispatcher.{Dispatcher}
use exrdkafka.Dispatcher.Quiet.{balance-watch}
use exrdkafka.Consumer.Partitions.{Consumer}
use exrdkafka.Consumer.Create.{
  Created, subscribe_each, subscribe_some, topic_subscribe, start_consumer, subscribe_consumer,
}

-- A new consumer keeps its client and the one reference of its term.
abbrev pub kept : Option Consumer → Owned
kept none = nothing
kept (some c) = record nothing { client = c.kf; self = some c.self }

-- Of what was owned before and of what was created since, each object was given up once, but for
-- what a new consumer keeps. If the process has ended, nothing is said.
abbrev pub Settles : Kind → Handle → Owned → Log → Created → Type 0
Settles kd h o l (none, l') = Unit {0}
Settles kd h o l (some (t, c, d), l') =
    opened kd h l' + closed kd h l + owned kd h o
    ≡ opened kd h l + closed kd h l' + owned kd h (kept c)

module _ (nif : ErlNif) (k : Kafka) where
  subscribe_each-balance :
      (kd : Kind) (h : Handle) (list : Term) (out : Handle) (l : Log)
      → balance kd h (subscribe_each nif k list out l).1 ≡ balance kd h l
  unfolding subscribe_each
  subscribe_each-balance kd h (cell head list) out l = elim (Option-cases (get_string nif head)) [
    | inl e ↦ rw (e, subscribe_each) refl
    | inr (name, e) ↦
        rw (e, subscribe_each)
          (subscribe_each-balance kd h list out (Call.partition_list_add out (c_str name) ∷ l)
            ∙ balance-Quiet kd h (Call.partition_list_add out (c_str name)) l
                (partition_list_add-Quiet kd h out (c_str name)))
  ]
  subscribe_each-balance kd h _ out l = refl

  -- The list that `topic_subscribe` returns is all that it leaves behind.
  abbrev Subscribed : Kind → Handle → Log → Option Handle × Log → Type 0
  Subscribed kd h l r =
      opened kd h r.1 + closed kd h l
      ≡ opened kd h l + closed kd h r.1 + owned kd h (record nothing { list = r.0 })

  subscribe_some-Subscribed :
      (kd : Kind) (h : Handle) (n : ℕ) (list : Term) (l : Log)
      → Subscribed kd h l (subscribe_some nif k n list l)
  unfolding subscribe_some opened closed
  subscribe_some-Subscribed Kind.confs h zero list l = omega arith
  subscribe_some-Subscribed _ h zero list l = omega arith
  subscribe_some-Subscribed Kind.confs h (suc n) list l =
      let out = k.partition_list_new_answer l (suc n) in
      ground (
        arith,
        subscribe_each-balance Kind.confs h list out (Call.partition_list_new (suc n) out ∷ l),
      )
  subscribe_some-Subscribed kd h (suc n) list l =
      let out = k.partition_list_new_answer l (suc n) in
      ground (arith, subscribe_each-balance kd h list out (Call.partition_list_new (suc n) out ∷ l))

  start_consumer-Settles :
      (kd : Kind) (h : Handle) (owner : ℕ) (self rk topics : Handle) (now : ℕ) (d : Dispatcher)
      (l : Log)
      → Settles kd h
          (record nothing { client = some rk; self = some self; list = some topics })
          l
          (start_consumer nif k owner self rk topics now d l)
  unfolding start_consumer opened closed
  start_consumer-Settles Kind.confs h owner self rk topics now d l =
      ground (arith, balance-watch k Kind.confs h rk true now d (Call.subscribe rk topics ∷ l))
  start_consumer-Settles kd h owner self rk topics now d l =
      ground (arith, balance-watch k kd h rk true now d (Call.subscribe rk topics ∷ l))

  no_list : (kd : Kind) (h : Handle) (l : Log) → Subscribed kd h l (none, l)
  no_list Kind.confs h l = omega arith
  no_list _ h l = omega arith

  topic_subscribe-Subscribed :
      (kd : Kind) (h : Handle) (list : Term) (l : Log)
      → Subscribed kd h l (topic_subscribe nif k list l)
  unfolding topic_subscribe
  topic_subscribe-Subscribed kd h list l = elim (Option-cases (get_list_length list)) [
    | inl e ↦ rw (e, topic_subscribe) (no_list kd h l)
    | inr (n, e) ↦ rw (e, topic_subscribe) (subscribe_some-Subscribed kd h n list l)
  ]

  -- A client with its resource, from here on: without a list it is given up, with one it goes on.
  no_topics :
      (kd : Kind) (h self rk : Handle) (t : Term) (d : Dispatcher) (l l' : Log)
      → Subscribed kd h (Call.poll_set_consumer rk ∷ l) (none, l')
      → Settles kd h
          (record nothing { client = some rk; self = some self })
          l
          (some (t, none, d), Call.release_resource self ∷ Call.client_destroy rk ∷ l')
  unfolding opened closed
  no_topics Kind.confs h self rk t d l l' e = omega arith
  no_topics _ h self rk t d l l' e = omega arith

  with_topics :
      (kd : Kind) (h self rk topics : Handle) (l l' : Log) (r : Created)
      → Subscribed kd h (Call.poll_set_consumer rk ∷ l) (some topics, l')
      → Settles kd h
          (record nothing { client = some rk; self = some self; list = some topics })
          l'
          r
      → Settles kd h (record nothing { client = some rk; self = some self }) l r
  unfolding opened closed
  with_topics kd h self rk topics l l' (none, l'') e s = tt
  with_topics Kind.confs h self rk topics l l' (some (t, c, d), l'') e s = omega arith
  with_topics _ h self rk topics l l' (some (t, c, d), l'') e s = omega arith

  pub subscribe_consumer-Settles :
      (kd : Kind) (h : Handle) (owner : ℕ) (self rk : Handle) (list : Term) (now : ℕ)
      (d : Dispatcher) (l : Log)
      → Settles kd h
          (record nothing { client = some rk; self = some self })
          l
          (subscribe_consumer nif k owner self rk list now d l)
  unfolding subscribe_consumer
  subscribe_consumer-Settles kd h owner self rk list now d l =
      let l₁ = Call.poll_set_consumer rk ∷ l in
      let r = topic_subscribe nif k list l₁ in
      let got = topic_subscribe-Subscribed kd h list l₁ in
      elim (Option-cases r.0) [
        | inl e ↦
            rw (e, subscribe_consumer)
              (no_topics kd h self rk (make_error_text (codes "invalid topic list")) d l r.1
                (rw e at got))
        | inr (topics, e) ↦
            rw (e, subscribe_consumer)
              (with_topics kd h self rk topics l r.1
                (start_consumer nif k owner self rk topics now d r.1) (rw e at got)
                (start_consumer-Settles kd h owner self rk topics now d r.1))
      ]
