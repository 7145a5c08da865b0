-- ===== src/Producer/Create/Ownership.antt =====
-- c_src/exrdkafka_producer.cc: who owns what `enif_producer_new` creates.
use exrdkafka.Base.{
  ℕ, ◌+◌, ◌≡◌, ap, ◌∷◌, Bool, false, Option, none, some, arith, inl, inr, Option-cases, Bool-cases,
  ◌∙◌,
}
use exrdkafka.Base.Text.{codes}
use exrdkafka.Erl.{Bytes, Term, ErlNif}
use exrdkafka.Erl.Utils.{get_boolean, make_badarg, make_error_text}
use exrdkafka.Rd.{Kafka, Handle, Log, Call, made, refused}
use exrdkafka.Rd.Books.{Kind, opened, closed, balance, balance-Quiet}
use exrdkafka.Rd.Owned.{Made-cases, Owned, nothing, owned}
use exrdkafka.Rd.Quiet.{conf_set-Quiet}
use exrdkafka.Config.{parse_kafka_config, is_ok}
use exrdkafka.Config.Quiet.{view-parse_kafka_config}
use exrdkafka.Dispatcher.{Dispatcher}
use exrdkafka.Dispatcher.Quiet.{balance-watch}
use exrdkafka.Producer.{Producer}
use exrdkafka.Producer.Create.{
  Created, with_callbacks, start_producer, make_producer, alloc_producer, configure_producer,
  enif_producer_new,
}

-- A new producer keeps its client and the one reference of its term.
abbrev pub kept : Option (Handle × Producer) → Owned
kept none = nothing
kept (some (self, p)) = record nothing { client = some p.kf; self = some self }

-- Of what was owned before and of what was created since, each object was given up once, but for
-- what a new producer keeps. If the process has ended, nothing is said.
abbrev pub Settles : Kind → Handle → Owned → Log → Created → Type 0
Settles kd h o l (none, l') = Unit {0}
Settles kd h o l (some (t, p, d), l') =
    opened kd h l' + closed kd h l + owned kd h o
    ≡ opened kd h l + closed kd h l' + owned kd h (kept p)

abbrev pub one_conf : Handle → Owned
one_conf conf = record nothing { conf = some conf }

module _ (k : Kafka) where
  start_producer-Settles :
      (kd : Kind) (h self conf rk : Handle) (now : ℕ) (d : Dispatcher) (l : Log)
      → Settles kd h
          (record nothing { conf = some conf; self = some self })
          l
          (start_producer k self rk now d (Call.client_new false conf (made rk) ∷ l))
  unfolding start_producer opened closed
  start_producer-Settles Kind.confs h self conf rk now d l = ground (
    arith,
    balance-watch k Kind.confs h rk false now d (Call.client_new false conf (made rk) ∷ l),
  )
  start_producer-Settles kd h self conf rk now d l =
      ground (arith, balance-watch k kd h rk false now d (Call.client_new false conf (made rk) ∷ l))

  no_client :
      (kd : Kind) (h self conf : Handle) (t : Term) (errstr : Bytes) (d : Dispatcher) (l : Log)
      → Settles kd h
          (record nothing { conf = some conf; self = some self })
          l
          (
            some (t, none, d),
            Call.conf_destroy conf
                ∷ Call.release_resource self
                ∷ Call.client_new false conf (refused errstr)
                ∷ l,
          )
  unfolding opened closed
  no_client Kind.confs h self conf t errstr d l = omega arith
  no_client _ h self conf t errstr d l = omega arith

  make_producer-Settles :
      (kd : Kind) (h self conf : Handle) (now : ℕ) (d : Dispatcher) (l : Log)
      → Settles kd h
          (record nothing { conf = some conf; self = some self })
          l
          (make_producer k self conf now d l)
  unfolding make_producer
  make_producer-Settles kd h self conf now d l =
      elim (Made-cases (k.client_new_answer l false conf)) [
        | inl (errstr, e) ↦
            rw (e, make_producer)
              (rw e (no_client kd h self conf (make_error_text errstr) errstr d l))
        | inr (rk, e) ↦
            rw (e, make_producer) (rw e (start_producer-Settles kd h self conf rk now d l))
      ]

  conf_gone :
      (kd : Kind) (h conf : Handle) (t : Term) (d : Dispatcher) (l : Log)
      → Settles kd h (one_conf conf) l (some (t, none, d), Call.conf_destroy conf ∷ l)
  unfolding opened closed
  conf_gone Kind.confs h conf t d l = omega arith
  conf_gone _ h conf t d l = omega arith

  with_resource :
      (kd : Kind) (h self conf : Handle) (l : Log) (r : Created)
      → Settles kd h
          (record nothing { conf = some conf; self = some self })
          (Call.conf_set_opaque conf self ∷ Call.alloc_resource self ∷ l)
          r
      → Settles kd h (one_conf conf) l r
  unfolding opened closed
  with_resource kd h self conf l (none, l'') s = tt
  with_resource Kind.confs h self conf l (some (t, p, d), l'') s = omega arith
  with_resource _ h self conf l (some (t, p, d), l'') s = omega arith

  alloc_producer-Settles :
      (kd : Kind) (h conf : Handle) (now : ℕ) (d : Dispatcher) (l : Log)
      → Settles kd h (one_conf conf) l (alloc_producer k conf now d l)
  unfolding alloc_producer
  alloc_producer-Settles kd h conf now d l =
      let self = k.alloc_resource_answer l in
      let l' = Call.conf_set_opaque conf self ∷ Call.alloc_resource self ∷ l in
      elim (Bool-cases (k.alloc_fails l)) [
        | inl e ↦
            rw (e, alloc_producer)
              (conf_gone kd h conf (make_error_text (codes "failed to alloc producer")) d l)
        | inr e ↦
            rw (e, alloc_producer)
              (with_resource kd h self conf l (make_producer k self conf now d l')
                (make_producer-Settles kd h self conf now d l'))
      ]

  balance-with_callbacks :
      (kd : Kind) (h conf : Handle) (has_dr_callback : Bool) (l : Log)
      → balance kd h (with_callbacks has_dr_callback conf l) ≡ balance kd h l
  unfolding opened closed
  balance-with_callbacks Kind.confs h conf has_dr_callback l = ground arith
  balance-with_callbacks _ h conf has_dr_callback l = ground arith

  Settles-same :
      (kd : Kind) (h : Handle) (o : Owned) (l l' : Log) (r : Created)
      → balance kd h l' ≡ balance kd h l
      → Settles kd h o l' r
      → Settles kd h o l r
  Settles-same kd h o l l' (none, l'') e s = tt
  Settles-same kd h o l l' (some (t, p, d), l'') e s =
      omega (arith, ap (λ (b : ℕ × ℕ). b.0) e, ap (λ (b : ℕ × ℕ). b.1) e)

  module _ (nif : ErlNif) (sigio : Option Bytes) where
    configure_producer-Settles :
        (kd : Kind) (h : Handle) (has_dr_callback : Bool) (options : Term) (conf : Handle) (now : ℕ)
        (d : Dispatcher) (l : Log)
        → Settles kd h
            (one_conf conf)
            l
            (configure_producer k nif sigio has_dr_callback options conf now d l)
    unfolding configure_producer
    configure_producer-Settles kd h has_dr_callback options conf now d l =
        let a = parse_kafka_config nif k sigio options conf l in
        let same =
          view-parse_kafka_config (balance kd h) k conf
            (λ name value l'.
              balance-Quiet kd h (Call.conf_set conf name value) l'
                (conf_set-Quiet kd h conf name value))
            nif sigio options l in
        let l' = with_callbacks has_dr_callback conf a.1 in
        elim (Bool-cases (is_ok a.0)) [
          | inr e ↦
              rw (e, configure_producer)
                (Settles-same kd h (one_conf conf) l a.1
                  (some (a.0, none, d), Call.conf_destroy conf ∷ a.1) same
                  (conf_gone kd h conf a.0 d a.1))
          | inl e ↦
              rw (e, configure_producer)
                (Settles-same kd h (one_conf conf) l l' (alloc_producer k conf now d l')
                  (balance-with_callbacks kd h conf has_dr_callback a.1 ∙ same)
                  (alloc_producer-Settles kd h conf now d l'))
        ]

    new_conf :
        (kd : Kind) (h conf : Handle) (l : Log) (r : Created)
        → Settles kd h (one_conf conf) (Call.conf_new conf ∷ l) r
        → Settles kd h nothing l r
    unfolding opened closed
    new_conf kd h conf l (none, l'') s = tt
    new_conf Kind.confs h conf l (some (t, p, d), l'') s = omega arith
    new_conf _ h conf l (some (t, p, d), l'') s = omega arith

    nothing_kept :
        (kd : Kind) (h : Handle) (t : Term) (d : Dispatcher) (l : Log)
        → Settles kd h nothing l (some (t, none, d), l)
    nothing_kept kd h t d l = omega arith

    -- On every path of `enif_producer_new` on which the process does not end, each configuration,
    -- client and reference to a resource that it creates is given up just once; a producer that it
    -- returns keeps its client and one reference to its resource.
    pub enif_producer_new-Settles :
        (kd : Kind) (h : Handle) (has_dr options : Term) (now : ℕ) (d : Dispatcher) (l : Log)
        → Settles kd h nothing l (enif_producer_new k nif sigio has_dr options now d l)
    unfolding enif_producer_new
    enif_producer_new-Settles kd h has_dr options now d l =
        elim (Option-cases (get_boolean has_dr)) [
          | inl e ↦ rw (e, enif_producer_new) (nothing_kept kd h make_badarg d l)
          | inr (b, e) ↦
              let conf = k.conf_new_answer l in
              let l' = Call.conf_new conf ∷ l in
              rw (e, enif_producer_new)
                (new_conf kd h conf l (configure_producer k nif sigio b options conf now d l')
                  (configure_producer-Settles kd h b options conf now d l'))
        ]
