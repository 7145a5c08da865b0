-- ===== src/Producer/Create.antt =====
-- c_src/exrdkafka_producer.cc: `enif_producer_new`.
--
-- The objects that the function owns are destroyed where their scope ends, the newest first. A
-- result is `none` if `watch` ends the process. When the resource of a producer that was never
-- filled is released, its destructor finds only NULL and does nothing.
pub mod Ownership
use exrdkafka.Base.{ℕ, List, [], ◌∷◌, Bool, true, false, Option, none, some, if◌then◌else◌}
use exrdkafka.Base.Text.{codes}
use exrdkafka.Erl.{Bytes, Term, ErlNif}
use exrdkafka.Erl.Utils.{get_boolean, make_badarg, make_error_text, make_ok_result}
use exrdkafka.Rd.{Kafka, Handle, Log, Call, Made, made, refused, log_cb, stats_cb, dr_msg_cb}
use exrdkafka.Config.{parse_kafka_config, is_ok}
use exrdkafka.Topics.{topic_manager}
use exrdkafka.Dispatcher.{Dispatcher, watch}
use exrdkafka.Producer.{Producer}

-- The answer, the resource and the producer behind the term, and the dispatcher of the module.
abbrev pub Created : Type 0
Created = Option (Term × Option (Handle × Producer) × Dispatcher) × Log

-- The callbacks that every configuration gets, and the one for delivery reports.
abbrev pub with_callbacks : Bool → Handle → Log → Log
with_callbacks has_dr_callback conf l =
    let l' = Call.conf_set_callback conf stats_cb ∷ Call.conf_set_callback conf log_cb ∷ l in
    if has_dr_callback then Call.conf_set_callback conf dr_msg_cb ∷ l' else l'

module _ (k : Kafka) where
  -- A client `rk`, which owns its configuration.
  unfoldable pub start_producer : Handle → Handle → ℕ → Dispatcher → Log → Created
  start_producer self rk now d l =
      let p : Producer = record {
        kf = rk;
        topics = topic_manager rk;
        owner_pid = 0;
        closing = false;
      } in
      let r = watch k rk false now d l in
      elim r.0 [
        | none ↦ (none, r.1)
        | some d' ↦ (
          some (make_ok_result (Term.resource self), some (self, p), d'),
          Call.release_resource self ∷ Call.make_resource self ∷ r.1,
        )
      ]

  unfoldable pub make_producer : Handle → Handle → ℕ → Dispatcher → Log → Created
  make_producer self conf now d l =
      let answer = k.client_new_answer l false conf in
      let l' = Call.client_new false conf answer ∷ l in
      elim answer [
        | refused errstr ↦ (
          some (make_error_text errstr, none, d),
          Call.conf_destroy conf ∷ Call.release_resource self ∷ l',
        )
        | made rk ↦ start_producer self rk now d l'
      ]

  unfoldable pub alloc_producer : Handle → ℕ → Dispatcher → Log → Created
  alloc_producer conf now d l =
      let self = k.alloc_resource_answer l in
      if k.alloc_fails l
      then (
        some (make_error_text (codes "failed to alloc producer"), none, d),
        Call.conf_destroy conf ∷ l,
      )
      else make_producer self conf now d
          (Call.conf_set_opaque conf self ∷ Call.alloc_resource self ∷ l)

  module _ (nif : ErlNif) (sigio : Option Bytes) where
    unfoldable pub configure_producer : Bool → Term → Handle → ℕ → Dispatcher → Log → Created
    configure_producer has_dr_callback options conf now d l =
        let a = parse_kafka_config nif k sigio options conf l in
        if is_ok a.0
        then alloc_producer conf now d (with_callbacks has_dr_callback conf a.1)
        else (some (a.0, none, d), Call.conf_destroy conf ∷ a.1)

    unfoldable pub enif_producer_new : Term → Term → ℕ → Dispatcher → Log → Created
    enif_producer_new has_dr options now d l = elim (get_boolean has_dr) [
      | none ↦ (some (make_badarg, none, d), l)
      | some has_dr_callback ↦
          let conf = k.conf_new_answer l in
          configure_producer has_dr_callback options conf now d (Call.conf_new conf ∷ l)
    ]
