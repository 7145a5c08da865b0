-- ===== src/Producer/TopicNew.antt =====
-- c_src/exrdkafka_producer.cc: `enif_producer_topic_new`, and who owns the configuration.
use exrdkafka.Base.{
  ◌+◌, ◌≡◌, refl, ◌∷◌, Option, none, some, arith, inl, inr, Option-cases, ◌==◌, if◌then◌else◌,
}
use exrdkafka.Base.Text.{codes}
use exrdkafka.Erl.{Bytes, Term, ErlNif, ok_term}
use exrdkafka.Erl.Utils.{get_string, make_badarg, make_error_text}
use exrdkafka.Rd.{Kafka, Handle, Log, Call}
use exrdkafka.Rd.Ledger.{confs_opened, confs_closed, confs_refused, tally}
use exrdkafka.Config.{parse_topic_config, is_ok}
use exrdkafka.Config.Quiet.{view-parse_topic_config}
use exrdkafka.Topics.{add_topic, keep_topic}
use exrdkafka.Topics.Lookup.{add_cases, found, asked}
use exrdkafka.Producer.{Producer}

module _ (nif : ErlNif) (k : Kafka) where
  -- From `AddTopic` on: the scope of the configuration ends by destroying it unless it is released.
  unfoldable pub add_configured : Producer → Bytes → Handle → Log → (Term × Producer) × Log
  add_configured p name config l =
      let r = add_topic k p.topics name (some config) l in
      let p' = record p { topics = r.0.0 } in
      let text = if r.0.2 then codes "topic already exist" else codes "failed to create topic" in
      elim r.0.1 [
        | none ↦ ((make_error_text text, p'), Call.topic_conf_destroy config ∷ r.1)
        | some topic ↦ ((ok_term, p'), r.1)
      ]

  unfoldable pub configure : Producer → Bytes → Term → Log → (Term × Producer) × Log
  configure p name options l =
      let config = k.topic_conf_new_answer l in
      let r = parse_topic_config nif k options config (Call.topic_conf_new config ∷ l) in
      if is_ok r.0
      then add_configured p name config r.1
      else ((r.0, p), Call.topic_conf_destroy config ∷ r.1)

  unfoldable pub enif_producer_topic_new :
      Option Producer → Term → Term → Log → (Term × Option Producer) × Log
  enif_producer_topic_new none topic_term options l = ((make_badarg, none), l)
  enif_producer_topic_new (some p) topic_term options l = elim (get_string nif topic_term) [
    | none ↦ ((make_badarg, some p), l)
    | some name ↦ let r = configure p name options l in ((r.0.0, some r.0.1), r.1)
  ]

  -- Between the logs each configuration at `h` that was created was freed just once, and once more
  -- for each `rd_kafka_topic_new` that was given it and made no topic.
  abbrev pub Frees : Handle → Log → Log → Type 0
  Frees h l l' =
      confs_opened h l' + confs_closed h l + confs_refused h l'
      ≡ confs_opened h l + confs_closed h l' + confs_refused h l

  add_configured-confs :
      (p : Producer) (name : Bytes) (config h : Handle) (l : Log)
      → let l' = (add_configured p name config l).1 in
        (confs_opened h l' ≡ confs_opened h l)
        × (confs_closed h l' + confs_refused h l
            ≡ tally (config == h) (confs_closed h l) + confs_refused h l')
  unfolding add_configured keep_topic confs_opened confs_closed confs_refused
  add_configured-confs p name config h l = elim (add_cases k p.topics name (some config) l) [
    | found t e r ↦ rw (r, add_configured) (rw r (refl, refl))
    | asked none e r ↦ rw (r, add_configured) (rw r (refl, ground arith))
    | asked (some t) e r ↦ rw (r, add_configured) (rw r (refl, refl))
  ]

  parse-confs :
      (options : Term) (config h : Handle) (l : Log)
      → let l' = (parse_topic_config nif k options config l).1 in
        (confs_opened h l' ≡ confs_opened h l)
        × (confs_closed h l' ≡ confs_closed h l)
        × (confs_refused h l' ≡ confs_refused h l)
  unfolding confs_opened confs_closed confs_refused
  parse-confs options config h l = (
    view-parse_topic_config (confs_opened h) k config (λ name value l'. refl) nif options l,
    view-parse_topic_config (confs_closed h) k config (λ name value l'. refl) nif options l,
    view-parse_topic_config (confs_refused h) k config (λ name value l'. refl) nif options l,
  )

  configure-confs :
      (p : Producer) (name : Bytes) (options : Term) (h : Handle) (l : Log)
      → let l' = (configure p name options l).1 in Frees h l l'
  unfolding configure confs_opened confs_closed confs_refused
  configure-confs p name options h l =
      let config = k.topic_conf_new_answer l in
      let l₁ = Call.topic_conf_new config ∷ l in
      let r = parse_topic_config nif k options config l₁ in
      let parsed = parse-confs options config h l₁ in
      let added = add_configured-confs p name config h r.1 in ground (arith, parsed, added)

  -- On every path of `enif_producer_topic_new` the configuration that it creates is destroyed by the
  -- function or taken by `rd_kafka_topic_new`, and just once, but for the path on which
  -- `rd_kafka_topic_new` takes it and makes no topic: there the function destroys it a second time.
  pub enif_producer_topic_new-confs :
      (p : Option Producer) (topic_term options : Term) (h : Handle) (l : Log)
      → let l' = (enif_producer_topic_new p topic_term options l).1 in Frees h l l'
  unfolding enif_producer_topic_new
  enif_producer_topic_new-confs none topic_term options h l = omega arith
  enif_producer_topic_new-confs (some p) topic_term options h l =
      elim (Option-cases (get_string nif topic_term)) [
        | inl e ↦ rw (e, enif_producer_topic_new) (omega arith)
        | inr (name, e) ↦ rw (e, enif_producer_topic_new) (configure-confs p name options h l)
      ]
