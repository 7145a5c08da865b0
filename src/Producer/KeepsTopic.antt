-- ===== src/Producer/KeepsTopic.antt =====
-- c_src/exrdkafka_producer.cc: `enif_producer_topic_new` keeps the client and the topics of a producer.
use exrdkafka.Base.{◌≡◌, refl, ◌∷◌, Option, some, arith, inl, inr, Option-cases, Bool-cases}
use exrdkafka.Erl.{Bytes, Term, ErlNif}
use exrdkafka.Erl.Utils.{get_string}
use exrdkafka.Rd.{Kafka, Handle, Log, Call}
use exrdkafka.Rd.Ledger.{topics_opened, topics_closed}
use exrdkafka.Rd.Books.{Kind, opened, closed, balance}
use exrdkafka.Config.{parse_topic_config, is_ok}
use exrdkafka.Config.Quiet.{view-parse_topic_config}
use exrdkafka.Topics.{add_topic}
use exrdkafka.Topics.Lifecycle.{add-Owns}
use exrdkafka.Topics.Quiet.{view-add}
use exrdkafka.Producer.{Producer}
use exrdkafka.Producer.TopicNew.{add_configured, configure, enif_producer_topic_new}
use exrdkafka.Producer.Keeps.{topics_view, Keeps, Keeps-trans, Keeps-quiet, blind_clients}

module _ (nif : ErlNif) (k : Kafka) (rk : Handle) where
  -- A call that neither reading of the log sees.
  abbrev Unseen : Call → Type 0
  Unseen c =
      (l : Log)
      → ((h : Handle) → topics_view h (c ∷ l) ≡ topics_view h l)
        × (balance Kind.clients rk (c ∷ l) ≡ balance Kind.clients rk l)

  Keeps-call : (p : Producer) (c : Call) (l : Log) → Unseen c → Keeps rk p l p (c ∷ l)
  Keeps-call p c l u = Keeps-quiet (u l).0 (u l).1

  conf_new-Unseen : (conf : Handle) → Unseen (Call.topic_conf_new conf)
  unfolding topics_opened topics_closed opened closed
  conf_new-Unseen conf l = (λ h. refl, ground arith)

  conf_destroy-Unseen : (conf : Handle) → Unseen (Call.topic_conf_destroy conf)
  unfolding topics_opened topics_closed opened closed
  conf_destroy-Unseen conf l = (λ h. refl, ground arith)

  conf_set-Unseen :
      (conf : Handle) (name value : Bytes) → Unseen (Call.topic_conf_set conf name value)
  unfolding topics_opened topics_closed opened closed
  conf_set-Unseen conf name value l = (λ h. refl, ground arith)

  parse-Keeps :
      (p : Producer) (options : Term) (conf : Handle) (l : Log)
      → Keeps rk p l p (parse_topic_config nif k options conf l).1
  parse-Keeps p options conf l =
      Keeps-quiet
        (λ h.
          view-parse_topic_config (topics_view h) k conf
            (λ name value l'. (conf_set-Unseen conf name value l').0 h) nif options l)
        (view-parse_topic_config (balance Kind.clients rk) k conf
          (λ name value l'. (conf_set-Unseen conf name value l').1) nif options l)

  add_topic-Keeps :
      (p : Producer) (name : Bytes) (conf : Option Handle) (l : Log)
      → let r = add_topic k p.topics name conf l in Keeps rk p l (record p { topics = r.0.0 }) r.1
  add_topic-Keeps p name conf l = record {
    same_kf = refl;
    same_closing = refl;
    owns = λ o. add-Owns k p.topics name conf l o;
    clients = view-add k (balance Kind.clients rk) (blind_clients rk) p.topics name conf l;
  }

  add_configured-Keeps :
      (p : Producer) (name : Bytes) (conf : Handle) (l : Log)
      → let r = add_configured nif k p name conf l in Keeps rk p l r.0.1 r.1
  unfolding add_configured
  add_configured-Keeps p name conf l =
      let r = add_topic k p.topics name (some conf) l in
      let added = add_topic-Keeps p name (some conf) l in
      elim (Option-cases r.0.1) [
        | inl e ↦
            rw (e, add_configured)
              (Keeps-trans added (
                Keeps-call (record p { topics = r.0.0 }) (Call.topic_conf_destroy conf) r.1
                  (conf_destroy-Unseen conf)))
        | inr (t, e) ↦ rw (e, add_configured) added
      ]

  configure-Keeps :
      (p : Producer) (name : Bytes) (options : Term) (l : Log)
      → let r = configure nif k p name options l in Keeps rk p l r.0.1 r.1
  unfolding configure
  configure-Keeps p name options l =
      let conf = k.topic_conf_new_answer l in
      let l₁ = Call.topic_conf_new conf ∷ l in
      let r = parse_topic_config nif k options conf l₁ in
      let parsed =
        Keeps-trans (Keeps-call p (Call.topic_conf_new conf) l (conf_new-Unseen conf))
          (parse-Keeps p options conf l₁) in
      elim (Bool-cases (is_ok r.0)) [
        | inl e ↦ rw (e, configure) (Keeps-trans parsed (add_configured-Keeps p name conf r.1))
        | inr e ↦
            rw (e, configure)
              (Keeps-trans parsed
                (Keeps-call p (Call.topic_conf_destroy conf) r.1 (conf_destroy-Unseen conf)))
      ]

  pub topic_new-Keeps :
      (p : Producer) (topic_term options : Term) (l : Log)
      → let r = enif_producer_topic_new nif k (some p) topic_term options l in
        (p' : Producer) × (r.0.1 ≡ some p') × Keeps rk p l p' r.1
  unfolding enif_producer_topic_new
  topic_new-Keeps p topic_term options l = elim (Option-cases (get_string nif topic_term)) [
    | inl e ↦ rw (e, enif_producer_topic_new) (p, refl, Keeps-quiet (λ h. refl) refl)
    | inr (name, e) ↦
        rw (e, enif_producer_topic_new)
          ((configure nif k p name options l).0.1, refl, configure-Keeps p name options l)
  ]
