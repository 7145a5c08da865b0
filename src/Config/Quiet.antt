-- ===== src/Config/Quiet.antt =====
-- c_src/exrdkafka_config.cc: what a reading of the log that skips the setting of values is blind to.
use exrdkafka.Base.{
  ◌≡◌, refl, ◌∙◌, List, [], ◌∷◌, Option, arith, inl, inr, Option-cases, Bool-cases,
}
use exrdkafka.Erl.{Bytes, Term, ErlNif, cell, is_list}
use exrdkafka.Rd.{Kafka, Handle, Log, Call}
use exrdkafka.Config.{
  SetValue, parse_entry, parse_entries, parse_config, set_all, topic_conf_value, topic_defaults,
  appy_topic_default_config, parse_topic_config, kafka_conf_value, kafka_defaults,
  appy_kafka_default_config, parse_kafka_config,
}

module _ {ℓ} {B : Type ℓ} (view : Log → B) (set_value : SetValue)
    (blind : (name value : Bytes) (l : Log) → view (set_value name value l).1 ≡ view l) where
  view-set_all : (ps : List (Bytes × Bytes)) (l : Log) → view (set_all set_value ps l).1 ≡ view l
  unfolding set_all
  view-set_all [] l = refl
  view-set_all ((name, value) ∷ ps) l =
      let r = set_value name value l in
      elim (Option-cases r.0) [
        | inl e ↦ rw (e, set_all) (view-set_all ps r.1 ∙ blind name value l)
        | inr (t, e) ↦ rw (e, set_all) (blind name value l)
      ]

  module _ (nif : ErlNif) where
    view-parse_entry : (head : Term) (l : Log) → view (parse_entry nif set_value head l).1 ≡ view l
    unfolding parse_entry
    view-parse_entry head l = grind (arith, blind)

    view-parse_entries :
        (list : Term) (l : Log) → view (parse_entries nif set_value list l).1 ≡ view l
    unfolding parse_entries
    view-parse_entries (cell head list) l =
        let r = parse_entry nif set_value head l in
        elim (Option-cases r.0) [
          | inl e ↦ rw (e, parse_entries) (view-parse_entries list r.1 ∙ view-parse_entry head l)
          | inr (t, e) ↦ rw (e, parse_entries) (view-parse_entry head l)
        ]
    view-parse_entries _ l = refl

    view-parse_config :
        (list : Term) (l : Log) → view (parse_config nif set_value list l).1 ≡ view l
    unfolding parse_config
    view-parse_config list l = elim (Bool-cases (is_list list)) [
      | inl e ↦ rw (e, parse_config) (view-parse_entries list l)
      | inr e ↦ rw (e, parse_config) refl
    ]

-- `parse_topic_config` only sets values of its configuration.
pub view-parse_topic_config {ℓ} :
    {B : Type ℓ}
    → (view : Log → B) (k : Kafka) (conf : Handle)
    → ((name value : Bytes) (l : Log) → view (Call.topic_conf_set conf name value ∷ l) ≡ view l)
    → (nif : ErlNif) (list : Term) (l : Log)
    → view (parse_topic_config nif k list conf l).1 ≡ view l
unfolding parse_topic_config appy_topic_default_config
view-parse_topic_config view k conf blind nif list l =
    let set_value = topic_conf_value k conf in
    let r = set_all set_value topic_defaults l in
    elim (Bool-cases r.0) [
      | inl e ↦
          rw (e, parse_topic_config)
            (view-parse_config view set_value blind nif list r.1
              ∙ view-set_all view set_value blind topic_defaults l)
      | inr e ↦ rw (e, parse_topic_config) (view-set_all view set_value blind topic_defaults l)
    ]

-- So does `parse_kafka_config`.
pub view-parse_kafka_config {ℓ} :
    {B : Type ℓ}
    → (view : Log → B) (k : Kafka) (conf : Handle)
    → ((name value : Bytes) (l : Log) → view (Call.conf_set conf name value ∷ l) ≡ view l)
    → (nif : ErlNif) (sigio : Option Bytes) (list : Term) (l : Log)
    → view (parse_kafka_config nif k sigio list conf l).1 ≡ view l
unfolding parse_kafka_config appy_kafka_default_config
view-parse_kafka_config view k conf blind nif sigio list l =
    let set_value = kafka_conf_value k conf in
    let ps = kafka_defaults sigio in
    let r = set_all set_value ps l in
    elim (Bool-cases r.0) [
      | inl e ↦
          rw (e, parse_kafka_config)
            (view-parse_config view set_value blind nif list r.1
              ∙ view-set_all view set_value blind ps l)
      | inr e ↦ rw (e, parse_kafka_config) (view-set_all view set_value blind ps l)
    ]
