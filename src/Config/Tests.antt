-- ===== src/Config/Tests.antt =====
-- Tests of the configuration, and its theorems at concrete inputs.
use exrdkafka.Base.{◌≡◌, refl, ◌↔◌, List, [], ◌∷◌, none, some, true}
use exrdkafka.Base.Text.{codes}
use exrdkafka.Erl.{Bytes, Term, nil, cell, tuple2, binary, atom, ok_term, is_list, get_tuple2, Atom}
use exrdkafka.Erl.Utils.{c_str, get_string, get_binary, make_bad_options}
use exrdkafka.Rd.{Log, Call}
use exrdkafka.Rd.Sample.{willing, plain}
use exrdkafka.Config.{
  parse_config, parse_entries, parse_entry, parse_kafka_config, parse_topic_config, set_all,
  kafka_defaults, topic_conf_value, appy_kafka_default_config, appy_topic_default_config,
}
use exrdkafka.Config.Entries.{entries_of, parse_config-ok_iff}
use exrdkafka.Config.Defaults.{latest, last_value, parse_kafka_config-latest}

program : Unit {0}
unfolding parse_config parse_entries parse_entry parse_kafka_config parse_topic_config set_all
    kafka_defaults appy_kafka_default_config appy_topic_default_config is_list get_tuple2 c_str
    get_string get_binary
program = tt

abbrev options : Term
options = cell (tuple2 (binary (codes "acks")) (binary (codes "1"))) nil

abbrev topic_log : Log
topic_log =
    Call.topic_conf_set 9 (codes "acks") (codes "1")
    ∷ Call.topic_conf_set 9 (codes "message.timeout.ms") (codes "0")
    ∷ []

topic_options : parse_topic_config plain willing options 9 [] ≡ (ok_term, topic_log)
unfolding program
topic_options = refl

-- The entry before a bad one has been set.
bad_entry :
    parse_config plain
      (topic_conf_value willing 9)
      (cell (tuple2 (binary (codes "acks")) (binary (codes "1"))) (cell (atom Atom.ok) nil))
      []
    ≡ (make_bad_options (atom Atom.ok), Call.topic_conf_set 9 (codes "acks") (codes "1") ∷ [])
unfolding program
bad_entry = refl

parse_config-ok_iff_example :
    (parse_config plain (topic_conf_value willing 9) options [] ≡ (ok_term, topic_log)) ↔ (
      (is_list options ≡ true)
      × (ps : List (Bytes × Bytes)) × (entries_of plain options ≡ some ps)
      × (set_all (topic_conf_value willing 9) ps [] ≡ (true, topic_log)))
parse_config-ok_iff_example =
    parse_config-ok_iff plain (topic_conf_value willing 9) options [] topic_log

abbrev override : Term
override = cell (tuple2 (binary (codes "enable.auto.commit")) (binary (codes "false"))) nil

parse_kafka_config-latest_example :
    let l' = (parse_kafka_config plain willing none override 9 []).1 in
    (ps : List (Bytes × Bytes)) × (entries_of plain override ≡ some ps)
    × (latest 9 (codes "enable.auto.commit") l'
        ≡ last_value (codes "enable.auto.commit") ps (
            last_value
              (codes "enable.auto.commit")
              (kafka_defaults none)
              (latest 9 (codes "enable.auto.commit") [])))
unfolding program
parse_kafka_config-latest_example =
    parse_kafka_config-latest willing 9 plain none override (codes "enable.auto.commit") []
      (parse_kafka_config plain willing none override 9 []).1 refl
