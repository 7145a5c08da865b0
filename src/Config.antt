-- ===== src/Config.antt =====
-- c_src/exrdkafka_config.cc: the options of a client and of a topic.
pub mod Entries
pub mod Defaults
pub mod Quiet
mod Tests
use exrdkafka.Base.{List, [], ◌∷◌, Bool, true, false, Option, none, some}
use exrdkafka.Base.Text.{codes}
use exrdkafka.Erl.{
  Atom, Bytes, Term, ErlNif, nil, cell, atom, ok_term, is_list, get_tuple2, int, binary, tuple, map,
  resource, opaque, raw,
}
use exrdkafka.Erl.Utils.{c_str, get_string, make_bad_options, make_error_text}
use exrdkafka.Rd.{Kafka, Handle, Log, Io, pure, ask, ◌>>=◌, Call}

-- `set_config_fun::set_value`, over one configuration: `none` for `RD_KAFKA_CONF_OK`, and otherwise
-- the text left in `errstr`.
abbrev pub SetValue : Type 0
SetValue = Bytes → Bytes → Io (Option Bytes)

module _ (k : Kafka) where
  -- `rd_kafka_topic_conf_set` and `rd_kafka_conf_set`
  abbrev pub topic_conf_value : Handle → SetValue
  topic_conf_value conf name value =
      ask (λ l. k.topic_conf_set_answer l conf name value)
        (λ _. Call.topic_conf_set conf name value)

  abbrev pub kafka_conf_value : Handle → SetValue
  kafka_conf_value conf name value =
      ask (λ l. k.conf_set_answer l conf name value) (λ _. Call.conf_set conf name value)

module _ (nif : ErlNif) (set_value : SetValue) where
  -- One entry of the list: `none` where the loop goes on.
  unfoldable pub parse_entry : Term → Io (Option Term)
  parse_entry head = elim (get_tuple2 head) [
    | none ↦ pure (some (make_bad_options head))
    | some (k, v) ↦ elim (get_string nif k) [
      | none ↦ pure (some (make_bad_options head))
      | some key ↦ elim (get_string nif v) [
        | none ↦ pure (some (make_bad_options head))
        | some value ↦ do
          answer ← set_value (c_str key) (c_str value)
          pure (elim answer [ none ↦ none | some errstr ↦ some (make_error_text errstr) ])
      ]
    ]
  ]

  -- The loop over the cells; a list that ends in another term than the empty list ends there.
  unfoldable pub parse_entries : Term → Io Term
  parse_entries (cell head list) l =
      let r = parse_entry head l in
      elim r.0 [ none ↦ parse_entries list r.1 | some error ↦ (error, r.1) ]
  parse_entries _ l = (ok_term, l)

  unfoldable pub parse_config : Term → Io Term
  parse_config list l = elim (is_list list) [
    | false ↦ (make_bad_options list, l)
    | true ↦ parse_entries list l
  ]

-- Sets some values one after another; `false` as soon as one is refused.
unfoldable pub set_all : SetValue → List (Bytes × Bytes) → Io Bool
set_all set_value [] l = (true, l)
set_all set_value ((name, value) ∷ rest) l =
    let r = set_value name value l in
    elim r.0 [ none ↦ set_all set_value rest r.1 | some errstr ↦ (false, r.1) ]

abbrev pub topic_defaults : List (Bytes × Bytes)
topic_defaults = (codes "message.timeout.ms", codes "0") ∷ []

-- With the number of SIGIO in decimal, on a system that has that signal.
unfoldable pub kafka_defaults : Option Bytes → List (Bytes × Bytes)
kafka_defaults sigio =
    (codes "enable.auto.commit", codes "true")
    ∷ (codes "enable.auto.offset.store", codes "false")
    ∷ (codes "enable.partition.eof", codes "false")
    ∷ (codes "allow.auto.create.topics", codes "true")
    ∷ elim sigio [ none ↦ [] | some number ↦ (codes "internal.termination.signal", number) ∷ [] ]

unfoldable pub appy_topic_default_config : SetValue → Io Bool
appy_topic_default_config set_value = set_all set_value topic_defaults

unfoldable pub appy_kafka_default_config : Option Bytes → SetValue → Io Bool
appy_kafka_default_config sigio set_value = set_all set_value (kafka_defaults sigio)

unfoldable pub parse_topic_config : ErlNif → Kafka → Term → Handle → Io Term
parse_topic_config nif k list conf l =
    let r = appy_topic_default_config (topic_conf_value k conf) l in
    elim r.0 [
      | false ↦ (make_error_text (codes "failed to apply default topic config"), r.1)
      | true ↦ parse_config nif (topic_conf_value k conf) list r.1
    ]

unfoldable pub parse_kafka_config : ErlNif → Kafka → Option Bytes → Term → Handle → Io Term
parse_kafka_config nif k sigio list conf l =
    let r = appy_kafka_default_config sigio (kafka_conf_value k conf) l in
    elim r.0 [
      | false ↦ (make_error_text (codes "failed to apply default kafka config"), r.1)
      | true ↦ parse_config nif (kafka_conf_value k conf) list r.1
    ]

-- `parse_result == ATOMS.atomOk`
unfoldable pub is_ok : Term → Bool
is_ok (atom Atom.ok) = true
is_ok _ = false
