-- ===== src/Config/Defaults.antt =====
-- c_src/exrdkafka_config.cc: the defaults of the module, and the options of the user after them.
use exrdkafka.Base.{
  ◌≡◌, ap, ◌∙◌, List, [], ◌∷◌, true, Option, none, some, arith, inl, inr, Bool-cases, ite, ◌==◌,
  if◌then◌else◌,
}
use exrdkafka.Erl.{Bytes, Bytes-discrete, Term, ErlNif, ok_term}
use exrdkafka.Rd.{Kafka, Handle, Log, Call}
use exrdkafka.Config.{
  set_all, kafka_defaults, kafka_conf_value, appy_kafka_default_config, parse_kafka_config,
}
use exrdkafka.Config.Entries.{entries_of, set_all-cons, parse_config-ok_iff}

-- The value that the latest call for a name gave it in a configuration, or `before` if none did.
unfoldable pub latest : Handle → Bytes → Log → Option Bytes
latest conf name [] = none
latest conf name (Call.conf_set c n v ∷ l) =
    let rest = latest conf name l in
    if c == conf then ite (Bytes-discrete n name) (some v) rest else rest
latest conf name (_ ∷ l) = latest conf name l

-- The value that the last entry for a name gives it, or `before` if there is none.
unfoldable pub last_value : Bytes → List (Bytes × Bytes) → Option Bytes → Option Bytes
last_value name [] before = before
last_value name ((n, v) ∷ ps) before =
    last_value name ps (ite (Bytes-discrete n name) (some v) before)

module _ (k : Kafka) (conf : Handle) where
  set_all-latest :
      (name : Bytes) (ps : List (Bytes × Bytes)) (l l' : Log)
      → set_all (kafka_conf_value k conf) ps l ≡ (true, l')
      → latest conf name l' ≡ last_value name ps (latest conf name l)
  unfolding set_all latest last_value
  set_all-latest name [] l l' e = ground arith
  set_all-latest name ((n, v) ∷ ps) l l' e =
      let set_value = kafka_conf_value k conf in
      let rest = set_all-cons set_value (n, v) ps l l' e in
      set_all-latest name ps (Call.conf_set conf n v ∷ l) l' rest.1
      ∙ ap (last_value name ps) (ground arith)

  -- If `parse_kafka_config` answers ok, then its list holds pairs of texts, and the latest value of
  -- each name is the last one that the list gives it, or else the default, or else what it was.
  pub parse_kafka_config-latest :
      (nif : ErlNif) (sigio : Option Bytes) (list : Term) (name : Bytes) (l l' : Log)
      → parse_kafka_config nif k sigio list conf l ≡ (ok_term, l')
      → (ps : List (Bytes × Bytes)) × (entries_of nif list ≡ some ps)
        × (latest conf name l'
            ≡ last_value name ps (last_value name (kafka_defaults sigio) (latest conf name l)))
  unfolding parse_kafka_config appy_kafka_default_config
  parse_kafka_config-latest nif sigio list name l l' e =
      let set_value = kafka_conf_value k conf in
      let r = set_all set_value (kafka_defaults sigio) l in
      elim (Bool-cases r.0) [
        | inr refused ↦ absurd (ground arith)
        | inl done ↦
            let (_, ps, read, set) =
              (parse_config-ok_iff nif set_value list r.1 l').0 (ground arith) in
            let base = set_all-latest name (kafka_defaults sigio) l r.1 (ground arith) in
            (ps, read, set_all-latest name ps r.1 l' set ∙ ap (last_value name ps) base)
      ]
