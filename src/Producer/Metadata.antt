-- ===== src/Producer/Metadata.antt =====
-- c_src/exrdkafka_producer.cc: `enif_get_metadata` and `enif_get_partitions_count`.
--
-- A map is written with its fields in the order in which they are put. A loop that fills an array
-- and may return an error answers `none` for the error.
pub mod Reading
pub mod Counting
mod Tests
use exrdkafka.Base.{
  ℕ, List, [], ◌∷◌, Bool, true, false, Option, none, some, length, ◌==◌, if◌then◌else◌,
}
use exrdkafka.Base.Int.{ℤ, pos}
use exrdkafka.Base.Text.{codes}
use exrdkafka.Erl.{
  Bytes, Term, ErlNif, Atom, atom, int, binary, map, no_field, field, ok_term, list_from_array,
  Bytes-discrete,
}
use exrdkafka.Erl.Utils.{
  c_str, get_string, make_badarg, make_binary, make_error_text, make_ok_result,
}
use exrdkafka.Rd.{
  Kafka, Handle, Log, Io, Call, Metadata, BrokerMetadata, TopicMetadata, PartitionMetadata,
}
use exrdkafka.Producer.{Producer}

unfoldable pub broker_map : BrokerMetadata → Term
broker_map b = map (
    field Atom.id (int b.id)
      (field Atom.host (make_binary (c_str b.host)) (field Atom.port (int b.port) no_field)))

unfoldable pub broker_arr : List BrokerMetadata → List Term
broker_arr [] = []
broker_arr (b ∷ bs) = broker_map b ∷ broker_arr bs

-- `replica_arr` and `isr_arr`
unfoldable pub int_arr : List ℤ → List Term
int_arr [] = []
int_arr (n ∷ ns) = int n ∷ int_arr ns

unfoldable pub partition_map : PartitionMetadata → Term
partition_map p = map (
    field Atom.id (int p.id) (
      field Atom.leader (int p.leader) (
        field Atom.replicas (list_from_array (int_arr p.replicas))
          (field Atom.isrs (list_from_array (int_arr p.isrs)) no_field))))

-- The loop over the partitions of a topic.
unfoldable pub partition_arr : List PartitionMetadata → Option (List Term)
partition_arr [] = some []
partition_arr (p ∷ ps) =
    let rest = partition_arr ps in
    if p.failed then none else elim rest [ none ↦ none | some ts ↦ some (partition_map p ∷ ts) ]

unfoldable pub topic_map : Bytes → List Term → Term
topic_map name partitions = map (
    field Atom.name (make_binary (c_str name))
      (field Atom.partitions (list_from_array partitions) no_field))

-- The loop over the topics: the terms, or the error of the first topic that has one.
unfoldable pub topic_arr : List TopicMetadata → List Term × Option Bytes
topic_arr [] = ([], none)
topic_arr (t ∷ ts) =
    let rest = topic_arr ts in
    if t.leader_not_available
    then ([], some (codes "failed to get topic info"))
    else elim (partition_arr t.partitions) [
      | none ↦ ([], some (codes "failed to get partition info"))
      | some ps ↦ (topic_map t.topic ps ∷ rest.0, rest.1)
    ]

unfoldable pub metadata_map : List Term → List Term → Term
metadata_map brokers topics = map (
    field Atom.brokers (list_from_array brokers)
      (field Atom.topics (list_from_array topics) no_field))

-- From the metadata on.
unfoldable pub answer_metadata : Metadata → Io Term
answer_metadata m l =
    let topics = topic_arr m.topics in
    elim topics.1 [
      | some errstr ↦ (make_error_text errstr, l)
      | none ↦ (
        make_ok_result (metadata_map (broker_arr m.brokers) topics.0),
        Call.metadata_destroy m.address ∷ l,
      )
    ]

-- `strcmp` compares up to the first zero byte.
unfoldable pub has_name : Bytes → TopicMetadata → Bool
unfolding Bytes-discrete
has_name name t = elim (Bytes-discrete (c_str t.topic) (c_str name)) [ yes e ↦ true | no e ↦ false ]

-- The topic that the loop of `enif_get_partitions_count` stops at.
unfoldable pub first_named : Bytes → List TopicMetadata → Option TopicMetadata
first_named name [] = none
first_named name (t ∷ ts) =
    let rest = first_named name ts in if has_name name t then some t else rest

module _ (k : Kafka) where
  unfoldable pub enif_get_metadata : Option Producer → Io Term
  enif_get_metadata none l = (make_badarg, l)
  enif_get_metadata (some p) l =
      let answer = k.metadata_answer l p.kf none in
      let l' = Call.get_metadata p.kf none answer ∷ l in
      elim answer [
        | none ↦ (make_error_text (codes "failed to get metadata"), l')
        | some m ↦ answer_metadata m l'
      ]

  -- From the metadata on. The number of partitions is read after `rd_kafka_metadata_destroy` has
  -- freed it: `stale` is what stands there then.
  unfoldable pub count_partitions :
      (Log → TopicMetadata → ℤ) → Bytes → Option Handle → Metadata → Io (Option Term)
  count_partitions stale name topic m l =
      let l₁ = Call.metadata_destroy m.address ∷ l in
      elim topic [
        | none ↦ (none, l₁)
        | some t ↦
            let l₂ = Call.topic_destroy t ∷ l₁ in
            elim (first_named name m.topics) [
              | none ↦ (some ok_term, l₂)
              | some found ↦ (some (int (stale l₂ found)), l₂)
            ]
      ]

  unfoldable pub enif_get_partitions_count :
      (Log → TopicMetadata → ℤ) → ErlNif → Option Producer → Term → Io (Option Term)
  enif_get_partitions_count stale nif none topic_term l = (some make_badarg, l)
  enif_get_partitions_count stale nif (some p) topic_term l = elim (get_string nif topic_term) [
    | none ↦ (some make_badarg, l)
    | some name ↦
        let topic = k.topic_new_answer l p.kf (c_str name) none in
        let l₁ = Call.topic_new p.kf (c_str name) none topic ∷ l in
        let answer = k.metadata_answer l₁ p.kf topic in
        let l₂ = Call.get_metadata p.kf topic answer ∷ l₁ in
        elim answer [
          | none ↦ (some (make_error_text (codes "failed to get metadata")), l₂)
          | some m ↦ count_partitions stale name topic m l₂
        ]
  ]
