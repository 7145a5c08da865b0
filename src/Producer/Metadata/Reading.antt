-- ===== src/Producer/Metadata/Reading.antt =====
-- c_src/exrdkafka_producer.cc: what `enif_get_metadata` answers.
use exrdkafka.Base.{
  ◌≡◌, List, [], ◌∷◌, Bool, true, false, Option, none, some, ◌⊎◌, ◌&&◌, if◌then◌else◌,
}
use mathlib.Core.List.{map as map_list}
use exrdkafka.Erl.{Bytes, Term, Fields, Atom, int, binary, map, no_field, field, list_from_array}
use exrdkafka.Erl.Utils.{c_str}
use exrdkafka.Rd.{Metadata, BrokerMetadata, TopicMetadata, PartitionMetadata}
use exrdkafka.Producer.{Producer}

-- No partition of the list has an error.
abbrev pub all_read : List PartitionMetadata → Bool
all_read [] = true
all_read (p ∷ ps) = (if p.failed then false else true) && all_read ps

-- No topic of the list, and no partition of one, has an error that counts.
abbrev pub all_known : List TopicMetadata → Bool
all_known [] = true
all_known (t ∷ ts) =
    ((if t.leader_not_available then false else true) && all_read t.partitions) && all_known ts

-- What the answer is to say, each object with its fields: of a broker,
abbrev pub broker_fields : BrokerMetadata → Fields
broker_fields b =
    field Atom.id (int b.id)
      (field Atom.host (binary (c_str b.host)) (field Atom.port (int b.port) no_field))

-- of a partition,
abbrev pub partition_fields : PartitionMetadata → Fields
partition_fields p = field Atom.id (int p.id) (
    field Atom.leader (int p.leader) (
      field Atom.replicas (list_from_array (map_list int p.replicas))
        (field Atom.isrs (list_from_array (map_list int p.isrs)) no_field)))

abbrev pub partition_terms : List PartitionMetadata → List Term
partition_terms ps = map_list (λ p. map (partition_fields p)) ps

-- of a topic,
abbrev pub topic_fields : TopicMetadata → Fields
topic_fields t =
    field Atom.name (binary (c_str t.topic))
      (field Atom.partitions (list_from_array (partition_terms t.partitions)) no_field)

abbrev pub topic_terms : List TopicMetadata → List Term
topic_terms ts = map_list (λ t. map (topic_fields t)) ts

-- and of the cluster.
abbrev pub cluster_fields : Metadata → Fields
cluster_fields m =
    field Atom.brokers (list_from_array (map_list (λ b. map (broker_fields b)) m.brokers))
      (field Atom.topics (list_from_array (topic_terms m.topics)) no_field)

-- What the loop over the topics is to answer.
abbrev Read : List TopicMetadata → List Term × Option Bytes → Type 0
Read ts r =
    ((all_known ts ≡ true) × (r ≡ (topic_terms ts, none)))
    ⊎ ((all_known ts ≡ false) × (errstr : Bytes) × (r.1 ≡ some errstr))
