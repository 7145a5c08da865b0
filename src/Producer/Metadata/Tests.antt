-- ===== src/Producer/Metadata/Tests.antt =====
-- Tests of the metadata of a producer, and the theorems on them at concrete inputs.
use exrdkafka.Base.{◌≡◌, ◌⊎◌, refl, [], ◌∷◌, Bool, true, false, none, some, ◌==◌}
use exrdkafka.Base.Int.{ℤ, pos}
use exrdkafka.Base.Text.{codes}
use exrdkafka.Erl.{binary, int, ok_term}
use exrdkafka.Erl.Utils.{make_error_text, get_string, get_binary, c_str}
use exrdkafka.Rd.{Kafka, Log, Call, Metadata, TopicMetadata, PartitionMetadata}
use exrdkafka.Rd.Books.{Kind, Owns}
use exrdkafka.Rd.Ledger.{tally}
use exrdkafka.Rd.Sample.{willing, plain}
use exrdkafka.Topics.{topic_manager}
use exrdkafka.Producer.{Producer}
use exrdkafka.Producer.Metadata.{
  partition_arr, topic_arr, answer_metadata, enif_get_metadata, enif_get_partitions_count,
}
use exrdkafka.Producer.Metadata.Counting.{
  IsFirst, IsMissing, LeavesTopics, enif_get_partitions_count-Counts,
}

abbrev producer : Producer
producer = record { kf = 7; topics = topic_manager 7; owner_pid = 0; closing = false }

abbrev partition : Bool → PartitionMetadata
partition failed = record {
  failed = failed;
  id = pos 0;
  leader = pos 1;
  replicas = pos 1 ∷ pos 2 ∷ [];
  isrs = pos 1 ∷ [];
}

abbrev topic : Bool → TopicMetadata
topic failed = record {
  topic = codes "orders";
  leader_not_available = false;
  partitions = partition false ∷ partition failed ∷ [];
}

abbrev metadata : Bool → Metadata
metadata failed = record {
  address = 60;
  brokers = record { id = pos 1; host = codes "localhost"; port = pos 9092 } ∷ [];
  topics = topic failed ∷ [];
}

abbrev knows : Bool → Kafka
knows failed = record willing { metadata_answer = λ l rk topic. some (metadata failed) }

-- Nothing destroys the metadata when the second partition has an error.
lost : enif_get_metadata (knows true) (some producer) [] ≡ (
  make_error_text (codes "failed to get partition info"),
  Call.get_metadata 7 none (some (metadata true)) ∷ [],
)
unfolding enif_get_metadata answer_metadata topic_arr partition_arr c_str
lost = refl

abbrev freed : Log → TopicMetadata → ℤ
freed l t = pos 0

orders_text : get_string plain (binary (codes "orders")) ≡ some (codes "orders")
unfolding get_string get_binary
orders_text = refl

enif_get_partitions_count-Counts_example :
    let l₁ = Call.topic_new 7 (c_str (codes "orders")) none (some 100) ∷ [] in
    let r =
      enif_get_partitions_count
        (knows false)
        freed
        plain
        (some producer)
        (binary (codes "orders"))
        [] in
    (((knows false).metadata_answer l₁ 7 (some 100) ≡ none)
      × (r.0 ≡ some (make_error_text (codes "failed to get metadata")))
      × LeavesTopics 100 [] (tally (100 == 100) 0) r.1
      × Owns Kind.metadata 100 [] 0 r.1)
    ⊎ ((m : Metadata) × ((knows false).metadata_answer l₁ 7 (some 100) ≡ some m)
        × (((r.0 ≡ some ok_term) × IsMissing (codes "orders") m.topics)
            ⊎ ((t : TopicMetadata) × (r.0 ≡ some (int (freed r.1 t)))
                × IsFirst (codes "orders") t m.topics))
        × LeavesTopics 100 [] 0 r.1
        × Owns Kind.metadata 100 [] 0 r.1)
enif_get_partitions_count-Counts_example =
    enif_get_partitions_count-Counts (knows false) plain freed 100 producer
      (binary (codes "orders")) (codes "orders") 100 [] orders_text refl
