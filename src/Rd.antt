-- ===== src/Rd.antt =====
-- What c_src calls outside itself: librdkafka (`rdkafka.h`), the message passing of `erl_nif`, and
-- the clock.
--
-- None of it is code of this repository. Every call with an effect is an entry of a log, newest
-- first, and what it answers is a parameter, `Kafka`: any function of the log so far. So an answer
-- may depend on the whole past, and two equal calls may be answered differently.
pub mod Ledger
pub mod Books
pub mod Quiet
pub mod Owned
pub mod Sample
use exrdkafka.Base.{ℕ, List, ◌∷◌, Bool, Option}
use exrdkafka.Base.Int.{ℤ}
use exrdkafka.Erl.{Bytes, Term}

-- A handle is the address of an object of librdkafka. NULL is `none`.
abbrev pub Handle : Type 0
Handle = ℕ

-- What a message carries; the key and the payload may be NULL. `produce` and `producev` end in their
-- answer, and `producev` has a timestamp if the call gives one.
pub record Outgoing : Type 0 where
  pub partition : ℤ
  pub key : Option Bytes
  pub value : Option Bytes

-- `rd_kafka_timestamp_type_t`; another value is an integer that the enumeration does not name.
pub data TimestampType : Type 0 where
  not_available create_time log_append_time : TimestampType
  unnamed : ℤ → TimestampType

-- `rd_kafka_message_t`, with what librdkafka answers about it: the name of its topic, its timestamp,
-- and its headers, as `rd_kafka_header_get_all` hands them out for one index after another. The
-- headers are `none` where `rd_kafka_message_headers` fails or finds none, and the value of a header
-- is `none` where it is NULL, which has the size 0.
pub record Message : Type 0 where
  pub topic_name : Bytes
  pub partition : ℤ
  pub offset : ℤ
  pub key : Option Bytes
  pub payload : Option Bytes
  pub timestamp : ℤ
  pub timestamp_type : TimestampType
  pub headers : Option (List (Bytes × Option Bytes))

-- An event of a queue, with its messages.
pub record Event : Type 0 where
  pub address : Handle
  pub messages : List Message

-- `rd_kafka_topic_partition_t`, as far as the code reads it.
pub record Partition : Type 0 where
  pub topic : Bytes
  pub partition : ℤ
  pub offset : ℤ

-- The callbacks that a configuration can be given.
pub data Callback : Type 0 where
  log_cb stats_cb dr_msg_cb rebalance_callback : Callback

-- `rd_kafka_metadata_partition`, `rd_kafka_metadata_topic`, `rd_kafka_metadata_broker` and
-- `rd_kafka_metadata`. Of the error of a topic the code asks whether it is
-- `RD_KAFKA_RESP_ERR_LEADER_NOT_AVAILABLE`, of that of a partition whether it is 0.
pub record PartitionMetadata : Type 0 where
  pub failed : Bool
  pub id : ℤ
  pub leader : ℤ
  pub replicas : List ℤ
  pub isrs : List ℤ

pub record TopicMetadata : Type 0 where
  pub topic : Bytes
  pub leader_not_available : Bool
  pub partitions : List PartitionMetadata

pub record BrokerMetadata : Type 0 where
  pub id : ℤ
  pub host : Bytes
  pub port : ℤ

pub record Metadata : Type 0 where
  pub address : Handle
  pub brokers : List BrokerMetadata
  pub topics : List TopicMetadata

-- `rd_kafka_new` answers a client or leaves a text in `errstr`.
pub data Made : Type 0 where
  refused : Bytes → Made
  made : Handle → Made

pub data Call : Type 0 where
  conf_set : Handle → Bytes → Bytes → Call
  topic_conf_new : Handle → Call
  topic_conf_set : Handle → Bytes → Bytes → Call
  topic_conf_destroy : Handle → Call
  topic_new : Handle → Bytes → Option Handle → Option Handle → Call
  topic_destroy : Handle → Call
  queue_get_partition : Handle → Bytes → ℤ → Handle → Call
  queue_get_consumer : Handle → Handle → Call
  queue_get_main : Handle → Handle → Call
  queue_forward : Handle → Option Handle → Call
  queue_event_enable : Handle → Bool → Call
  queue_destroy : Handle → Call
  poll : Handle → Call
  consumer_poll : Handle → Option Handle → Call
  message_destroy : Handle → Call
  headers_new : ℕ → Handle → Call
  header_add : Handle → Bytes → Bytes → Call
  headers_destroy : Handle → Call
  produce : Handle → Outgoing → ℤ → Call
  producev : Handle → Bytes → Outgoing → Option Handle → Option ℤ → ℤ → Call
  flush : Handle → ℕ → Call
  queue_poll : Handle → Option Event → Call
  event_destroy : Handle → Call
  send : ℕ → Term → Call
  assign : Handle → Option (List Partition) → Call
  alloc_resource make_resource keep_resource release_resource : Handle → Call
  conf_new conf_destroy : Handle → Call
  conf_set_callback : Handle → Callback → Call
  conf_set_opaque conf_set_default_topic_conf : Handle → Handle → Call
  client_new : Bool → Handle → Made → Call
  client_destroy poll_set_consumer consumer_close : Handle → Call
  partition_list_new : ℕ → Handle → Call
  partition_list_add : Handle → Bytes → Call
  partition_list_destroy : Handle → Call
  subscribe : Handle → Handle → Call
  offset_store : Handle → ℤ → ℤ → Call
  get_metadata : Handle → Option Handle → Option Metadata → Call
  metadata_destroy : Handle → Call

abbrev pub Log : Type 0
Log = List Call

-- Error codes are integers, and `RD_KAFKA_RESP_ERR_NO_ERROR` is 0. `conf_set_answer` and
-- `topic_conf_set_answer` are `none` for `RD_KAFKA_CONF_OK`, and otherwise the text left in
-- `errstr`. `consumer_backlog` is what `rd_kafka_consumer_poll(obj, 0)` hands out, one call after
-- another, until it answers NULL. `stopping` is no call: it says whether another thread has cleared
-- `running_` of the dispatcher when the loop of `do_poll` tests it, with that log.
pub record Kafka : Type 0 where
  pub conf_set_answer : Log → Handle → Bytes → Bytes → Option Bytes
  pub topic_conf_set_answer : Log → Handle → Bytes → Bytes → Option Bytes
  pub topic_conf_new_answer : Log → Handle
  pub topic_new_answer : Log → Handle → Bytes → Option Handle → Option Handle
  pub queue_get_partition_answer : Log → Handle → Bytes → ℤ → Handle
  pub queue_get_consumer_answer : Log → Handle → Handle
  pub queue_get_main_answer : Log → Handle → Handle
  pub consumer_backlog : Log → Handle → List Handle
  pub stopping : Log → Bool
  pub queue_poll_answer : Log → Handle → Option Event
  pub conf_get_answer : Log → Handle → Bytes → Bytes
  pub headers_new_answer : Log → ℕ → Handle
  pub header_add_answer : Log → Handle → Bytes → Bytes → ℤ
  pub produce_answer : Log → Handle → Outgoing → ℤ
  pub last_error_answer : Log → ℤ
  pub producev_answer : Log → Handle → Bytes → Outgoing → Option Handle → Option ℤ → ℤ
  pub flush_answer : Log → Handle → ℕ → ℤ
  pub assign_answer : Log → Handle → Option (List Partition) → ℤ
  pub alloc_resource_answer : Log → Handle
  pub alloc_fails : Log → Bool
  pub conf_new_answer : Log → Handle
  pub client_new_answer : Log → Bool → Handle → Made
  pub partition_list_new_answer : Log → ℕ → Handle
  pub subscribe_answer : Log → Handle → Handle → ℤ
  pub offset_store_answer : Log → Handle → ℤ → ℤ → ℤ
  pub metadata_answer : Log → Handle → Option Handle → Option Metadata
  pub name_of : Handle → Bytes
  pub err2str : ℤ → Bytes

-- Code with effects: from the log so far to a result and the log after it.
abbrev pub Io {ℓ} : Type ℓ → Type ℓ
Io A = Log → A × Log

abbrev pub pure {ℓ} : {A : Type ℓ} → A → Io A
pure a l = (a, l)

infixl 5 ◌>>=◌ ◌>>◌
abbrev pub ◌>>=◌ {ℓ κ} : {A : Type ℓ} {B : Type κ} → Io A → (A → Io B) → Io B
◌>>=◌ m f l = let r = m l in f r.0 r.1

abbrev pub ◌>>◌ {ℓ} : {B : Type ℓ} → Io (Unit {0}) → Io B → Io B
m >> k = m >>= λ _. k

-- A call without an answer.
abbrev pub tell : Call → Io (Unit {0})
tell c l = (tt, c ∷ l)

-- A call, and its answer.
abbrev pub ask {ℓ} : {A : Type ℓ} → (Log → A) → (A → Call) → Io A
ask answer call l = let a = answer l in (a, call a ∷ l)

abbrev pub log_of {ℓ} : {A : Type ℓ} → A × Log → Log
log_of r = r.1

module _ (k : Kafka) where
  abbrev pub rd_topic_new : Handle → Bytes → Option Handle → Io (Option Handle)
  rd_topic_new rk name conf = ask (λ l. k.topic_new_answer l rk name conf) (topic_new rk name conf)

  abbrev pub rd_queue_get_consumer : Handle → Io Handle
  rd_queue_get_consumer rk = ask (λ l. k.queue_get_consumer_answer l rk) (queue_get_consumer rk)

  abbrev pub rd_queue_get_main : Handle → Io Handle
  rd_queue_get_main rk = ask (λ l. k.queue_get_main_answer l rk) (queue_get_main rk)
