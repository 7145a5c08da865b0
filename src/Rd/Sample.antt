-- ===== src/Rd/Sample.antt =====
-- Concrete parameters for the tests: a librdkafka that accepts everything and hands out fresh
-- addresses, and an `erl_nif` that reads plain terms.
use exrdkafka.Base.{ℕ, ◌+◌, [], ◌∷◌, Option, none, some, false, length}
use exrdkafka.Base.Int.{ℤ, pos}
use exrdkafka.Base.Text.{codes}
use exrdkafka.Erl.{Term, ErlNif, int}
use exrdkafka.Rd.{made, Kafka, Handle, Log}

-- An address that no earlier call has handed out.
abbrev pub fresh : Log → Handle
fresh l = 100 + length l

abbrev pub willing : Kafka
willing = record {
  conf_set_answer = λ l conf name value. none;
  topic_conf_set_answer = λ l conf name value. none;
  topic_conf_new_answer = fresh;
  topic_new_answer = λ l rk name conf. some (fresh l);
  queue_get_partition_answer = λ l rk topic partition. fresh l;
  queue_get_consumer_answer = λ l rk. fresh l;
  queue_get_main_answer = λ l rk. fresh l;
  consumer_backlog = λ l rk. 50 ∷ 51 ∷ [];
  stopping = λ l. false;
  queue_poll_answer = λ l q. none;
  conf_get_answer = λ l rk name. codes "300000";
  headers_new_answer = λ l n. fresh l;
  header_add_answer = λ l h name value. pos 0;
  produce_answer = λ l topic m. pos 0;
  last_error_answer = λ l. pos 0;
  producev_answer = λ l rk topic m headers timestamp. pos 0;
  flush_answer = λ l rk ms. pos 0;
  assign_answer = λ l rk partitions. pos 0;
  alloc_resource_answer = λ l. 1000 + length l;
  alloc_fails = λ l. false;
  conf_new_answer = fresh;
  client_new_answer = λ l is_consumer conf. made (fresh l);
  partition_list_new_answer = λ l n. fresh l;
  subscribe_answer = λ l rk topics. pos 0;
  offset_store_answer = λ l topic partition offset. pos 0;
  metadata_answer = λ l rk topic. none;
  name_of = λ rk. codes "client";
  err2str = λ n. codes "failed";
}

abbrev int_of : Term → Option ℤ
int_of (int n) = some n
int_of _ = none

abbrev nat_of : Term → Option ℕ
nat_of (int (pos n)) = some n
nat_of _ = none

abbrev pub plain : ErlNif
plain = record {
  inspect_iolist_as_binary = λ t. none;
  get_int = int_of;
  get_int64 = int_of;
  get_uint = nat_of;
  get_local_pid = nat_of;
}
