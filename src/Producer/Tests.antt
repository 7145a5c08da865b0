-- ===== src/Producer/Tests.antt =====
-- Tests of producing, and its theorems at concrete inputs.
use exrdkafka.Base.{◌≡◌, refl, [], ◌∷◌, none, some, false, rev_onto, if◌then◌else◌, ℕ_discrete}
use exrdkafka.Base.Assoc.{find, put}
use exrdkafka.Base.Int.{pos}
use exrdkafka.Base.Text.{codes}
use exrdkafka.Erl.{
  is_list, Term, int, nil, cell, binary, atom, undefined, tuple2, tuple3, ok_term, get_tuple2,
  get_tuple3, is_undefined, get_list_length, Bytes-discrete,
}
use exrdkafka.Erl.Utils.{get_string, get_binary, make_badarg, make_error, make_error_text, c_str}
use exrdkafka.Rd.{Kafka, Log, Call, Outgoing}
use exrdkafka.Rd.Ledger.{confs_opened, confs_closed, confs_refused, accepted, attempted}
use exrdkafka.Rd.Sample.{willing, plain}
use exrdkafka.Topics.{get_or_create_topic, add_topic, add_all, topic_manager}
use exrdkafka.Producer.{
  Producer, Others, enif_produce, enif_produce_sync, enif_produce_batch, produce_entries,
  produce_entry, topic_for, produce_to, produce_plain, produce_full, drop_headers, is_plain,
  produce_wanted, produce_parsed, answer, flush_answer,
}
use exrdkafka.Producer.Request.{
  Arguments, optional_binary, add_header, populate_headers, new_headers, parse_headers,
  parse_timestamp, parse_request,
}
use exrdkafka.Producer.Headers.{Settled, enif_produce-headers, enif_produce_sync-headers}
use exrdkafka.Producer.Delivery.{
  Delivered, DeliveredFlushed, enif_produce-Delivered, enif_produce_sync-Delivered,
}
use exrdkafka.Producer.Described.{request_of, header_of}
use exrdkafka.Producer.TopicNew.{
  enif_producer_topic_new, configure, add_configured, Frees, enif_producer_topic_new-confs,
}
use exrdkafka.Config.{
  is_ok, parse_topic_config, appy_topic_default_config, set_all, parse_config, parse_entries,
}
use exrdkafka.Producer.Batch.{good_prefix, all_good, enif_produce_batch-prefix}

-- A test unfolds this name, and with it all definitions that it may run.
program : Unit {0}
unfolding enif_produce enif_produce_sync enif_produce_batch produce_entries produce_entry topic_for
    produce_to produce_plain produce_full drop_headers is_plain produce_wanted produce_parsed answer
    flush_answer optional_binary add_header populate_headers new_headers parse_headers
    parse_timestamp parse_request get_or_create_topic add_topic add_all topic_manager find put
    get_string get_binary c_str get_tuple2 get_tuple3 is_undefined get_list_length Bytes-discrete
    ℕ_discrete accepted attempted request_of header_of good_prefix all_good
program = tt

abbrev quiet : Others
quiet n = []

abbrev producer : Producer
producer = record { kf = 7; topics = topic_manager 7; owner_pid = 0; closing = false }

-- Headers `[{"a", "1"}]`, no key, and the timestamp 5.
abbrev with_headers : Arguments
with_headers = record {
  topic_term = binary (codes "orders");
  partition_term = int (pos 0);
  key_term = atom undefined;
  value_term = binary (codes "v");
  headers_term = cell (tuple2 (binary (codes "a")) (binary (codes "1"))) nil;
  timestamp_term = int (pos 5);
}

abbrev sent : Outgoing
sent = record { partition = pos 0; key = none; value = some (codes "v") }

abbrev headers_log : Log
headers_log =
    Call.producev 7 (codes "orders") sent (some 100) (some (pos 5)) (pos 0)
    ∷ Call.header_add 100 (codes "a") (codes "1")
    ∷ Call.headers_new 1 100
    ∷ []

headers_taken :
    enif_produce willing quiet plain (some producer) with_headers []
    ≡ ((ok_term, some producer), headers_log)
unfolding program
headers_taken = refl

-- Without headers and timestamp the message goes through a topic handle, which is kept.
abbrev plainly : Arguments
plainly = record with_headers { headers_term = atom undefined; timestamp_term = int (pos 0) }

plain_taken : enif_produce_sync willing quiet plain (some producer) plainly [] ≡ (
  (
    ok_term,
    some (record producer { topics = record { rk = 7; topics = (codes "orders", 100) ∷ [] } }),
  ),
  Call.flush 7 1
      ∷ Call.produce 100 sent (pos 0)
      ∷ Call.topic_new 7 (codes "orders") none (some 100)
      ∷ [],
)
unfolding program
plain_taken = refl

-- The headers of a message that is refused are destroyed.
abbrev refusing : Kafka
refusing = record willing { producev_answer = λ l rk topic m headers timestamp. pos 10 }

refused : enif_produce refusing quiet plain (some producer) with_headers [] ≡ (
  (make_error (int (pos 10)), some producer),
  Call.headers_destroy 100
      ∷ Call.producev 7 (codes "orders") sent (some 100) (some (pos 5)) (pos 10)
      ∷ Call.header_add 100 (codes "a") (codes "1")
      ∷ Call.headers_new 1 100
      ∷ [],
)
unfolding program
refused = refl

-- A timestamp that is no integer: the headers exist already.
bad_timestamp :
    enif_produce willing quiet plain
      (some producer)
      (record with_headers { timestamp_term = nil })
      []
    ≡ (
      (make_badarg, some producer),
      Call.headers_destroy 100
          ∷ Call.header_add 100 (codes "a") (codes "1")
          ∷ Call.headers_new 1 100
          ∷ [],
    )
unfolding program
bad_timestamp = refl

-- What these arguments describe.
described :
    request_of plain with_headers
    ≡ some (record {
      topic_name = codes "orders";
      message = sent;
      headers = (codes "a", codes "1") ∷ [];
      timestamp = pos 5;
    })
unfolding program
described = refl

enif_produce-headers_example :
    Settled 100 [] (enif_produce refusing quiet plain (some producer) with_headers []).1
enif_produce-headers_example =
    enif_produce-headers plain refusing quiet 100 (some producer) with_headers []

enif_produce_sync-headers_example :
    Settled 100 [] (enif_produce_sync willing quiet plain (some producer) with_headers []).1
enif_produce_sync-headers_example =
    enif_produce_sync-headers plain willing quiet 100 (some producer) with_headers []

enif_produce-Delivered_example :
    Delivered willing quiet plain producer with_headers []
      (enif_produce willing quiet plain (some producer) with_headers [])
enif_produce-Delivered_example = enif_produce-Delivered willing quiet plain producer with_headers []

-- A flush that runs out of time.
abbrev slow : Kafka
slow = record willing { flush_answer = λ l rk ms. pos 185 }

late :
    let r = enif_produce_sync slow quiet plain (some producer) with_headers [] in
    (r.0.0 ≡ make_error (int (pos 185))) × (accepted r.1 ≡ sent ∷ [])
unfolding program
late = (refl, refl)

enif_produce_sync-Delivered_example :
    DeliveredFlushed slow quiet plain producer with_headers []
      (enif_produce_sync slow quiet plain (some producer) with_headers [])
enif_produce_sync-Delivered_example =
    enif_produce_sync-Delivered slow quiet plain producer with_headers []

-- The second entry has no partition: the first is handed over all the same.
abbrev entries : Term
entries =
    cell (tuple3 (binary (codes "k")) (binary (codes "v")) (int (pos 0)))
      (cell (tuple2 (binary (codes "k")) (binary (codes "w"))) nil)

orders_text : get_string plain (binary (codes "orders")) ≡ some (codes "orders")
unfolding program
orders_text = refl

enif_produce_batch-prefix_example :
    let r =
      enif_produce_batch willing quiet plain (some producer) (binary (codes "orders")) entries [] in
    (r.0 ≡ (if all_good plain entries then ok_term else make_badarg))
    × (attempted r.1 ≡ rev_onto (good_prefix plain entries) (attempted []))
enif_produce_batch-prefix_example =
    enif_produce_batch-prefix plain willing quiet producer (binary (codes "orders")) entries
      (codes "orders") [] orders_text

one_entry :
    (enif_produce_batch willing quiet plain (some producer) (binary (codes "orders")) entries []).0
    ≡ make_badarg
unfolding program
one_entry = refl

-- A librdkafka that makes no topics.
abbrev topicless : Kafka
topicless = record willing { topic_new_answer = λ l rk name conf. none }

-- A second topic of the same name is refused, and its configuration destroyed.
abbrev with_topic : Producer
with_topic = record producer { topics = record { rk = 7; topics = (codes "orders", 30) ∷ [] } }

enif_producer_topic_new-confs_example :
    let l' =
      (enif_producer_topic_new plain topicless
        (some producer)
        (binary (codes "orders"))
        nil
        []).1 in
    Frees plain topicless 100 [] l'
enif_producer_topic_new-confs_example =
    enif_producer_topic_new-confs plain topicless (some producer) (binary (codes "orders")) nil 100
      []

-- The configuration is freed by librdkafka and then destroyed.
freed_twice :
    let l' =
      (enif_producer_topic_new plain topicless
        (some producer)
        (binary (codes "orders"))
        nil
        []).1 in
    (confs_opened 100 l' ≡ 1) × (confs_closed 100 l' ≡ 2) × (confs_refused 100 l' ≡ 1)
unfolding program enif_producer_topic_new configure add_configured is_ok parse_topic_config
    appy_topic_default_config set_all parse_config parse_entries is_list confs_opened confs_closed
    confs_refused
freed_twice = (refl, refl, refl)

second_topic :
    enif_producer_topic_new plain willing (some with_topic) (binary (codes "orders")) nil [] ≡ (
      (make_error_text (codes "topic already exist"), some with_topic),
      Call.topic_conf_destroy 100
          ∷ Call.topic_conf_set 100 (codes "message.timeout.ms") (codes "0")
          ∷ Call.topic_conf_new 100
          ∷ [],
    )
unfolding program enif_producer_topic_new configure add_configured is_ok parse_topic_config
    appy_topic_default_config set_all parse_config parse_entries is_list
second_topic = refl
