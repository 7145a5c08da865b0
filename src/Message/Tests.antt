-- ===== src/Message/Tests.antt =====
-- Tests of the terms of messages, and their theorem at a concrete input.
use exrdkafka.Base.{◌≡◌, refl, List, [], ◌∷◌, true, Option, none, some, map, rev_onto}
use exrdkafka.Base.Int.{pos}
use exrdkafka.Base.Text.{codes}
use exrdkafka.Erl.{
  Bytes, Atom, atom, int, binary, tuple, item, end, tuple2, nil, cell, list_from_array, undefined,
  message,
}
use exrdkafka.Erl.Utils.{c_str}
use exrdkafka.Rd.{Message, create_time}
use exrdkafka.Rd.Sample.{willing, plain}
use exrdkafka.Message.{
  header_term, get_headers, rd_kafka_timestamp_type_to_nif, binary_or_undefined, make_message_with,
  topic_term, make_message_nif,
}
use exrdkafka.Producer.Request.{populate_headers}
use exrdkafka.Message.RoundTrip.{added, populate_headers-get_headers}

abbrev headers : List (Bytes × Option Bytes)
headers = (codes "a", some (codes "1")) ∷ (codes "b", none) ∷ []

abbrev received_message : Message
received_message = record {
  topic_name = codes "orders";
  partition = pos 3;
  offset = pos 42;
  key = none;
  payload = some (codes "v");
  timestamp = pos 1000;
  timestamp_type = create_time;
  headers = some headers;
}

term :
    make_message_nif
      (record received_message { headers = some ((codes "a", some (codes "1")) ∷ []) })
    ≡ tuple (
        item (atom message) (
          item (binary (codes "orders")) (
            item (int (pos 3)) (
              item (int (pos 42)) (
                item (atom undefined) (
                  item (binary (codes "v")) (
                    item
                      (cell (tuple2 (binary (codes "a")) (binary (codes "1"))) nil)
                      (item (tuple2 (int (pos 1000)) (atom Atom.create_time)) end))))))))
unfolding make_message_nif make_message_with topic_term get_headers header_term list_from_array
    c_str rd_kafka_timestamp_type_to_nif binary_or_undefined
term = refl

populate_headers-get_headers_example :
    populate_headers plain willing (get_headers received_message) 9 []
    ≡ (true, rev_onto (map (added 9) headers) [])
populate_headers-get_headers_example =
    populate_headers-get_headers plain willing 9 (λ l name value. refl) received_message headers []
      refl
