-- ===== src/Message.antt =====
-- c_src/exrdkafka_message.cc: a message of librdkafka as an Erlang term.
pub mod RoundTrip
mod Tests
use exrdkafka.Base.{List, [], ◌∷◌, Option, none, some, map}
use exrdkafka.Base.Int.{ℤ}
use exrdkafka.Erl.{
  Bytes, Term, Terms, atom, int, binary, tuple, item, end, tuple2, list_from_array, undefined,
  message, Atom,
}
use exrdkafka.Erl.Utils.{c_str, make_binary}
use exrdkafka.Rd.{Message, TimestampType, not_available, create_time, log_append_time, unnamed}

-- The bytes of a value: NULL has the size 0.
unfoldable pub value_bytes : Option Bytes → Bytes
value_bytes none = []
value_bytes (some value) = value

-- One header: the name is a C string, the value has a length.
unfoldable pub header_term : Bytes × Option Bytes → Term
unfolding value_bytes
header_term (name, value) = tuple2 (make_binary (c_str name)) (make_binary (value_bytes value))

unfoldable pub get_headers : Message → Term
unfolding header_term list_from_array
get_headers msg = elim msg.headers [
  | none ↦ atom undefined
  | some headers ↦ list_from_array (map header_term headers)
]

unfoldable pub rd_kafka_timestamp_type_to_nif : TimestampType → Term
rd_kafka_timestamp_type_to_nif not_available = atom Atom.not_available
rd_kafka_timestamp_type_to_nif create_time = atom Atom.create_time
rd_kafka_timestamp_type_to_nif log_append_time = atom Atom.log_append_time
rd_kafka_timestamp_type_to_nif (unnamed n) = atom Atom.not_available

unfoldable pub binary_or_undefined : Option Bytes → Term
binary_or_undefined none = atom undefined
binary_or_undefined (some b) = make_binary b

-- The overload that takes the terms of the topic and the partition.
unfoldable pub make_message_with : Term → Term → Message → Term
unfolding get_headers rd_kafka_timestamp_type_to_nif binary_or_undefined
make_message_with topic partition msg =
    let ts_tuple = tuple2 (int msg.timestamp) (rd_kafka_timestamp_type_to_nif msg.timestamp_type) in
    let tail : Terms =
      item (binary_or_undefined msg.key)
        (item (binary_or_undefined msg.payload) (item (get_headers msg) (item ts_tuple end))) in
    tuple (item (atom message) (item topic (item partition (item (int msg.offset) tail))))

unfoldable pub topic_term : Message → Term
topic_term msg = make_binary (c_str msg.topic_name)

unfoldable pub make_message_nif : Message → Term
unfolding make_message_with topic_term
make_message_nif msg = make_message_with (topic_term msg) (int msg.partition) msg
