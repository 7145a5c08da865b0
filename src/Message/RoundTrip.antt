-- ===== src/Message/RoundTrip.antt =====
-- c_src/exrdkafka_message.cc and c_src/exrdkafka_producer.cc: the headers of a message that was
-- received, given back to a producer.
use exrdkafka.Base.{◌≡◌, refl, List, [], ◌∷◌, true, Option, none, some, arith, map, rev_onto}
use exrdkafka.Base.Int.{pos}
use exrdkafka.Erl.{Bytes, ErlNif, list_from_array, get_tuple2}
use exrdkafka.Erl.Utils.{c_str, get_binary}
use exrdkafka.Rd.{Kafka, Handle, Log, Call, Message}
use exrdkafka.Message.{header_term, get_headers, value_bytes}
use exrdkafka.Producer.Request.{add_header, populate_headers}

-- The call that adds a header under its C string; a value that was NULL is added as an empty one.
abbrev pub added : Handle → Bytes × Option Bytes → Call
added out (name, none) = Call.header_add out (c_str name) []
added out (name, some value) = Call.header_add out (c_str name) value

module _ (nif : ErlNif) (k : Kafka) (out : Handle)
    (accepts : (l : Log) (name value : Bytes) → k.header_add_answer l out name value ≡ pos 0) where
  add_header-header_term :
      (h : Bytes × Option Bytes) (l : Log)
      → add_header nif k (header_term h) out l ≡ (true, added out h ∷ l)
  unfolding add_header header_term value_bytes get_tuple2 get_binary
  add_header-header_term (name, none) l = rw (accepts l (c_str name) [])
  add_header-header_term (name, some value) l = rw (accepts l (c_str name) value)

  populate_all :
      (hs : List (Bytes × Option Bytes)) (l : Log)
      → populate_headers nif k (list_from_array (map header_term hs)) out l
        ≡ (true, rev_onto (map (added out) hs) l)
  unfolding populate_headers list_from_array
  populate_all [] l = refl
  populate_all (h ∷ hs) l =
      let e = add_header-header_term h l in ground (arith, e, populate_all hs (added out h ∷ l))

  -- The headers in the term of a message are accepted by a producer, which adds the same headers,
  -- in the same order, if librdkafka takes each of them; only a value that was NULL becomes an empty
  -- one.
  pub populate_headers-get_headers :
      (msg : Message) (hs : List (Bytes × Option Bytes)) (l : Log)
      → msg.headers ≡ some hs
      → populate_headers nif k (get_headers msg) out l ≡ (true, rev_onto (map (added out) hs) l)
  unfolding get_headers
  populate_headers-get_headers msg hs l e = rw (e, get_headers) (populate_all hs l)
