-- ===== src/Producer/Described.antt =====
-- c_src/exrdkafka_producer.cc: what the arguments of `enif_produce` and `enif_produce_sync` describe.
use exrdkafka.Base.{◌≡◌, List, [], ◌∷◌, true, false, Option, none, some, map, rev_onto, length}
use exrdkafka.Base.Int.{ℤ}
use exrdkafka.Erl.{Bytes, Term, ErlNif, nil, cell, is_undefined, get_tuple2}
use exrdkafka.Erl.Utils.{get_binary, get_string}
use exrdkafka.Rd.{Handle, Log, Call, Outgoing}
use exrdkafka.Producer.Request.{Arguments, optional_binary}

-- What the arguments ask for.
pub record Described : Type 0 where
  pub topic_name : Bytes
  pub message : Outgoing
  pub headers : List (Bytes × Bytes)
  pub timestamp : ℤ

-- One header is a pair of texts.
unfoldable pub header_of : ErlNif → Term → Option (Bytes × Bytes)
header_of nif t = elim (get_tuple2 t) [
  | none ↦ none
  | some (a, b) ↦ elim (get_binary nif a) [
    | none ↦ none
    | some key ↦ elim (get_binary nif b) [ none ↦ none | some value ↦ some (key, value) ]
  ]
]

unfoldable pub headers_in : ErlNif → Term → Option (List (Bytes × Bytes))
headers_in nif nil = some []
headers_in nif (cell t ts) = elim (header_of nif t) [
  | none ↦ none
  | some h ↦ elim (headers_in nif ts) [ none ↦ none | some hs ↦ some (h ∷ hs) ]
]
headers_in nif _ = none

-- The headers of a list, none for `undefined`.
unfoldable pub headers_of : ErlNif → Term → Option (List (Bytes × Bytes))
unfolding headers_in
headers_of nif t = elim (is_undefined t) [ true ↦ some [] | false ↦ headers_in nif t ]

unfoldable pub message_of : ErlNif → Arguments → Option Outgoing
message_of nif args = elim (nif.get_int args.partition_term) [
  | none ↦ none
  | some partition ↦ elim (optional_binary nif args.key_term) [
    | none ↦ none
    | some key ↦ elim (optional_binary nif args.value_term) [
      | none ↦ none
      | some value ↦ some (record { partition = partition; key = key; value = value })
    ]
  ]
]

-- What all the arguments describe, if each of them can be read.
unfoldable pub request_of : ErlNif → Arguments → Option Described
unfolding message_of headers_of
request_of nif args = elim (get_string nif args.topic_term) [
  | none ↦ none
  | some name ↦ elim (message_of nif args) [
    | none ↦ none
    | some m ↦ elim (headers_of nif args.headers_term) [
      | none ↦ none
      | some hs ↦ elim (nif.get_int64 args.timestamp_term) [
        | none ↦ none
        | some ts ↦ some (record { topic_name = name; message = m; headers = hs; timestamp = ts })
      ]
    ]
  ]
]

-- The call that adds a header to an object.
abbrev pub header_call : Handle → Bytes × Bytes → Call
header_call out (key, value) = Call.header_add out key value

-- From `l` to `l'` an object was made and filled with just these headers, in order; nothing was
-- called if there are none.
abbrev pub Filled : List (Bytes × Bytes) → Option Handle → Log → Log → Type 0
Filled [] none l l' = l' ≡ l
Filled (h ∷ hs) (some out) l l' =
    l' ≡ rev_onto (map (header_call out) (h ∷ hs)) (Call.headers_new (length (h ∷ hs)) out ∷ l)
Filled _ _ l l' = ⊥
