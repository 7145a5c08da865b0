-- ===== src/Producer/Request.antt =====
-- c_src/exrdkafka_producer.cc: how `enif_produce` and `enif_produce_sync` read their arguments.
use exrdkafka.Base.{ℕ, zero, suc, ◌∷◌, Bool, true, false, Option, none, some}
use exrdkafka.Base.Int.{ℤ, is_zero}
use exrdkafka.Erl.{Bytes, Term, ErlNif, cell, get_tuple2, is_undefined, get_list_length}
use exrdkafka.Erl.Utils.{get_binary, get_string, make_badarg}
use exrdkafka.Rd.{Kafka, Handle, Log, Io, Outgoing, ask, Call}

-- `argv[1]` to `argv[6]`.
pub record Arguments : Type 0 where
  pub topic_term : Term
  pub partition_term : Term
  pub key_term : Term
  pub value_term : Term
  pub headers_term : Term
  pub timestamp_term : Term

-- What the arguments say. The headers are an object of librdkafka, which the function owns.
pub record Wanted : Type 0 where
  pub topic_name : Bytes
  pub message : Outgoing
  pub headers : Option Handle
  pub timestamp : ℤ

-- A part of a function either returns from it or goes on.
pub data Exit (A : Type 0) : Type 0 where
  returns : Term → Exit A
  goes_on : A → Exit A

abbrev pub Part : Type 0 → Type 0
Part A = Log → Exit A × Log

abbrev pub done : {A : Type 0} → A → Part A
done a l = (goes_on a, l)

infixl 5 ◌>>=◌
abbrev pub ◌>>=◌ : {A B : Type 0} → Part A → (A → Part B) → Part B
◌>>=◌ m f l = let r = m l in elim r.0 [ returns t ↦ (returns t, r.1) | goes_on a ↦ f a r.1 ]

-- `if(!…) return make_badarg(env);`
abbrev pub require : {A : Type 0} → Option A → Part A
require none l = (returns make_badarg, l)
require (some a) l = (goes_on a, l)

module _ (nif : ErlNif) where
  -- A key or a value: `undefined` stands for NULL.
  unfoldable pub optional_binary : Term → Option (Option Bytes)
  optional_binary t = elim (get_binary nif t) [
    | some b ↦ some (some b)
    | none ↦ elim (is_undefined t) [ true ↦ some none | false ↦ none ]
  ]

  module _ (k : Kafka) where
    -- One header: whether it is a pair of texts and librdkafka takes it.
    unfoldable pub add_header : Term → Handle → Io Bool
    add_header head out l = elim (get_tuple2 head) [
      | none ↦ (false, l)
      | some (a, b) ↦ elim (get_binary nif a) [
        | none ↦ (false, l)
        | some key ↦ elim (get_binary nif b) [
          | none ↦ (false, l)
          | some value ↦
              let r =
                ask (λ l'. k.header_add_answer l' out key value)
                  (λ _. Call.header_add out key value) l in
              (is_zero r.0, r.1)
        ]
      ]
    ]

    unfoldable pub populate_headers : Term → Handle → Io Bool
    populate_headers (cell head rest) out l =
        let r = add_header head out l in
        elim r.0 [ true ↦ populate_headers rest out r.1 | false ↦ (false, r.1) ]
    populate_headers _ out l = (true, l)

    -- A list of headers that is not empty becomes an object; if its filling fails, the scope ends
    -- and destroys the object.
    unfoldable pub new_headers : ℕ → Term → Part (Option Handle)
    new_headers zero t l = (goes_on none, l)
    new_headers (suc n) t l =
        let h = k.headers_new_answer l (suc n) in
        let r = populate_headers t h (Call.headers_new (suc n) h ∷ l) in
        elim r.0 [
          | true ↦ (goes_on (some h), r.1)
          | false ↦ (returns make_badarg, Call.headers_destroy h ∷ r.1)
        ]

    unfoldable pub parse_headers : Term → Part (Option Handle)
    unfolding new_headers
    parse_headers t l = elim (is_undefined t) [
      | true ↦ (goes_on none, l)
      | false ↦ elim (get_list_length t) [
        | none ↦ (returns make_badarg, l)
        | some n ↦ new_headers n t l
      ]
    ]

    -- The timestamp is read last: if that fails, the scope ends with the headers.
    unfoldable pub parse_timestamp : Term → Option Handle → Part ℤ
    parse_timestamp t headers l = elim (nif.get_int64 t) [
      | some n ↦ (goes_on n, l)
      | none ↦ elim headers [
        | none ↦ (returns make_badarg, l)
        | some h ↦ (returns make_badarg, Call.headers_destroy h ∷ l)
      ]
    ]

    unfoldable pub parse_request : Arguments → Part Wanted
    unfolding parse_headers parse_timestamp
    parse_request args = do
      topic_name ← require (get_string nif args.topic_term)
      partition ← require (nif.get_int args.partition_term)
      key ← require (optional_binary args.key_term)
      value ← require (optional_binary args.value_term)
      headers ← parse_headers args.headers_term
      timestamp ← parse_timestamp args.timestamp_term headers
      done (record {
        topic_name = topic_name;
        message = record { partition = partition; key = key; value = value };
        headers = headers;
        timestamp = timestamp;
      })
