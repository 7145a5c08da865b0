-- ===== src/Producer/Reading.antt =====
-- c_src/exrdkafka_producer.cc: how the arguments of `enif_produce` and `enif_produce_sync`
-- are read.
use exrdkafka.Base.{
  ℕ, zero, suc, ◌≡◌, ◌⊎◌, refl, List, [], ◌∷◌, true, false, Option, none, some, arith, inl, inr,
  Option-cases, Bool-cases, map, rev_onto, length,
}
use exrdkafka.Base.Int.{ℤ, is_zero}
use exrdkafka.Erl.{Bytes, Term, ErlNif, nil, cell, is_undefined, get_list_length, get_tuple2}
use exrdkafka.Erl.Utils.{make_badarg, get_binary, get_string}
use exrdkafka.Rd.{Kafka, Handle, Log, Call}
use exrdkafka.Rd.Ledger.{accepted}
use exrdkafka.Producer.Described.{
  header_of, headers_in, headers_of, message_of, request_of, header_call, Filled,
}
use exrdkafka.Producer.Request.{
  Arguments, Wanted, Exit, returns, goes_on, add_header, populate_headers, new_headers,
  parse_headers, parse_timestamp, parse_request, optional_binary, Part, ◌>>=◌, done,
}

module _ (nif : ErlNif) (k : Kafka) where
  add_header-accepted :
      (head : Term) (out : Handle) (l : Log) → accepted (add_header nif k head out l).1 ≡ accepted l
  unfolding add_header accepted
  add_header-accepted head out l = ground arith

  populate_headers-accepted :
      (t : Term) (out : Handle) (l : Log) → accepted (populate_headers nif k t out l).1 ≡ accepted l
  unfolding populate_headers
  populate_headers-accepted (cell head rest) out l =
      let r = add_header nif k head out l in
      ground (arith, add_header-accepted head out l, populate_headers-accepted rest out r.1)
  populate_headers-accepted _ out l = refl

  new_headers-accepted :
      (n : ℕ) (t : Term) (l : Log) → accepted (new_headers nif k n t l).1 ≡ accepted l
  unfolding new_headers accepted
  new_headers-accepted zero t l = refl
  new_headers-accepted (suc n) t l =
      let j = k.headers_new_answer l (suc n) in
      ground (arith, populate_headers-accepted t j (Call.headers_new (suc n) j ∷ l))

  parse_headers-accepted : (t : Term) (l : Log) → accepted (parse_headers nif k t l).1 ≡ accepted l
  unfolding parse_headers
  parse_headers-accepted t l = elim (Bool-cases (is_undefined t)) [
    | inl e ↦ rw (e, parse_headers) refl
    | inr e ↦ elim (Option-cases (get_list_length t)) [
      | inl f ↦ rw (e, f, parse_headers) refl
      | inr (n, f) ↦ rw (e, f, parse_headers) (new_headers-accepted n t l)
    ]
  ]

  parse_timestamp-accepted :
      (t : Term) (o : Option Handle) (l : Log)
      → accepted (parse_timestamp nif k t o l).1 ≡ accepted l
  unfolding parse_timestamp accepted
  parse_timestamp-accepted t none l = ground arith
  parse_timestamp-accepted t (some h) l = ground arith

  -- Reading the arguments hands over no message.
  pub parse_request-accepted :
      (args : Arguments) (l : Log) → accepted (parse_request nif k args l).1 ≡ accepted l
  unfolding parse_request
  parse_request-accepted args l = grind (arith, parse_headers-accepted, parse_timestamp-accepted)

  -- Headers that were added are those of the list.
  abbrev AddsAll : Term → ℕ → Handle → Log → Log → Type 0
  AddsAll t n out l l' =
      (hs : List (Bytes × Bytes)) × (headers_in nif t ≡ some hs)
      × (length hs ≡ n)
      × (l' ≡ rev_onto (map (header_call out) hs) l)

  add_header-of :
      (t : Term) (out : Handle) (l : Log)
      → ((add_header nif k t out l).0 ≡ false)
        ⊎ ((h : Bytes × Bytes) × (header_of nif t ≡ some h)
            × (add_header nif k t out l ≡ (true, header_call out h ∷ l)))
  unfolding add_header header_of
  add_header-of t out l = elim (Option-cases (get_tuple2 t)) [
    | inl e ↦ inl (rw (e, add_header) refl)
    | inr ((a, b), e) ↦ elim (Option-cases (get_binary nif a)) [
      | inl f ↦ inl (ground (arith, e, f))
      | inr (key, f) ↦ elim (Option-cases (get_binary nif b)) [
        | inl g ↦ inl (ground (arith, e, f, g))
        | inr (value, g) ↦ elim (Bool-cases (is_zero (k.header_add_answer l out key value))) [
          | inr bad ↦ inl (ground (arith, e, f, g, bad))
          | inl good ↦ inr ((key, value), ground (arith, e, f, g), ground (arith, e, f, g, good))
        ]
      ]
    ]
  ]

  populate_headers-AddsAll :
      (t : Term) (n : ℕ) (out : Handle) (l : Log)
      → get_list_length t ≡ some n
      → ((populate_headers nif k t out l).0 ≡ false)
        ⊎ (((populate_headers nif k t out l).0 ≡ true)
            × AddsAll t n out l (populate_headers nif k t out l).1)
  unfolding populate_headers headers_in get_list_length
  populate_headers-AddsAll nil n out l e = inr (refl, ([], refl, ground (arith, e), refl))
  populate_headers-AddsAll (cell t ts) n out l e = elim (add_header-of t out l) [
    | inl bad ↦ inl (ground (arith, bad))
    | inr (h, same, run) ↦ elim (Option-cases (get_list_length ts)) [
      | inl short ↦ absurd (ground (arith, e, short))
      | inr (m, size) ↦ elim (populate_headers-AddsAll ts m out (header_call out h ∷ l) size) [
        | inl bad ↦ inl (ground (arith, run, bad))
        | inr (good, (hs, read, count, log)) ↦
            let more : n ≡ suc m = ground (arith, e, size) in
            inr (
              ground (arith, run, good),
              (
                h ∷ hs,
                ground (arith, same, read),
                omega (arith, count, more),
                ground (arith, run, log),
              ),
            )
      ]
    ]
  ]
  populate_headers-AddsAll _ n out l e = absurd (ground (arith, e))

  -- What reading the headers comes to.
  abbrev HeadersRead : Term → Log → Exit (Option Handle) → Log → Type 0
  HeadersRead t l (returns u) l' = u ≡ make_badarg
  HeadersRead t l (goes_on o) l' =
      (hs : List (Bytes × Bytes)) × (headers_of nif t ≡ some hs) × Filled hs o l l'

  Filled-by :
      (hs : List (Bytes × Bytes)) (n : ℕ) (out : Handle) (l l' : Log)
      → length hs ≡ suc n
      → l' ≡ rev_onto (map (header_call out) hs) (Call.headers_new (suc n) out ∷ l)
      → Filled hs (some out) l l'
  Filled-by [] n out l l' e h = absurd (ground (arith, e))
  Filled-by (a ∷ rest) n out l l' e h = rw e h

  new_headers-Read :
      (n : ℕ) (t : Term) (l : Log)
      → is_undefined t ≡ false
      → get_list_length t ≡ some n
      → HeadersRead t l (new_headers nif k n t l).0 (new_headers nif k n t l).1
  unfolding new_headers headers_in get_list_length headers_of is_undefined
  new_headers-Read zero nil l defined size = ([], refl, refl)
  new_headers-Read zero (cell t ts) l defined size = absurd (ground (arith, size))
  new_headers-Read zero _ l defined size = absurd (ground (arith, size))
  new_headers-Read (suc n) t l defined size =
      let out = k.headers_new_answer l (suc n) in
      elim (populate_headers-AddsAll t (suc n) out (Call.headers_new (suc n) out ∷ l) size) [
        | inl bad ↦ rw (bad, new_headers) refl
        | inr (good, (hs, read, count, log)) ↦
            rw (good, new_headers)
              (hs, rw (defined, headers_of) read, Filled-by hs n out l _ count log)
      ]

  parse_headers-Read :
      (t : Term) (l : Log) → HeadersRead t l (parse_headers nif k t l).0 (parse_headers nif k t l).1
  unfolding parse_headers headers_of
  parse_headers-Read t l = elim (Bool-cases (is_undefined t)) [
    | inl e ↦ rw (e, parse_headers) ([], rw (e, headers_of) refl, refl)
    | inr e ↦ elim (Option-cases (get_list_length t)) [
      | inl f ↦ rw (e, f, parse_headers) refl
      | inr (n, f) ↦ rw (e, f, parse_headers) (new_headers-Read n t l e f)
    ]
  ]

  -- A request is what the arguments describe, with its headers in an object that was filled for it;
  -- refused arguments are answered with badarg.
  abbrev pub Reads : Arguments → Log → Exit Wanted → Log → Type 0
  Reads args l (returns t) l' = t ≡ make_badarg
  Reads args l (goes_on w) l' =
      (hs : List (Bytes × Bytes)) × (request_of nif args
        ≡ some (record {
          topic_name = w.topic_name;
          message = w.message;
          headers = hs;
          timestamp = w.timestamp;
        }))
      × Filled hs w.headers l l'

  -- From the headers on, with the arguments before them read.
  abbrev rest_of :
      Arguments → Bytes → ℤ → Option Bytes → Option Bytes → Part (Option Handle) → Part Wanted
  rest_of args name partition key value headers = do
    o ← headers
    timestamp ← parse_timestamp nif k args.timestamp_term o
    done (record {
      topic_name = name;
      message = record { partition = partition; key = key; value = value };
      headers = o;
      timestamp = timestamp;
    })

  request_rest :
      (args : Arguments) (name : Bytes) (partition : ℤ) (key value : Option Bytes)
      (x : Exit (Option Handle)) (l l₁ : Log)
      → get_string nif args.topic_term ≡ some name
      → nif.get_int args.partition_term ≡ some partition
      → optional_binary nif args.key_term ≡ some key
      → optional_binary nif args.value_term ≡ some value
      → HeadersRead args.headers_term l x l₁
      → let r = rest_of args name partition key value (λ _. (x, l₁)) l in Reads args l r.0 r.1
  unfolding request_of message_of parse_timestamp
  request_rest args name partition key value (returns u) l l₁ e f g h read = read
  request_rest args name partition key value (goes_on o) l l₁ e f g h (hs, read, filled) =
      elim (Option-cases (nif.get_int64 args.timestamp_term)) [
        | inr (ts, i) ↦
            rw (i, parse_timestamp)
              (hs, rw (e, f, g, h, read, i, request_of, message_of) refl, filled)
        | inl i ↦ no_timestamp o i
      ]
    where
      no_timestamp :
          (o : Option Handle)
          → nif.get_int64 args.timestamp_term ≡ none
          → let r = rest_of args name partition key value (λ _. (goes_on o, l₁)) l in
            Reads args l r.0 r.1
      no_timestamp none i = rw (i, parse_timestamp) refl
      no_timestamp (some out) i = rw (i, parse_timestamp) refl

  pub parse_request-Reads :
      (args : Arguments) (l : Log) → let r = parse_request nif k args l in Reads args l r.0 r.1
  unfolding parse_request request_of message_of
  parse_request-Reads args l = elim (Option-cases (get_string nif args.topic_term)) [
    | inl e ↦ rw (e, parse_request) refl
    | inr (name, e) ↦ elim (Option-cases (nif.get_int args.partition_term)) [
      | inl f ↦ rw (e, f, parse_request) refl
      | inr (partition, f) ↦ elim (Option-cases (optional_binary nif args.key_term)) [
        | inl g ↦ rw (e, f, g, parse_request) refl
        | inr (key, g) ↦ elim (Option-cases (optional_binary nif args.value_term)) [
          | inl h ↦ rw (e, f, g, h, parse_request) refl
          | inr (value, h) ↦
              let read = parse_headers-Read args.headers_term l in
              rw (e, f, g, h, parse_request)
                (request_rest args name partition key value
                  (parse_headers nif k args.headers_term l).0 l _ e f g h read)
        ]
      ]
    ]
  ]
