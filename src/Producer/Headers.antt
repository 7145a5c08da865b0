-- ===== src/Producer/Headers.antt =====
-- c_src/exrdkafka_producer.cc: who owns the headers of a message.
use exrdkafka.Base.{
  ℕ, zero, suc, ◌+◌, ◌≡◌, refl, ◌∷◌, Option, none, some, arith, inl, inr, Option-cases, Bool-cases,
  ◌==◌,
}
use exrdkafka.Base.Int.{ℤ}
use exrdkafka.Erl.{Bytes, Term, ErlNif, cell, is_undefined, get_list_length}
use exrdkafka.Rd.{Kafka, Handle, Log, Call, Outgoing}
use exrdkafka.Rd.Ledger.{tally, headers_opened, headers_closed}
use exrdkafka.Topics.Quiet.{view-get}
use exrdkafka.Topics.{get_or_create_topic, TopicManager}
use exrdkafka.Producer.{
  Producer, Others, topic_for, produce_to, produce_plain, produce_full, is_plain, produce_wanted,
  produce_parsed, enif_produce, answer, flush_answer, enif_produce_sync,
}
use exrdkafka.Producer.Request.{
  Arguments, Wanted, Exit, returns, goes_on, add_header, populate_headers, new_headers,
  parse_headers, parse_timestamp, parse_request,
}

-- Whether these are the headers `h`.
abbrev pub owed : Handle → Option Handle → ℕ
owed h none = 0
owed h (some j) = tally (j == h) 0

-- From one log to the next `before` objects at `h` that the function owned became `after`.
abbrev pub Owning : Handle → Log → ℕ → Log → ℕ → Type 0
Owning h l before l' after =
    headers_opened h l' + headers_closed h l + before
    ≡ headers_opened h l + headers_closed h l' + after

abbrev pub owed_exit : {A : Type 0} → (A → ℕ) → Exit A → ℕ
owed_exit f (returns t) = 0
owed_exit f (goes_on a) = f a

blind_opened :
    (h rk : Handle) (name : Bytes) (conf o : Option Handle) (l : Log)
    → headers_opened h (Call.topic_new rk name conf o ∷ l) ≡ headers_opened h l
unfolding headers_opened
blind_opened h rk name conf o l = refl

blind_closed :
    (h rk : Handle) (name : Bytes) (conf o : Option Handle) (l : Log)
    → headers_closed h (Call.topic_new rk name conf o ∷ l) ≡ headers_closed h l
unfolding headers_closed
blind_closed h rk name conf o l = refl

module _ (nif : ErlNif) (k : Kafka) (h : Handle) where
  add_header-Owning :
      (head : Term) (out : Handle) (l : Log) → Owning h l 0 (add_header nif k head out l).1 0
  unfolding add_header headers_opened headers_closed
  add_header-Owning head out l = ground arith

  populate_headers-Owning :
      (t : Term) (out : Handle) (l : Log) → Owning h l 0 (populate_headers nif k t out l).1 0
  unfolding populate_headers
  populate_headers-Owning (cell head rest) out l =
      let r = add_header nif k head out l in
      ground (arith, add_header-Owning head out l, populate_headers-Owning rest out r.1)
  populate_headers-Owning _ out l = omega arith

  new_headers-Owning :
      (n : ℕ) (t : Term) (l : Log)
      → let r = new_headers nif k n t l in Owning h l 0 r.1 (owed_exit (owed h) r.0)
  unfolding new_headers headers_opened headers_closed
  new_headers-Owning zero t l = omega arith
  new_headers-Owning (suc n) t l =
      let j = k.headers_new_answer l (suc n) in
      ground (arith, populate_headers-Owning t j (Call.headers_new (suc n) j ∷ l))

  parse_headers-Owning :
      (t : Term) (l : Log)
      → let r = parse_headers nif k t l in Owning h l 0 r.1 (owed_exit (owed h) r.0)
  unfolding parse_headers
  parse_headers-Owning t l = elim (Bool-cases (is_undefined t)) [
    | inl e ↦ rw (e, parse_headers) (omega arith)
    | inr e ↦ elim (Option-cases (get_list_length t)) [
      | inl f ↦ rw (e, f, parse_headers) (omega arith)
      | inr (n, f) ↦ rw (e, f, parse_headers) (new_headers-Owning n t l)
    ]
  ]

  parse_timestamp-Owning :
      (t : Term) (o : Option Handle) (l : Log)
      → let r = parse_timestamp nif k t o l in
        Owning h l (owed h o) r.1 (owed_exit (λ (n : ℤ). owed h o) r.0)
  unfolding parse_timestamp headers_opened headers_closed
  parse_timestamp-Owning t o l = ground arith

  parse_request-Owning :
      (args : Arguments) (l : Log)
      → let r = parse_request nif k args l in
        Owning h l 0 r.1 (owed_exit (λ (w : Wanted). owed h w.headers) r.0)
  unfolding parse_request
  parse_request-Owning args l = grind (arith, parse_headers-Owning, parse_timestamp-Owning)

module _ (k : Kafka) (others : Others) (h : Handle) where
  topic_for-Owning :
      (tm : TopicManager) (name : Bytes) (l : Log) → Owning h l 0 (topic_for k others tm name l).1 0
  unfolding topic_for
  topic_for-Owning tm name l = elim (Option-cases (get_or_create_topic k others 2 name tm l)) [
    | inl e ↦ rw (e, topic_for) refl
    | inr ((r, l'), e) ↦
        let opened = view-get k (headers_opened h) (blind_opened h) others 2 name tm l e in
        let closed = view-get k (headers_closed h) (blind_closed h) others 2 name tm l e in
        rw (e, topic_for) (omega arith)
  ]

  produce_to-Owning :
      (topic : Option Handle) (m : Outgoing) (l : Log)
      → Owning h l 0 (produce_to k others topic m l).1 0
  unfolding produce_to headers_opened headers_closed
  produce_to-Owning none m l = omega arith
  produce_to-Owning (some topic) m l = ground arith

  produce_plain-Owning :
      (p : Producer) (w : Wanted) (l : Log) → Owning h l 0 (produce_plain k others p w l).1 0
  unfolding produce_plain
  produce_plain-Owning p w l =
      let r = topic_for k others p.topics w.topic_name l in
      omega (arith, topic_for-Owning p.topics w.topic_name l, produce_to-Owning r.0.1 w.message r.1)

  produce_full-Owning :
      (p : Producer) (w : Wanted) (o : Option Handle) (l : Log)
      → w.headers ≡ o
      → Owning h l (owed h o) (produce_full k others p w l).1 0
  unfolding produce_full headers_opened headers_closed
  produce_full-Owning p w none l e = ground arith
  produce_full-Owning p w (some j) l e = ground arith

  produce_wanted-Owning :
      (p : Producer) (w : Wanted) (l : Log)
      → Owning h l (owed h w.headers) (produce_wanted k others p w l).1 0
  unfolding produce_wanted is_plain
  produce_wanted-Owning p w l =
      ground (arith, produce_plain-Owning p w l, produce_full-Owning p w w.headers l refl)

-- As many objects at `h` were created as were destroyed or taken over by librdkafka.
abbrev pub Settled : Handle → Log → Log → Type 0
Settled h l l' = headers_opened h l' + headers_closed h l ≡ headers_opened h l + headers_closed h l'

module _ (nif : ErlNif) (k : Kafka) (others : Others) (h : Handle) where
  produce_parsed-Owning :
      (p : Producer) (e : Exit Wanted) (l : Log)
      → Owning h l (owed_exit (λ w. owed h w.headers) e) (produce_parsed k others nif p e l).1 0
  unfolding produce_parsed
  produce_parsed-Owning p (returns t) l = omega arith
  produce_parsed-Owning p (goes_on w) l = produce_wanted-Owning k others h p w l

  request-Owning :
      (p : Producer) (args : Arguments) (l : Log)
      → let q = parse_request nif k args l in
        Owning h l 0 (produce_parsed k others nif p q.0 q.1).1 0
  request-Owning p args l =
      let q = parse_request nif k args l in
      omega (arith, parse_request-Owning nif k h args l, produce_parsed-Owning p q.0 q.1)

  answer-Settled :
      (o : Option Term) (p : Producer) (l : Log)
      → ((answer k others nif (o, p) l).1 ≡ l) × Settled h l (flush_answer k others nif (o, p) l).1
  unfolding answer flush_answer headers_opened headers_closed
  answer-Settled none p l = (refl, omega arith)
  answer-Settled (some t) p l = (refl, omega arith)

  -- On every path of `enif_produce`, each object of headers that it created was destroyed or was
  -- taken over by librdkafka, and just once.
  pub enif_produce-headers :
      (p : Option Producer) (args : Arguments) (l : Log)
      → Settled h l (enif_produce k others nif p args l).1
  unfolding enif_produce
  enif_produce-headers none args l = omega arith
  enif_produce-headers (some p) args l =
      let q = parse_request nif k args l in
      let r = produce_parsed k others nif p q.0 q.1 in
      let same = (answer-Settled r.0.0 r.0.1 r.1).0 in
      rw same (omega (arith, request-Owning p args l))

  -- On every path of `enif_produce_sync`, each object of headers that it created was destroyed or
  -- was taken over by librdkafka, and just once.
  pub enif_produce_sync-headers :
      (p : Option Producer) (args : Arguments) (l : Log)
      → Settled h l (enif_produce_sync k others nif p args l).1
  unfolding enif_produce_sync
  enif_produce_sync-headers none args l = omega arith
  enif_produce_sync-headers (some p) args l =
      let q = parse_request nif k args l in
      let r = produce_parsed k others nif p q.0 q.1 in
      omega (arith, (answer-Settled r.0.0 r.0.1 r.1).1, request-Owning p args l)
