-- ===== src/Producer/Quiet.antt =====
-- c_src/exrdkafka_producer.cc: what a reading of the log that skips messages and their headers is
-- blind to.
use exrdkafka.Base.{
  ℕ, zero, suc, ◌≡◌, refl, ◌∙◌, ◌∷◌, Option, none, some, arith, inl, inr, Option-cases, Bool-cases,
}
use exrdkafka.Base.Int.{ℤ, is_zero}
use exrdkafka.Erl.{Bytes, Term, ErlNif, cell, is_undefined, get_list_length}
use exrdkafka.Erl.Utils.{c_str}
use exrdkafka.Rd.{Kafka, Handle, Log, Call, Outgoing}
use exrdkafka.Producer.Request.{
  Arguments, Wanted, add_header, populate_headers, new_headers, parse_headers, parse_timestamp,
  parse_request,
}
use exrdkafka.Producer.{
  Producer, Others, produce_to, drop_headers, produce_full, flush_answer, answer,
}

pub record Blind {ℓ} {B : Type ℓ} (view : Log → B) : Type ℓ where
  pub on_headers_new : (n : ℕ) (h : Handle) (l : Log) → view (Call.headers_new n h ∷ l) ≡ view l
  pub on_header_add :
      (h : Handle) (key value : Bytes) (l : Log) → view (Call.header_add h key value ∷ l) ≡ view l
  pub on_headers_destroy : (h : Handle) (l : Log) → view (Call.headers_destroy h ∷ l) ≡ view l
  pub on_produce :
      (t : Handle) (m : Outgoing) (n : ℤ) (l : Log) → view (Call.produce t m n ∷ l) ≡ view l
  pub on_producev :
      (rk : Handle) (name : Bytes) (m : Outgoing) (h : Option Handle) (ts : Option ℤ) (n : ℤ)
      (l : Log)
      → view (Call.producev rk name m h ts n ∷ l) ≡ view l
  pub on_flush : (rk : Handle) (ms : ℕ) (l : Log) → view (Call.flush rk ms ∷ l) ≡ view l

module _ {ℓ} {B : Type ℓ} (view : Log → B) (b : Blind view) (nif : ErlNif) (k : Kafka) where
  view-add_header :
      (head : Term) (out : Handle) (l : Log) → view (add_header nif k head out l).1 ≡ view l
  unfolding add_header
  view-add_header head out l = grind (arith, b.on_header_add)

  view-populate_headers :
      (t : Term) (out : Handle) (l : Log) → view (populate_headers nif k t out l).1 ≡ view l
  unfolding populate_headers
  view-populate_headers (cell head rest) out l =
      let r = add_header nif k head out l in
      ground (arith, view-add_header head out l, view-populate_headers rest out r.1)
  view-populate_headers _ out l = refl

  view-new_headers : (n : ℕ) (t : Term) (l : Log) → view (new_headers nif k n t l).1 ≡ view l
  unfolding new_headers
  view-new_headers zero t l = refl
  view-new_headers (suc n) t l =
      let h = k.headers_new_answer l (suc n) in
      let l₁ = Call.headers_new (suc n) h ∷ l in
      let r = populate_headers nif k t h l₁ in
      ground (
        arith,
        b.on_headers_new (suc n) h l,
        b.on_headers_destroy h r.1,
        view-populate_headers t h l₁,
      )

  view-parse_headers : (t : Term) (l : Log) → view (parse_headers nif k t l).1 ≡ view l
  unfolding parse_headers
  view-parse_headers t l = elim (Bool-cases (is_undefined t)) [
    | inl e ↦ rw (e, parse_headers) refl
    | inr e ↦ elim (Option-cases (get_list_length t)) [
      | inl f ↦ rw (e, f, parse_headers) refl
      | inr (n, f) ↦ rw (e, f, parse_headers) (view-new_headers n t l)
    ]
  ]

  view-parse_timestamp :
      (t : Term) (o : Option Handle) (l : Log) → view (parse_timestamp nif k t o l).1 ≡ view l
  unfolding parse_timestamp
  view-parse_timestamp t none l = ground arith
  view-parse_timestamp t (some h) l = ground (arith, b.on_headers_destroy h l)

  pub view-parse_request :
      (args : Arguments) (l : Log) → view (parse_request nif k args l).1 ≡ view l
  unfolding parse_request
  view-parse_request args l = grind (arith, view-parse_headers, view-parse_timestamp)

  module _ (others : Others) where
    pub view-produce_to :
        (topic : Option Handle) (m : Outgoing) (l : Log)
        → view (produce_to k others topic m l).1 ≡ view l
    unfolding produce_to
    view-produce_to none m l = refl
    view-produce_to (some topic) m l = b.on_produce topic m (k.produce_answer l topic m) l

    view-drop_headers : (o : Option Handle) (l : Log) → view (drop_headers o l).1 ≡ view l
    unfolding drop_headers
    view-drop_headers none l = refl
    view-drop_headers (some h) l = b.on_headers_destroy h l

    pub view-produce_full :
        (p : Producer) (w : Wanted) (l : Log) → view (produce_full k others p w l).1 ≡ view l
    unfolding produce_full
    view-produce_full p w l =
        let name = c_str w.topic_name in
        let n = k.producev_answer l p.kf name w.message w.headers (some w.timestamp) in
        let l' = Call.producev p.kf name w.message w.headers (some w.timestamp) n ∷ l in
        let sent = b.on_producev p.kf name w.message w.headers (some w.timestamp) n l in
        elim (Bool-cases (is_zero n)) [
          | inl e ↦ rw (e, produce_full) sent
          | inr e ↦ rw (e, produce_full) (view-drop_headers w.headers l' ∙ sent)
        ]

    pub view-flush_answer :
        (o : Option Term) (p : Producer) (l : Log)
        → view (flush_answer k others nif (o, p) l).1 ≡ view l
    unfolding flush_answer
    view-flush_answer none p l = b.on_flush p.kf 1 l
    view-flush_answer (some t) p l = refl

    pub view-answer :
        (o : Option Term) (p : Producer) (l : Log) → view (answer k others nif (o, p) l).1 ≡ view l
    unfolding answer
    view-answer none p l = refl
    view-answer (some t) p l = refl
