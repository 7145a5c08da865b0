-- ===== src/Producer/Keeps.antt =====
-- c_src/exrdkafka_producer.cc: producing keeps the client and the topics of a producer.
use exrdkafka.Base.{
  ℕ, ◌≡◌, refl, ◌∙◌, ◌∷◌, Option, none, some, arith, inl, inr, Option-cases, Bool-cases,
}
use exrdkafka.Erl.{Bytes, Term, ErlNif, cell}
use exrdkafka.Erl.Utils.{get_string}
use exrdkafka.Rd.{Kafka, Handle, Log, Call}
use exrdkafka.Rd.Ledger.{topics_opened, topics_closed}
use exrdkafka.Rd.Books.{Kind, opened, closed, balance}
use exrdkafka.Topics.{get_or_create_topic}
use exrdkafka.Topics.Lifecycle.{Owns, get_or_create-Accounted}
use exrdkafka.Topics.Quiet.{view-get}
use exrdkafka.Producer.{
  Producer, Others, topic_for, produce_plain, is_plain, produce_wanted, produce_parsed, answer,
  flush_answer, enif_produce, enif_produce_sync, produce_entry, produce_entries, enif_produce_batch,
}
use exrdkafka.Producer.Request.{Wanted, Exit, returns, goes_on, Arguments, parse_request}
use exrdkafka.Producer.Quiet.{Blind, view-parse_request, view-produce_to, view-produce_full}

abbrev pub topics_view : Handle → Log → ℕ × ℕ
topics_view h l = (topics_opened h l, topics_closed h l)

topics-Blind : (h : Handle) → Blind (topics_view h)
unfolding topics_opened topics_closed
topics-Blind h = record {
  on_headers_new = λ n j l. refl;
  on_header_add = λ j key value l. refl;
  on_headers_destroy = λ j l. refl;
  on_produce = λ t m n l. refl;
  on_producev = λ rk name m j ts n l. refl;
  on_flush = λ rk ms l. refl;
}

clients-Blind : (h : Handle) → Blind (balance Kind.clients h)
unfolding opened closed
clients-Blind h = record {
  on_headers_new = λ n j l. ground arith;
  on_header_add = λ j key value l. ground arith;
  on_headers_destroy = λ j l. ground arith;
  on_produce = λ t m n l. ground arith;
  on_producev = λ rk name m j ts n l. ground arith;
  on_flush = λ rk ms l. ground arith;
}

-- From one producer and log to the next: the client and `closed_future` are the same, what the
-- manager owns is accounted for, and no client was made or destroyed.
pub record Keeps (rk : Handle) (p : Producer) (l : Log) (p' : Producer) (l' : Log) : Type 0 where
  pub same_kf : p'.kf ≡ p.kf
  pub same_closing : p'.closing ≡ p.closing
  pub owns : Owns p.topics l → Owns p'.topics l'
  pub clients : balance Kind.clients rk l' ≡ balance Kind.clients rk l

pub Keeps-trans :
    {rk : Handle} {p q r : Producer} {a b c : Log}
    → Keeps rk p a q b
    → Keeps rk q b r c
    → Keeps rk p a r c
Keeps-trans x y = record {
  same_kf = y.same_kf ∙ x.same_kf;
  same_closing = y.same_closing ∙ x.same_closing;
  owns = λ o. y.owns (x.owns o);
  clients = y.clients ∙ x.clients;
}

-- A step that only touches messages and their headers.
pub Keeps-quiet :
    {rk : Handle} {p : Producer} {l l' : Log}
    → ((h : Handle) → topics_view h l' ≡ topics_view h l)
    → balance Kind.clients rk l' ≡ balance Kind.clients rk l
    → Keeps rk p l p l'
Keeps-quiet t c = record {
  same_kf = refl;
  same_closing = refl;
  owns = λ o h. ground (arith, o h, t h);
  clients = c;
}

pub blind_clients :
    (h rk : Handle) (name : Bytes) (conf o : Option Handle) (l : Log)
    → balance Kind.clients h (Call.topic_new rk name conf o ∷ l) ≡ balance Kind.clients h l
unfolding opened closed
blind_clients h rk name conf o l = ground arith

module _ (nif : ErlNif) (k : Kafka) (others : Others) (rk : Handle) where
  topic_for-Keeps :
      (p : Producer) (name : Bytes) (l : Log)
      → let r = topic_for k others p.topics name l in Keeps rk p l (record p { topics = r.0.0 }) r.1
  unfolding topic_for
  topic_for-Keeps p name l = elim (Option-cases (get_or_create_topic k others 2 name p.topics l)) [
    | inl e ↦ rw (e, topic_for) (Keeps-quiet (λ h. refl) refl)
    | inr ((r, l'), e) ↦
        rw (e, topic_for)
          (record {
            same_kf = refl;
            same_closing = refl;
            owns = λ o. rw e at (get_or_create-Accounted k others 2 name p.topics l o);
            clients =
                view-get k (balance Kind.clients rk) (blind_clients rk) others 2 name p.topics l e;
          })
  ]

  produce_plain-Keeps :
      (p : Producer) (w : Wanted) (l : Log)
      → let r = produce_plain k others p w l in Keeps rk p l r.0.1 r.1
  unfolding produce_plain
  produce_plain-Keeps p w l =
      let r = topic_for k others p.topics w.topic_name l in
      Keeps-trans (topic_for-Keeps p w.topic_name l) (
        Keeps-quiet
          (λ h. view-produce_to (topics_view h) (topics-Blind h) nif k others r.0.1 w.message r.1)
          (view-produce_to (balance Kind.clients rk) (clients-Blind rk) nif k others r.0.1 w.message
            r.1))

  produce_wanted-Keeps :
      (p : Producer) (w : Wanted) (l : Log)
      → let r = produce_wanted k others p w l in Keeps rk p l r.0.1 r.1
  unfolding produce_wanted
  produce_wanted-Keeps p w l = elim (Bool-cases (is_plain k others w)) [
    | inl e ↦ rw (e, produce_wanted) (produce_plain-Keeps p w l)
    | inr e ↦
        rw (e, produce_wanted)
          (Keeps-quiet (λ h. view-produce_full (topics_view h) (topics-Blind h) nif k others p w l)
            (view-produce_full (balance Kind.clients rk) (clients-Blind rk) nif k others p w l))
  ]

  produce_parsed-Keeps :
      (p : Producer) (e : Exit Wanted) (l : Log)
      → let r = produce_parsed k others nif p e l in Keeps rk p l r.0.1 r.1
  unfolding produce_parsed
  produce_parsed-Keeps p (returns t) l = Keeps-quiet (λ h. refl) refl
  produce_parsed-Keeps p (goes_on w) l = produce_wanted-Keeps p w l

  request-Keeps :
      (p : Producer) (args : Arguments) (l : Log)
      → let q = parse_request nif k args l in
        let r = produce_parsed k others nif p q.0 q.1 in Keeps rk p l r.0.1 r.1
  request-Keeps p args l =
      let q = parse_request nif k args l in
      Keeps-trans
        (Keeps-quiet (λ h. view-parse_request (topics_view h) (topics-Blind h) nif k args l)
          (view-parse_request (balance Kind.clients rk) (clients-Blind rk) nif k args l))
        (produce_parsed-Keeps p q.0 q.1)

  -- What a call leaves of its producer.
  abbrev pub KeepsTo : Producer → Log → Option Producer → Log → Type 0
  KeepsTo p l o l' = (p' : Producer) × (o ≡ some p') × Keeps rk p l p' l'

  answer-KeepsTo :
      (p p' : Producer) (o : Option Term) (l l' : Log)
      → Keeps rk p l p' l'
      → let r = answer k others nif (o, p') l' in KeepsTo p l r.0.1 r.1
  unfolding answer
  answer-KeepsTo p p' none l l' h = (p', refl, h)
  answer-KeepsTo p p' (some t) l l' h = (p', refl, h)

  flush_answer-KeepsTo :
      (p p' : Producer) (o : Option Term) (l l' : Log)
      → Keeps rk p l p' l'
      → let r = flush_answer k others nif (o, p') l' in KeepsTo p l r.0.1 r.1
  unfolding flush_answer
  flush_answer-KeepsTo p p' (some t) l l' h = (p', refl, h)
  flush_answer-KeepsTo p p' none l l' h = (
    p',
    refl,
    Keeps-trans h (
        Keeps-quiet (λ j. (topics-Blind j).on_flush p'.kf 1 l')
          ((clients-Blind rk).on_flush p'.kf 1 l')),
  )

  pub enif_produce-KeepsTo :
      (p : Producer) (args : Arguments) (l : Log)
      → let r = enif_produce k others nif (some p) args l in KeepsTo p l r.0.1 r.1
  unfolding enif_produce
  enif_produce-KeepsTo p args l =
      let q = parse_request nif k args l in
      let r = produce_parsed k others nif p q.0 q.1 in
      answer-KeepsTo p r.0.1 r.0.0 l r.1 (request-Keeps p args l)

  pub enif_produce_sync-KeepsTo :
      (p : Producer) (args : Arguments) (l : Log)
      → let r = enif_produce_sync k others nif (some p) args l in KeepsTo p l r.0.1 r.1
  unfolding enif_produce_sync
  enif_produce_sync-KeepsTo p args l =
      let q = parse_request nif k args l in
      let r = produce_parsed k others nif p q.0 q.1 in
      flush_answer-KeepsTo p r.0.1 r.0.0 l r.1 (request-Keeps p args l)

  produce_entry-Keeps :
      (p : Producer) (name : Bytes) (head : Term) (l : Log)
      → Keeps rk p l p (produce_entry k others nif p name head l).1
  unfolding produce_entry
  produce_entry-Keeps p name head l =
      Keeps-quiet (λ h. grind (arith, (topics-Blind h).on_producev))
        (grind (arith, (clients-Blind rk).on_producev))

  produce_entries-Keeps :
      (p : Producer) (name : Bytes) (list : Term) (l : Log)
      → Keeps rk p l p (produce_entries k others nif p name list l).1
  unfolding produce_entries
  produce_entries-Keeps p name (cell head list) l =
      let r = produce_entry k others nif p name head l in
      elim (Bool-cases r.0) [
        | inl e ↦
            rw (e, produce_entries)
              (Keeps-trans (produce_entry-Keeps p name head l)
                (produce_entries-Keeps p name list r.1))
        | inr e ↦ rw (e, produce_entries) (produce_entry-Keeps p name head l)
      ]
  produce_entries-Keeps p name _ l = Keeps-quiet (λ h. refl) refl

  pub enif_produce_batch-Keeps :
      (p : Producer) (topic_term list : Term) (l : Log)
      → Keeps rk p l p (enif_produce_batch k others nif (some p) topic_term list l).1
  unfolding enif_produce_batch
  enif_produce_batch-Keeps p topic_term list l = elim (Option-cases (get_string nif topic_term)) [
    | inl e ↦ rw (e, enif_produce_batch) (Keeps-quiet (λ h. refl) refl)
    | inr (name, e) ↦ rw (e, enif_produce_batch) (produce_entries-Keeps p name list l)
  ]
