-- ===== src/Producer/Delivery.antt =====
-- c_src/exrdkafka_producer.cc: which messages `enif_produce` and `enif_produce_sync` hand over.
use exrdkafka.Base.{
  ◌≡◌, refl, ◌∙◌, ◌⊎◌, List, ◌∷◌, true, false, Option, none, some, inl, inr, Bool-cases, arith,
}
use exrdkafka.Base.Int.{pos, is_zero, is_zero-eq}
use exrdkafka.Erl.{Bytes, Term, ErlNif, ok_term, int}
use exrdkafka.Erl.Utils.{make_error}
use exrdkafka.Rd.{Kafka, Handle, Log, Call}
use exrdkafka.Rd.Ledger.{accepted}
use exrdkafka.Producer.{
  Producer, Others, is_plain, produce_wanted, produce_parsed, enif_produce, answer, flush_answer,
  enif_produce_sync,
}
use exrdkafka.Producer.Request.{Arguments, Wanted, Exit, returns, goes_on, parse_request}
use exrdkafka.Producer.Described.{request_of, Filled, Described}
use exrdkafka.Producer.Outcomes.{
  Takes, Refused, Outcome, OutcomeFull, described, bare_lem, produce_plain-Outcome,
  produce_full-Outcome,
}
use exrdkafka.Producer.Reading.{Reads, parse_request-Reads, parse_request-accepted}

-- A request is what the arguments describe.
abbrev Describes : ErlNif → Arguments → Wanted → List (Bytes × Bytes) → Type 0
Describes nif args w hs = request_of nif args ≡ some (described w hs)

module _ (k : Kafka) (others : Others) where
  module _ (nif : ErlNif) where
    -- What a call without a flush did to the messages: it took the one that the arguments describe
    -- or, with an error, none.
    abbrev pub Delivers : Producer → Arguments → Log → Option Term → Producer → Log → Type 0
    Delivers p args l none p' l' =
        (d : Described) × (request_of nif args ≡ some d) × Takes d p l p' l'
    Delivers p args l (some t) p' l' = Refused l t l'

    plain-Delivers :
        (p p' : Producer) (args : Arguments) (w : Wanted) (hs : List (Bytes × Bytes))
        (l₀ l l' : Log) (o : Option Term)
        → is_plain k others w ≡ true
        → accepted l ≡ accepted l₀
        → Describes nif args w hs
        → Filled hs w.headers l₀ l
        → Outcome p w l o p' l'
        → Delivers p args l₀ o p' l'
    plain-Delivers p p' args w hs l₀ l l' none bare quiet read filled
          (kf, topic, found, before, log, same) =
        (
          described w hs,
          read,
          inl (
            bare_lem k others w hs l₀ l filled ∙ bare,
            kf,
            topic,
            found,
            before,
            log,
            same ∙ quiet,
          ),
        )
    plain-Delivers p p' args w hs l₀ l l' (some t) bare quiet read filled (failed, same) =
        (failed, same ∙ quiet)

    full-Delivers :
        (p : Producer) (args : Arguments) (w : Wanted) (hs : List (Bytes × Bytes)) (l₀ l l' : Log)
        (o : Option Term)
        → is_plain k others w ≡ false
        → accepted l ≡ accepted l₀
        → Describes nif args w hs
        → Filled hs w.headers l₀ l
        → OutcomeFull p w l o l'
        → Delivers p args l₀ o p l'
    full-Delivers p args w hs l₀ l l' none full quiet read filled log = (
      described w hs,
      read,
      inr (bare_lem k others w hs l₀ l filled ∙ full, refl, w.headers, l, filled, log),
    )
    full-Delivers p args w hs l₀ l l' (some t) full quiet read filled (failed, same) =
        (failed, same ∙ quiet)

    parsed-Delivers :
        (p : Producer) (args : Arguments) (e : Exit Wanted) (l₀ l : Log)
        → Reads nif k args l₀ e l
        → accepted l ≡ accepted l₀
        → let r = produce_parsed k others nif p e l in Delivers p args l₀ r.0.0 r.0.1 r.1
    unfolding produce_parsed produce_wanted
    parsed-Delivers p args (returns t) l₀ l h same = (rw h refl, same)
    parsed-Delivers p args (goes_on w) l₀ l (hs, read, filled) same =
        elim (Bool-cases (is_plain k others w)) [
          | inl e ↦
              rw (e, produce_parsed, produce_wanted)
                (plain-Delivers p _ args w hs l₀ l _ _ e same read filled
                  (produce_plain-Outcome k others p w l))
          | inr e ↦
              rw (e, produce_parsed, produce_wanted)
                (full-Delivers p args w hs l₀ l _ _ e same read filled
                  (produce_full-Outcome k others p w l))
        ]

    request-Delivers :
        (p : Producer) (args : Arguments) (l : Log)
        → let q = parse_request nif k args l in
          let r = produce_parsed k others nif p q.0 q.1 in Delivers p args l r.0.0 r.0.1 r.1
    request-Delivers p args l =
        let q = parse_request nif k args l in
        parsed-Delivers p args q.0 l q.1 (parse_request-Reads nif k args l)
          (parse_request-accepted nif k args l)

    -- Ok with the message taken, or an error with none taken.
    abbrev pub Delivered : Producer → Arguments → Log → (Term × Option Producer) × Log → Type 0
    Delivered p args l r =
        ((r.0.0 ≡ ok_term)
          × (d : Described) × (p' : Producer) × (request_of nif args ≡ some d)
          × (r.0.1 ≡ some p')
          × Takes d p l p' r.1)
        ⊎ Refused l r.0.0 r.1

    answer-Delivered :
        (o : Option Term) (p p' : Producer) (args : Arguments) (l₀ l : Log)
        → Delivers p args l₀ o p' l
        → Delivered p args l₀ (answer k others nif (o, p') l)
    unfolding answer
    answer-Delivered none p p' args l₀ l (d, e, h) = inl (refl, d, p', e, refl, h)
    answer-Delivered (some t) p p' args l₀ l h = inr h

    -- `enif_produce` on a producer either answers ok and librdkafka has taken one message, the one
    -- that the arguments describe, with its topic, its headers and its timestamp, or it answers an
    -- error and no message was taken.
    pub enif_produce-Delivered :
        (p : Producer) (args : Arguments) (l : Log)
        → Delivered p args l (enif_produce k others nif (some p) args l)
    unfolding enif_produce
    enif_produce-Delivered p args l =
        let q = parse_request nif k args l in
        let r = produce_parsed k others nif p q.0 q.1 in
        answer-Delivered r.0.0 p r.0.1 args l r.1 (request-Delivers p args l)

    -- What the flush answers: 0, and the function ok, or an error code, and the function that error.
    abbrev pub Flushed : Handle → Log → Term → Type 0
    Flushed kf l t =
        ((k.flush_answer l kf 1 ≡ pos 0) × (t ≡ ok_term))
        ⊎ ((is_zero (k.flush_answer l kf 1) ≡ false)
            × (t ≡ make_error (int (k.flush_answer l kf 1))))

    -- The message taken and then a flush, or an error with none taken.
    abbrev pub DeliveredFlushed :
        Producer → Arguments → Log → (Term × Option Producer) × Log → Type 0
    DeliveredFlushed p args l r =
        ((d : Described) × (p' : Producer) × (l' : Log) × (request_of nif args ≡ some d)
          × (r.0.1 ≡ some p')
          × Takes d p l p' l'
          × (r.1 ≡ Call.flush p'.kf 1 ∷ l')
          × Flushed p'.kf l' r.0.0)
        ⊎ Refused l r.0.0 r.1

    flush_answer-Delivered :
        (o : Option Term) (p p' : Producer) (args : Arguments) (l₀ l : Log)
        → Delivers p args l₀ o p' l
        → DeliveredFlushed p args l₀ (flush_answer k others nif (o, p') l)
    unfolding flush_answer
    flush_answer-Delivered none p p' args l₀ l (d, e, h) =
        let answer = k.flush_answer l p'.kf 1 in
        elim (Bool-cases (is_zero answer)) [
          | inl ok ↦
              inl (d, p', l, e, refl, h, refl, inl (is_zero-eq answer ok, ground (arith, ok)))
          | inr late ↦ inl (d, p', l, e, refl, h, refl, inr (late, ground (arith, late)))
        ]
    flush_answer-Delivered (some t) p p' args l₀ l h = inr h

    -- `enif_produce_sync` on a producer either answers an error and no message was taken, or librdkafka
    -- has taken one message, the one that the arguments describe, with its topic, its headers and its
    -- timestamp; then its last call is a flush, and it answers ok if that succeeds, but the error of
    -- the flush if it does not, although the message was taken.
    pub enif_produce_sync-Delivered :
        (p : Producer) (args : Arguments) (l : Log)
        → DeliveredFlushed p args l (enif_produce_sync k others nif (some p) args l)
    unfolding enif_produce_sync
    enif_produce_sync-Delivered p args l =
        let q = parse_request nif k args l in
        let r = produce_parsed k others nif p q.0 q.1 in
        flush_answer-Delivered r.0.0 p r.0.1 args l r.1 (request-Delivers p args l)
