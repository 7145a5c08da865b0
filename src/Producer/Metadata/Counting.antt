-- ===== src/Producer/Metadata/Counting.antt =====
-- c_src/exrdkafka_producer.cc: what `enif_get_partitions_count` answers, and what it leaves behind.
use exrdkafka.Base.{
  ◌+◌, ◌≡◌, ◌∙◌, refl, List, [], ◌∷◌, Option, none, some, arith, inl, inr, ◌⊎◌, Option-cases, ◌==◌,
  ℕ, ◌≢◌,
}
use exrdkafka.Base.Int.{ℤ}
use exrdkafka.Base.Text.{codes}
use exrdkafka.Erl.{Bytes, Term, ErlNif, int, ok_term, Bytes-discrete}
use exrdkafka.Erl.Utils.{make_error_text, get_string, c_str}
use exrdkafka.Rd.{Kafka, Handle, Log, Call, Metadata, TopicMetadata}
use exrdkafka.Rd.Books.{Kind, opened, closed, Owns}
use exrdkafka.Rd.Ledger.{topics_opened, topics_closed, tally}
use exrdkafka.Producer.{Producer}
use exrdkafka.Producer.Metadata.{has_name, first_named, count_partitions, enif_get_partitions_count}

-- The topic stands in the list, has the name, and none before it does.
abbrev pub IsFirst : Bytes → TopicMetadata → List TopicMetadata → Type 0
IsFirst name found [] = ⊥
IsFirst name found (t ∷ ts) =
    ((t ≡ found) × (c_str t.topic ≡ c_str name))
    ⊎ ((c_str t.topic ≢ c_str name) × IsFirst name found ts)

-- No topic of the list has the name.
abbrev pub IsMissing : Bytes → List TopicMetadata → Type 0
IsMissing name [] = Unit {0}
IsMissing name (t ∷ ts) = (c_str t.topic ≢ c_str name) × IsMissing name ts

first_named-cases :
    (name : Bytes) (ts : List TopicMetadata)
    → ((first_named name ts ≡ none) × IsMissing name ts)
      ⊎ ((t : TopicMetadata) × (first_named name ts ≡ some t) × IsFirst name t ts)
unfolding first_named has_name
first_named-cases name [] = inl (refl, tt)
first_named-cases name (t ∷ ts) = elim (Bytes-discrete (c_str t.topic) (c_str name)) [
  | yes e ↦ inr (t, ground (arith, e), inl (refl, e))
  | no e ↦ elim (first_named-cases name ts) [
    | inl (p, q) ↦ inl (ground (arith, e, p), (e, q))
    | inr (found, p, q) ↦ inr (found, ground (arith, e, p), inr (e, q))
  ]
]

-- From `l` to `l'` as many topic handles `h` are created as destroyed, and `left` more.
abbrev pub LeavesTopics : Handle → Log → ℕ → Log → Type 0
LeavesTopics h l left l' =
    topics_opened h l' + topics_closed h l ≡ topics_opened h l + topics_closed h l' + left

module _ (k : Kafka) (nif : ErlNif) (stale : Log → TopicMetadata → ℤ) where
  -- What the function has called by the end if there are metadata.
  abbrev called : Producer → Bytes → Handle → Metadata → Log → Log
  called p name topic m l =
      Call.topic_destroy topic
      ∷ Call.metadata_destroy m.address
      ∷ Call.get_metadata p.kf (some topic) (some m)
      ∷ Call.topic_new p.kf (c_str name) none (some topic)
      ∷ l

  called-topics :
      (h : Handle) (p : Producer) (name : Bytes) (topic : Handle) (m : Metadata) (l : Log)
      → LeavesTopics h l 0 (called p name topic m l)
  unfolding topics_opened topics_closed
  called-topics h p name topic m l = ground arith

  called-metadata :
      (h : Handle) (p : Producer) (name : Bytes) (topic : Handle) (m : Metadata) (l : Log)
      → Owns Kind.metadata h l 0 (called p name topic m l)
  unfolding opened closed
  called-metadata h p name topic m l = ground arith

  count_lem :
      (p : Producer) (topic_term : Term) (name : Bytes) (topic : Handle) (m : Metadata) (l : Log)
      → get_string nif topic_term ≡ some name
      → k.topic_new_answer l p.kf (c_str name) none ≡ some topic
      → k.metadata_answer (Call.topic_new p.kf (c_str name) none (some topic) ∷ l) p.kf (some topic)
        ≡ some m
      → enif_get_partitions_count k stale nif (some p) topic_term l
        ≡ count_partitions k stale name (some topic) m (
            Call.get_metadata p.kf (some topic) (some m)
            ∷ Call.topic_new p.kf (c_str name) none (some topic)
            ∷ l)
  unfolding enif_get_partitions_count
  count_lem p topic_term name topic m l e f g = ground (arith, e, f, g)

  no_metadata :
      (p : Producer) (topic_term : Term) (name : Bytes) (topic : Handle) (l : Log)
      → get_string nif topic_term ≡ some name
      → k.topic_new_answer l p.kf (c_str name) none ≡ some topic
      → k.metadata_answer (Call.topic_new p.kf (c_str name) none (some topic) ∷ l) p.kf (some topic)
        ≡ none
      → enif_get_partitions_count k stale nif (some p) topic_term l ≡ (
        some (make_error_text (codes "failed to get metadata")),
        Call.get_metadata p.kf (some topic) none
            ∷ Call.topic_new p.kf (c_str name) none (some topic)
            ∷ l,
      )
  unfolding enif_get_partitions_count
  no_metadata p topic_term name topic l e f g = ground (arith, e, f, g)

  count_partitions_lem :
      (p : Producer) (name : Bytes) (topic : Handle) (m : Metadata) (l : Log)
      (o : Option TopicMetadata)
      → first_named name m.topics ≡ o
      → let l' = called p name topic m l in
        count_partitions k stale name (some topic) m (
          Call.get_metadata p.kf (some topic) (some m)
          ∷ Call.topic_new p.kf (c_str name) none (some topic)
          ∷ l)
        ≡ elim o [ none ↦ (some ok_term, l') | some t ↦ (some (int (stale l' t)), l') ]
  unfolding count_partitions
  count_partitions_lem p name topic m l o e = rw (e, count_partitions) refl

  -- If the name can be read and librdkafka creates the topic: with metadata for it, both are
  -- destroyed and the answer is a number, read from what was the first topic of that name, or just
  -- ok if there is none; without, the answer is an error and the topic handle is never destroyed.
  pub enif_get_partitions_count-Counts :
      (h : Handle) (p : Producer) (topic_term : Term) (name : Bytes) (topic : Handle) (l : Log)
      → get_string nif topic_term ≡ some name
      → k.topic_new_answer l p.kf (c_str name) none ≡ some topic
      → let l₁ = Call.topic_new p.kf (c_str name) none (some topic) ∷ l in
        let r = enif_get_partitions_count k stale nif (some p) topic_term l in
        ((k.metadata_answer l₁ p.kf (some topic) ≡ none)
          × (r.0 ≡ some (make_error_text (codes "failed to get metadata")))
          × LeavesTopics h l (tally (topic == h) 0) r.1
          × Owns Kind.metadata h l 0 r.1)
        ⊎ ((m : Metadata) × (k.metadata_answer l₁ p.kf (some topic) ≡ some m)
            × (((r.0 ≡ some ok_term) × IsMissing name m.topics)
                ⊎ ((t : TopicMetadata) × (r.0 ≡ some (int (stale r.1 t)))
                    × IsFirst name t m.topics))
            × LeavesTopics h l 0 r.1
            × Owns Kind.metadata h l 0 r.1)
  unfolding topics_opened topics_closed opened closed
  enif_get_partitions_count-Counts h p topic_term name topic l e f =
      let l₁ = Call.topic_new p.kf (c_str name) none (some topic) ∷ l in
      elim (Option-cases (k.metadata_answer l₁ p.kf (some topic))) [
        | inl g ↦
            rw (no_metadata p topic_term name topic l e f g)
              (inl (g, refl, ground arith, ground arith))
        | inr (m, g) ↦
            let same = count_lem p topic_term name topic m l e f g in
            elim (first_named-cases name m.topics) [
              | inl (o, missing) ↦ rw (same ∙ count_partitions_lem p name topic m l none o) (
                  inr (
                    m,
                    g,
                    inl (refl, missing),
                    called-topics h p name topic m l,
                    called-metadata h p name topic m l,
                  ))
              | inr (t, o, first) ↦ rw (same ∙ count_partitions_lem p name topic m l (some t) o) (
                  inr (
                    m,
                    g,
                    inr (t, refl, first),
                    called-topics h p name topic m l,
                    called-metadata h p name topic m l,
                  ))
            ]
      ]
