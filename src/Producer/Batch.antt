-- ===== src/Producer/Batch.antt =====
-- c_src/exrdkafka_producer.cc: `enif_produce_batch` against reading the list first.
use exrdkafka.Base.{
  ◌≡◌, refl, ap, List, [], ◌∷◌, Bool, true, false, Option, none, some, arith, inl, inr,
  Option-cases, rev_onto, if◌then◌else◌,
}
use exrdkafka.Erl.{Bytes, Term, ErlNif, cell, get_tuple3, ok_term}
use exrdkafka.Erl.Utils.{get_string, make_badarg}
use exrdkafka.Rd.{Kafka, Log, Outgoing}
use exrdkafka.Rd.Ledger.{attempted}
use exrdkafka.Producer.{Producer, Others, produce_entry, produce_entries, enif_produce_batch}

module _ (nif : ErlNif) where
  -- An entry: key, value and partition.
  unfoldable pub batch_entry : Term → Option Outgoing
  batch_entry head = elim (get_tuple3 head) [
    | none ↦ none
    | some (a, b, c) ↦ elim (get_string nif a) [
      | none ↦ none
      | some key ↦ elim (get_string nif b) [
        | none ↦ none
        | some value ↦ elim (nif.get_int c) [
          | none ↦ none
          | some partition ↦
              some (record { partition = partition; key = some key; value = some value })
        ]
      ]
    ]
  ]

  -- The entries before the first that is none.
  unfoldable pub good_prefix : Term → List Outgoing
  good_prefix (cell head list) = elim (batch_entry head) [
    | none ↦ []
    | some m ↦ m ∷ good_prefix list
  ]
  good_prefix _ = []

  unfoldable pub all_good : Term → Bool
  all_good (cell head list) = elim (batch_entry head) [ none ↦ false | some m ↦ all_good list ]
  all_good _ = true

  module _ (k : Kafka) (others : Others) (p : Producer) (name : Bytes) where
    entry_bad :
        (head : Term) (l : Log)
        → batch_entry head ≡ none
        → produce_entry k others nif p name head l ≡ (false, l)
    unfolding produce_entry batch_entry
    entry_bad head l e = ground arith

    entry_good :
        (head : Term) (m : Outgoing) (l : Log)
        → batch_entry head ≡ some m
        → let r = produce_entry k others nif p name head l in
          (r.0 ≡ true) × (attempted r.1 ≡ m ∷ attempted l)
    unfolding produce_entry batch_entry attempted
    entry_good head m l e = ground arith

    entries_lem :
        (list : Term) (l : Log)
        → let r = produce_entries k others nif p name list l in
          (r.0 ≡ (if all_good list then ok_term else make_badarg))
          × (attempted r.1 ≡ rev_onto (good_prefix list) (attempted l))
    unfolding produce_entries all_good good_prefix
    entries_lem (cell head list) l = elim (Option-cases (batch_entry head)) [
      | inl e ↦ ground (arith, entry_bad head l e)
      | inr (m, e) ↦
          let (good, taken) = entry_good head m l e in
          let ih = entries_lem list (produce_entry k others nif p name head l).1 in
          ground (arith, ih, ap (rev_onto (good_prefix list)) taken)
    ]
    entries_lem _ l = (refl, refl)

  -- `enif_produce_batch` hands over, in order, exactly the entries before the first one that is not
  -- a triple of two texts and an integer. It answers ok if there is no such entry and badarg if
  -- there is one, whatever librdkafka answers.
  pub enif_produce_batch-prefix :
      (k : Kafka) (others : Others) (p : Producer) (topic_term list : Term) (name : Bytes) (l : Log)
      → get_string nif topic_term ≡ some name
      → let r = enif_produce_batch k others nif (some p) topic_term list l in
        (r.0 ≡ (if all_good list then ok_term else make_badarg))
        × (attempted r.1 ≡ rev_onto (good_prefix list) (attempted l))
  unfolding enif_produce_batch
  enif_produce_batch-prefix k others p topic_term list name l e =
      rw (e, enif_produce_batch) (entries_lem k others p name list l)
