-- ===== src/Consumer/Life/Offset.antt =====
-- c_src/exrdkafka_consumer.cc: what `enif_consumer_offset_store` answers and leaves behind.
use exrdkafka.Base.{
  ◌+◌, ◌≡◌, ◌⊎◌, ◌∷◌, Option, none, some, arith, inl, inr, Option-cases, true, false,
}
use exrdkafka.Base.Int.{ℤ, is_zero}
use exrdkafka.Erl.{Bytes, Term, ErlNif, ok_term, raw}
use exrdkafka.Erl.Utils.{c_str, get_string, make_error}
use exrdkafka.Rd.{Kafka, Handle, Log, Call}
use exrdkafka.Rd.Ledger.{topics_opened, topics_closed}
use exrdkafka.Consumer.Partitions.{Consumer}
use exrdkafka.Consumer.Life.{store_offset, enif_consumer_offset_store}

-- From `l` to `l'` as many topic handles `h` are created as destroyed.
abbrev pub KeepsTopics : Handle → Log → Log → Type 0
KeepsTopics h l l' = topics_opened h l' + topics_closed h l ≡ topics_opened h l + topics_closed h l'

module _ (k : Kafka) (nif : ErlNif) where
  -- What the function may answer: NULL for the client or the topic reached librdkafka, or it is
  -- what librdkafka says of the offset, and the topic handle is destroyed again.
  abbrev pub Stores : Handle → Handle → Bytes → ℤ → ℤ → Log → Option Term × Log → Type 0
  Stores h rk name partition offset l r =
      ((k.topic_new_answer l rk (c_str name) none ≡ none) × (r.0 ≡ none))
      ⊎ ((topic : Handle) × (k.topic_new_answer l rk (c_str name) none ≡ some topic)
          × KeepsTopics h l r.1
          × (let l' = Call.topic_new rk (c_str name) none (some topic) ∷ l in
              let err = k.offset_store_answer l' topic partition offset in
              ((is_zero err ≡ true) × (r.0 ≡ some ok_term))
              ⊎ ((is_zero err ≡ false) × (r.0 ≡ some (make_error (raw err))))))

  store_offset-Stores :
      (h rk : Handle) (name : Bytes) (partition offset : ℤ) (l : Log)
      → Stores h rk name partition offset l (store_offset k rk name partition offset l)
  unfolding store_offset topics_opened topics_closed
  store_offset-Stores h rk name partition offset l =
      elim (Option-cases (k.topic_new_answer l rk (c_str name) none)) [
        | inl e ↦ inl (e, ground (arith, e))
        | inr (topic, e) ↦ inr (topic, e, ground (arith, e), ground (arith, e))
      ]

  -- If the name, the partition and the offset can be read: with the client gone, or if librdkafka
  -- creates no topic, NULL is handed to librdkafka; otherwise the topic handle is destroyed again
  -- and the answer is ok if librdkafka took the offset, and else an error with its code as it is.
  pub enif_consumer_offset_store-Stores :
      (h : Handle) (c : Consumer) (topic_term partition_term offset_term : Term) (name : Bytes)
      (partition offset : ℤ) (l : Log)
      → get_string nif topic_term ≡ some name
      → nif.get_int partition_term ≡ some partition
      → nif.get_int64 offset_term ≡ some offset
      → let r = enif_consumer_offset_store k nif (some c) topic_term partition_term offset_term l in
        ((c.kf ≡ none) × (r.0 ≡ none))
        ⊎ ((rk : Handle) × (c.kf ≡ some rk) × Stores h rk name partition offset l r)
  unfolding enif_consumer_offset_store
  enif_consumer_offset_store-Stores h c topic_term partition_term offset_term name partition offset
        l e f g =
      elim (Option-cases c.kf) [
        | inl none_left ↦ inl (none_left, ground (arith, e, f, g, none_left))
        | inr (rk, has) ↦ inr (
          rk,
          has,
          rw (e, f, g, has, enif_consumer_offset_store)
              (store_offset-Stores h rk name partition offset l),
        )
      ]
