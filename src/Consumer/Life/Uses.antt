-- ===== src/Consumer/Life/Uses.antt =====
-- c_src/exrdkafka_consumer.cc: the two calls that hand the client of a consumer to librdkafka.
use exrdkafka.Base.{◌≡◌, ◌≢◌, refl, ◌⊎◌, ◌∷◌, Option, none, some, inl, inr, Option-cases}
use exrdkafka.Base.Int.{ℤ}
use exrdkafka.Erl.{Bytes, Term, ErlNif}
use exrdkafka.Erl.Utils.{c_str, get_string}
use exrdkafka.Rd.{Kafka, Handle, Log, Call}
use exrdkafka.Consumer.Partitions.{Consumer, enif_consumer_partition_revoke_completed}
use exrdkafka.Consumer.Life.{Session, answered, store_offset, enif_consumer_offset_store}

-- The session is as it was, or NULL was handed to librdkafka.
pub answered_step :
    (P : Session → Type 0) (s : Session) (o : Option Term)
    → P s
    → (answered s o ≡ none) ⊎ ((t : Session) × (answered s o ≡ some t) × P t)
unfolding answered
answered_step P s none p = inl refl
answered_step P s (some t) p = inr (s, refl, p)

-- A predicate on logs that the calls of the two functions keep.
pub record Survives (P : Log → Type 0) : Type 0 where
  pub news :
      (rk : Handle) (name : Bytes) (o : Option Handle) (l : Log)
      → P l
      → P (Call.topic_new rk name none o ∷ l)
  pub destroys : (topic : Handle) (l : Log) → P l → P (Call.topic_destroy topic ∷ l)
  pub stores :
      (topic : Handle) (partition offset : ℤ) (l : Log)
      → P l
      → P (Call.offset_store topic partition offset ∷ l)
  pub assigns : (rk : Handle) (l : Log) → P l → P (Call.assign rk none ∷ l)

module _ (k : Kafka) (P : Log → Type 0) (v : Survives P) where
  pub revoke_completed-Survives :
      (c : Consumer) (l : Log) → P l → P (enif_consumer_partition_revoke_completed k (some c) l).1
  unfolding enif_consumer_partition_revoke_completed
  revoke_completed-Survives c l p = elim (Option-cases c.kf) [
    | inl e ↦ rw (e, enif_consumer_partition_revoke_completed) p
    | inr (rk, e) ↦ rw (e, enif_consumer_partition_revoke_completed) (v.assigns rk l p)
  ]

  store_offset-Survives :
      (rk : Handle) (name : Bytes) (partition offset : ℤ) (l : Log)
      → P l
      → P (store_offset k rk name partition offset l).1
  unfolding store_offset
  store_offset-Survives rk name partition offset l p =
      elim (Option-cases (k.topic_new_answer l rk (c_str name) none)) [
        | inl e ↦ rw (e, store_offset) (v.news rk (c_str name) _ l p)
        | inr (topic, e) ↦
            rw (e, store_offset)
              (v.destroys topic _
                (v.stores topic partition offset _ (v.news rk (c_str name) _ l p)))
      ]

  pub offset_store-Survives :
      (nif : ErlNif) (c : Consumer) (topic_term partition_term offset_term : Term) (l : Log)
      → P l
      → P (enif_consumer_offset_store k nif (some c) topic_term partition_term offset_term l).1
  unfolding enif_consumer_offset_store
  offset_store-Survives nif c topic_term partition_term offset_term l p =
      elim (Option-cases (get_string nif topic_term)) [
        | inl e ↦ rw (e, enif_consumer_offset_store) p
        | inr (name, e) ↦ elim (Option-cases (nif.get_int partition_term)) [
          | inl f ↦ rw (e, f, enif_consumer_offset_store) p
          | inr (partition, f) ↦ elim (Option-cases (nif.get_int64 offset_term)) [
            | inl g ↦ rw (e, f, g, enif_consumer_offset_store) p
            | inr (offset, g) ↦ elim (Option-cases c.kf) [
              | inl h ↦ rw (e, f, g, h, enif_consumer_offset_store) p
              | inr (rk, h) ↦
                  rw (e, f, g, h, enif_consumer_offset_store)
                    (store_offset-Survives rk name partition offset l p)
            ]
          ]
        ]
      ]

-- A function that did not hand NULL to librdkafka.
abbrev pub Answers : Option Term × Log → Type 0
Answers r = (t : Term) × (r.0 ≡ some t)

module _ (k : Kafka) (c : Consumer) (rk : Handle) (open_client : c.kf ≡ some rk) where
  pub revoke_completed-Answers :
      (l : Log) → Answers (enif_consumer_partition_revoke_completed k (some c) l)
  unfolding enif_consumer_partition_revoke_completed
  revoke_completed-Answers l = rw (open_client, enif_consumer_partition_revoke_completed) (_, refl)

  -- Where librdkafka makes a topic.
  pub offset_store-Answers :
      ((l : Log) (name : Bytes) → k.topic_new_answer l rk name none ≢ none)
      → (nif : ErlNif) (topic_term partition_term offset_term : Term) (l : Log)
      → Answers (enif_consumer_offset_store k nif (some c) topic_term partition_term offset_term l)
  unfolding enif_consumer_offset_store store_offset
  offset_store-Answers makes nif topic_term partition_term offset_term l =
      elim (Option-cases (get_string nif topic_term)) [
        | inl e ↦ rw (e, enif_consumer_offset_store) (_, refl)
        | inr (name, e) ↦ elim (Option-cases (nif.get_int partition_term)) [
          | inl f ↦ rw (e, f, enif_consumer_offset_store) (_, refl)
          | inr (partition, f) ↦ elim (Option-cases (nif.get_int64 offset_term)) [
            | inl g ↦ rw (e, f, g, enif_consumer_offset_store) (_, refl)
            | inr (offset, g) ↦ elim (Option-cases (k.topic_new_answer l rk (c_str name) none)) [
              | inl bad ↦ absurd (makes l (c_str name) bad)
              | inr (topic, h) ↦
                  rw (e, f, g, open_client, h, enif_consumer_offset_store, store_offset) (_, refl)
            ]
          ]
        ]
      ]
