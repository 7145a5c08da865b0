-- ===== src/Consumer/Life/Closing.antt =====
-- c_src/exrdkafka_consumer.cc: the client of a consumer is closed and destroyed once.
use exrdkafka.Base.{
  ℕ, ◌+◌, ◌≤◌, ◌≡◌, ◌≢◌, refl, ◌∙◌, ap, List, [], ◌∷◌, true, false, Option, none, some, arith,
  ℕ_discrete,
}
use exrdkafka.Base.Assoc.{Fresh}
use exrdkafka.Erl.{Bytes}
use exrdkafka.Rd.{Kafka, Handle, Log}
use exrdkafka.Consumer.Partitions.{Consumer}
use exrdkafka.Consumer.Life.{
  Session, cleanup_consumer, unwatch, finish, close_unclosed, enif_consumer_free, Happening, happen,
  life,
}
use exrdkafka.Consumer.Life.Quiet.{ends}
use exrdkafka.Consumer.Life.Phases.{
  running, scheduled, over, Unwatched, once, cleanings, spent, Orderly, Phase,
  cleanup_consumer-once, unwatch-gone, finish_lem, happen-Goes,
}

module _ (k : Kafka) (rk : Handle) where
  -- A life that ends with the client closed and destroyed once more than before, no longer watched.
  abbrev pub Closes : Option Session × Log → Log → Type 0
  Closes r l =
      (s : Session) × (l' : Log) × (r ≡ (some s, l'))
      × (ends rk l' ≡ once (ends rk l))
      × (s.consumer.kf ≡ none)
      × Unwatched rk s.notifier

  abbrev Ended : (ℕ × ℕ) × (ℕ × ℕ) → Option Session × Log → Type 0
  Ended a r =
      (s' : Session) × (l' : Log) × (r ≡ (some s', l'))
      × (ends rk l' ≡ once a)
      × (s'.consumer.kf ≡ none)
      × Unwatched rk s'.notifier

  pub unclosed_lem :
      (s : Session) (c : Consumer) (l l' : Log)
      → let d = unwatch k (some rk) s.notifier l in
        cleanup_consumer k s.consumer false d.1 ≡ (some c, l')
        → close_unclosed k (some rk) s l ≡ (some (record s { consumer = c; notifier = d.0 }), l')
  unfolding close_unclosed
  unclosed_lem s c l l' run = ground (arith, run)

  pub free_closing :
      (s : Session) (l : Log)
      → s.consumer.closing ≡ true
      → enif_consumer_free k s l
        ≡ finish k s.pending (record s { consumer = record s.consumer { running = false } }) l
  unfolding enif_consumer_free
  free_closing s l q = ground (arith, q)

  free_unclosed :
      (s : Session) (l : Log)
      → s.consumer.kf ≡ some rk
      → s.consumer.closing ≡ false
      → enif_consumer_free k s l
        ≡ close_unclosed k
            (some rk)
            (record s { consumer = record s.consumer { running = false } })
            l
  unfolding enif_consumer_free
  free_unclosed s l p q = ground (arith, p, q)

  life_lem :
      (u : Happening) (us : List Happening) (s s' : Session) (l l' : Log)
      → happen k u s l ≡ (some s', l')
      → life k (u ∷ us) s l ≡ life k us s' l'
  unfolding life
  life_lem u us s s' l l' run = ground (arith, run)

  free-Ended :
      (a : (ℕ × ℕ) × (ℕ × ℕ)) (s : Session) (l : Log)
      → Phase rk a s l
      → Ended a (enif_consumer_free k s l)
  unfolding finish
  free-Ended a s l (running p q r b w) =
      let t = record s { consumer = record s.consumer { running = false } } in
      let d = unwatch k (some rk) s.notifier l in
      let (gone, quiet) = unwatch-gone k rk s.notifier l w in
      let (c', l', run, empty, same, ended) = cleanup_consumer-once k rk t.consumer false d.1 p in
      (
        record t { consumer = c'; notifier = d.0 },
        l',
        free_unclosed s l p q ∙ unclosed_lem t c' l l' run,
        ended ∙ ap once (quiet ∙ b),
        empty,
        gone,
      )
  free-Ended a s l (scheduled p q r b w) =
      let t = record s { consumer = record s.consumer { running = false } } in
      let (c', l', run, empty, same, ended) = cleanup_consumer-once k rk t.consumer true l p in
      (
        record t { consumer = c'; pending = 0 },
        l',
        free_closing s l q ∙ finish_lem k rk t c' 0 l l' r run,
        ended ∙ ap once b,
        empty,
        w,
      )
  free-Ended a s l (over p q r b w) =
      let t = record s { consumer = record s.consumer { running = false } } in
      (t, l, free_closing s l q ∙ rw (r, finish) refl, b, p, w)

  life-Ended :
      (us : List Happening) (a : (ℕ × ℕ) × (ℕ × ℕ)) (s : Session) (l : Log)
      → Phase rk a s l
      → spent s.consumer.closing + cleanings us ≤ 1
      → Orderly (spent s.consumer.closing) us
      → ((l' : Log) (name : Bytes) → k.topic_new_answer l' rk name none ≢ none)
      → Ended a (life k us s l)
  unfolding life
  life-Ended [] a s l ph few fits makes = free-Ended a s l ph
  life-Ended (u ∷ us) a s l ph few fits makes =
      let (s', l', run, ph', now) = happen-Goes k rk a u s l ph (omega arith) fits.0 makes in
      rw (life_lem u us s s' l l' run)
        (life-Ended us a s' l' ph' (omega (arith, now)) (rw now fits.1) makes)

  -- Rebalances, clean-ups and destructors of queues, stores of offsets, completed revocations, the
  -- clean-up of a consumer and the run of it, in any order after `enif_consumer_new`: if the consumer
  -- is cleaned up at most once, no offset is stored and no revocation completed after that, and
  -- librdkafka makes each topic that it is asked for, then by the end of the destructor the client was
  -- closed and destroyed exactly once, none of these calls handed NULL to librdkafka, and the client
  -- is no longer watched.
  pub life-Closes :
      (us : List Happening) (s : Session) (l : Log)
      → s.consumer.kf ≡ some rk
      → s.consumer.closing ≡ false
      → s.pending ≡ 0
      → Fresh ℕ_discrete s.notifier.objects
      → cleanings us ≤ 1
      → Orderly 0 us
      → ((l' : Log) (name : Bytes) → k.topic_new_answer l' rk name none ≢ none)
      → Closes (life k us s l) l
  life-Closes us s l p q r w few orderly makes =
      life-Ended us (ends rk l) s l (running p q r refl w) (ground (arith, q, few)) (rw q orderly)
        makes
