-- ===== src/Consumer/Life/Forwarding.antt =====
-- c_src/exrdkafka_consumer.cc: "make sure queues are forwarded back on the main queue before closing".
use exrdkafka.Base.{
  zero, suc, refl, List, [], ◌∷◌, Bool, true, false, Option, none, some, inl, inr, ℕ, Bool-cases,
  Option-cases, ℕ_discrete,
}
use exrdkafka.Base.Assoc.{find}
use exrdkafka.Rd.{Kafka, Handle, Log, Call}
use exrdkafka.Queues.{clear_all}
use exrdkafka.Queues.Routing.{route}
use exrdkafka.Dispatcher.{Dispatcher, remove, enable_events}
use exrdkafka.Erl.{Term}
use exrdkafka.Consumer.Partitions.{Consumer, enif_consumer_partition_revoke_completed}
use exrdkafka.Consumer.Partitions.Assignment.{Routed-pass}
use exrdkafka.Consumer.Life.{
  Session, stop_feedback, cleanup_consumer, unwatch, enif_consumer_cleanup, finish, close_unclosed,
  enif_consumer_free, Happening, rebalances, cleans_queue, frees_queue, cleans, finishes, happen,
  life, answered, completes_revoke, stores_offset, enif_consumer_offset_store,
}
use exrdkafka.Consumer.Life.Uses.{Survives, revoke_completed-Survives, offset_store-Survives}
use exrdkafka.Consumer.Life.Guarded.{
  Clean, Guarded, Passes, Passes-trans, Guarded-pass, clear_all-Guarded, queue_free-Guarded,
  queue_cleanup-Guarded, rebalance_cb-Guarded,
}

-- What holds after a step: with NULL handed to librdkafka the log alone counts.
abbrev After : Handle → Option Session × Log → Type 0
After h (none, l) = Clean h l
After h (some s, l) = Guarded h s.consumer.qm l

abbrev AfterConsumer : Handle → Option Consumer × Log → Type 0
AfterConsumer h (none, l) = Clean h l
AfterConsumer h (some c, l) = Guarded h c.qm l

module _ (k : Kafka) (h : Handle) where
  feedback-Passes :
      (feedback : Bool) (owner : ℕ) (l : Log) → Passes l (stop_feedback feedback owner l)
  unfolding stop_feedback route Clean
  feedback-Passes false owner l = record { routes = λ r j. refl; cleans = λ r x. x }
  feedback-Passes true owner l = record { routes = λ r j. refl; cleans = λ r x. x }

  cleanup_consumer-After :
      (c : Consumer) (feedback : Bool) (l : Log)
      → Guarded h c.qm l
      → AfterConsumer h (cleanup_consumer k c feedback l)
  unfolding cleanup_consumer route Clean
  cleanup_consumer-After c feedback l g =
      let (g', home) = clear_all-Guarded k h c.qm l g in
      elim (Option-cases c.kf) [
        | inl e ↦ rw (e, cleanup_consumer) g'.clean
        | inr (kf, e) ↦
            let l' = Call.client_destroy kf ∷ Call.consumer_close kf ∷ (clear_all k c.qm l).1 in
            let closed : Guarded h (clear_all k c.qm l).0 l' = record {
              same = g'.same;
              routed = Routed-pass _ _ _ (λ q. refl) g'.routed;
              clean = (home, g'.clean);
            } in
            rw (e, cleanup_consumer)
              (Guarded-pass h _ _ _ (feedback-Passes feedback c.owner l') closed)
      ]

  remove-Passes : (rk : Handle) (d : Dispatcher) (l : Log) → Passes l (remove k rk d l).1
  unfolding remove enable_events route Clean
  remove-Passes rk d l = elim (Option-cases (find ℕ_discrete rk d.objects)) [
    | inl e ↦ rw (e, remove) (record { routes = λ r j. refl; cleans = λ r x. x })
    | inr (it, e) ↦ elim (Bool-cases it.is_consumer) [
      | inl b ↦
          rw (e, b, remove, enable_events) (record { routes = λ r j. refl; cleans = λ r x. x })
      | inr b ↦
          rw (e, b, remove, enable_events) (record { routes = λ r j. refl; cleans = λ r x. x })
    ]
  ]

  unwatch-Passes : (o : Option Handle) (d : Dispatcher) (l : Log) → Passes l (unwatch k o d l).1
  unfolding unwatch
  unwatch-Passes none d l = record { routes = λ r j. refl; cleans = λ r x. x }
  unwatch-Passes (some kf) d l = remove-Passes kf d l

  -- A session with the consumer that a run of the clean-up leaves.
  session-After :
      (d : Dispatcher) (n : ℕ) (o : Option Consumer) (l : Log)
      → AfterConsumer h (o, l)
      → After h (elim o [
        | none ↦ (none, l)
        | some c ↦ (some (record { consumer = c; notifier = d; pending = n }), l)
      ])
  session-After d n none l a = a
  session-After d n (some c) l a = a

  finish-After :
      (n : ℕ) (s : Session) (l : Log) → Guarded h s.consumer.qm l → After h (finish k n s l)
  unfolding finish
  finish-After zero s l g = g
  finish-After (suc n) s l g =
      let r = cleanup_consumer k s.consumer true l in
      session-After s.notifier n r.0 r.1 (cleanup_consumer-After s.consumer true l g)

  unclosed-After :
      (o : Option Handle) (s : Session) (l : Log)
      → Guarded h s.consumer.qm l
      → After h (close_unclosed k o s l)
  unfolding close_unclosed
  unclosed-After none s l g = g
  unclosed-After (some kf) s l g =
      let d = unwatch k (some kf) s.notifier l in
      let g' = Guarded-pass h _ _ _ (unwatch-Passes (some kf) s.notifier l) g in
      let r = cleanup_consumer k s.consumer false d.1 in
      session-After d.0 s.pending r.0 r.1 (cleanup_consumer-After s.consumer false d.1 g')

  free-After :
      (s : Session) (l : Log) → Guarded h s.consumer.qm l → After h (enif_consumer_free k s l)
  unfolding enif_consumer_free
  free-After s l g =
      let t : Session = record s { consumer = record s.consumer { running = false } } in
      elim (Bool-cases s.consumer.closing) [
        | inl closing ↦ rw (closing, enif_consumer_free) (finish-After s.pending t l g)
        | inr unclosed ↦ rw (unclosed, enif_consumer_free) (unclosed-After s.consumer.kf t l g)
      ]

  Passes-refl : (l : Log) → Passes l l
  Passes-refl l = record { routes = λ r j. refl; cleans = λ r x. x }

  passes : (l : Log) → Survives (Passes l)
  unfolding route Clean
  passes l = record {
    news = λ rk name o l' p.
        Passes-trans l l' _ p (record { routes = λ r j. refl; cleans = λ r x. x });
    destroys = λ t l' p. Passes-trans l l' _ p (record { routes = λ r j. refl; cleans = λ r x. x });
    stores =
        λ t i j l' p. Passes-trans l l' _ p (record { routes = λ r q. refl; cleans = λ r x. x });
    assigns = λ rk l' p. Passes-trans l l' _ p (record { routes = λ r j. refl; cleans = λ r x. x });
  }

  answered-After :
      (s : Session) (o : Option Term) (l : Log)
      → Guarded h s.consumer.qm l
      → After h (answered s o, l)
  unfolding answered
  answered-After s none l g = g.clean
  answered-After s (some t) l g = g

  happen-After :
      (u : Happening) (s : Session) (l : Log) → Guarded h s.consumer.qm l → After h (happen k u s l)
  unfolding happen enif_consumer_cleanup
  happen-After (rebalances log_pid rk code partitions) s l g =
      rebalance_cb-Guarded k h log_pid s.consumer rk code partitions l g
  happen-After (cleans_queue q) s l g = queue_cleanup-Guarded k h s.consumer q l g
  happen-After (frees_queue q) s l g = queue_free-Guarded k h s.consumer q l g
  happen-After completes_revoke s l g =
      let r = enif_consumer_partition_revoke_completed k (some s.consumer) l in
      let p = revoke_completed-Survives k (Passes l) (passes l) s.consumer l (Passes-refl l) in
      answered-After s r.0 r.1 (Guarded-pass h _ _ _ p g)
  happen-After (stores_offset nif a b c) s l g =
      let r = enif_consumer_offset_store k nif (some s.consumer) a b c l in
      let p =
        offset_store-Survives k (Passes l) (passes l) nif s.consumer a b c l (Passes-refl l) in
      answered-After s r.0 r.1 (Guarded-pass h _ _ _ p g)
  happen-After cleans s l g = Guarded-pass h _ _ _ (unwatch-Passes s.consumer.kf s.notifier l) g
  happen-After finishes s l g = finish-After s.pending s l g

  go_on :
      (us : List Happening) (o : Option Session) (l : Log)
      → ((s : Session) → Guarded h s.consumer.qm l → Clean h (life k us s l).1)
      → After h (o, l)
      → let r : Option Session × Log = elim o [ none ↦ (none, l) | some s ↦ life k us s l ] in
        Clean h r.1
  go_on us none l rest a = a
  go_on us (some s) l rest a = rest s a

  ended : (o : Option Session) (l : Log) → After h (o, l) → Clean h l
  ended none l a = a
  ended (some s) l a = a.clean

  -- Whatever happens to a consumer whose manager is that of the client `h` and holds exactly its
  -- detached queues: if no queue was detached whenever a consumer was closed before, then none is
  -- whenever one is closed up to the end of the destructor.
  pub life-Clean :
      (us : List Happening) (s : Session) (l : Log)
      → Guarded h s.consumer.qm l
      → Clean h (life k us s l).1
  unfolding life
  life-Clean [] s l g = let r = enif_consumer_free k s l in ended r.0 r.1 (free-After s l g)
  life-Clean (u ∷ us) s l g =
      let r = happen k u s l in
      go_on us r.0 r.1 (λ s' g'. life-Clean us s' r.1 g') (happen-After u s l g)
