-- ===== src/Consumer/Life/Twice.antt =====
-- c_src/exrdkafka_consumer.cc: a consumer that is cleaned up again after the run of its clean-up.
use exrdkafka.Base.{
  ℕ, zero, suc, ◌≡◌, ◌⊎◌, refl, ap, ◌∙◌, List, [], ◌∷◌, ◌++◌, Bool, true, false, none, some, arith,
  inl, inr, Option-cases,
}
use exrdkafka.Rd.{Kafka, Log}
use exrdkafka.Consumer.Partitions.{
  Consumer, enif_queue_free, enif_consumer_queue_cleanup, enif_consumer_partition_revoke_completed,
}
use exrdkafka.Consumer.Life.{
  Session, cleanup_consumer, enif_consumer_cleanup, finish, enif_consumer_free, Happening,
  rebalances, cleans_queue, frees_queue, completes_revoke, stores_offset,
  enif_consumer_offset_store, cleans, finishes, happen, life,
}
use exrdkafka.Consumer.Life.Uses.{answered_step}
use exrdkafka.Consumer.Life.Quiet.{rebalance_cb-ends}

-- The client is gone, and a run of the clean-up is still to come.
record Doomed (s : Session) : Type 0 where
  empty : s.consumer.kf ≡ none
  closing : s.consumer.closing ≡ true
  waiting : (n : ℕ) × (s.pending ≡ suc n)

module _ (k : Kafka) where
  cleanup_consumer-null :
      (c : Consumer) (feedback : Bool) (l : Log)
      → c.kf ≡ none
      → (cleanup_consumer k c feedback l).0 ≡ none
  unfolding cleanup_consumer
  cleanup_consumer-null c feedback l e = rw (e, cleanup_consumer) refl

  finish-null :
      (m n : ℕ) (s : Session) (l : Log)
      → m ≡ suc n
      → s.consumer.kf ≡ none
      → (finish k m s l).0 ≡ none
  unfolding finish
  finish-null zero n s l p e = ground (arith, p)
  finish-null (suc m) n s l p e = rw (cleanup_consumer-null s.consumer true l e, finish) refl

  -- A step leaves a doomed consumer doomed, or hands NULL to librdkafka.
  happen-Doomed :
      (u : Happening) (s : Session) (l : Log)
      → Doomed s
      → ((happen k u s l).0 ≡ none) ⊎ ((t : Session) × ((happen k u s l).0 ≡ some t) × Doomed t)
  unfolding happen enif_queue_free enif_consumer_queue_cleanup enif_consumer_cleanup
  happen-Doomed (rebalances log_pid rk code partitions) s l d =
      let same = (rebalance_cb-ends k rk log_pid s.consumer rk code partitions l).1 in
      inr (
        _,
        refl,
        record {
          empty = ap (λ c. c.0) same ∙ d.empty;
          closing = ap (λ c. c.1) same ∙ d.closing;
          waiting = d.waiting;
        },
      )
  happen-Doomed (cleans_queue q) s l d =
      inr (_, refl, record { empty = d.empty; closing = d.closing; waiting = d.waiting })
  happen-Doomed (frees_queue q) s l d =
      inr (_, refl, record { empty = d.empty; closing = d.closing; waiting = d.waiting })
  happen-Doomed completes_revoke s l d =
      answered_step Doomed s (enif_consumer_partition_revoke_completed k (some s.consumer) l).0 d
  happen-Doomed (stores_offset nif a b c) s l d =
      answered_step Doomed s (enif_consumer_offset_store k nif (some s.consumer) a b c l).0 d
  happen-Doomed cleans s l d =
      inr (_, refl, record { empty = d.empty; closing = refl; waiting = (s.pending, refl) })
  happen-Doomed finishes s l d =
      let (n, e) = d.waiting in inl (finish-null s.pending n s l e d.empty)

  free-null : (s : Session) (l : Log) → Doomed s → (enif_consumer_free k s l).0 ≡ none
  unfolding enif_consumer_free finish
  free-null s l d =
      let (n, e) = d.waiting in
      let t = record s { consumer = record s.consumer { running = false } } in
      rw (d.closing, enif_consumer_free) (finish-null s.pending n t l e d.empty)

  life-null : (us : List Happening) (s : Session) (l : Log) → Doomed s → (life k us s l).0 ≡ none
  unfolding life
  life-null [] s l d = free-null s l d
  life-null (u ∷ us) s l d = elim (happen-Doomed u s l d) [
    | inl e ↦ rw (e, life) refl
    | inr (t, e, d') ↦ rw (e, life) (life-null us t (happen k u s l).1 d')
  ]

  -- A step that keeps `P`, unless it hands NULL to librdkafka.
  abbrev Steps : (Session → Type 0) → Happening → Session → Log → Type 0
  Steps P u s l =
      ((happen k u s l).0 ≡ none) ⊎ ((t : Session) × ((happen k u s l).0 ≡ some t) × P t)

  any_step : (u : Happening) (s : Session) (l : Log) → Unit {0} → Steps (λ t. Unit {0}) u s l
  any_step u s l h = elim (Option-cases (happen k u s l).0) [
    | inl e ↦ inl e
    | inr (t, e) ↦ inr (t, e, tt)
  ]

  finish-Closed :
      (m : ℕ) (s : Session) (l : Log)
      → (s.consumer.kf ≡ none) ⊎ ((n : ℕ) × (m ≡ suc n))
      → ((finish k m s l).0 ≡ none)
        ⊎ ((t : Session) × ((finish k m s l).0 ≡ some t) × (t.consumer.kf ≡ none))
  unfolding finish cleanup_consumer
  finish-Closed zero s l (inl e) = inr (s, refl, e)
  finish-Closed zero s l (inr (n, e)) = absurd (ground (arith, e))
  finish-Closed (suc m) s l h = elim (Option-cases s.consumer.kf) [
    | inl e ↦ inl (rw (e, finish, cleanup_consumer) refl)
    | inr (rk, e) ↦ inr (rw (e, finish, cleanup_consumer) (_, refl, refl))
  ]

  -- The client is gone.
  abbrev Closed : Session → Type 0
  Closed s = s.consumer.kf ≡ none

  -- The client is gone, or a run of the clean-up is still to come.
  abbrev Due : Session → Type 0
  Due s = Closed s ⊎ ((n : ℕ) × (s.pending ≡ suc n))

  happen-Closed : (u : Happening) (s : Session) (l : Log) → Closed s → Steps Closed u s l
  unfolding happen enif_queue_free enif_consumer_queue_cleanup enif_consumer_cleanup
  happen-Closed (rebalances log_pid rk code partitions) s l e =
      let same = (rebalance_cb-ends k rk log_pid s.consumer rk code partitions l).1 in
      inr (_, refl, ap (λ c. c.0) same ∙ e)
  happen-Closed (cleans_queue q) s l e = inr (_, refl, e)
  happen-Closed (frees_queue q) s l e = inr (_, refl, e)
  happen-Closed completes_revoke s l e =
      answered_step Closed s (enif_consumer_partition_revoke_completed k (some s.consumer) l).0 e
  happen-Closed (stores_offset nif a b c) s l e =
      answered_step Closed s (enif_consumer_offset_store k nif (some s.consumer) a b c l).0 e
  happen-Closed cleans s l e = inr (_, refl, e)
  happen-Closed finishes s l e = finish-Closed s.pending s l (inl e)

  happen-Due : (u : Happening) (s : Session) (l : Log) → Due s → Steps Due u s l
  unfolding happen enif_queue_free enif_consumer_queue_cleanup enif_consumer_cleanup
  happen-Due u s l (inl e) = elim (happen-Closed u s l e) [
    | inl bad ↦ inl bad
    | inr (t, e', c) ↦ inr (t, e', inl c)
  ]
  happen-Due (rebalances log_pid rk code partitions) s l (inr h) = inr (_, refl, inr h)
  happen-Due (cleans_queue q) s l (inr h) = inr (_, refl, inr h)
  happen-Due (frees_queue q) s l (inr h) = inr (_, refl, inr h)
  happen-Due completes_revoke s l (inr h) =
      let r = enif_consumer_partition_revoke_completed k (some s.consumer) l in
      answered_step Due s r.0 (inr h)
  happen-Due (stores_offset nif a b c) s l (inr h) =
      answered_step Due s (enif_consumer_offset_store k nif (some s.consumer) a b c l).0 (inr h)
  happen-Due cleans s l (inr h) = inr (_, refl, inr (s.pending, refl))
  happen-Due finishes s l (inr h) = elim (finish-Closed s.pending s l (inr h)) [
    | inl bad ↦ inl bad
    | inr (t, e, c) ↦ inr (t, e, inl c)
  ]

  -- A life that begins with `us`: NULL is handed to librdkafka, or `P` holds when the rest begins.
  life-run :
      (P : Session → Type 0)
      → ((u : Happening) (s : Session) (l : Log) → P s → Steps P u s l)
      → (us vs : List Happening) (s : Session) (l : Log) → P s
      → ((life k (us ++ vs) s l).0 ≡ none)
        ⊎ ((t : Session) × (l' : Log) × P t × (life k (us ++ vs) s l ≡ life k vs t l'))
  unfolding life
  life-run P step [] vs s l p = inr (s, l, p, refl)
  life-run P step (u ∷ us) vs s l p = elim (step u s l p) [
    | inl e ↦ inl (rw (e, life) refl)
    | inr (t, e, q) ↦ elim (life-run P step us vs t (happen k u s l).1 q) [
      | inl bad ↦ inl (rw (e, life) bad)
      | inr (t', l', q', run) ↦ inr (t', l', q', rw (e, life) run)
    ]
  ]

  -- From the second clean-up on.
  cleaned_again-null :
      (later after : List Happening) (s : Session) (l : Log)
      → Closed s
      → (life k (later ++ (cleans ∷ after)) s l).0 ≡ none
  unfolding life happen enif_consumer_cleanup
  cleaned_again-null later after s l e =
      elim (life-run Closed happen-Closed later (cleans ∷ after) s l e) [
        | inl bad ↦ bad
        | inr (t, l', c, run) ↦
            ap (λ r. r.0) run
            ∙ life-null after _ _
                (record { empty = c; closing = refl; waiting = (t.pending, refl) })
      ]

  -- From the run of the first clean-up on.
  run_again-null :
      (later after : List Happening) (s : Session) (l : Log)
      → Due s
      → (life k (finishes ∷ (later ++ (cleans ∷ after))) s l).0 ≡ none
  unfolding life happen
  run_again-null later after s l due = elim (finish-Closed s.pending s l due) [
    | inl bad ↦ rw (bad, life) refl
    | inr (t, e, c) ↦ rw (e, life) (cleaned_again-null later after t (finish k s.pending s l).1 c)
  ]

  -- Rebalances, clean-ups and destructors of queues, stores of offsets, completed revocations, clean-ups
  -- of the consumer and their runs, in any order: if a clean-up is followed, at once or later, by the turn of a run, and that by a clean-up,
  -- NULL is handed to librdkafka by the end of the destructor.
  pub second_cleanup-null :
      (before between later after : List Happening) (s : Session) (l : Log)
      → (life k (before ++ (cleans ∷ (between ++ (finishes ∷ (later ++ (cleans ∷ after)))))) s l).0
        ≡ none
  unfolding life happen enif_consumer_cleanup
  second_cleanup-null before between later after s l =
      let rest = finishes ∷ (later ++ (cleans ∷ after)) in
      elim (life-run (λ t. Unit {0}) any_step before (cleans ∷ (between ++ rest)) s l tt) [
        | inl bad ↦ bad
        | inr (t, l₁, ok, run) ↦
            ap (λ r. r.0) run
            ∙ elim (life-run Due happen-Due between rest _ _ (inr (t.pending, refl))) [
              | inl bad ↦ bad
              | inr (t', l₂, due, run') ↦ ap (λ r. r.0) run' ∙ run_again-null later after t' l₂ due
            ]
      ]
