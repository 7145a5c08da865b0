-- ===== src/Consumer/Life/Phases.antt =====
-- c_src/exrdkafka_consumer.cc: where a consumer stands between its creation and its destructor.
use exrdkafka.Base.{
  ℕ, zero, suc, ◌+◌, ◌≤◌, ◌≡◌, ◌≢◌, refl, ◌∙◌, ap, List, [], ◌∷◌, Bool, true, false, Option, none,
  some, arith, inl, inr, Bool-cases, ℕ_discrete,
}
use native.Mathlib.Nat.{add-zero}
use exrdkafka.Base.Assoc.{find, Fresh}
use exrdkafka.Rd.{Kafka, Handle, Log, Call}
use exrdkafka.Rd.Books.{opened, closed}
use exrdkafka.Queues.{clear_all}
use exrdkafka.Dispatcher.Watched.{remove_self-Silent}
use exrdkafka.Dispatcher.{Dispatcher}
use exrdkafka.Consumer.Partitions.{
  Consumer, rebalance_cb, enif_queue_free, enif_consumer_queue_cleanup,
  enif_consumer_partition_revoke_completed,
}
use exrdkafka.Consumer.Life.{
  Session, stop_feedback, cleanup_consumer, unwatch, enif_consumer_cleanup, finish, Happening,
  rebalances, cleans_queue, frees_queue, cleans, finishes, happen, answered, completes_revoke,
  stores_offset, enif_consumer_offset_store,
}
use exrdkafka.Erl.{Bytes, Term}
use exrdkafka.Consumer.Life.Uses.{
  Survives, revoke_completed-Survives, offset_store-Survives, revoke_completed-Answers,
  offset_store-Answers,
}
use exrdkafka.Consumer.Life.Quiet.{
  ends, ends-clear_all, ends-queue_free, ends-queue_cleanup, rebalance_cb-ends, unwatch-ends,
}

abbrev pub Unwatched : Handle → Dispatcher → Type 0
Unwatched rk d = find ℕ_discrete rk d.objects ≡ none

-- One more destruction, and one more closing.
abbrev pub once : (ℕ × ℕ) × (ℕ × ℕ) → (ℕ × ℕ) × (ℕ × ℕ)
once ((m, n), (p, q)) = ((m, suc n), (p, suc q))

abbrev pub is_cleans : Happening → ℕ
is_cleans cleans = 1
is_cleans _ = 0

-- The client is handed to librdkafka by a call of the consumer's owner.
abbrev pub is_use : Happening → Bool
is_use completes_revoke = true
is_use (stores_offset nif topic_term partition_term offset_term) = true
is_use _ = false

-- After `n` clean-ups.
abbrev pub Fits : ℕ → Happening → Type 0
Fits zero u = Unit
Fits (suc n) u = is_use u ≡ false

-- No offset is stored and no revocation completed after a clean-up, of which there were `n` before.
abbrev pub Orderly : ℕ → List Happening → Type 0
Orderly n [] = Unit
Orderly n (u ∷ us) = Fits n u × Orderly (n + is_cleans u) us

-- How often `enif_consumer_cleanup` is called.
abbrev pub cleanings : List Happening → ℕ
cleanings [] = 0
cleanings (u ∷ us) = is_cleans u + cleanings us

abbrev pub spent : Bool → ℕ
spent true = 1
spent false = 0

-- Where a consumer stands, `a` being what the books said of its client at first.
pub data Phase (rk : Handle) (a : (ℕ × ℕ) × (ℕ × ℕ)) (s : Session) (l : Log) : Type 0 where
  running :
      s.consumer.kf ≡ some rk
      → s.consumer.closing ≡ false
      → s.pending ≡ 0
      → ends rk l ≡ a
      → Fresh ℕ_discrete s.notifier.objects
      → Phase rk a s l
  scheduled :
      s.consumer.kf ≡ some rk
      → s.consumer.closing ≡ true
      → s.pending ≡ 1
      → ends rk l ≡ a
      → Unwatched rk s.notifier
      → Phase rk a s l
  over :
      s.consumer.kf ≡ none
      → s.consumer.closing ≡ true
      → s.pending ≡ 0
      → ends rk l ≡ once a
      → Unwatched rk s.notifier
      → Phase rk a s l

module _ (k : Kafka) (rk : Handle) where
  -- A step that touches neither the client nor the dispatcher.
  Phase-quiet :
      (a : (ℕ × ℕ) × (ℕ × ℕ)) (s : Session) (c : Consumer) (l l' : Log)
      → c.kf ≡ s.consumer.kf
      → c.closing ≡ s.consumer.closing
      → ends rk l' ≡ ends rk l
      → Phase rk a s l
      → Phase rk a (record s { consumer = c }) l'
  Phase-quiet a s c l l' f g e (running p q r b w) = running (f ∙ p) (g ∙ q) r (e ∙ b) w
  Phase-quiet a s c l l' f g e (scheduled p q r b w) = scheduled (f ∙ p) (g ∙ q) r (e ∙ b) w
  Phase-quiet a s c l l' f g e (over p q r b w) = over (f ∙ p) (g ∙ q) r (e ∙ b) w

  close_once :
      (feedback : Bool) (owner : ℕ) (l : Log)
      → ends rk (stop_feedback feedback owner (Call.client_destroy rk ∷ Call.consumer_close rk ∷ l))
        ≡ once (ends rk l)
  unfolding stop_feedback opened closed
  close_once false owner l = ground arith
  close_once true owner l = ground arith

  pub cleanup_consumer-once :
      (c : Consumer) (feedback : Bool) (l : Log)
      → c.kf ≡ some rk
      → (c' : Consumer) × (l' : Log) × (cleanup_consumer k c feedback l ≡ (some c', l'))
        × (c'.kf ≡ none)
        × (c'.closing ≡ c.closing)
        × (ends rk l' ≡ once (ends rk l))
  unfolding cleanup_consumer stop_feedback opened closed
  cleanup_consumer-once c feedback l e =
      let r = clear_all k c.qm l in
      let quiet = ends-clear_all k rk c.qm l in
      (
        record c { kf = none; qm = r.0 },
        stop_feedback feedback c.owner (Call.client_destroy rk ∷ Call.consumer_close rk ∷ r.1),
        rw (e, cleanup_consumer) refl,
        refl,
        refl,
        close_once feedback c.owner r.1 ∙ ap once quiet,
      )

  pub unwatch-gone :
      (d : Dispatcher) (l : Log)
      → Fresh ℕ_discrete d.objects
      → let r = unwatch k (some rk) d l in Unwatched rk r.0 × (ends rk r.1 ≡ ends rk l)
  unfolding unwatch
  unwatch-gone d l fresh = ((remove_self-Silent k rk d l fresh).0, unwatch-ends k rk rk d l)

  abbrev Core : Type 0
  Core = Option Handle × Bool × ℕ

  -- What a step leads to.
  abbrev Goes : (ℕ × ℕ) × (ℕ × ℕ) → Option Session × Log → ℕ → Type 0
  Goes a r n =
      (s' : Session) × (l' : Log) × (r ≡ (some s', l'))
      × Phase rk a s' l'
      × (spent s'.consumer.closing ≡ n)

  pub finish_lem :
      (s : Session) (c : Consumer) (n : ℕ) (l l' : Log)
      → s.pending ≡ suc n
      → cleanup_consumer k s.consumer true l ≡ (some c, l')
      → finish k s.pending s l ≡ (some (record s { consumer = c; pending = n }), l')
  unfolding finish
  finish_lem s c n l l' r run = ground (arith, r, run)

  finish-Goes :
      (a : (ℕ × ℕ) × (ℕ × ℕ)) (s : Session) (l : Log)
      → Phase rk a s l
      → Goes a (finish k s.pending s l) (spent s.consumer.closing)
  unfolding finish
  finish-Goes a s l (running p q r b w) = (s, l, rw (r, finish) refl, running p q r b w, refl)
  finish-Goes a s l (over p q r b w) = (s, l, rw (r, finish) refl, over p q r b w, refl)
  finish-Goes a s l (scheduled p q r b w) =
      let (c', l', run, gone, same, ended) = cleanup_consumer-once s.consumer true l p in
      (
        record s { consumer = c'; pending = 0 },
        l',
        finish_lem s c' 0 l l' r run,
        over gone (same ∙ q) refl (ended ∙ ap once b) w,
        ap spent same,
      )

  cleanup-Goes :
      (a : (ℕ × ℕ) × (ℕ × ℕ)) (s : Session) (l : Log)
      → Phase rk a s l
      → s.consumer.closing ≡ false
      → let r = enif_consumer_cleanup k (some s) l in Goes a (r.0.1, r.1) 1
  unfolding enif_consumer_cleanup
  cleanup-Goes a s l (running p q r b w) fresh =
      let u = unwatch k (some rk) s.notifier l in
      let (gone, quiet) = unwatch-gone s.notifier l w in
      let c = record s.consumer { running = false; closing = true } in
      (
        record { consumer = c; notifier = u.0; pending = suc s.pending },
        u.1,
        rw (p, enif_consumer_cleanup) refl,
        scheduled p refl (ap suc r) (quiet ∙ b) gone,
        refl,
      )
  cleanup-Goes a s l (scheduled p q r b w) fresh = absurd (ground (arith, q, fresh))
  cleanup-Goes a s l (over p q r b w) fresh = absurd (ground (arith, q, fresh))

  go_quiet :
      (a : (ℕ × ℕ) × (ℕ × ℕ)) (s : Session) (c : Consumer) (l l' : Log)
      → c.kf ≡ s.consumer.kf
      → c.closing ≡ s.consumer.closing
      → ends rk l' ≡ ends rk l
      → Phase rk a s l
      → Goes a (some (record s { consumer = c }), l') (spent s.consumer.closing + 0)
  go_quiet a s c l l' f g e ph =
      (record s { consumer = c }, l', refl, Phase-quiet a s c l l' f g e ph, rw (g, add-zero) refl)

  -- The books of the client say the same.
  abbrev SameBooks : Log → Log → Type 0
  SameBooks l l' = ends rk l' ≡ ends rk l

  same_books : (l : Log) → Survives (SameBooks l)
  unfolding opened closed
  same_books l = record {
    news = λ j name o l' p. ground arith;
    destroys = λ t l' p. ground arith;
    stores = λ t i j l' p. ground arith;
    assigns = λ j l' p. ground arith;
  }

  -- A call on the client of a consumer that was not cleaned up.
  answered-Goes :
      (a : (ℕ × ℕ) × (ℕ × ℕ)) (s : Session) (l l' : Log) (o : Option Term)
      → (t : Term) × (o ≡ some t)
      → SameBooks l l'
      → Phase rk a s l
      → Goes a (answered s o, l') (spent s.consumer.closing + 0)
  unfolding answered
  answered-Goes a s l l' o (t, e) same ph =
      rw (e, answered) (go_quiet a s s.consumer l l' refl refl same ph)

  -- Before the clean-up the client is there.
  open_client :
      (a : (ℕ × ℕ) × (ℕ × ℕ)) (s : Session) (l : Log) (u : Happening)
      → Phase rk a s l
      → is_use u ≡ true
      → Fits (spent s.consumer.closing) u
      → s.consumer.kf ≡ some rk
  open_client a s l u (running p q r b w) asked fits = p
  open_client a s l u (scheduled p q r b w) asked fits = p
  open_client a s l u (over p q r b w) asked fits =
      let unfit : is_use u ≡ false = rw (q) at fits in cc

  pub happen-Goes :
      (a : (ℕ × ℕ) × (ℕ × ℕ)) (u : Happening) (s : Session) (l : Log)
      → Phase rk a s l
      → spent s.consumer.closing + is_cleans u ≤ 1
      → Fits (spent s.consumer.closing) u
      → ((l' : Log) (name : Bytes) → k.topic_new_answer l' rk name none ≢ none)
      → Goes a (happen k u s l) (spent s.consumer.closing + is_cleans u)
  unfolding happen enif_queue_free enif_consumer_queue_cleanup
  happen-Goes a (rebalances log_pid j code partitions) s l ph few fits makes =
      let r = rebalance_cb k log_pid s.consumer j code partitions l in
      let (quiet, same) = rebalance_cb-ends k rk log_pid s.consumer j code partitions l in
      go_quiet a s r.0.0 l r.1 (ap (λ (t : Core). t.0) same) (ap (λ (t : Core). t.1) same) quiet ph
  happen-Goes a (cleans_queue q) s l ph few fits makes =
      let r = enif_consumer_queue_cleanup k s.consumer (some q) l in
      go_quiet a s r.0.1 l r.1 refl refl (ends-queue_cleanup k rk s.consumer q l) ph
  happen-Goes a (frees_queue q) s l ph few fits makes =
      let r = enif_queue_free k s.consumer q l in
      go_quiet a s r.0 l r.1 refl refl (ends-queue_free k rk s.consumer q l) ph
  happen-Goes a completes_revoke s l ph few fits makes =
      let r = enif_consumer_partition_revoke_completed k (some s.consumer) l in
      let kf = open_client a s l completes_revoke ph refl fits in
      answered-Goes a s l r.1 r.0 (revoke_completed-Answers k s.consumer rk kf l)
        (revoke_completed-Survives k (SameBooks l) (same_books l) s.consumer l refl) ph
  happen-Goes a (stores_offset nif t p o) s l ph few fits makes =
      let r = enif_consumer_offset_store k nif (some s.consumer) t p o l in
      let kf = open_client a s l (stores_offset nif t p o) ph refl fits in
      answered-Goes a s l r.1 r.0 (offset_store-Answers k s.consumer rk kf makes nif t p o l)
        (offset_store-Survives k (SameBooks l) (same_books l) nif s.consumer t p o l refl) ph
  happen-Goes a cleans s l ph few fits makes = elim (Bool-cases s.consumer.closing) [
    | inl e ↦ absurd (ground (arith, e, few))
    | inr e ↦
        let first : spent s.consumer.closing + 1 ≡ 1 = ground (arith, e) in
        rw first (cleanup-Goes a s l ph e)
  ]
  happen-Goes a finishes s l ph few fits makes = rw add-zero (finish-Goes a s l ph)
