-- ===== src/Producer/Life/Closing.antt =====
-- c_src/exrdkafka_producer.cc: the client of a producer is destroyed once, after its topics.
use exrdkafka.Base.{
  ℕ, zero, suc, ◌≤◌, ◌≡◌, refl, List, [], ◌∷◌, false, arith, inl, inr, Bool-cases, ℕ_discrete,
}
use exrdkafka.Base.Assoc.{Fresh}
use exrdkafka.Erl.{Bytes, ErlNif}
use exrdkafka.Rd.{Kafka, Handle, Log, Call}
use exrdkafka.Rd.Books.{Kind, opened, closed, balance}
use exrdkafka.Rd.Ledger.{topics_opened, topics_closed}
use exrdkafka.Topics.{cleanup, destroy_topics}
use exrdkafka.Topics.Lifecycle.{Owns, AllClosed, cleanup-AllClosed}
use exrdkafka.Dispatcher.{remove}
use exrdkafka.Producer.Keeps.{Keeps-trans}
use exrdkafka.Producer.Life.{
  Session, cleanup_producer, finish, settle, enif_producer_free, Happening, happen, life,
}
use exrdkafka.Producer.Life.Standing.{
  cleanings, Unwatched, Standing, Standing-Keeps, cleanup_producer-Keeps, remove-Keeps,
  remove-Unwatched, finish-Standing, happen-Standing,
}

module _ (k : Kafka) (rk : Handle) (a : ℕ × ℕ) where
  finish-notifier :
      (n : ℕ) (s : Session) (l : Log)
      → Unwatched rk s.notifier
      → Unwatched rk (finish k n s l).0.notifier
  unfolding finish
  finish-notifier zero s l u = u
  finish-notifier (suc n) s l u = u

  finish-pending :
      (n : ℕ) (s : Session) (l : Log) → n ≤ 1 → s.pending ≡ n → (finish k n s l).0.pending ≡ 0
  unfolding finish
  finish-pending zero s l le e = e
  finish-pending (suc n) s l le e = omega arith

  -- No run of a clean-up is to come, and the client is no longer watched.
  abbrev Settled : Session → Log → Type 0
  Settled s l =
      (s.producer.kf ≡ rk)
      × Owns s.producer.topics l
      × (balance Kind.clients rk l ≡ a)
      × Unwatched rk s.notifier
      × (s.pending ≡ 0)

  -- The destructor up to where the topics are cleaned up.
  settle-Standing :
      (s : Session) (l : Log) → Standing rk a 0 s l → let r = settle k s l in Settled r.0 r.1
  unfolding settle
  settle-Standing s l v = elim (Bool-cases s.producer.closing) [
    | inl c ↦
        let w = finish-Standing k rk a 0 s.pending s l refl v in
        rw (c, settle)
          (
            w.same_kf,
            w.topics,
            w.clients,
            finish-notifier s.pending s l (v.unwatched c),
            finish-pending s.pending s l (omega (arith, v.few)) refl,
          )
    | inr c ↦
        let l₁ = (remove k s.producer.kf s.notifier l).1 in
        let w = Standing-Keeps k rk a 0 s s.producer l (cleanup_producer s.producer false l₁) v (
          Keeps-trans (remove-Keeps k rk a s.producer s.notifier l)
            (cleanup_producer-Keeps k rk a s.producer false l₁)) in
        rw (c, settle)
          (
            w.same_kf,
            w.topics,
            w.clients,
            remove-Unwatched k rk a s.producer.kf s.notifier l v.same_kf (v.watched c),
            v.idle c,
          )
  ]

  pub clients-destroy_topics :
      (m : List (Bytes × Handle)) (l : Log)
      → balance Kind.clients rk (destroy_topics m l).1 ≡ balance Kind.clients rk l
  unfolding destroy_topics opened closed
  clients-destroy_topics [] l = refl
  clients-destroy_topics ((name, t) ∷ m) l =
      ground (arith, clients-destroy_topics m (Call.topic_destroy t ∷ l))

  -- The client and its topics are gone, the client last.
  abbrev pub Gone : Session → Log → Type 0
  Gone s l =
      AllClosed l
      × (balance Kind.clients rk l ≡ (a.0, suc a.1))
      × Unwatched rk s.notifier
      × (s.pending ≡ 0)
      × (l' : Log) × (l ≡ Call.client_destroy rk ∷ l')

  free-Gone :
      (s : Session) (l : Log)
      → Standing rk a 0 s l
      → let r = enif_producer_free k s l in Gone r.0 r.1
  unfolding enif_producer_free cleanup topics_opened topics_closed opened closed
  free-Gone s l v =
      let r = settle k s l in
      let (same, owns, clients, un, none_pending) = settle-Standing s l v in
      let all = cleanup-AllClosed r.0.producer.topics r.1 owns in
      (
        all,
        ground (arith, same, clients, clients-destroy_topics r.0.producer.topics.topics r.1),
        un,
        none_pending,
        (cleanup r.0.producer.topics r.1).1,
        rw same refl,
      )

  life-Gone :
      (nif : ErlNif) (us : List Happening) (s : Session) (l : Log)
      → Standing rk a (cleanings us) s l
      → let r = life k nif us s l in Gone r.0 r.1
  unfolding life
  life-Gone nif [] s l v = free-Gone s l v
  life-Gone nif (u ∷ us) s l v =
      let r = happen k nif u s l in
      life-Gone nif us r.0 r.1 (happen-Standing k rk a nif (cleanings us) u s l v)

-- Calls of produce, produce_sync, produce_batch, topic_new and set_owner, the clean-up of a producer
-- and the run of it, in any order after `enif_producer_new`: if the producer is cleaned up at most
-- once, then its destructor leaves no run of a clean-up behind, each topic handle was destroyed as
-- often as it was created, and the very last call destroys the client, once, which is no longer
-- watched.
pub producer_life-Gone :
    (k : Kafka) (nif : ErlNif) (us : List Happening) (s : Session) (l : Log)
    → s.producer.closing ≡ false
    → s.pending ≡ 0
    → Owns s.producer.topics l
    → Fresh ℕ_discrete s.notifier.objects
    → cleanings us ≤ 1
    → let rk = s.producer.kf in
      let r = life k nif us s l in Gone k rk (balance Kind.clients rk l) r.0 r.1
producer_life-Gone k nif us s l c p own fresh few =
    let rk = s.producer.kf in
    life-Gone k rk (balance Kind.clients rk l) nif us s l (record {
      same_kf = refl;
      topics = own;
      clients = refl;
      few = omega (arith, p);
      idle = λ e. p;
      watched = λ e. fresh;
      unwatched = λ e. absurd (ground (arith, c, e));
    })
