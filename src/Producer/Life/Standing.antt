-- ===== src/Producer/Life/Standing.antt =====
-- c_src/exrdkafka_producer.cc: what holds of a producer until its destructor runs.
use exrdkafka.Base.{
  ℕ, zero, suc, ◌+◌, ◌≤◌, ◌≡◌, refl, sym, ◌∙◌, List, [], ◌∷◌, Bool, true, false, none, some, arith,
  inl, inr, Option-cases, ℕ_discrete,
}
use exrdkafka.Base.Assoc.{find, Fresh}
use exrdkafka.Erl.{Term, ErlNif}
use exrdkafka.Rd.{Kafka, Handle, Log}
use exrdkafka.Rd.Books.{Kind, opened, closed, balance}
use exrdkafka.Rd.Ledger.{topics_opened, topics_closed}
use exrdkafka.Topics.Lifecycle.{Owns}
use exrdkafka.Dispatcher.{Dispatcher, remove, enable_events}
use exrdkafka.Dispatcher.Quiet.{balance-remove}
use exrdkafka.Dispatcher.Watched.{remove_self-Silent}
use exrdkafka.Producer.{Producer}
use exrdkafka.Producer.Keeps.{
  topics_view, Keeps, Keeps-quiet, enif_produce-KeepsTo, enif_produce_sync-KeepsTo,
  enif_produce_batch-Keeps,
}
use exrdkafka.Producer.KeepsTopic.{topic_new-Keeps}
use exrdkafka.Producer.Life.{
  Session, cleanup_producer, enif_producer_set_owner, enif_producer_cleanup, finish, Happening,
  produces, produces_sync, produces_batch, adds_topic, sets_owner, cleans, finishes, with_producer,
  happen,
}

abbrev pub is_cleans : Happening → ℕ
is_cleans cleans = 1
is_cleans _ = 0

-- How often `enif_producer_cleanup` is called.
abbrev pub cleanings : List Happening → ℕ
cleanings [] = 0
cleanings (u ∷ us) = is_cleans u + cleanings us

abbrev pub Unwatched : Handle → Dispatcher → Type 0
Unwatched rk d = find ℕ_discrete rk d.objects ≡ none

-- What holds of a producer until its destructor runs, if `more` more clean-ups are to come.
pub record Standing (rk : Handle) (a : ℕ × ℕ) (more : ℕ) (s : Session) (l : Log) : Type 0 where
  pub same_kf : s.producer.kf ≡ rk
  pub topics : Owns s.producer.topics l
  pub clients : balance Kind.clients rk l ≡ a
  pub few : s.pending + more ≤ 1
  pub idle : s.producer.closing ≡ false → s.pending ≡ 0
  pub watched : s.producer.closing ≡ false → Fresh ℕ_discrete s.notifier.objects
  pub unwatched : s.producer.closing ≡ true → Unwatched rk s.notifier

module _ (k : Kafka) (rk : Handle) (a : ℕ × ℕ) where
  pub Standing-Keeps :
      (more : ℕ) (s : Session) (p : Producer) (l l' : Log)
      → Standing rk a more s l
      → Keeps rk s.producer l p l'
      → Standing rk a more (record s { producer = p }) l'
  Standing-Keeps more s p l l' v w = record {
    same_kf = w.same_kf ∙ v.same_kf;
    topics = w.owns v.topics;
    clients = w.clients ∙ v.clients;
    few = v.few;
    idle = λ e. v.idle (sym w.same_closing ∙ e);
    watched = λ e. v.watched (sym w.same_closing ∙ e);
    unwatched = λ e. v.unwatched (sym w.same_closing ∙ e);
  }

  pub cleanup_producer-Keeps :
      (p : Producer) (feedback : Bool) (l : Log) → Keeps rk p l p (cleanup_producer p feedback l)
  unfolding cleanup_producer topics_opened topics_closed opened closed
  cleanup_producer-Keeps p true l = Keeps-quiet (λ h. refl) (ground arith)
  cleanup_producer-Keeps p false l = Keeps-quiet (λ h. refl) (ground arith)

  enable_events-topics :
      (h j : Handle) (is_consumer enabled : Bool) (l : Log)
      → topics_view h (enable_events k j is_consumer enabled l).1 ≡ topics_view h l
  unfolding enable_events topics_opened topics_closed
  enable_events-topics h j is_consumer enabled l = ground arith

  remove-topics :
      (h j : Handle) (d : Dispatcher) (l : Log) → topics_view h (remove k j d l).1 ≡ topics_view h l
  unfolding remove
  remove-topics h j d l = elim (Option-cases (find ℕ_discrete j d.objects)) [
    | inl e ↦ rw (e, remove) refl
    | inr (it, e) ↦ rw (e, remove) (enable_events-topics h j it.is_consumer false l)
  ]

  pub remove-Keeps :
      (p : Producer) (d : Dispatcher) (l : Log) → Keeps rk p l p (remove k p.kf d l).1
  remove-Keeps p d l =
      Keeps-quiet (λ h. remove-topics h p.kf d l) (balance-remove k Kind.clients rk p.kf d l)

  pub remove-Unwatched :
      (j : Handle) (d : Dispatcher) (l : Log)
      → j ≡ rk
      → Fresh ℕ_discrete d.objects
      → Unwatched rk (remove k j d l).0.0
  remove-Unwatched j d l e fresh = rw e (remove_self-Silent k rk d l fresh).0

  still-Unwatched :
      (j : Handle) (d : Dispatcher) (l : Log)
      → j ≡ rk
      → Unwatched rk d
      → Unwatched rk (remove k j d l).0.0
  unfolding remove
  still-Unwatched j d l e un = rw e (rw (un, remove) un)

  Standing-fewer :
      (m n : ℕ) (s : Session) (l : Log) → n ≤ m → Standing rk a m s l → Standing rk a n s l
  Standing-fewer m n s l le v = record {
    same_kf = v.same_kf;
    topics = v.topics;
    clients = v.clients;
    few = omega (arith, v.few);
    idle = v.idle;
    watched = v.watched;
    unwatched = v.unwatched;
  }

  pub set_owner-Keeps :
      (nif : ErlNif) (p : Producer) (t : Term) (l : Log)
      → (p' : Producer) × ((enif_producer_set_owner nif (some p) t).1 ≡ some p') × Keeps rk p l p' l
  unfolding enif_producer_set_owner
  set_owner-Keeps nif p t l = elim (Option-cases (nif.get_local_pid t)) [
    | inl e ↦ (p, rw (e, enif_producer_set_owner) refl, Keeps-quiet (λ h. refl) refl)
    | inr (pid, e) ↦ (
      record p { owner_pid = pid },
      rw (e, enif_producer_set_owner) refl,
      record { same_kf = refl; same_closing = refl; owns = λ o. o; clients = refl },
    )
  ]

  pub finish-Standing :
      (more n : ℕ) (s : Session) (l : Log)
      → s.pending ≡ n
      → Standing rk a more s l
      → let r = finish k n s l in Standing rk a more r.0 r.1
  unfolding finish
  finish-Standing more zero s l e v = v
  finish-Standing more (suc n) s l e v =
      let w = Standing-Keeps more s s.producer l _ v (cleanup_producer-Keeps s.producer true l) in
      record {
        same_kf = w.same_kf;
        topics = w.topics;
        clients = w.clients;
        few = omega (arith, w.few, e);
        idle = λ c. absurd (omega (arith, e, w.idle c));
        watched = w.watched;
        unwatched = w.unwatched;
      }

  cleanup-Standing :
      (more : ℕ) (s : Session) (l : Log)
      → Standing rk a (suc more) s l
      → let r = enif_producer_cleanup k (some s) l in
        (s' : Session) × (r.0.1 ≡ some s') × Standing rk a more s' r.1
  unfolding enif_producer_cleanup
  cleanup-Standing more s l v =
      let r = remove k s.producer.kf s.notifier l in
      let w =
        Standing-Keeps (suc more) s s.producer l r.1 v (remove-Keeps s.producer s.notifier l) in
      (
        record {
          producer = record s.producer { closing = true };
          notifier = r.0.0;
          pending = suc s.pending;
        },
        refl,
        record {
          same_kf = w.same_kf;
          topics = w.topics;
          clients = w.clients;
          few = omega (arith, w.few);
          idle = λ c. cc c;
          watched = λ c. cc c;
          unwatched = λ c. gone s.producer.closing v.watched v.unwatched;
        },
      )
    where
      gone :
          (b : Bool)
          → (b ≡ false → Fresh ℕ_discrete s.notifier.objects)
          → (b ≡ true → Unwatched rk s.notifier)
          → Unwatched rk (remove k s.producer.kf s.notifier l).0.0
      gone false f u = remove-Unwatched s.producer.kf s.notifier l v.same_kf (f refl)
      gone true f u = still-Unwatched s.producer.kf s.notifier l v.same_kf (u refl)

  pub happen-Standing :
      (nif : ErlNif) (more : ℕ) (u : Happening) (s : Session) (l : Log)
      → Standing rk a (is_cleans u + more) s l
      → let r = happen k nif u s l in Standing rk a more r.0 r.1
  unfolding happen with_producer
  happen-Standing nif more (produces others args) s l v =
      let (p', e, w) = enif_produce-KeepsTo nif k others rk s.producer args l in
      rw e (Standing-Keeps more s p' l _ (Standing-fewer (0 + more) more s l (omega arith) v) w)
  happen-Standing nif more (produces_sync others args) s l v =
      let (p', e, w) = enif_produce_sync-KeepsTo nif k others rk s.producer args l in
      rw e (Standing-Keeps more s p' l _ (Standing-fewer (0 + more) more s l (omega arith) v) w)
  happen-Standing nif more (produces_batch topic_term list) s l v =
      Standing-Keeps more s s.producer l _ (Standing-fewer (0 + more) more s l (omega arith) v)
        (enif_produce_batch-Keeps nif k (λ n. []) rk s.producer topic_term list l)
  happen-Standing nif more (adds_topic topic_term options) s l v =
      let (p', e, w) = topic_new-Keeps nif k rk s.producer topic_term options l in
      rw e (Standing-Keeps more s p' l _ (Standing-fewer (0 + more) more s l (omega arith) v) w)
  happen-Standing nif more (sets_owner t) s l v =
      let (p', e, w) = set_owner-Keeps nif s.producer t l in
      rw e (Standing-Keeps more s p' l l (Standing-fewer (0 + more) more s l (omega arith) v) w)
  happen-Standing nif more cleans s l v =
      let (s', e, w) =
        cleanup-Standing more s l (Standing-fewer (1 + more) (suc more) s l (omega arith) v) in
      rw (e, happen) w
  happen-Standing nif more finishes s l v =
      finish-Standing more s.pending s l refl (Standing-fewer (0 + more) more s l (omega arith) v)
