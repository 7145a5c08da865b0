-- ===== src/Clients/Producers.antt =====
-- c_src/exrdkafka_producer.cc: what each step on a producer does to the dispatcher and the clients.
use exrdkafka.Base.{
  ℕ, zero, suc, ◌+◌, ◌≡◌, refl, ◌∙◌, [], ◌∷◌, true, false, some, arith, inl, inr, Bool-cases,
  ℕ_discrete, ◌==◌,
}
use exrdkafka.Base.Assoc.{Fresh}
use exrdkafka.Erl.{ErlNif}
use exrdkafka.Rd.{Kafka, Handle, Log, Call}
use exrdkafka.Rd.Books.{Kind, opened, closed, balance}
use exrdkafka.Rd.Owned.{at}
use exrdkafka.Topics.{cleanup}
use exrdkafka.Dispatcher.{Dispatcher, remove}
use exrdkafka.Dispatcher.Watched.{Unwatched, remove_self-Silent, remove-Silent}
use exrdkafka.Dispatcher.Fresh.{remove-Fresh}
use exrdkafka.Dispatcher.Quiet.{balance-remove}
use exrdkafka.Producer.{Producer}
use exrdkafka.Producer.Keeps.{
  enif_produce-KeepsTo, enif_produce_sync-KeepsTo, enif_produce_batch-Keeps,
}
use exrdkafka.Producer.KeepsTopic.{topic_new-Keeps}
use exrdkafka.Producer.Life.{
  Session, cleanup_producer, enif_producer_cleanup, finish, settle, enif_producer_free, Happening,
  produces, produces_sync, produces_batch, adds_topic, sets_owner, cleans, finishes, with_producer,
  happen,
}
use exrdkafka.Producer.Life.Standing.{cleanup_producer-Keeps, set_owner-Keeps}
use exrdkafka.Producer.Life.Closing.{clients-destroy_topics}
use exrdkafka.Clients.{Resource, of_producer, gone}
use exrdkafka.Clients.Standing.{Changes, client_of, IsIdle}

module _ (k : Kafka) (h : Handle) where
  -- A step that keeps the client and its state.
  kept-Changes :
      (p p' : Producer) (n n' : ℕ) (d : Dispatcher) (l l' : Log)
      → p'.kf ≡ p.kf
      → p'.closing ≡ p.closing
      → balance Kind.clients h l' ≡ balance Kind.clients h l
      → Changes h (of_producer p n) d l (of_producer p' n') d l'
  kept-Changes p p' n n' d l l' kf closing same = record {
    fresh = λ f. f;
    mono = λ u. u;
    shuts = λ f i was is. absurd (ground (arith, kf, closing, was, is));
    books = λ i. ground (arith, kf, same);
    idle = λ i. tt;
  }

  -- The dispatcher without a client that was watched.
  remove-Unwatched :
      (j : Handle) (d : Dispatcher) (l : Log)
      → Fresh ℕ_discrete d.objects
      → (j == h) ≡ true
      → Unwatched h (remove k j d l).0.0.objects
  remove-Unwatched j d l f e =
      let same : j ≡ h = ground (arith, e) in rw same (remove_self-Silent k h d l f).0

  -- A step that takes the client out of the map.
  removed-Changes :
      (p : Producer) (x' : Resource) (n : ℕ) (d : Dispatcher) (l l' : Log)
      → opened Kind.clients h l' + closed Kind.clients h l + at h (some p.kf)
        ≡ opened Kind.clients h l + closed Kind.clients h l' + at h (client_of x')
      → IsIdle x'
      → Changes h (of_producer p n) d l x' (remove k p.kf d l).0.0 l'
  removed-Changes p x' n d l l' books idle = record {
    fresh = remove-Fresh k p.kf d l;
    mono = λ u. (remove-Silent k h p.kf d l u).0;
    shuts = λ f i was is. remove-Unwatched p.kf d l f (ground (arith, was));
    books = λ i. books;
    idle = λ i. idle;
  }

  -- The books once the topics are gone and the client is destroyed.
  destroyed :
      (p : Producer) (l l₁ : Log)
      → balance Kind.clients h l₁ ≡ balance Kind.clients h l
      → let l' = Call.client_destroy p.kf ∷ (cleanup p.topics l₁).1 in
        opened Kind.clients h l' + closed Kind.clients h l + at h (some p.kf)
        ≡ opened Kind.clients h l + closed Kind.clients h l' + 0
  unfolding opened closed cleanup
  destroyed p l l₁ same = ground (arith, same, clients-destroy_topics k h (0, 0) p.topics.topics l₁)

  module _ (nif : ErlNif) where
    pub happen-Changes :
        (u : Happening) (p : Producer) (n : ℕ) (d : Dispatcher) (l : Log)
        → let s : Session = record { producer = p; notifier = d; pending = n } in
          let r = happen k nif u s l in
          Changes h (of_producer p n) d l (of_producer r.0.producer r.0.pending) r.0.notifier r.1
    unfolding happen with_producer enif_producer_cleanup finish
    happen-Changes (produces others args) p n d l =
        let (p', e, w) = enif_produce-KeepsTo nif k others h p args l in
        rw e (kept-Changes p p' n n d l _ w.same_kf w.same_closing w.clients)
    happen-Changes (produces_sync others args) p n d l =
        let (p', e, w) = enif_produce_sync-KeepsTo nif k others h p args l in
        rw e (kept-Changes p p' n n d l _ w.same_kf w.same_closing w.clients)
    happen-Changes (produces_batch topic_term list) p n d l =
        kept-Changes p p n n d l _ refl refl
          (enif_produce_batch-Keeps nif k (λ m. []) h p topic_term list l).clients
    happen-Changes (adds_topic topic_term options) p n d l =
        let (p', e, w) = topic_new-Keeps nif k h p topic_term options l in
        rw e (kept-Changes p p' n n d l _ w.same_kf w.same_closing w.clients)
    happen-Changes (sets_owner t) p n d l =
        let (p', e, w) = set_owner-Keeps k h (0, 0) nif p t l in
        rw e (kept-Changes p p' n n d l l w.same_kf w.same_closing refl)
    happen-Changes cleans p n d l =
        removed-Changes p (of_producer (record p { closing = true }) (suc n)) n d l
          (remove k p.kf d l).1 (ground (arith, balance-remove k Kind.clients h p.kf d l)) tt
    happen-Changes finishes p zero d l = kept-Changes p p 0 0 d l l refl refl refl
    happen-Changes finishes p (suc n) d l =
        kept-Changes p p (suc n) n d l _ refl refl
          (cleanup_producer-Keeps k h (0, 0) p true l).clients

  -- The destructor of a producer that was cleaned up, with runs still to come or not.
  free_closing :
      (p : Producer) (n : ℕ) (d : Dispatcher) (l l' : Log)
      → p.closing ≡ true
      → opened Kind.clients h l' + closed Kind.clients h l + at h (some p.kf)
        ≡ opened Kind.clients h l + closed Kind.clients h l' + 0
      → Changes h (of_producer p n) d l gone d l'
  free_closing p n d l l' closing books = record {
    fresh = λ f. f;
    mono = λ u. u;
    shuts = λ f i was is. absurd (ground (arith, closing, was));
    books = λ i. books;
    idle = λ i. tt;
  }

  settle_closing :
      (s : Session) (l : Log) → s.producer.closing ≡ true → settle k s l ≡ finish k s.pending s l
  unfolding settle
  settle_closing s l c = ground (arith, c)

  settle_unclosed :
      (s : Session) (l : Log)
      → s.producer.closing ≡ false
      → let r = remove k s.producer.kf s.notifier l in
        settle k s l ≡ (record s { notifier = r.0.0 }, cleanup_producer s.producer false r.1)
  unfolding settle
  settle_unclosed s l c = ground (arith, c)

  finished-Changes :
      (p : Producer) (n : ℕ) (d : Dispatcher) (l : Log)
      → p.closing ≡ true
      → let r = finish k n (record { producer = p; notifier = d; pending = n }) l in
        Changes h
          (of_producer p n)
          d
          l
          gone
          r.0.notifier
          (Call.client_destroy r.0.producer.kf ∷ (cleanup r.0.producer.topics r.1).1)
  unfolding finish
  finished-Changes p zero d l c = free_closing p 0 d l _ c (destroyed p l l refl)
  finished-Changes p (suc n) d l c =
      let same = (cleanup_producer-Keeps k h (0, 0) p true l).clients in
      free_closing p (suc n) d l _ c (destroyed p l (cleanup_producer p true l) same)

  pub free-Changes :
      (p : Producer) (n : ℕ) (d : Dispatcher) (l : Log)
      → let s : Session = record { producer = p; notifier = d; pending = n } in
        let r = enif_producer_free k s l in Changes h (of_producer p n) d l gone r.0.notifier r.1
  unfolding enif_producer_free
  free-Changes p n d l =
      let s : Session = record { producer = p; notifier = d; pending = n } in
      elim (Bool-cases p.closing) [
        | inl c ↦ rw (settle_closing s l c, enif_producer_free) (finished-Changes p n d l c)
        | inr c ↦
            let l₁ = (remove k p.kf d l).1 in
            let same =
              (cleanup_producer-Keeps k h (0, 0) p false l₁).clients
              ∙ balance-remove k Kind.clients h p.kf d l in
            rw (settle_unclosed s l c, enif_producer_free)
              (removed-Changes p gone n d l _ (destroyed p l (cleanup_producer p false l₁) same) tt)
      ]
