-- ===== src/Clients/Consumers.antt =====
-- c_src/exrdkafka_consumer.cc: what each step on a consumer does to the dispatcher and the clients.
use exrdkafka.Base.{
  ℕ, zero, suc, ◌+◌, ◌≡◌, refl, sym, ap, Bool, true, false, Option, none, some, arith, inl, inr,
  Option-cases, Bool-cases,
}
use exrdkafka.Rd.{Kafka, Handle, Log}
use exrdkafka.Rd.Books.{Kind, opened, closed, balance}
use exrdkafka.Rd.Owned.{at}
use exrdkafka.Dispatcher.{Dispatcher, remove}
use exrdkafka.Dispatcher.Watched.{remove-Silent}
use exrdkafka.Dispatcher.Fresh.{remove-Fresh}
use exrdkafka.Dispatcher.Quiet.{balance-remove}
use exrdkafka.Consumer.Partitions.{
  Consumer, enif_queue_free, enif_consumer_queue_cleanup, enif_consumer_partition_revoke_completed,
}
use exrdkafka.Consumer.Life.{
  Session, unwatch, enif_consumer_cleanup, finish, close_unclosed, enif_consumer_free, Happening,
  rebalances, cleans_queue, frees_queue, cleans, finishes, happen, answered, completes_revoke,
  stores_offset, enif_consumer_offset_store,
}
use exrdkafka.Erl.{Term}
use exrdkafka.Consumer.Life.Uses.{Survives, revoke_completed-Survives, offset_store-Survives}
use exrdkafka.Consumer.Life.Quiet.{ends-queue_free, ends-queue_cleanup, rebalance_cb-ends}
use exrdkafka.Consumer.Life.Closing.{unclosed_lem, free_closing}
use exrdkafka.Clients.{of_consumer, gone}
use exrdkafka.Clients.Standing.{Changes, IsIdle}
use exrdkafka.Clients.Cleaning.{
  ChangesTo, FreesTo, kept-Changes, unwatch-Unwatched, with_client, cleans-Changes, cleaned-books,
  finish_null, finish_lem, finish-Changes,
}

module _ (k : Kafka) (h : Handle) where
  -- The books of the clients say the same.
  abbrev SameBooks : Log → Log → Type 0
  SameBooks l l' = balance Kind.clients h l' ≡ balance Kind.clients h l

  same_books : (l : Log) → Survives (SameBooks l)
  unfolding opened closed
  same_books l = record {
    news = λ rk name o l' p. ground arith;
    destroys = λ t l' p. ground arith;
    stores = λ t i j l' p. ground arith;
    assigns = λ rk l' p. ground arith;
  }

  answered-Changes :
      (c : Consumer) (n : ℕ) (d : Dispatcher) (o : Option Term) (l l' : Log)
      → SameBooks l l'
      → ChangesTo h c n d l (answered (record { consumer = c; notifier = d; pending = n }) o, l')
  unfolding answered
  answered-Changes c n d none l l' same = tt
  answered-Changes c n d (some t) l l' same = kept-Changes k h c c n d l l' refl refl same

  pub happen-Changes :
      (u : Happening) (c : Consumer) (n : ℕ) (d : Dispatcher) (l : Log)
      → ChangesTo h c n d l (happen k u (record { consumer = c; notifier = d; pending = n }) l)
  unfolding happen enif_queue_free enif_consumer_queue_cleanup enif_consumer_cleanup
  happen-Changes (rebalances log_pid j code partitions) c n d l =
      let (quiet, same) = rebalance_cb-ends k h log_pid c j code partitions l in
      kept-Changes k h c _ n d l _ (ap (λ t. t.0) same) (ap (λ t. t.1) same) (ap (λ t. t.0) quiet)
  happen-Changes (cleans_queue q) c n d l =
      kept-Changes k h c _ n d l _ refl refl (ap (λ t. t.0) (ends-queue_cleanup k h c q l))
  happen-Changes (frees_queue q) c n d l =
      kept-Changes k h c _ n d l _ refl refl (ap (λ t. t.0) (ends-queue_free k h c q l))
  happen-Changes completes_revoke c n d l =
      let r = enif_consumer_partition_revoke_completed k (some c) l in
      let same = revoke_completed-Survives k (SameBooks l) (same_books l) c l refl in
      answered-Changes c n d r.0 l r.1 same
  happen-Changes (stores_offset nif t p o) c n d l =
      let r = enif_consumer_offset_store k nif (some c) t p o l in
      let same = offset_store-Survives k (SameBooks l) (same_books l) nif c t p o l refl in
      answered-Changes c n d r.0 l r.1 same
  happen-Changes cleans c n d l = cleans-Changes k h c _ c.kf n d l refl refl refl
  happen-Changes finishes c n d l = finish-Changes k h c n n d l refl

  -- The end of a consumer that is not watched.
  freed :
      (c : Consumer) (n : ℕ) (d : Dispatcher) (l l' : Log)
      → c.closing ≡ true
      → (IsIdle (of_consumer c n)
          → opened Kind.clients h l' + closed Kind.clients h l + at h c.kf
            ≡ opened Kind.clients h l + closed Kind.clients h l' + 0)
      → Changes h (of_consumer c n) d l gone d l'
  freed c n d l l' closing books = record {
    fresh = λ u. u;
    mono = λ u. u;
    shuts = λ u i was is. absurd (ground (arith, closing, was));
    books = books;
    idle = λ i. tt;
  }

  finished-Frees :
      (c : Consumer) (running : Bool) (n m : ℕ) (d : Dispatcher) (l : Log)
      → m ≡ n
      → c.closing ≡ true
      → let t : Session = record {
        consumer = record c { running = running };
        notifier = d;
        pending = n;
      } in
        FreesTo h c n d l (finish k m t l)
  unfolding finish
  finished-Frees c running n zero d l e closing =
      freed c n d l l closing (λ i. ground (arith, i.1 closing (sym e)))
  finished-Frees c running n (suc m) d l e closing =
      let t : Session = record {
        consumer = record c { running = running };
        notifier = d;
        pending = n;
      } in
      elim (Option-cases c.kf) [
        | inl f ↦ rw (finish_null k h m t l f) tt
        | inr (kf, f) ↦ rw (finish_lem k h m t l kf f) (
            freed c n d l _ closing
              (λ i. ground (arith, f, cleaned-books k h t.consumer true kf l l refl)))
      ]

  unclosed-Frees :
      (o : Option Handle) (c : Consumer) (running : Bool) (n : ℕ) (d : Dispatcher) (l : Log)
      → c.kf ≡ o
      → let t : Session = record {
        consumer = record c { running = running };
        notifier = d;
        pending = n;
      } in
        FreesTo h c n d l (close_unclosed k o t l)
  unfolding close_unclosed unwatch
  unclosed-Frees none c running n d l e = record {
    fresh = λ u. u;
    mono = λ u. u;
    shuts = λ u i was is. absurd (ground (arith, e, was));
    books = λ i. ground (arith, e);
    idle = λ i. tt;
  }
  unclosed-Frees (some kf) c running n d l e =
      let l₁ = (remove k kf d l).1 in
      let same = balance-remove k Kind.clients h kf d l in
      let t : Session = record {
        consumer = record c { running = running };
        notifier = d;
        pending = n;
      } in
      rw (unclosed_lem k kf t _ l _ (with_client k h t.consumer false l₁ kf e)) (record {
        fresh = remove-Fresh k kf d l;
        mono = λ u. (remove-Silent k h kf d l u).0;
        shuts = λ u i was is. unwatch-Unwatched k h kf d l u (ground (arith, e, was));
        books = λ i.
            ground
              (arith, e, cleaned-books k h (record c { running = running }) false kf l₁ l same);
        idle = λ i. tt;
      })

  free_unclosed :
      (s : Session) (l : Log)
      → s.consumer.closing ≡ false
      → enif_consumer_free k s l
        ≡ close_unclosed k s.consumer.kf
            (record s { consumer = record s.consumer { running = false } })
            l
  unfolding enif_consumer_free
  free_unclosed s l e = ground (arith, e)

  pub free-Changes :
      (c : Consumer) (n : ℕ) (d : Dispatcher) (l : Log)
      → FreesTo h c n d l
          (enif_consumer_free k (record { consumer = c; notifier = d; pending = n }) l)
  unfolding enif_consumer_free
  free-Changes c n d l =
      let s : Session = record { consumer = c; notifier = d; pending = n } in
      elim (Bool-cases c.closing) [
        | inl closing ↦
            rw (free_closing k h s l closing) (finished-Frees c false n n d l refl closing)
        | inr unclosed ↦ rw (free_unclosed s l unclosed) (unclosed-Frees c.kf c false n d l refl)
      ]
