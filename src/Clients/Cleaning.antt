-- ===== src/Clients/Cleaning.antt =====
-- c_src/exrdkafka_consumer.cc: what a clean-up of a consumer does to the dispatcher and the clients.
use exrdkafka.Base.{
  ℕ, zero, suc, ◌+◌, ◌≡◌, refl, sym, ap, ◌∙◌, ◌∷◌, Bool, true, false, Option, none, some, arith,
  inl, inr, Option-cases, ℕ_discrete, ◌==◌,
}
use exrdkafka.Base.Assoc.{Fresh}
use exrdkafka.Rd.{Kafka, Handle, Log, Call}
use exrdkafka.Rd.Books.{Kind, opened, closed, balance}
use exrdkafka.Rd.Owned.{at}
use exrdkafka.Queues.{clear_all}
use exrdkafka.Dispatcher.{Dispatcher, remove}
use exrdkafka.Dispatcher.Watched.{Unwatched, remove_self-Silent, remove-Silent}
use exrdkafka.Dispatcher.Fresh.{remove-Fresh}
use exrdkafka.Dispatcher.Quiet.{balance-remove}
use exrdkafka.Consumer.Partitions.{Consumer}
use exrdkafka.Consumer.Life.{Session, stop_feedback, cleanup_consumer, unwatch, finish}
use exrdkafka.Consumer.Life.Quiet.{ends-clear_all}
use exrdkafka.Clients.{of_consumer, gone}
use exrdkafka.Clients.Standing.{Changes}

abbrev clients : Handle → Log → ℕ × ℕ
clients h l = balance Kind.clients h l

-- The result of a step on a consumer; nothing is said if NULL was handed to librdkafka.
abbrev pub ChangesTo : Handle → Consumer → ℕ → Dispatcher → Log → Option Session × Log → Type 0
ChangesTo h c n d l (none, l') = Unit {0}
ChangesTo h c n d l (some s, l') =
    Changes h (of_consumer c n) d l (of_consumer s.consumer s.pending) s.notifier l'

-- The same of its destructor.
abbrev pub FreesTo : Handle → Consumer → ℕ → Dispatcher → Log → Option Session × Log → Type 0
FreesTo h c n d l (none, l') = Unit {0}
FreesTo h c n d l (some s, l') = Changes h (of_consumer c n) d l gone s.notifier l'

module _ (k : Kafka) (h : Handle) where
  pub kept-Changes :
      (c c' : Consumer) (n : ℕ) (d : Dispatcher) (l l' : Log)
      → c'.kf ≡ c.kf
      → c'.closing ≡ c.closing
      → clients h l' ≡ clients h l
      → Changes h (of_consumer c n) d l (of_consumer c' n) d l'
  kept-Changes c c' n d l l' kf closing same = record {
    fresh = λ f. f;
    mono = λ u. u;
    shuts = λ f i was is. absurd (ground (arith, kf, closing, was, is));
    books = λ i. ground (arith, kf, same);
    idle = λ i. (λ e. i.0 (sym closing ∙ e), λ e z. kf ∙ i.1 (sym closing ∙ e) z);
  }

  -- The books once the client is closed and destroyed.
  closed_client :
      (feedback : Bool) (owner : ℕ) (kf : Handle) (l l₁ : Log)
      → clients h l₁ ≡ clients h l
      → let l' =
          stop_feedback feedback owner (Call.client_destroy kf ∷ Call.consumer_close kf ∷ l₁) in
        opened Kind.clients h l' + closed Kind.clients h l + at h (some kf)
        ≡ opened Kind.clients h l + closed Kind.clients h l' + 0
  unfolding stop_feedback opened closed
  closed_client false owner kf l l₁ same = ground (arith, same)
  closed_client true owner kf l l₁ same = ground (arith, same)

  -- The dispatcher without the client of a consumer.
  pub unwatch-Unwatched :
      (kf : Handle) (d : Dispatcher) (l : Log)
      → Fresh ℕ_discrete d.objects
      → (kf == h) ≡ true
      → Unwatched h (remove k kf d l).0.0.objects
  unwatch-Unwatched kf d l f e =
      let same : kf ≡ h = ground (arith, e) in rw same (remove_self-Silent k h d l f).0

  no_client :
      (c : Consumer) (feedback : Bool) (l : Log)
      → c.kf ≡ none
      → cleanup_consumer k c feedback l ≡ (none, (clear_all k c.qm l).1)
  unfolding cleanup_consumer
  no_client c feedback l e = ground (arith, e)

  pub with_client :
      (c : Consumer) (feedback : Bool) (l : Log) (kf : Handle)
      → c.kf ≡ some kf
      → let r = clear_all k c.qm l in
        cleanup_consumer k c feedback l ≡ (
          some (record c { kf = none; qm = r.0 }),
          stop_feedback feedback c.owner (Call.client_destroy kf ∷ Call.consumer_close kf ∷ r.1),
        )
  unfolding cleanup_consumer
  with_client c feedback l kf e = ground (arith, e)

  pub cleans-Changes :
      (c c' : Consumer) (o : Option Handle) (n : ℕ) (d : Dispatcher) (l : Log)
      → c.kf ≡ o
      → c'.kf ≡ o
      → c'.closing ≡ true
      → let r = unwatch k o d l in Changes h (of_consumer c n) d l (of_consumer c' (suc n)) r.0 r.1
  unfolding unwatch
  cleans-Changes c c' none n d l e e' t = record {
    fresh = λ f. f;
    mono = λ u. u;
    shuts = λ f i was is. absurd (ground (arith, e, was));
    books = λ i. ground (arith, e, e');
    idle = λ i. (λ f. absurd (ground (arith, t, f)), λ f z. absurd (ground (arith, z)));
  }
  cleans-Changes c c' (some kf) n d l e e' t = record {
    fresh = remove-Fresh k kf d l;
    mono = λ u. (remove-Silent k h kf d l u).0;
    shuts = λ f i was is. unwatch-Unwatched kf d l f (ground (arith, e, was));
    books = λ i. ground (arith, e, e', balance-remove k Kind.clients h kf d l);
    idle = λ i. (λ f. absurd (ground (arith, t, f)), λ f z. absurd (ground (arith, z)));
  }

  -- A run of the clean-up that destroys the client.
  finished :
      (c c' : Consumer) (n m kf : ℕ) (d : Dispatcher) (l l' : Log)
      → suc m ≡ n
      → c.kf ≡ some kf
      → c'.kf ≡ none
      → c'.closing ≡ c.closing
      → opened Kind.clients h l' + closed Kind.clients h l + at h (some kf)
        ≡ opened Kind.clients h l + closed Kind.clients h l' + 0
      → Changes h (of_consumer c n) d l (of_consumer c' m) d l'
  finished c c' n m kf d l l' e f g same books = record {
    fresh = λ u. u;
    mono = λ u. u;
    shuts = λ u i was is. ground (arith, i.0, e, was);
    books = λ i. ground (arith, f, g, books);
    idle = λ i. (λ b. ground (arith, i.0 (sym same ∙ b), e), λ b z. g);
  }

  -- The log of a clean-up of the client `kf`.
  abbrev cleaned : Consumer → Bool → Handle → Log → Log
  cleaned c feedback kf l =
      stop_feedback feedback c.owner
        (Call.client_destroy kf ∷ Call.consumer_close kf ∷ (clear_all k c.qm l).1)

  pub cleaned-books :
      (c : Consumer) (feedback : Bool) (kf : Handle) (l l₀ : Log)
      → clients h l ≡ clients h l₀
      → let l' = cleaned c feedback kf l in
        opened Kind.clients h l' + closed Kind.clients h l₀ + at h (some kf)
        ≡ opened Kind.clients h l₀ + closed Kind.clients h l' + 0
  cleaned-books c feedback kf l l₀ same =
      closed_client feedback c.owner kf l₀ _ (ap (λ t. t.0) (ends-clear_all k h c.qm l) ∙ same)

  pub finish_null :
      (m : ℕ) (s : Session) (l : Log)
      → s.consumer.kf ≡ none
      → finish k (suc m) s l ≡ (none, (clear_all k s.consumer.qm l).1)
  unfolding finish
  finish_null m s l e = ground (arith, no_client s.consumer true l e)

  pub finish_lem :
      (m : ℕ) (s : Session) (l : Log) (kf : Handle)
      → s.consumer.kf ≡ some kf
      → let c = record s.consumer { kf = none; qm = (clear_all k s.consumer.qm l).0 } in
        finish k (suc m) s l
        ≡ (some (record s { consumer = c; pending = m }), cleaned s.consumer true kf l)
  unfolding finish
  finish_lem m s l kf e = ground (arith, with_client s.consumer true l kf e)

  pub finish-Changes :
      (c : Consumer) (n m : ℕ) (d : Dispatcher) (l : Log)
      → m ≡ n
      → ChangesTo h c n d l (finish k m (record { consumer = c; notifier = d; pending = n }) l)
  unfolding finish
  finish-Changes c n zero d l e = kept-Changes c c n d l l refl refl refl
  finish-Changes c n (suc m) d l e =
      let s : Session = record { consumer = c; notifier = d; pending = n } in
      elim (Option-cases c.kf) [
        | inl f ↦ rw (finish_null m s l f) tt
        | inr (kf, f) ↦
            rw (finish_lem m s l kf f)
              (finished c _ n m kf d l _ e f refl refl (cleaned-books c true kf l l refl))
      ]
