-- ===== src/Clients/Running.antt =====
-- c_src/exrdkafka_producer.cc, c_src/exrdkafka_consumer.cc and c_src/queuecallbacksdispatcher.cc:
-- what holds of all clients after any calls, callbacks and rounds of the polling thread.
use exrdkafka.Base.{ℕ, ◌≡◌, refl, Option, none, some, arith, inl, inr, Option-cases, get_elem?}
use exrdkafka.Erl.{Bytes, Term, ErlNif}
use exrdkafka.Rd.{Kafka, Handle, Log}
use exrdkafka.Dispatcher.{Dispatcher, take_event, process_round, signal}
use exrdkafka.Dispatcher.Watched.{process_round-Silent}
use exrdkafka.Dispatcher.Fresh.{process_round-Fresh}
use exrdkafka.Dispatcher.Quiet.{clients-process_round}
use exrdkafka.Producer.Create.{Created as ProducerCreated, enif_producer_new}
use exrdkafka.Producer.Life.{Happening as ProducerHappening}
use exrdkafka.Consumer.Partitions.{Consumer}
use exrdkafka.Consumer.Create.{Arguments, Created as ConsumerCreated, enif_consumer_new}
use exrdkafka.Consumer.Life.{Session as ConsumerSession, Happening as ConsumerHappening}
use exrdkafka.Clients.{
  Resource, of_producer, of_consumer, gone, Clients, Event, new_producer, new_consumer, on_producer,
  on_consumer, frees, signals, rounds, with_producer, with_consumer, with_producer_at,
  with_consumer_at, consumer_at, consumer_gone, free_at, step,
}
use exrdkafka.Clients.Standing.{
  Standing, Creates, Standing-replaced, Standing-append, Standing-quiet,
}
use exrdkafka.Clients.Producers.{
  happen-Changes as producer_happen-Changes, free-Changes as producer_free-Changes,
}
use exrdkafka.Clients.Cleaning.{ChangesTo, FreesTo}
use exrdkafka.Clients.Consumers.{
  happen-Changes as consumer_happen-Changes, free-Changes as consumer_free-Changes,
}
use exrdkafka.Clients.Creating.{
  ProducerCreates, ConsumerCreates, new_producer-Creates, new_consumer-Creates,
}

-- The clients that a step leaves; nothing is said once the process is gone.
abbrev pub StandingAfter : Handle → Log → Option Clients × Log → Type 0
StandingAfter h before (none, l) = Unit {0}
StandingAfter h before (some w, l) = Standing h before w l

module _ (k : Kafka) (h : Handle) (before : Log) where
  module _ (nif : ErlNif) where
    with_producer_at-Standing :
        (u : ProducerHappening) (i : ℕ) (o : Option Resource) (w : Clients) (l : Log)
        → get_elem? w.resources i ≡ o
        → Standing h before w l
        → let r = with_producer_at k nif u i o w l in Standing h before r.0 r.1
    unfolding with_producer_at
    with_producer_at-Standing u i (some (of_producer p n)) w l e v =
        Standing-replaced h before l _ w i (of_producer p n) _ _ e
          (producer_happen-Changes k h nif u p n w.notifier l) v
    with_producer_at-Standing u i (some (of_consumer c n)) w l e v = v
    with_producer_at-Standing u i (some gone) w l e v = v
    with_producer_at-Standing u i none w l e v = v

  consumer_at-Standing :
      (i n : ℕ) (c : Consumer) (w : Clients) (l : Log) (r : Option ConsumerSession × Log)
      → get_elem? w.resources i ≡ some (of_consumer c n)
      → ChangesTo h c n w.notifier l r
      → Standing h before w l
      → StandingAfter h before (consumer_at i w r.0, r.1)
  unfolding consumer_at
  consumer_at-Standing i n c w l (none, l') e g v = tt
  consumer_at-Standing i n c w l (some s, l') e g v =
      Standing-replaced h before l l' w i (of_consumer c n) _ _ e g v

  consumer_gone-Standing :
      (i n : ℕ) (c : Consumer) (w : Clients) (l : Log) (r : Option ConsumerSession × Log)
      → get_elem? w.resources i ≡ some (of_consumer c n)
      → FreesTo h c n w.notifier l r
      → Standing h before w l
      → StandingAfter h before (consumer_gone i w r.0, r.1)
  unfolding consumer_gone
  consumer_gone-Standing i n c w l (none, l') e g v = tt
  consumer_gone-Standing i n c w l (some s, l') e g v =
      Standing-replaced h before l l' w i (of_consumer c n) _ _ e g v

  module _ (nif : ErlNif) where
    with_consumer_at-Standing :
        (u : ConsumerHappening) (i : ℕ) (o : Option Resource) (w : Clients) (l : Log)
        → get_elem? w.resources i ≡ o
        → Standing h before w l
        → StandingAfter h before (with_consumer_at k nif u i o w l)
    unfolding with_consumer_at
    with_consumer_at-Standing u i (some (of_consumer c n)) w l e v =
        consumer_at-Standing i n c w l _ e (consumer_happen-Changes k h u c n w.notifier l) v
    with_consumer_at-Standing u i (some (of_producer p n)) w l e v = v
    with_consumer_at-Standing u i (some gone) w l e v = v
    with_consumer_at-Standing u i none w l e v = v

    free_at-Standing :
        (i : ℕ) (o : Option Resource) (w : Clients) (l : Log)
        → get_elem? w.resources i ≡ o
        → Standing h before w l
        → StandingAfter h before (free_at k nif i o w l)
    unfolding free_at
    free_at-Standing i (some (of_producer p n)) w l e v =
        Standing-replaced h before l _ w i (of_producer p n) _ _ e
          (producer_free-Changes k h p n w.notifier l) v
    free_at-Standing i (some (of_consumer c n)) w l e v =
        consumer_gone-Standing i n c w l _ e (consumer_free-Changes k h c n w.notifier l) v
    free_at-Standing i (some gone) w l e v = v
    free_at-Standing i none w l e v = v

  -- The clients once a function that makes one has returned.
  abbrev made_producer : (w : Clients) → ProducerCreated → Option Clients × Log
  made_producer w (none, l) = (none, l)
  made_producer w (some (t, p, d), l) =
      (some (record { notifier = d; resources = with_producer p w.resources }), l)

  producer-Standing :
      (w : Clients) (l : Log) (r : ProducerCreated)
      → ProducerCreates h w.notifier l r
      → Standing h before w l
      → StandingAfter h before (made_producer w r)
  producer-Standing w l (none, l') c v = tt
  producer-Standing w l (some (t, none, d), l') c v = Standing-quiet h before l l' w d c v
  producer-Standing w l (some (t, some (self, p), d), l') c v =
      Standing-append h before l l' w (of_producer p 0) d c v

  abbrev made_consumer : (w : Clients) → ConsumerCreated → Option Clients × Log
  made_consumer w (none, l) = (none, l)
  made_consumer w (some (t, c, d), l) =
      (some (record { notifier = d; resources = with_consumer c w.resources }), l)

  consumer-Standing :
      (w : Clients) (l : Log) (r : ConsumerCreated)
      → ConsumerCreates h w.notifier l r
      → Standing h before w l
      → StandingAfter h before (made_consumer w r)
  consumer-Standing w l (none, l') c v = tt
  consumer-Standing w l (some (t, none, d), l') c v = Standing-quiet h before l l' w d c v
  consumer-Standing w l (some (t, some x, d), l') c v =
      Standing-append h before l l' w (of_consumer x 0) d c v

  -- A round of the polling thread.
  round-Creates :
      (now pick : ℕ) (d : Dispatcher) (l : Log)
      → let r = process_round k now (take_event pick d.events) d l in Creates h d l gone r.0.0 r.1
  round-Creates now pick d l =
      let e = take_event pick d.events in
      record {
        fresh = process_round-Fresh k now e d l;
        watched = λ closed_now u. (process_round-Silent k h now e d l u).0;
        books = ground (arith, clients-process_round k h now e d l);
        idle = tt;
      }

  signal-Creates : (rk : Handle) (d : Dispatcher) (l : Log) → Creates h d l gone (signal rk d) l
  unfolding signal
  signal-Creates rk d l = record {
    fresh = λ f. f;
    watched = λ closed_now u. u;
    books = omega arith;
    idle = tt;
  }

  module _ (nif : ErlNif) (sigio : Option Bytes) where
    step-made_producer :
        (has_dr options : Term) (now : ℕ) (w : Clients) (l : Log)
        → step k nif sigio (new_producer has_dr options now) w l
          ≡ made_producer w (enif_producer_new k nif sigio has_dr options now w.notifier l)
    unfolding step
    step-made_producer has_dr options now w l =
        elim (Option-cases (enif_producer_new k nif sigio has_dr options now w.notifier l).0) [
          | inl e ↦ rw (e, step) refl
          | inr ((t, p, d), e) ↦ rw (e, step) refl
        ]

    step-made_consumer :
        (args : Arguments) (now : ℕ) (w : Clients) (l : Log)
        → step k nif sigio (new_consumer args now) w l
          ≡ made_consumer w (enif_consumer_new nif k sigio args now w.notifier l)
    unfolding step
    step-made_consumer args now w l =
        elim (Option-cases (enif_consumer_new nif k sigio args now w.notifier l).0) [
          | inl e ↦ rw (e, step) refl
          | inr ((t, c, d), e) ↦ rw (e, step) refl
        ]

    pub step-Standing :
        (e : Event) (w : Clients) (l : Log)
        → Standing h before w l
        → StandingAfter h before (step k nif sigio e w l)
    unfolding step
    step-Standing (new_producer has_dr options now) w l v =
        rw (step-made_producer has_dr options now w l) (
          producer-Standing w l _
            (new_producer-Creates k nif sigio h has_dr options now w.notifier l) v)
    step-Standing (new_consumer args now) w l v =
        rw (step-made_consumer args now w l)
          (consumer-Standing w l _ (new_consumer-Creates k nif sigio h args now w.notifier l) v)
    step-Standing (on_producer i u) w l v =
        with_producer_at-Standing nif u i (get_elem? w.resources i) w l refl v
    step-Standing (on_consumer i u) w l v =
        with_consumer_at-Standing nif u i (get_elem? w.resources i) w l refl v
    step-Standing (frees i) w l v = free_at-Standing nif i (get_elem? w.resources i) w l refl v
    step-Standing (signals rk) w l v =
        Standing-quiet h before l l w (signal rk w.notifier) (signal-Creates rk w.notifier l) v
    step-Standing (rounds now pick) w l v =
        Standing-quiet h before l _ w _ (round-Creates now pick w.notifier l) v
