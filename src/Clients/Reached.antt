-- ===== src/Clients/Reached.antt =====
-- c_src/exrdkafka_producer.cc, c_src/exrdkafka_consumer.cc and c_src/queuecallbacksdispatcher.cc:
-- whom the polling thread polls, and what is left once all clients are gone.
use exrdkafka.Base.{
  ℕ, ◌+◌, ◌<◌, ◌≡◌, ◌≢◌, refl, List, [], ◌∷◌, true, Option, some, arith, inl, inr, Option-cases,
  Bool-cases, All,
}
use exrdkafka.Base.Assoc.{find}
use exrdkafka.Erl.{Bytes, ErlNif}
use exrdkafka.Rd.{Kafka, Handle, Log}
use exrdkafka.Rd.Books.{Kind, opened, closed}
use exrdkafka.Rd.Ledger.{polls_of}
use exrdkafka.Dispatcher.{dispatcher, take_event}
use exrdkafka.Dispatcher.Watched.{process_round-Silent}
use exrdkafka.Clients.{Clients, no_clients, Event, rounds, step, run}
use exrdkafka.Clients.Standing.{Standing, opens, held}
use exrdkafka.Clients.Running.{StandingAfter, step-Standing}
use exrdkafka.Clients.Leaving.{held-opens, IsGone, opens-IsGone, held-IsGone, nothing_found}

module _ (k : Kafka) (nif : ErlNif) (sigio : Option Bytes) where
  run-Standing :
      (h : Handle) (before : Log) (es : List Event) (w : Clients) (l : Log)
      → Standing h before w l
      → StandingAfter h before (run k nif sigio es w l)
  unfolding run
  run-Standing h before [] w l v = v
  run-Standing h before (e ∷ es) w l v =
      let r = step k nif sigio e w l in
      let after = step-Standing k h before nif sigio e w l v in
      elim (Option-cases r.0) [
        | inl f ↦ rw (f, run) tt
        | inr (w', f) ↦ rw (f, run) (run-Standing h before es w' r.1 (rw f at after))
      ]

  -- What holds of the clients that any events have left.
  reached :
      (h : Handle) (es : List Event) (w : Clients) (l l' : Log)
      → run k nif sigio es no_clients l ≡ (some w, l')
      → Standing h l w l'
  unfolding dispatcher find
  reached h es w l l' e =
      let start : Standing h l no_clients l = record {
        fresh = tt;
        idle = tt;
        watched = λ f. refl;
        books = omega arith;
      } in
      rw e at (run-Standing h l es no_clients l start)

  -- After any calls, callbacks and rounds of the polling thread, a client that the next round polls
  -- is one that a producer or a consumer has which was not cleaned up, and it was made more often
  -- than destroyed since the start.
  pub run-Polls :
      (es : List Event) (w : Clients) (h now pick : ℕ) (l l' : Log)
      → run k nif sigio es no_clients l ≡ (some w, l')
      → polls_of h (step k nif sigio (rounds now pick) w l').1 ≢ polls_of h l'
      → (opens h w.resources ≡ true)
        × (opened Kind.clients h l + closed Kind.clients h l'
            < opened Kind.clients h l' + closed Kind.clients h l)
  unfolding step
  run-Polls es w h now pick l l' e polled =
      let v = reached h es w l l' e in
      elim (Bool-cases (opens h w.resources)) [
        | inl f ↦ (f, omega (arith, v.books, held-opens h w.resources f))
        | inr f ↦
            let events = take_event pick w.notifier.events in
            absurd (polled (process_round-Silent k h now events w.notifier l' (v.watched f)).1)
      ]

  -- After any calls, callbacks and rounds of the polling thread, a client was made as often as it was
  -- destroyed and as it is still to be destroyed by a producer or a consumer.
  pub run-Accounted :
      (es : List Event) (w : Clients) (h : Handle) (l l' : Log)
      → run k nif sigio es no_clients l ≡ (some w, l')
      → opened Kind.clients h l' + closed Kind.clients h l
        ≡ opened Kind.clients h l + closed Kind.clients h l' + held h w.resources
  run-Accounted es w h l l' e = (reached h es w l l' e).books

  -- Once the destructors of all producers and consumers have run, the map of the dispatcher is empty,
  -- as its destructor asserts, and each client was destroyed as often as it was made.
  pub run-Empties :
      (es : List Event) (w : Clients) (l l' : Log)
      → run k nif sigio es no_clients l ≡ (some w, l')
      → All IsGone w.resources
      → (w.notifier.objects ≡ [])
        × ((h : Handle)
            → opened Kind.clients h l' + closed Kind.clients h l
              ≡ opened Kind.clients h l + closed Kind.clients h l')
  run-Empties es w l l' e a = (
    nothing_found w.notifier.objects
        (λ h. (reached h es w l l' e).watched (opens-IsGone h w.resources a)),
    λ h. omega (arith, run-Accounted es w h l l' e, held-IsGone h w.resources a),
  )
