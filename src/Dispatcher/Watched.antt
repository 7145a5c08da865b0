-- ===== src/Dispatcher/Watched.antt =====
-- c_src/queuecallbacksdispatcher.cc: only a client that is watched is polled.
use exrdkafka.Base.{
  ℕ, ◌≡◌, refl, ◌≢◌, List, [], ◌∷◌, Bool, true, false, arith, inl, inr, some, none, Option, ◌∙◌,
  Option-cases, ℕ_discrete, All, min, if_neg, ◌-◌,
}
use exrdkafka.Base.Assoc.{find, Fresh, find-put_ne, find-erase_self, find-erase_none}
use exrdkafka.Base.Text.{codes, stoull}
use exrdkafka.Rd.{Kafka, Handle, Log}
use exrdkafka.Rd.Ledger.{polls_of}
use exrdkafka.Dispatcher.{
  Dispatcher, Item, Thread, Turn, watches, removes, signals, stops, rounds, add64, sub64,
  check_item, check_items, check_objects, check_max_poll_interval_ms, serve, process_round,
  take_event, loop_test, watch, remove, signal, stop, turn, process_callbacks, u64,
}
use exrdkafka.Dispatcher.Poll.{do_poll-polls, enable_events-polls}

abbrev pub Unwatched : Handle → List (Handle × Item) → Type 0
Unwatched h m = find ℕ_discrete h m ≡ none

-- The client `h` is not watched afterwards and was not polled.
abbrev pub Silent : Handle → List (Handle × Item) → Log → Log → Type 0
Silent h after l l' = Unwatched h after × (polls_of h l' ≡ polls_of h l)

module _ (k : Kafka) (h : Handle) where
  check_item-polls :
      (running : Bool) (now : ℕ) (rk : Handle) (it : Item) (l : Log)
      → rk ≢ h
      → polls_of h (check_item k running now rk it l).1 ≡ polls_of h l
  unfolding check_item
  check_item-polls running now rk it l ne =
      ground (arith, do_poll-polls k running rk it.is_consumer h l ne)

  check_items-Silent :
      (running : Bool) (now next : ℕ) (m : List (Handle × Item)) (l : Log)
      → Unwatched h m
      → let r = check_items k running now next m l in Silent h r.0.0 l r.1
  unfolding check_items find
  check_items-Silent running now next [] l un = (refl, refl)
  check_items-Silent running now next ((rk, it) ∷ m) l un = elim (ℕ_discrete rk h) [
    | yes p ↦ absurd (ground arith)
    | no p ↦
        let r = check_item k running now rk it l in
        let next' = min next (add64 r.0.max_poll_interval_ms (sub64 now r.0.last_poll_ms)) in
        let (un', quiet) = check_items-Silent running now next' m r.1 (ground arith) in
        (rw (if_neg _ p) un', quiet ∙ check_item-polls running now rk it l p)
  ]

  check_objects-Silent :
      (now : ℕ) (d : Dispatcher) (m : List (Handle × Item)) (l : Log)
      → d.objects ≡ m
      → Unwatched h m
      → let r = check_objects k now d m l in Silent h r.0.0.objects l r.1
  unfolding check_objects
  check_objects-Silent now d [] l e un = rw e (un, refl)
  check_objects-Silent now d (o ∷ os) l e un =
      check_items-Silent d.running now (u64 - 1) (o ∷ os) l un

  check-Silent :
      (now : ℕ) (d : Dispatcher) (l : Log)
      → Unwatched h d.objects
      → let r = check_max_poll_interval_ms k now d l in Silent h r.0.0.objects l r.1
  unfolding check_max_poll_interval_ms
  check-Silent now d l un = check_objects-Silent now d d.objects l refl un

  serve-Silent :
      (now : ℕ) (obj : Handle) (d : Dispatcher) (l : Log)
      → Unwatched h d.objects
      → let r = serve k now obj d l in Silent h r.0.objects l r.1
  unfolding serve
  serve-Silent now obj d l un = elim (Option-cases (find ℕ_discrete obj d.objects)) [
    | inl e ↦ rw (e, serve) (un, refl)
    | inr (it, e) ↦
        let other : obj ≢ h = (λ p. ground (arith, p)) in
        rw (e, serve)
          (
            find-put_ne ℕ_discrete obj h _ d.objects other ∙ un,
            do_poll-polls k d.running obj it.is_consumer h l other,
          )
  ]

  -- A round with any event, also one for `h` that was signalled before it was removed.
  pub process_round-Silent :
      (now : ℕ) (e : Option (Option Handle × List (Option Handle))) (d : Dispatcher) (l : Log)
      → Unwatched h d.objects
      → let r = process_round k now e d l in Silent h r.0.0.objects l r.1
  unfolding process_round
  process_round-Silent now none d l un = check-Silent now d l un
  process_round-Silent now (some (none, es)) d l un =
      check-Silent now (record d { events = es }) l un
  process_round-Silent now (some (some obj, es)) d l un =
      let d' = record d { events = es } in
      let r = serve k now obj d' l in
      let (un', quiet) = serve-Silent now obj d' l un in
      let (un'', quiet') = check-Silent now r.0 r.1 un' in (un'', quiet' ∙ quiet)

  pub remove-Silent :
      (rk : Handle) (d : Dispatcher) (l : Log)
      → Unwatched h d.objects
      → let r = remove k rk d l in Silent h r.0.0.objects l r.1
  unfolding remove
  remove-Silent rk d l un = elim (Option-cases (find ℕ_discrete rk d.objects)) [
    | inl e ↦ rw (e, remove) (un, refl)
    | inr (it, e) ↦
        rw (e, remove)
          (
            find-erase_none ℕ_discrete rk h d.objects un,
            enable_events-polls k rk it.is_consumer false h l,
          )
  ]

  -- `remove` of `h` itself, where no client is entered twice.
  pub remove_self-Silent :
      (d : Dispatcher) (l : Log)
      → Fresh ℕ_discrete d.objects
      → let r = remove k h d l in Silent h r.0.0.objects l r.1
  unfolding remove
  remove_self-Silent d l fresh = elim (Option-cases (find ℕ_discrete h d.objects)) [
    | inl e ↦ rw (e, remove) (e, refl)
    | inr (it, e) ↦
        rw (e, remove)
          (
            find-erase_self ℕ_discrete h d.objects fresh,
            enable_events-polls k h it.is_consumer false h l,
          )
  ]

  -- The turn does not watch `h`.
  abbrev pub Spares : Turn → Type 0
  Spares (watches rk is_consumer now) = rk ≢ h
  Spares _ = Unit {0}

  abbrev SilentOption : Option Thread → Log → Log → Type 0
  SilentOption none l l' = polls_of h l' ≡ polls_of h l
  SilentOption (some t) l l' = Silent h t.owner.objects l l'

  watch-Silent :
      (rk : Handle) (is_consumer : Bool) (now : ℕ) (t : Thread) (l : Log)
      → rk ≢ h
      → Unwatched h t.owner.objects
      → let r = turn k (watches rk is_consumer now) t l in SilentOption r.0 l r.1
  unfolding turn watch
  watch-Silent rk is_consumer now t l ne un =
      elim (Option-cases (stoull (k.conf_get_answer l rk (codes "max.poll.interval.ms")))) [
        | inl e ↦ rw (e, turn, watch) refl
        | inr (ms, e) ↦
            rw (e, turn, watch)
              (
                find-put_ne ℕ_discrete rk h _ t.owner.objects ne ∙ un,
                enable_events-polls k rk is_consumer true h l,
              )
      ]

  loop_test-Silent :
      (running : Bool) (now pick : ℕ) (t : Thread) (l : Log)
      → Unwatched h t.owner.objects
      → let r = loop_test k running now pick t l in SilentOption r.0 l r.1
  unfolding loop_test
  loop_test-Silent true now pick t l un =
      process_round-Silent now (take_event pick t.owner.events) t.owner l un
  loop_test-Silent false now pick t l un = (un, refl)

  turn-Silent :
      (u : Turn) (t : Thread) (l : Log)
      → Spares u
      → Unwatched h t.owner.objects
      → let r = turn k u t l in SilentOption r.0 l r.1
  unfolding turn signal stop
  turn-Silent (watches rk is_consumer now) t l ne un = watch-Silent rk is_consumer now t l ne un
  turn-Silent (removes rk) t l ne un = remove-Silent rk t.owner l un
  turn-Silent (signals rk) t l ne un = (un, refl)
  turn-Silent stops t l ne un = (un, refl)
  turn-Silent (rounds now pick) t l ne un = loop_test-Silent t.owner.running now pick t l un

  process_callbacks-polls :
      (us : List Turn) (t : Thread) (l : Log)
      → All Spares us
      → Unwatched h t.owner.objects
      → polls_of h (process_callbacks k us t l).1 ≡ polls_of h l
  unfolding process_callbacks
  process_callbacks-polls [] t l ne un = refl
  process_callbacks-polls (u ∷ us) t l ne un =
      let r = turn k u t l in
      let first = turn-Silent u t l ne.0 un in
      elim (Option-cases r.0) [
        | inl e ↦ rw (e, process_callbacks) (rw e at first)
        | inr (t', e) ↦
            let first' : Silent h t'.owner.objects l r.1 = rw e at first in
            rw (e, process_callbacks) (process_callbacks-polls us t' r.1 ne.1 first'.0 ∙ first'.1)
      ]

  -- Once `remove` has returned, the client is never polled again, whatever the thread and the other
  -- threads do afterwards, unless it is watched anew: so it can be destroyed.
  pub process_callbacks-remove :
      (us : List Turn) (t : Thread) (l : Log)
      → Fresh ℕ_discrete t.owner.objects
      → All Spares us
      → let r = remove k h t.owner l in
        polls_of h (process_callbacks k us (record t { owner = r.0.0 }) r.1).1 ≡ polls_of h l
  process_callbacks-remove us t l fresh ne =
      let r = remove k h t.owner l in
      let (un, quiet) = remove_self-Silent t.owner l fresh in
      process_callbacks-polls us (record t { owner = r.0.0 }) r.1 ne un ∙ quiet
