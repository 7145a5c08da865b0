-- ===== src/Dispatcher/Shutdown.antt =====
-- c_src/queuecallbacksdispatcher.cc: the destructor waits for the thread, and the thread ends.
--
-- The thread is followed from place to place in `process_callbacks`: at the test of `running_`, in
-- `wait_dequeue_timed`, and past the loop. A wait for a negative time ends with an entry of the queue
-- alone; any other may end without one.
use exrdkafka.Base.{
  ℕ, zero, suc, ◌≡◌, refl, ◌∙◌, List, [], ◌∷◌, ◌++◌, true, false, Option, none, some, ℕ_discrete,
  inl, inr, Option-cases,
}
use std.Path.{subst}
use exrdkafka.Base.Assoc.{find}
use exrdkafka.Base.Text.{codes, stoull}
use exrdkafka.Rd.{Kafka, Log, Handle}
use exrdkafka.Dispatcher.{
  Dispatcher, Thread, Turn, watches, removes, signals, stops, rounds, stop, take_event,
  process_round, turn, process_callbacks, Item, watch, remove, signal, loop_test, serve,
  check_objects, check_max_poll_interval_ms, is_unlimited,
}

-- Where the thread stands.
pub data Place : Type 0 where
  tests waits ends : Place

-- The thread after the wait, at the time `now`, with an entry or without.
abbrev round_done :
    Kafka → ℕ → Option (Option Handle × List (Option Handle)) → Thread → Log → Thread × Log
round_done k now o t l =
    let r = process_round k now o t.owner l in (record { owner = r.0.0; poll_timeout = r.0.1 }, r.1)

-- One step of the thread. Which entry of the queue it takes is left open.
pub data Step (k : Kafka) : Place → Thread → Log → Place → Thread → Log → Type 0 where
  goes_on : (t : Thread) (l : Log) → t.owner.running ≡ true → Step k tests t l waits t l
  leaves : (t : Thread) (l : Log) → t.owner.running ≡ false → Step k tests t l ends t l
  wakes :
      (now pick : ℕ) (t : Thread) (l : Log) (e : Option Handle × List (Option Handle))
      → take_event pick t.owner.events ≡ some e
      → Step k waits t l tests (round_done k now (some e) t l).0 (round_done k now (some e) t l).1
  expires :
      (now : ℕ) (t : Thread) (l : Log)
      → is_unlimited t.poll_timeout ≡ false
      → Step k waits t l tests (round_done k now none t l).0 (round_done k now none t l).1

-- The thread can go on until it is past the loop, and is there after `n` steps at most, whichever
-- steps it takes.
pub Ends : Kafka → ℕ → Place → Thread → Log → Type 0
Ends k n ends t l = Unit {0}
Ends k zero _ t l = ⊥
Ends k (suc n) place t l =
    ((place' : Place) × (t' : Thread) × (l' : Log) × Step k place t l place' t' l')
    × ((place' : Place) (t' : Thread) (l' : Log)
        → Step k place t l place' t' l'
        → Ends k n place' t' l')

-- A dispatcher whose destructor runs: a wait of its thread finds an entry.
record IsStopped (d : Dispatcher) : Type 0 where
  off : d.running ≡ false
  entry : (e : Option Handle) × (es : List (Option Handle)) × (d.events ≡ e ∷ es)

snoc-cons :
    (es : List (Option Handle)) (e : Option Handle)
    → (f : Option Handle) × (fs : List (Option Handle)) × (es ++ e ∷ [] ≡ f ∷ fs)
snoc-cons [] e = (e, [], refl)
snoc-cons (f ∷ fs) e = (f, fs ++ e ∷ [], refl)

module _ (k : Kafka) where
  check-running :
      (now : ℕ) (d : Dispatcher) (l : Log)
      → (check_max_poll_interval_ms k now d l).0.0.running ≡ d.running
  unfolding check_max_poll_interval_ms check_objects
  check-running now d l = objects-running d.objects
    where
      objects-running :
          (os : List (Handle × Item)) → (check_objects k now d os l).0.0.running ≡ d.running
      objects-running [] = refl
      objects-running (o ∷ os) = refl

  round-running :
      (now : ℕ) (o : Option (Option Handle × List (Option Handle))) (d : Dispatcher) (l : Log)
      → (process_round k now o d l).0.0.running ≡ d.running
  unfolding process_round serve
  round-running now none d l = check-running now d l
  round-running now (some (none, es)) d l = check-running now (record d { events = es }) l
  round-running now (some (some obj, es)) d l =
      elim (Option-cases (find ℕ_discrete obj d.objects)) [
        | inl e ↦ rw (e, process_round, serve) (check-running now (record d { events = es }) l)
        | inr (it, e) ↦ rw (e, process_round, serve) (check-running now _ _)
      ]

  at_tests : (n : ℕ) (t : Thread) (l : Log) → t.owner.running ≡ false → Ends k (suc n) tests t l
  unfolding Ends
  at_tests n t l off =
      ((ends, t, l, leaves t l off), λ place' t' l' s. only_leaves place' t' l' s off)
    where
      only_leaves :
          (place' : Place) (t' : Thread) (l' : Log)
          → Step k tests t l place' t' l'
          → t.owner.running ≡ false
          → Ends k n place' t' l'
      only_leaves place' t' l' (goes_on _ _ on) off = cc
      only_leaves place' t' l' (leaves _ _ off') off = tt

  -- An entry was put into the queue.
  more :
      (d : Dispatcher) (e : Option Handle)
      → d.running ≡ false
      → IsStopped (record d { events = d.events ++ e ∷ [] })
  more d e off = record { off = off; entry = snoc-cons d.events e }

  abbrev IfAny : Option Thread → Type 0
  IfAny none = Unit {0}
  IfAny (some t) = IsStopped t.owner

  turn-IsStopped : (u : Turn) (t : Thread) (l : Log) → IsStopped t.owner → IfAny (turn k u t l).0
  unfolding turn watch remove signal stop
  turn-IsStopped (watches rk is_consumer now) t l s =
      elim (Option-cases (stoull (k.conf_get_answer l rk (codes "max.poll.interval.ms")))) [
        | inl e ↦ rw (e, turn, watch) tt
        | inr (ms, e) ↦
            rw (e, turn, watch) (record { off = s.off; entry = snoc-cons t.owner.events none })
      ]
  turn-IsStopped (removes rk) t l s = elim (Option-cases (find ℕ_discrete rk t.owner.objects)) [
    | inl e ↦ rw (e, turn, remove) s
    | inr (it, e) ↦
        rw (e, turn, remove) (record { off = s.off; entry = snoc-cons t.owner.events none })
  ]
  turn-IsStopped (signals rk) t l s = more t.owner (some rk) s.off
  turn-IsStopped stops t l s = record { off = refl; entry = snoc-cons t.owner.events none }
  turn-IsStopped (rounds now pick) t l s =
      rw (s.off, turn, loop_test) (record { off = refl; entry = s.entry })

  turns-IsStopped :
      (us : List Turn) (t : Thread) (l : Log)
      → IsStopped t.owner
      → IfAny (process_callbacks k us t l).0
  unfolding process_callbacks
  turns-IsStopped [] t l s = s
  turns-IsStopped (u ∷ us) t l s = elim (Option-cases (turn k u t l).0) [
    | inl e ↦ rw (e, process_callbacks) tt
    | inr (t', e) ↦
        let s' : IfAny (some t') = subst IfAny e (turn-IsStopped u t l s) in
        rw (e, process_callbacks) (turns-IsStopped us t' (turn k u t l).1 s')
  ]

  at_waits : (n : ℕ) (t : Thread) (l : Log) → IsStopped t.owner → Ends k (suc (suc n)) waits t l
  unfolding Ends take_event
  at_waits n t l s =
      let (e, es, same) = s.entry in
      let taken : take_event 0 t.owner.events ≡ some (e, es) = rw (same, take_event) refl in
      ((_, _, _, wakes 0 0 t l (e, es) taken), λ place' t' l' step. back place' t' l' step)
    where
      back :
          (place' : Place) (t' : Thread) (l' : Log)
          → Step k waits t l place' t' l'
          → Ends k (suc n) place' t' l'
      back place' t' l' (wakes now pick _ _ e _) =
          at_tests n _ _ (round-running now (some e) t.owner l ∙ s.off)
      back place' t' l' (expires now _ _ _) =
          at_tests n _ _ (round-running now none t.owner l ∙ s.off)

  place-Ends : (place : Place) (t : Thread) (l : Log) → IsStopped t.owner → Ends k 2 place t l
  unfolding Ends
  place-Ends tests t l s = at_tests 1 t l s.off
  place-Ends waits t l s = at_waits 0 t l s
  place-Ends ends t l s = tt

  -- Once the destructor has stopped the dispatcher, and wherever the thread stands then: whatever
  -- other threads still call before it runs on, unless the process ends, the thread is never stuck
  -- and is past its loop after two steps at most.
  pub stop-Ends :
      (us : List Turn) (place : Place) (t t' : Thread) (l : Log)
      → let r = process_callbacks k us (record t { owner = stop t.owner }) l in
        r.0 ≡ some t' → Ends k 2 place t' r.1
  unfolding stop
  stop-Ends us place t t' l e =
      let s : Thread = record t { owner = stop t.owner } in
      let stopped : IsStopped s.owner = record {
        off = refl;
        entry = snoc-cons t.owner.events none;
      } in
      place-Ends place t' _ (subst IfAny e (turns-IsStopped us s l stopped))
