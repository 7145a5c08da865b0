-- ===== src/Dispatcher/Balance.antt =====
-- c_src/queuecallbacksdispatcher.cc: every message that the thread takes, and every reference to a
-- queue that the dispatcher takes, is given back.
use exrdkafka.Base.{
  ℕ, List, [], ◌∷◌, Bool, true, false, arith, inl, inr, some, none, Option, Option-cases,
  ℕ_discrete, min, ◌-◌,
}
use exrdkafka.Base.Assoc.{find}
use exrdkafka.Base.Text.{codes, stoull}
use exrdkafka.Rd.{Kafka, Handle, Log}
use exrdkafka.Dispatcher.{
  Dispatcher, Item, Thread, Turn, watches, removes, signals, stops, rounds, add64, sub64,
  check_item, check_items, check_objects, check_max_poll_interval_ms, serve, process_round,
  take_event, loop_test, watch, remove, turn, process_callbacks, u64,
}
use exrdkafka.Dispatcher.Poll.{
  do_poll-IsBalanced, enable_events-IsBalanced, IsBalanced, IsBalanced-refl, IsBalanced-trans,
}

module _ (k : Kafka) (h : Handle) where
  check_item-IsBalanced :
      (running : Bool) (now : ℕ) (rk : Handle) (it : Item) (l : Log)
      → IsBalanced h l (check_item k running now rk it l).1
  unfolding check_item
  check_item-IsBalanced running now rk it l =
      ground (arith, do_poll-IsBalanced k running rk it.is_consumer h l)

  check_items-IsBalanced :
      (running : Bool) (now next : ℕ) (m : List (Handle × Item)) (l : Log)
      → IsBalanced h l (check_items k running now next m l).1
  unfolding check_items
  check_items-IsBalanced running now next [] l = IsBalanced-refl h l
  check_items-IsBalanced running now next ((rk, it) ∷ m) l =
      let r = check_item k running now rk it l in
      let next' = min next (add64 r.0.max_poll_interval_ms (sub64 now r.0.last_poll_ms)) in
      IsBalanced-trans h l r.1 (check_items k running now next' m r.1).1
        (check_item-IsBalanced running now rk it l) (check_items-IsBalanced running now next' m r.1)

  check_objects-IsBalanced :
      (now : ℕ) (d : Dispatcher) (m : List (Handle × Item)) (l : Log)
      → IsBalanced h l (check_objects k now d m l).1
  unfolding check_objects
  check_objects-IsBalanced now d [] l = IsBalanced-refl h l
  check_objects-IsBalanced now d (o ∷ os) l =
      check_items-IsBalanced d.running now (u64 - 1) (o ∷ os) l

  check-IsBalanced :
      (now : ℕ) (d : Dispatcher) (l : Log) → IsBalanced h l (check_max_poll_interval_ms k now d l).1
  unfolding check_max_poll_interval_ms
  check-IsBalanced now d l = check_objects-IsBalanced now d d.objects l

  serve-IsBalanced :
      (now : ℕ) (obj : Handle) (d : Dispatcher) (l : Log) → IsBalanced h l (serve k now obj d l).1
  unfolding serve
  serve-IsBalanced now obj d l = elim (Option-cases (find ℕ_discrete obj d.objects)) [
    | inl e ↦ rw (e, serve) (IsBalanced-refl h l)
    | inr (it, e) ↦ rw (e, serve) (do_poll-IsBalanced k d.running obj it.is_consumer h l)
  ]

  process_round-IsBalanced :
      (now : ℕ) (e : Option (Option Handle × List (Option Handle))) (d : Dispatcher) (l : Log)
      → IsBalanced h l (process_round k now e d l).1
  unfolding process_round
  process_round-IsBalanced now none d l = check-IsBalanced now d l
  process_round-IsBalanced now (some (none, es)) d l =
      check-IsBalanced now (record d { events = es }) l
  process_round-IsBalanced now (some (some obj, es)) d l =
      let r = serve k now obj (record d { events = es }) l in
      IsBalanced-trans h l r.1 (check_max_poll_interval_ms k now r.0 r.1).1
        (serve-IsBalanced now obj (record d { events = es }) l) (check-IsBalanced now r.0 r.1)

  watch-IsBalanced :
      (rk : Handle) (is_consumer : Bool) (now : ℕ) (d : Dispatcher) (l : Log)
      → IsBalanced h l (watch k rk is_consumer now d l).1
  unfolding watch
  watch-IsBalanced rk is_consumer now d l =
      elim (Option-cases (stoull (k.conf_get_answer l rk (codes "max.poll.interval.ms")))) [
        | inl e ↦ rw (e, watch) (IsBalanced-refl h l)
        | inr (ms, e) ↦ rw (e, watch) (enable_events-IsBalanced k rk is_consumer true h l)
      ]

  remove-IsBalanced : (rk : Handle) (d : Dispatcher) (l : Log) → IsBalanced h l (remove k rk d l).1
  unfolding remove
  remove-IsBalanced rk d l = elim (Option-cases (find ℕ_discrete rk d.objects)) [
    | inl e ↦ rw (e, remove) (IsBalanced-refl h l)
    | inr (it, e) ↦ rw (e, remove) (enable_events-IsBalanced k rk it.is_consumer false h l)
  ]

  loop_test-IsBalanced :
      (running : Bool) (now pick : ℕ) (t : Thread) (l : Log)
      → IsBalanced h l (loop_test k running now pick t l).1
  unfolding loop_test
  loop_test-IsBalanced true now pick t l =
      process_round-IsBalanced now (take_event pick t.owner.events) t.owner l
  loop_test-IsBalanced false now pick t l = IsBalanced-refl h l

  turn-IsBalanced : (u : Turn) (t : Thread) (l : Log) → IsBalanced h l (turn k u t l).1
  unfolding turn
  turn-IsBalanced (watches rk is_consumer now) t l = watch-IsBalanced rk is_consumer now t.owner l
  turn-IsBalanced (removes rk) t l = remove-IsBalanced rk t.owner l
  turn-IsBalanced (signals rk) t l = IsBalanced-refl h l
  turn-IsBalanced stops t l = IsBalanced-refl h l
  turn-IsBalanced (rounds now pick) t l = loop_test-IsBalanced t.owner.running now pick t l

  -- Over any run of the thread among calls of other threads, each message that it took from a
  -- consumer was destroyed and each reference to a queue was given back, as often as it was taken.
  pub process_callbacks-IsBalanced :
      (us : List Turn) (t : Thread) (l : Log) → IsBalanced h l (process_callbacks k us t l).1
  unfolding process_callbacks
  process_callbacks-IsBalanced [] t l = IsBalanced-refl h l
  process_callbacks-IsBalanced (u ∷ us) t l =
      let r = turn k u t l in
      let first = turn-IsBalanced u t l in
      elim (Option-cases r.0) [
        | inl e ↦ rw (e, process_callbacks) first
        | inr (t', e) ↦
            rw (e, process_callbacks)
              (IsBalanced-trans h l r.1 (process_callbacks k us t' r.1).1 first
                (process_callbacks-IsBalanced us t' r.1))
      ]
