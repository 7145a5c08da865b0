-- ===== src/Dispatcher/Quiet.antt =====
-- c_src/queuecallbacksdispatcher.cc: the dispatcher leaves the books of the clients alone.
use exrdkafka.Base.{
  ◌∙◌, List, [], ◌∷◌, Option, none, some, min, ◌-◌, ℕ, ◌≡◌, refl, Bool, true, false, arith, inl,
  inr, Option-cases, ℕ_discrete,
}
use exrdkafka.Base.Assoc.{find}
use exrdkafka.Base.Text.{codes, stoull}
use exrdkafka.Rd.{Kafka, Handle, Log, Call}
use exrdkafka.Rd.Books.{Kind, opened, closed, balance}
use exrdkafka.Dispatcher.{
  Dispatcher, Item, enable_events, watch, remove, drain, do_poll, check_item, check_items,
  check_objects, check_max_poll_interval_ms, serve, process_round, add64, sub64, u64,
}

module _ (k : Kafka) where
  balance-enable_events :
      (kd : Kind) (h rk : Handle) (is_consumer enabled : Bool) (l : Log)
      → balance kd h (enable_events k rk is_consumer enabled l).1 ≡ balance kd h l
  unfolding enable_events opened closed
  balance-enable_events Kind.confs h rk is_consumer enabled l = ground arith
  balance-enable_events _ h rk is_consumer enabled l = ground arith

  pub balance-watch :
      (kd : Kind) (h rk : Handle) (is_consumer : Bool) (now : ℕ) (d : Dispatcher) (l : Log)
      → balance kd h (watch k rk is_consumer now d l).1 ≡ balance kd h l
  unfolding watch
  balance-watch kd h rk is_consumer now d l =
      elim (Option-cases (stoull (k.conf_get_answer l rk (codes "max.poll.interval.ms")))) [
        | inl e ↦ rw (e, watch) refl
        | inr (ms, e) ↦ rw (e, watch) (balance-enable_events kd h rk is_consumer true l)
      ]

  pub balance-remove :
      (kd : Kind) (h rk : Handle) (d : Dispatcher) (l : Log)
      → balance kd h (remove k rk d l).1 ≡ balance kd h l
  unfolding remove
  balance-remove kd h rk d l = elim (Option-cases (find ℕ_discrete rk d.objects)) [
    | inl e ↦ rw (e, remove) refl
    | inr (it, e) ↦ rw (e, remove) (balance-enable_events kd h rk it.is_consumer false l)
  ]

  -- A round of the thread, with any event, makes and destroys no client.
  module _ (h : Handle) where
    abbrev clients : Log → ℕ × ℕ
    clients l = balance Kind.clients h l

    clients-drain :
        (rk : Handle) (msgs : List Handle) (l : Log) → clients (drain k rk msgs l).1 ≡ clients l
    unfolding drain opened closed
    clients-drain rk [] l = ground arith
    clients-drain rk (m ∷ msgs) l =
        ground (
          arith,
          clients-drain rk msgs (Call.message_destroy m ∷ Call.consumer_poll rk (some m) ∷ l),
        )

    clients-do_poll :
        (running : Bool) (rk : Handle) (is_consumer : Bool) (l : Log)
        → clients (do_poll k running rk is_consumer l).1 ≡ clients l
    unfolding do_poll opened closed
    clients-do_poll running rk is_consumer l =
        ground (arith, clients-drain rk (k.consumer_backlog l rk) l)

    clients-check_item :
        (running : Bool) (now : ℕ) (rk : Handle) (it : Item) (l : Log)
        → clients (check_item k running now rk it l).1 ≡ clients l
    unfolding check_item
    clients-check_item running now rk it l =
        ground (arith, clients-do_poll running rk it.is_consumer l)

    clients-check_items :
        (running : Bool) (now next : ℕ) (m : List (Handle × Item)) (l : Log)
        → clients (check_items k running now next m l).1 ≡ clients l
    unfolding check_items
    clients-check_items running now next [] l = refl
    clients-check_items running now next ((rk, it) ∷ m) l =
        let r = check_item k running now rk it l in
        let next' = min next (add64 r.0.max_poll_interval_ms (sub64 now r.0.last_poll_ms)) in
        clients-check_items running now next' m r.1 ∙ clients-check_item running now rk it l

    clients-check :
        (now : ℕ) (d : Dispatcher) (m : List (Handle × Item)) (l : Log)
        → clients (check_objects k now d m l).1 ≡ clients l
    unfolding check_objects
    clients-check now d [] l = refl
    clients-check now d (o ∷ os) l = clients-check_items d.running now (u64 - 1) (o ∷ os) l

    pub clients-process_round :
        (now : ℕ) (e : Option (Option Handle × List (Option Handle))) (d : Dispatcher) (l : Log)
        → clients (process_round k now e d l).1 ≡ clients l
    unfolding process_round serve check_max_poll_interval_ms
    clients-process_round now none d l = clients-check now d d.objects l
    clients-process_round now (some (none, es)) d l =
        clients-check now (record d { events = es }) d.objects l
    clients-process_round now (some (some obj, es)) d l =
        elim (Option-cases (find ℕ_discrete obj d.objects)) [
          | inl e ↦ rw (e, process_round, serve) (clients-check now _ _ l)
          | inr (it, e) ↦
              rw (e, process_round, serve)
                (clients-check now _ _ _ ∙ clients-do_poll d.running obj it.is_consumer l)
        ]
