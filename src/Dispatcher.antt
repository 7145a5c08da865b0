-- ===== src/Dispatcher.antt =====
-- c_src/queuecallbacksdispatcher.cc and .h: the thread that polls the clients of the module.
--
-- `objects_` is an association list. The queue of events keeps no order between the threads that
-- fill it, so which of its entries a round takes is an argument, and so is the time that `now_ms`
-- reads. Every access to `objects_` holds the lock and is one step.
pub mod Poll
pub mod Tended
pub mod Deadlines
pub mod Wakeup
pub mod Shutdown
pub mod Watched
pub mod Balance
pub mod Quiet
pub mod Fresh
mod Tests
use exrdkafka.Base.{
  ℕ, zero, suc, ◌+◌, ◌-◌, ◌*◌, ◌/◌, ◌%◌, ◌^◌, min, List, [], ◌∷◌, ◌++◌, Bool, true, false, Option,
  none, some, ltb, leb, if◌then◌else◌, ℕ_discrete,
}
use exrdkafka.Base.Assoc.{find, put, erase_key}
use exrdkafka.Base.Int.{ℤ, pos, negsuc, minus_one}
use exrdkafka.Base.Text.{codes, stoull}
use exrdkafka.Erl.{Bytes}
use exrdkafka.Rd.{
  Kafka, Handle, Log, Io, pure, tell, ◌>>=◌, ◌>>◌, rd_queue_get_consumer, rd_queue_get_main, Call,
}

-- Arithmetic of `uint64_t`, and the cast to `int64_t`.
abbrev pub u64 : ℕ
u64 = 2 ^ 64

abbrev pub add64 : ℕ → ℕ → ℕ
add64 a b = (a + b) % u64

abbrev pub sub64 : ℕ → ℕ → ℕ
sub64 a b = (a + u64 - b) % u64

abbrev pub to_int64 : ℕ → ℤ
to_int64 n = if ltb n (2 ^ 63) then pos n else negsuc (u64 - 1 - n)

-- What `wait_dequeue_timed` does with a timeout: a negative one is no limit.
abbrev pub is_unlimited : ℤ → Bool
is_unlimited (pos n) = false
is_unlimited (negsuc n) = true

pub record Item : Type 0 where
  pub is_consumer : Bool
  pub max_poll_interval_ms : ℕ
  pub last_poll_ms : ℕ

pub record Dispatcher : Type 0 where
  pub running : Bool
  pub events : List (Option Handle)
  pub objects : List (Handle × Item)

-- The constructor, and the destructor as far as the thread sees it.
unfoldable pub dispatcher : Dispatcher
dispatcher = record { running = true; events = []; objects = [] }

unfoldable pub stop : Dispatcher → Dispatcher
stop d = record d { running = false; events = d.events ++ none ∷ [] }

unfoldable pub signal : Handle → Dispatcher → Dispatcher
signal instance' d = record d { events = d.events ++ some instance' ∷ [] }

module _ (k : Kafka) where
  -- Switches the event callback of the client's queue on or off.
  unfoldable pub enable_events : Handle → Bool → Bool → Io (Unit {0})
  enable_events rk is_consumer enabled = do
    queue ← (if is_consumer then rd_queue_get_consumer k rk else rd_queue_get_main k rk)
    tell (Call.queue_event_enable queue enabled)
    tell (Call.queue_destroy queue)

  -- `none` if `std::stoull` throws, which ends the process: the module has no exceptions.
  unfoldable pub watch : Handle → Bool → ℕ → Dispatcher → Io (Option Dispatcher)
  watch rk is_consumer now d l =
      elim (stoull (k.conf_get_answer l rk (codes "max.poll.interval.ms"))) [
        | none ↦ (none, l)
        | some ms ↦
            let it : Item = record {
              is_consumer = is_consumer;
              max_poll_interval_ms = ms / 2;
              last_poll_ms = now;
            } in
            let r = enable_events rk is_consumer true l in
            (
              some (record d {
                objects = put ℕ_discrete rk it d.objects;
                events = d.events ++ none ∷ [];
              }),
              r.1,
            )
      ]

  unfoldable pub remove : Handle → Dispatcher → Io (Dispatcher × Bool)
  remove rk d = elim (find ℕ_discrete rk d.objects) [
    | none ↦ pure (d, false)
    | some it ↦ do
      enable_events rk it.is_consumer false
      pure (
        record d { objects = erase_key ℕ_discrete rk d.objects; events = d.events ++ none ∷ [] },
        true,
      )
  ]

  -- The loop of `do_poll` over a consumer, with what the polls hand out before they answer NULL.
  -- `running_` is tested before each poll.
  unfoldable pub drain : Handle → List Handle → Io (Unit {0})
  drain rk [] l = if k.stopping l then (tt, l) else (tt, Call.consumer_poll rk none ∷ l)
  drain rk (msg ∷ msgs) l =
      let rest = drain rk msgs (Call.message_destroy msg ∷ Call.consumer_poll rk (some msg) ∷ l) in
      if k.stopping l then (tt, l) else rest

  -- `running` is what `running_` is when the round begins.
  unfoldable pub do_poll : Bool → Handle → Bool → Io (Unit {0})
  do_poll running rk is_consumer l =
      if is_consumer
      then (if running then drain rk (k.consumer_backlog l rk) l else (tt, l))
      else tell (Call.poll rk) l

  -- One round of the loop of `check_max_poll_interval_ms`.
  unfoldable pub check_item : Bool → ℕ → Handle → Item → Io Item
  check_item running now rk it =
      if leb it.max_poll_interval_ms (sub64 now it.last_poll_ms)
      then (do do_poll running rk it.is_consumer; pure (record it { last_poll_ms = now }))
      else pure it

  unfoldable pub check_items : Bool → ℕ → ℕ → List (Handle × Item) → Io (List (Handle × Item) × ℕ)
  check_items running now next_schedule [] = pure ([], next_schedule)
  check_items running now next_schedule ((rk, it) ∷ objects) = do
    it' ← check_item running now rk it
    r ←
        check_items running now
          (min next_schedule (add64 it'.max_poll_interval_ms (sub64 now it'.last_poll_ms))) objects
    pure ((rk, it') ∷ r.0, r.1)

  unfoldable pub check_objects : ℕ → Dispatcher → List (Handle × Item) → Io (Dispatcher × ℤ)
  check_objects now d [] = pure (d, minus_one)
  check_objects now d (o ∷ os) = do
    r ← check_items d.running now (u64 - 1) (o ∷ os)
    pure (record d { objects = r.0 }, to_int64 ((r.1 * 1000) % u64))

  unfoldable pub check_max_poll_interval_ms : ℕ → Dispatcher → Io (Dispatcher × ℤ)
  unfolding check_objects
  check_max_poll_interval_ms now d = check_objects now d d.objects

-- The entry at a place of the queue, and the rest.
unfoldable pub take_event : ℕ → List (Option Handle) → Option (Option Handle × List (Option Handle))
take_event i [] = none
take_event zero (e ∷ es) = some (e, es)
take_event (suc i) (e ∷ es) = elim (take_event i es) [
  | none ↦ none
  | some (f, fs) ↦ some (f, e ∷ fs)
]

module _ (k : Kafka) where
  -- The branch of `process_callbacks` for an event of a client.
  unfoldable pub serve : ℕ → Handle → Dispatcher → Io Dispatcher
  serve now obj d = elim (find ℕ_discrete obj d.objects) [
    | none ↦ pure d
    | some it ↦ do
      do_poll k d.running obj it.is_consumer
      pure (record d { objects = put ℕ_discrete obj (record it { last_poll_ms = now }) d.objects })
  ]

  -- One round of `process_callbacks` and the timeout of the next: the wait ends with an event, or
  -- with none.
  unfoldable pub process_round :
      ℕ → Option (Option Handle × List (Option Handle)) → Dispatcher → Io (Dispatcher × ℤ)
  process_round now none d = check_max_poll_interval_ms k now d
  process_round now (some (none, es)) d =
      check_max_poll_interval_ms k now (record d { events = es })
  process_round now (some (some obj, es)) d = do
    d' ← serve now obj (record d { events = es })
    check_max_poll_interval_ms k now d'

-- What happens next: a method called by another thread, or a round that starts at a time and takes
-- the event at a place of the queue (past its end: the wait times out).
pub data Turn : Type 0 where
  watches : Handle → Bool → ℕ → Turn
  removes signals : Handle → Turn
  stops : Turn
  rounds : ℕ → ℕ → Turn

-- A dispatcher and the timeout `poll_timeout` of its thread.
pub record Thread : Type 0 where
  pub owner : Dispatcher
  pub poll_timeout : ℤ

module _ (k : Kafka) where
  -- `while (running_)`, for one round.
  unfoldable pub loop_test : Bool → ℕ → ℕ → Thread → Io (Option Thread)
  loop_test true now pick t = do
    r ← process_round k now (take_event pick t.owner.events) t.owner
    pure (some (record { owner = r.0; poll_timeout = r.1 }))
  loop_test false now pick t = pure (some t)

  -- `none` if the process has ended.
  unfoldable pub turn : Turn → Thread → Io (Option Thread)
  unfolding loop_test
  turn (watches rk is_consumer now) t = do
    o ← watch k rk is_consumer now t.owner
    pure (elim o [ none ↦ none | some d ↦ some (record t { owner = d }) ])
  turn (removes rk) t = do r ← remove k rk t.owner; pure (some (record t { owner = r.0 }))
  turn (signals rk) t = pure (some (record t { owner = signal rk t.owner }))
  turn stops t = pure (some (record t { owner = stop t.owner }))
  turn (rounds now pick) t = loop_test t.owner.running now pick t

  -- `process_callbacks` among the calls of the other threads.
  unfoldable pub process_callbacks : List Turn → Thread → Io (Option Thread)
  process_callbacks [] t l = (some t, l)
  process_callbacks (u ∷ us) t l =
      let r = turn u t l in elim r.0 [ none ↦ (none, r.1) | some t' ↦ process_callbacks us t' r.1 ]
