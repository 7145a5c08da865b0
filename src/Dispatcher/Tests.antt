-- ===== src/Dispatcher/Tests.antt =====
-- Tests of the dispatcher, and its theorems at concrete inputs.
use exrdkafka.Base.{◌*◌, ◌≡◌, ◌↔◌, refl, List, [], ◌∷◌, none, some, true, false, ℕ_discrete, arith}
use exrdkafka.Base.Assoc.{find, put, erase_key}
use exrdkafka.Base.Int.{pos, minus_one}
use exrdkafka.Base.Text.{stoull}
use exrdkafka.Rd.{Call}
use exrdkafka.Rd.Ledger.{polls_of}
use exrdkafka.Rd.Sample.{willing}
use exrdkafka.Dispatcher.{
  Dispatcher, Item, Thread, Turn, signals, rounds, dispatcher, watch, remove, signal, stop,
  check_max_poll_interval_ms, process_round, process_callbacks, turn, do_poll, drain, enable_events,
  take_event, serve, check_items, check_item, is_unlimited,
}
use exrdkafka.Dispatcher.Deadlines.{Timed, process_round-Checked}
use exrdkafka.Dispatcher.Tended.{AllTended}
use exrdkafka.Dispatcher.Wakeup.{check-oversleeps, check_unlimited_iff}
use exrdkafka.Dispatcher.Watched.{process_callbacks-remove}
use exrdkafka.Dispatcher.Balance.{process_callbacks-IsBalanced}
use exrdkafka.Dispatcher.Poll.{IsBalanced}
use exrdkafka.Dispatcher.Shutdown.{Place, Ends, stop-Ends}

program : Unit {0}
unfolding watch remove signal stop check_max_poll_interval_ms process_round process_callbacks turn
    do_poll drain enable_events take_event serve check_items check_item find put erase_key
    ℕ_discrete stoull dispatcher
program = tt

abbrev consumer : Item
consumer = record { is_consumer = true; max_poll_interval_ms = 150000; last_poll_ms = 1000 }

abbrev watching : Dispatcher
watching = record { running = true; events = none ∷ []; objects = (7, consumer) ∷ [] }

abbrev thread : Thread
thread = record { owner = watching; poll_timeout = minus_one }

-- Half of max.poll.interval.ms is kept, and the references to the queue are given back.
watch_one : watch willing 7 true 1000 dispatcher [] ≡ (
  some watching,
  Call.queue_destroy 100 ∷ Call.queue_event_enable 100 true ∷ Call.queue_get_consumer 7 100 ∷ [],
)
unfolding program
watch_one = refl

-- An event makes the thread take all messages that wait.
polled :
    (process_round willing 2000 (some (some 7, [])) watching []).1
    ≡ Call.consumer_poll 7 none
      ∷ Call.message_destroy 51
      ∷ Call.consumer_poll 7 (some 51)
      ∷ Call.message_destroy 50
      ∷ Call.consumer_poll 7 (some 50)
      ∷ []
unfolding program
polled = refl

process_round-Checked_example :
    let r = process_round willing 400000 none watching [] in
    Timed 400000 watching.objects r.0.0.objects
    × AllTended 400000 [] r.1 watching.objects r.0.0.objects
process_round-Checked_example =
    process_round-Checked willing 400000 (omega arith) (λ l. refl) none watching [] refl
      (omega arith)

check-oversleeps_example :
    check_max_poll_interval_ms willing 101000 watching [] ≡ ((watching, pos (250000 * 1000)), [])
check-oversleeps_example =
    check-oversleeps willing true (none ∷ []) 7 consumer 101000 [] (omega arith) (omega arith)
      (omega arith) (omega arith)

abbrev turns : List Turn
turns = signals 7 ∷ rounds 2000 0 ∷ rounds 2000 0 ∷ rounds 900000 5 ∷ []

process_callbacks-remove_example :
    let r = remove willing 7 watching [] in
    polls_of 7 (process_callbacks willing turns (record thread { owner = r.0.0 }) r.1).1
    ≡ polls_of 7 []
unfolding find
process_callbacks-remove_example =
    process_callbacks-remove willing 7 turns thread [] (refl, tt) (tt, (tt, (tt, (tt, tt))))

process_callbacks-IsBalanced_example :
    IsBalanced 50 [] (process_callbacks willing turns thread []).1
process_callbacks-IsBalanced_example = process_callbacks-IsBalanced willing 50 turns thread []

check_unlimited_iff_example :
    (is_unlimited (check_max_poll_interval_ms willing 2000 watching []).0.1 ≡ true)
    ↔ (watching.objects ≡ [])
check_unlimited_iff_example = check_unlimited_iff willing 2000 watching [] (omega arith)

-- A thread that waits without a limit, and an event of a client after the destructor began.
abbrev stopped : Thread
stopped = record thread {
  owner = record watching { running = false; events = none ∷ none ∷ some 7 ∷ [] };
}

signalled :
    (process_callbacks willing (signals 7 ∷ []) (record thread { owner = stop watching }) []).0
    ≡ some stopped
unfolding program
signalled = refl

stop-Ends_example :
    Ends willing 2 Place.waits stopped
      (process_callbacks willing (signals 7 ∷ []) (record thread { owner = stop watching }) []).1
stop-Ends_example = stop-Ends willing (signals 7 ∷ []) Place.waits thread stopped [] signalled
