-- ===== src/Dispatcher/Poll.antt =====
-- c_src/queuecallbacksdispatcher.cc: `do_poll`, and what every operation of the dispatcher does to
-- the counts of polls, messages and queue references.
use exrdkafka.Base.{◌+◌, ◌≤◌, ◌<◌, ◌≡◌, ◌≢◌, List, [], ◌∷◌, Bool, true, false, arith, some}
use exrdkafka.Rd.{Kafka, Handle, Log, Call}
use exrdkafka.Rd.Ledger.{polls_of, messages_opened, messages_closed, queues_opened, queues_closed}
use exrdkafka.Dispatcher.{enable_events, drain, do_poll}

-- Between the logs as many references to the message and to the queue `h` were taken as given back.
pub record IsBalanced (h : Handle) (l l' : Log) : Type 0 where
  pub messages :
      messages_opened h l' + messages_closed h l ≡ messages_opened h l + messages_closed h l'
  pub queues : queues_opened h l' + queues_closed h l ≡ queues_opened h l + queues_closed h l'

pub IsBalanced-refl : (h : Handle) (l : Log) → IsBalanced h l l
IsBalanced-refl h l = omega arith

pub IsBalanced-trans :
    (h : Handle) (a b c : Log) → IsBalanced h a b → IsBalanced h b c → IsBalanced h a c
IsBalanced-trans h a b c p q = omega arith

module _ (k : Kafka) where
  drain-polls :
      (rk h : Handle) (msgs : List Handle) (l : Log)
      → rk ≢ h
      → polls_of h (drain k rk msgs l).1 ≡ polls_of h l
  unfolding drain polls_of
  drain-polls rk h [] l ne = ground arith
  drain-polls rk h (m ∷ msgs) l ne =
      ground
        (arith, drain-polls rk h msgs (Call.message_destroy m ∷ Call.consumer_poll rk (some m) ∷ l))

  pub do_poll-polls :
      (running : Bool) (rk : Handle) (is_consumer : Bool) (h : Handle) (l : Log)
      → rk ≢ h
      → polls_of h (do_poll k running rk is_consumer l).1 ≡ polls_of h l
  unfolding do_poll polls_of
  do_poll-polls running rk is_consumer h l ne =
      ground (arith, drain-polls rk h (k.consumer_backlog l rk) l)

  drain-IsBalanced :
      (rk h : Handle) (msgs : List Handle) (l : Log) → IsBalanced h l (drain k rk msgs l).1
  unfolding drain messages_opened messages_closed queues_opened queues_closed
  drain-IsBalanced rk h [] l = grind arith
  drain-IsBalanced rk h (m ∷ msgs) l = ground (
    arith,
    drain-IsBalanced rk h msgs (Call.message_destroy m ∷ Call.consumer_poll rk (some m) ∷ l),
  )

  drain-le :
      (rk h : Handle) (msgs : List Handle) (l : Log)
      → polls_of h l ≤ polls_of h (drain k rk msgs l).1
  unfolding drain polls_of
  drain-le rk h [] l = ground arith
  drain-le rk h (m ∷ msgs) l =
      ground
        (arith, drain-le rk h msgs (Call.message_destroy m ∷ Call.consumer_poll rk (some m) ∷ l))

  -- Polls are only added.
  pub do_poll-le :
      (running : Bool) (rk : Handle) (is_consumer : Bool) (h : Handle) (l : Log)
      → polls_of h l ≤ polls_of h (do_poll k running rk is_consumer l).1
  unfolding do_poll polls_of
  do_poll-le running rk is_consumer h l = ground (arith, drain-le rk h (k.consumer_backlog l rk) l)

  drain-lt :
      (rk : Handle) (msgs : List Handle) (l : Log)
      → k.stopping l ≡ false
      → polls_of rk l < polls_of rk (drain k rk msgs l).1
  unfolding drain polls_of
  drain-lt rk [] l e = ground arith
  drain-lt rk (m ∷ msgs) l e =
      ground
        (arith, drain-le rk rk msgs (Call.message_destroy m ∷ Call.consumer_poll rk (some m) ∷ l))

  -- While the thread is to go on, the client is polled.
  pub do_poll-lt :
      (rk : Handle) (is_consumer : Bool) (l : Log)
      → k.stopping l ≡ false
      → polls_of rk l < polls_of rk (do_poll k true rk is_consumer l).1
  unfolding do_poll polls_of
  do_poll-lt rk is_consumer l e = ground (arith, drain-lt rk (k.consumer_backlog l rk) l e)

  pub do_poll-IsBalanced :
      (running : Bool) (rk : Handle) (is_consumer : Bool) (h : Handle) (l : Log)
      → IsBalanced h l (do_poll k running rk is_consumer l).1
  unfolding do_poll messages_opened messages_closed queues_opened queues_closed
  do_poll-IsBalanced running rk is_consumer h l =
      ground (arith, drain-IsBalanced rk h (k.consumer_backlog l rk) l)

  pub enable_events-IsBalanced :
      (rk : Handle) (is_consumer enabled : Bool) (h : Handle) (l : Log)
      → IsBalanced h l (enable_events k rk is_consumer enabled l).1
  unfolding enable_events messages_opened messages_closed queues_opened queues_closed
  enable_events-IsBalanced rk is_consumer enabled h l = ground arith

  pub enable_events-polls :
      (rk : Handle) (is_consumer enabled : Bool) (h : Handle) (l : Log)
      → polls_of h (enable_events k rk is_consumer enabled l).1 ≡ polls_of h l
  unfolding enable_events polls_of
  enable_events-polls rk is_consumer enabled h l = ground arith
