-- ===== src/Queues.antt =====
-- c_src/queuemanager.cc: the partition queues that a consumer has taken off its main queue.
--
-- `queues_` is a list of addresses. Each method holds the lock throughout and is one step. The
-- module is built with NDEBUG (c_src/Makefile), so `ASSERT` checks nothing and is left out.
pub mod Routing
pub mod References
mod Tests
use exrdkafka.Base.{List, [], ◌∷◌, Bool, true, false, none, some, if◌then◌else◌}
use exrdkafka.Base.Sets.{has, add_key, drop_key}
use exrdkafka.Rd.{Kafka, Handle, Io, pure, tell, ◌>>=◌, ◌>>◌, rd_queue_get_consumer, Call}

pub record QueueManager : Type 0 where
  pub rk : Handle
  pub queues : List Handle

-- The constructor.
unfoldable pub queue_manager : Handle → QueueManager
queue_manager rk = record { rk = rk; queues = [] }

unfoldable pub add : QueueManager → Handle → Io QueueManager
add qm queue = do
  tell (Call.queue_forward queue none)
  pure (record qm { queues = add_key queue qm.queues })

module _ (k : Kafka) where
  -- Forwards a queue to the main queue of the consumer.
  unfoldable pub forward_back : Handle → Handle → Io (Unit {0})
  forward_back rk queue = do
    main_queue ← rd_queue_get_consumer k rk
    tell (Call.queue_forward queue (some main_queue))
    tell (Call.queue_destroy main_queue)

  unfoldable pub remove : QueueManager → Handle → Io (QueueManager × Bool)
  unfolding forward_back
  remove qm queue =
      if has queue qm.queues
      then (do
        forward_back qm.rk queue
        tell (Call.queue_destroy queue)
        pure (record qm { queues = drop_key queue qm.queues }, true))
      else pure (qm, false)

  -- The loop of `clear_all`.
  unfoldable pub forward_all : Handle → List Handle → Io (Unit {0})
  unfolding forward_back
  forward_all rk [] = pure tt
  forward_all rk (queue ∷ queues) = do forward_back rk queue; forward_all rk queues

  unfoldable pub clear_all : QueueManager → Io QueueManager
  clear_all qm = do forward_all qm.rk qm.queues; pure (record qm { queues = [] })

-- A call of one of the methods.
pub data Use : Type 0 where
  adds removes : Handle → Use
  clears : Use

module _ (k : Kafka) where
  unfoldable pub step : Use → QueueManager → Io QueueManager
  step (adds queue) qm = add qm queue
  step (removes queue) qm = do r ← remove k qm queue; pure r.0
  step clears qm = clear_all k qm

  unfoldable pub session : List Use → QueueManager → Io QueueManager
  session [] qm = pure qm
  session (u ∷ uses) qm = do qm' ← step u qm; session uses qm'
