-- ===== src/Consumer/Partitions.antt =====
-- c_src/exrdkafka_consumer.cc: the queues of the partitions that a consumer is assigned.
--
-- The process that logs is an argument, and `enif_alloc_resource` gives a queue its memory.
pub mod Assignment
pub mod Branches
pub mod Release
mod Tests
use exrdkafka.Base.{
  ℕ, [], ◌∷◌, ◌++◌, List, Bool, true, false, Option, none, some, map, if◌then◌else◌,
}
use exrdkafka.Base.Int.{ℤ, pos, is_zero}
use exrdkafka.Base.Text.{codes}
use exrdkafka.Erl.{
  Bytes, Term, Atom, atom, int, tuple, item, end, tuple2, ok_term, list_from_array, resource,
}
use exrdkafka.Erl.Utils.{c_str, make_binary, make_badarg}
use exrdkafka.Rd.{Kafka, Handle, Log, Io, pure, tell, ask, ◌>>=◌, ◌>>◌, Call, Partition}
use exrdkafka.Queues.{QueueManager, add, remove}
use exrdkafka.Logger.{log_message}

-- `struct enif_consumer`, once `enif_consumer_new` has filled it, with the address of its resource.
-- `closing` says that `closed_future` is set, and `kf` is NULL once the consumer is closed.
pub record Consumer : Type 0 where
  pub self : Handle
  pub kf : Option Handle
  pub owner : ℕ
  pub qm : QueueManager
  pub running : Bool
  pub closing : Bool

-- `struct enif_queue`, with the address of its resource.
pub record EnifQueue : Type 0 where
  pub self : Handle
  pub queue : Option Handle
  pub consumer : Handle

-- What librdkafka calls the rebalance for.
pub data Rebalance : Type 0 where
  assign_partitions_code revoke_partitions_code : Rebalance
  other_code : ℤ → Rebalance

-- The four members of an assigned partition.
unfoldable pub assigned_term : Partition → EnifQueue → Term
assigned_term obj q =
    let rest = item (int obj.offset) (item (resource q.self) end) in
    tuple (item (make_binary (c_str obj.topic)) (item (int obj.partition) rest))

unfoldable pub revoked_term : Partition → Term
revoked_term obj = tuple2 (make_binary (c_str obj.topic)) (int obj.partition)

unfoldable pub revoked_list : Option (List Partition) → Term
revoked_list none = list_from_array []
revoked_list (some partitions) = list_from_array (map revoked_term partitions)

module _ (k : Kafka) where
  unfoldable pub enif_new_queue : Consumer → Handle → Bytes → ℤ → Io (Consumer × EnifQueue)
  enif_new_queue c rk topic partition = do
    q ←
        ask (λ l. k.queue_get_partition_answer l rk (c_str topic) partition)
          (Call.queue_get_partition rk (c_str topic) partition)
    tell (Call.keep_resource c.self)
    qm ← add c.qm q
    r ← ask k.alloc_resource_answer Call.alloc_resource
    pure (record c { qm = qm }, record { self = r; queue = some q; consumer = c.self })

  -- The loop of `partition_list_to_nif` for an assignment: the terms, and the queues behind them.
  unfoldable pub assign_each :
      Consumer → Handle → List Partition → Io (Consumer × List Term × List EnifQueue)
  unfolding enif_new_queue
  assign_each c rk [] = pure (c, [], [])
  assign_each c rk (obj ∷ partitions) = do
    r ← enif_new_queue c rk (c_str obj.topic) obj.partition
    tell (Call.make_resource r.1.self)
    tell (Call.release_resource r.1.self)
    rest ← assign_each r.0 rk partitions
    pure (rest.0, assigned_term obj r.1 ∷ rest.1, r.1 ∷ rest.2)

  unfoldable pub assigned_list :
      Consumer → Handle → Option (List Partition) → Io (Consumer × Term × List EnifQueue)
  assigned_list c rk none = pure (c, list_from_array [], [])
  assigned_list c rk (some partitions) = do
    r ← assign_each c rk partitions
    pure (r.0, list_from_array r.1, r.2)

  unfoldable pub assign_partitions :
      ℕ → Consumer → Handle → Option (List Partition) → Io (Consumer × List EnifQueue)
  unfolding assigned_list
  assign_partitions log_pid c rk partitions =
      if c.running
      then (do
        response ← ask (λ l. k.assign_answer l rk partitions) (λ _. Call.assign rk partitions)
        (if is_zero response
            then pure tt
            else log_message k log_pid rk (pos 3)
                (codes "failed to assign the new partitions" ++ c_str (k.err2str response)))
        r ← assigned_list c rk partitions
        tell (Call.send c.owner (tuple2 (atom Atom.assign_partition) r.1))
        pure (r.0, r.2))
      else (do tell (Call.assign rk none); pure (c, []))

  unfoldable pub revoke_partitions : Consumer → Handle → Option (List Partition) → Io (Unit {0})
  unfolding revoked_list
  revoke_partitions c rk partitions =
      if c.running
      then tell (Call.send c.owner (tuple2 (atom Atom.revoke_partition) (revoked_list partitions)))
      else tell (Call.assign rk none)

  unfoldable pub rebalance_cb :
      ℕ → Consumer → Handle → Rebalance → Option (List Partition) → Io (Consumer × List EnifQueue)
  rebalance_cb log_pid c rk assign_partitions_code partitions =
      assign_partitions log_pid c rk partitions
  rebalance_cb log_pid c rk revoke_partitions_code partitions = do
    revoke_partitions c rk partitions
    pure (c, [])
  rebalance_cb log_pid c rk (other_code err) partitions = do
    log_message k log_pid rk (pos 3) (codes "rebalance error: " ++ c_str (k.err2str err))
    revoke_partitions c rk partitions
    pure (c, [])

  -- `remove` of the pointer of a queue: the set has no NULL.
  unfoldable pub give_back : QueueManager → Option Handle → Io QueueManager
  give_back qm none = pure qm
  give_back qm (some queue) = do r ← remove k qm queue; pure r.0

  -- The destructor of the resource of a queue.
  unfoldable pub enif_queue_free : Consumer → EnifQueue → Io Consumer
  unfolding give_back
  enif_queue_free c q = do
    qm ← give_back c.qm q.queue
    tell (Call.release_resource q.consumer)
    pure (record c { qm = qm })

  unfoldable pub enif_consumer_queue_cleanup :
      Consumer → Option EnifQueue → Io (Term × Consumer × Option EnifQueue)
  unfolding give_back
  enif_consumer_queue_cleanup c none = pure (make_badarg, c, none)
  enif_consumer_queue_cleanup c (some q) = do
    qm ← give_back c.qm q.queue
    pure (ok_term, record c { qm = qm }, some (record q { queue = none }))

  -- `none` if `rd_kafka_assign` is called on NULL.
  unfoldable pub enif_consumer_partition_revoke_completed : Option Consumer → Io (Option Term)
  enif_consumer_partition_revoke_completed none l = (some make_badarg, l)
  enif_consumer_partition_revoke_completed (some c) l = elim c.kf [
    | none ↦ (none, l)
    | some kf ↦ (some ok_term, Call.assign kf none ∷ l)
  ]
