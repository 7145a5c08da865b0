-- ===== src/Consumer/Life/Quiet.antt =====
-- c_src/exrdkafka_consumer.cc: what leaves the client of a consumer open.
use exrdkafka.Base.{
  ℕ, zero, suc, ◌≡◌, refl, ◌∙◌, List, [], ◌∷◌, Bool, Option, none, some, arith, inl, inr,
  Bool-cases, ◌++◌,
}
use exrdkafka.Base.Int.{ℤ, pos}
use exrdkafka.Erl.{Bytes}
use exrdkafka.Erl.Utils.{c_str}
use exrdkafka.Rd.{Kafka, Handle, Log, Call, Partition}
use exrdkafka.Rd.Books.{Kind, opened, closed, balance}
use exrdkafka.Base.Sets.{has}
use exrdkafka.Base.Text.{codes}
use exrdkafka.Dispatcher
use exrdkafka.Logger.{log_message, logger_callback}
use exrdkafka.Queues.{QueueManager, forward_back, forward_all, remove, clear_all, add}
use exrdkafka.Dispatcher.{Dispatcher}
use exrdkafka.Dispatcher.Quiet.{balance-remove}
use exrdkafka.Consumer.Partitions.Branches.{after_assign, assign_lem, assign_stopped}
use exrdkafka.Consumer.Partitions.{
  Consumer, EnifQueue, Rebalance, assign_partitions_code, revoke_partitions_code, other_code,
  enif_new_queue, assign_each, assigned_list, assign_partitions, revoke_partitions, rebalance_cb,
  give_back, enif_queue_free, enif_consumer_queue_cleanup,
}

-- How often the client `h` was made, destroyed and closed.
abbrev pub ends : Handle → Log → (ℕ × ℕ) × (ℕ × ℕ)
ends h l = (balance Kind.clients h l, balance Kind.closings h l)

module _ (k : Kafka) (h : Handle) where
  ends-forward_back :
      (rk queue : Handle) (l : Log) → ends h (forward_back k rk queue l).1 ≡ ends h l
  unfolding forward_back opened closed
  ends-forward_back rk queue l = ground arith

  ends-forward_all :
      (rk : Handle) (queues : List Handle) (l : Log)
      → ends h (forward_all k rk queues l).1 ≡ ends h l
  unfolding forward_all
  ends-forward_all rk [] l = refl
  ends-forward_all rk (queue ∷ queues) l =
      ends-forward_all rk queues (forward_back k rk queue l).1 ∙ ends-forward_back rk queue l

  pub ends-clear_all : (qm : QueueManager) (l : Log) → ends h (clear_all k qm l).1 ≡ ends h l
  unfolding clear_all
  ends-clear_all qm l = ends-forward_all qm.rk qm.queues l

  ends-remove :
      (qm : QueueManager) (queue : Handle) (l : Log) → ends h (remove k qm queue l).1 ≡ ends h l
  unfolding remove opened closed
  ends-remove qm queue l = elim (Bool-cases (has queue qm.queues)) [
    | inl held ↦ rw (held, remove) (ground (arith, ends-forward_back qm.rk queue l))
    | inr absent ↦ rw (absent, remove) refl
  ]

  ends-give_back :
      (qm : QueueManager) (o : Option Handle) (l : Log) → ends h (give_back k qm o l).1 ≡ ends h l
  unfolding give_back
  ends-give_back qm none l = refl
  ends-give_back qm (some queue) l = ends-remove qm queue l

  pub ends-queue_free :
      (c : Consumer) (q : EnifQueue) (l : Log) → ends h (enif_queue_free k c q l).1 ≡ ends h l
  unfolding enif_queue_free opened closed
  ends-queue_free c q l = ground (arith, ends-give_back c.qm q.queue l)

  pub ends-queue_cleanup :
      (c : Consumer) (q : EnifQueue) (l : Log)
      → ends h (enif_consumer_queue_cleanup k c (some q) l).1 ≡ ends h l
  unfolding enif_consumer_queue_cleanup
  ends-queue_cleanup c q l = ends-give_back c.qm q.queue l

  ends-log_message :
      (log_pid : ℕ) (rk : Handle) (level : ℤ) (msg : Bytes) (l : Log)
      → ends h (log_message k log_pid rk level msg l).1 ≡ ends h l
  unfolding log_message logger_callback opened closed
  ends-log_message zero rk level msg l = refl
  ends-log_message (suc n) rk level msg l = ground arith

  ends-assign_each :
      (c : Consumer) (rk : Handle) (objs : List Partition) (l : Log)
      → ends h (assign_each k c rk objs l).1 ≡ ends h l
  unfolding assign_each enif_new_queue add opened closed
  ends-assign_each c rk [] l = refl
  ends-assign_each c rk (obj ∷ objs) l =
      let r = enif_new_queue k c rk (c_str obj.topic) obj.partition l in
      let l' = Call.release_resource r.0.1.self ∷ Call.make_resource r.0.1.self ∷ r.1 in
      ground (arith, ends-assign_each r.0.0 rk objs l')

  -- What an assignment leaves of a consumer as it was.
  abbrev pub core : Consumer → Option Handle × Bool × ℕ
  core c = (c.kf, c.closing, c.owner)

  core-assign_each :
      (c : Consumer) (rk : Handle) (objs : List Partition) (l : Log)
      → core (assign_each k c rk objs l).0.0 ≡ core c
  unfolding assign_each enif_new_queue
  core-assign_each c rk [] l = refl
  core-assign_each c rk (obj ∷ objs) l =
      let r = enif_new_queue k c rk (c_str obj.topic) obj.partition l in
      let l' = Call.release_resource r.0.1.self ∷ Call.make_resource r.0.1.self ∷ r.1 in
      core-assign_each r.0.0 rk objs l'

  ends-assigned_list :
      (c : Consumer) (rk : Handle) (partitions : Option (List Partition)) (l : Log)
      → let r = assigned_list k c rk partitions l in (ends h r.1 ≡ ends h l) × (core r.0.0 ≡ core c)
  unfolding assigned_list
  ends-assigned_list c rk none l = (refl, refl)
  ends-assigned_list c rk (some objs) l =
      (ends-assign_each c rk objs l, core-assign_each c rk objs l)

  revoke_partitions-ends :
      (c : Consumer) (rk : Handle) (partitions : Option (List Partition)) (l : Log)
      → ends h (revoke_partitions k c rk partitions l).1 ≡ ends h l
  unfolding revoke_partitions opened closed
  revoke_partitions-ends c rk partitions l = ground arith

  ends-after_assign :
      (log_pid : ℕ) (rk : Handle) (partitions : Option (List Partition)) (l : Log)
      → ends h (after_assign k log_pid rk partitions l) ≡ ends h l
  unfolding opened closed
  ends-after_assign log_pid rk partitions l =
      let response = k.assign_answer l rk partitions in
      let msg = codes "failed to assign the new partitions" ++ c_str (k.err2str response) in
      ground (arith, ends-log_message log_pid rk (pos 3) msg (Call.assign rk partitions ∷ l))

  assign_partitions-ends :
      (log_pid : ℕ) (c : Consumer) (rk : Handle) (partitions : Option (List Partition)) (l : Log)
      → let r = assign_partitions k log_pid c rk partitions l in
        (ends h r.1 ≡ ends h l) × (core r.0.0 ≡ core c)
  unfolding opened closed
  assign_partitions-ends log_pid c rk partitions l = elim (Bool-cases c.running) [
    | inr off ↦ rw (assign_stopped k log_pid rk c partitions l off) (ground arith, refl)
    | inl on ↦
        let l' = after_assign k log_pid rk partitions l in
        let (quiet, same) = ends-assigned_list c rk partitions l' in
        rw (assign_lem k log_pid rk c partitions l on)
          (ground (arith, quiet, ends-after_assign log_pid rk partitions l), same)
  ]

  pub rebalance_cb-ends :
      (log_pid : ℕ) (c : Consumer) (rk : Handle) (code : Rebalance)
      (partitions : Option (List Partition)) (l : Log)
      → let r = rebalance_cb k log_pid c rk code partitions l in
        (ends h r.1 ≡ ends h l) × (core r.0.0 ≡ core c)
  unfolding rebalance_cb
  rebalance_cb-ends log_pid c rk assign_partitions_code partitions l =
      assign_partitions-ends log_pid c rk partitions l
  rebalance_cb-ends log_pid c rk revoke_partitions_code partitions l =
      (revoke_partitions-ends c rk partitions l, refl)
  rebalance_cb-ends log_pid c rk (other_code err) partitions l =
      let msg = codes "rebalance error: " ++ c_str (k.err2str err) in
      let l₁ = (log_message k log_pid rk (pos 3) msg l).1 in
      (revoke_partitions-ends c rk partitions l₁ ∙ ends-log_message log_pid rk (pos 3) msg l, refl)

  pub unwatch-ends :
      (rk : Handle) (d : Dispatcher) (l : Log) → ends h (Dispatcher.remove k rk d l).1 ≡ ends h l
  unwatch-ends rk d l =
      ground
        (arith, balance-remove k Kind.clients h rk d l, balance-remove k Kind.closings h rk d l)
