-- ===== src/Consumer/Partitions/Release.antt =====
-- c_src/exrdkafka_consumer.cc: the life of the resource of a queue.
use exrdkafka.Base.{ℕ, zero, suc, ◌+◌, ◌≡◌, refl, none, some, arith, ◌==◌, ◌&&◌}
use exrdkafka.Base.Sets.{has}
use exrdkafka.Rd.{Kafka, Handle, Log}
use exrdkafka.Rd.Ledger.{queues_opened, queues_closed, tally}
use exrdkafka.Queues.{remove}
use exrdkafka.Queues.References.{remove-balance}
use exrdkafka.Consumer.Partitions.{
  Consumer, EnifQueue, give_back, enif_queue_free, enif_consumer_queue_cleanup,
}

module _ (k : Kafka) where
  -- `n` calls of `enif_consumer_queue_cleanup` on one queue, and then its destructor.
  unfoldable pub queue_life : ℕ → Consumer → EnifQueue → Log → Consumer × Log
  queue_life zero c q l = enif_queue_free k c q l
  queue_life (suc n) c q l =
      let r = enif_consumer_queue_cleanup k c (some q) l in
      elim r.0.2 [ none ↦ (r.0.1, r.1) | some q' ↦ queue_life n r.0.1 q' r.1 ]

  -- Once the queue is NULL, nothing more is given back.
  empty-balance :
      (n : ℕ) (c : Consumer) (q : EnifQueue) (h : Handle) (l : Log)
      → let r = queue_life n c (record q { queue = none }) l in
        (r.0.qm ≡ c.qm)
        × (queues_opened h r.1 ≡ queues_opened h l)
        × (queues_closed h r.1 ≡ queues_closed h l)
  unfolding queue_life enif_queue_free enif_consumer_queue_cleanup give_back queues_opened
      queues_closed
  empty-balance zero c q h l = (refl, refl, refl)
  empty-balance (suc n) c q h l = empty-balance n c q h l

  -- However often the resource of a queue is cleaned up before its destructor runs, its life gives
  -- back just one reference, to its own queue, if the set of the manager holds that queue, and none
  -- otherwise; and the manager ends as after one `remove`.
  pub queue_life-balance :
      (n : ℕ) (c : Consumer) (q : EnifQueue) (queue h : Handle) (l : Log)
      → q.queue ≡ some queue
      → let r = queue_life n c q l in
        (r.0.qm ≡ (remove k c.qm queue l).0.0)
        × (queues_opened h r.1 + queues_closed h l + tally (has queue c.qm.queues && (queue == h)) 0
            ≡ queues_opened h l + queues_closed h r.1)
  unfolding queue_life enif_queue_free enif_consumer_queue_cleanup give_back queues_opened
      queues_closed
  queue_life-balance zero c q queue h l e =
      let once = (remove-balance k c.qm queue h l).1 in rw e (refl, once)
  queue_life-balance (suc n) c q queue h l e =
      let once = (remove-balance k c.qm queue h l).1 in
      let r = remove k c.qm queue l in
      let (same, opened, closed) = empty-balance n (record c { qm = r.0.0 }) q h r.1 in
      rw e (same, omega (arith, once, opened, closed))
