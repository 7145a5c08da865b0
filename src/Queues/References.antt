-- ===== src/Queues/References.antt =====
-- c_src/queuemanager.cc: the references to queues that librdkafka hands out and takes back.
use exrdkafka.Base.{
  ◌+◌, ◌≡◌, refl, List, [], ◌∷◌, true, false, arith, ◌==◌, inl, inr, Bool-cases, ◌&&◌,
}
use exrdkafka.Base.Sets.{has}
use exrdkafka.Rd.{Kafka, Handle, Log}
use exrdkafka.Rd.Ledger.{queues_opened, queues_closed, tally}
use exrdkafka.Queues.{QueueManager, forward_back, remove, forward_all, clear_all}

module _ (k : Kafka) where
  -- The reference to the main queue is given back at once, so the balance of every queue stays.
  forward_back-balance :
      (rk queue h : Handle) (l : Log)
      → let l' = (forward_back k rk queue l).1 in
        queues_opened h l' + queues_closed h l ≡ queues_opened h l + queues_closed h l'
  unfolding forward_back queues_opened queues_closed
  forward_back-balance rk queue h l = ground arith

  forward_all-balance :
      (rk : Handle) (queues : List Handle) (h : Handle) (l : Log)
      → let l' = (forward_all k rk queues l).1 in
        queues_opened h l' + queues_closed h l ≡ queues_opened h l + queues_closed h l'
  unfolding forward_all
  forward_all-balance rk [] h l = omega arith
  forward_all-balance rk (queue ∷ queues) h l =
      let l' = (forward_back k rk queue l).1 in
      omega (arith, forward_back-balance rk queue h l, forward_all-balance rk queues h l')

  -- `remove` says whether the set holds the queue. If it does, one reference to that queue is given
  -- back; every other balance of references taken and given back is as before.
  pub remove-balance :
      (qm : QueueManager) (queue h : Handle) (l : Log)
      → let r = remove k qm queue l in
        (r.0.1 ≡ has queue qm.queues)
        × (queues_opened h r.1 + queues_closed h l + tally (has queue qm.queues && (queue == h)) 0
            ≡ queues_opened h l + queues_closed h r.1)
  unfolding remove queues_opened queues_closed
  remove-balance qm queue h l = elim (Bool-cases (has queue qm.queues)) [
    | inl held ↦ rw (held, remove) (ground (arith, held, forward_back-balance qm.rk queue h l))
    | inr absent ↦ rw (absent, remove) (ground (arith, absent))
  ]

  -- `clear_all` gives back no reference to the queues that it drops from the set, and a later
  -- `remove` of such a queue finds nothing and calls nothing: the reference is never given back.
  pub clear_all-leaks :
      (qm : QueueManager) (queue : Handle) (l : Log)
      → has queue qm.queues ≡ true
      → let r = clear_all k qm l in
        (queues_opened queue r.1 + queues_closed queue l
          ≡ queues_opened queue l + queues_closed queue r.1)
        × (remove k r.0 queue r.1 ≡ ((r.0, false), r.1))
  unfolding clear_all remove has
  clear_all-leaks qm queue l held = (forward_all-balance qm.rk qm.queues queue l, refl)
