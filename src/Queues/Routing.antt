-- ===== src/Queues/Routing.antt =====
-- c_src/queuemanager.cc: where the events of each partition queue go.
use exrdkafka.Base.{
  ◌≡◌, refl, ◌≢◌, List, [], ◌∷◌, Bool, true, false, none, some, arith, inl, inr, Bool-cases, ◌==◌,
  if◌then◌else◌,
}
use exrdkafka.Base.Sets.{
  has, Distinct, has-add_key, add_key-Distinct, has-drop_key, drop_key-Distinct,
}
use exrdkafka.Rd.{Kafka, Handle, Log, Call}
use exrdkafka.Queues.{
  QueueManager, queue_manager, add, forward_back, remove, forward_all, clear_all, Use, adds,
  removes, clears, step, session,
}

-- Where a queue's events go: nothing was said yet, to the queue itself, to the main queue of the
-- consumer `rk`, to another queue.
pub data Route : Type 0 where
  unset detached main elsewhere : Route

-- The log has handed out `m` as the main queue of the consumer `rk`.
unfoldable pub is_main : Handle → Handle → Log → Bool
is_main rk m [] = false
is_main rk m (Call.queue_get_consumer r j ∷ l) =
    if r == rk then (if j == m then true else is_main rk m l) else is_main rk m l
is_main rk m (_ ∷ l) = is_main rk m l

-- What the latest `rd_kafka_queue_forward` of the queue says.
unfoldable pub route : Handle → Handle → Log → Route
route rk q [] = unset
route rk q (Call.queue_forward j none ∷ l) = if j == q then detached else route rk q l
route rk q (Call.queue_forward j (some m) ∷ l) =
    if j == q then (if is_main rk m l then main else elsewhere) else route rk q l
route rk q (_ ∷ l) = route rk q l

-- The set holds the detached queues, and each of them once.
pub record Routed (qm : QueueManager) (l : Log) : Type 0 where
  pub distinct : Distinct qm.queues
  pub inside : (q : Handle) → has q qm.queues ≡ true → route qm.rk q l ≡ detached
  pub outside : (q : Handle) → has q qm.queues ≡ false → route qm.rk q l ≢ detached

pub add-Routed :
    (qm : QueueManager) (queue : Handle) (l : Log)
    → Routed qm l
    → let r = add qm queue l in Routed r.0 r.1
unfolding add route
add-Routed qm queue l v = record {
  distinct = add_key-Distinct queue qm.queues v.distinct;
  inside = λ q h. ground (arith, v.inside q, has-add_key queue q qm.queues);
  outside = λ q h. ground (arith, v.outside q, has-add_key queue q qm.queues);
}

module _ (k : Kafka) where
  route-forward_back :
      (rk queue q : Handle) (l : Log)
      → route rk q (forward_back k rk queue l).1 ≡ (if queue == q then main else route rk q l)
  unfolding forward_back route is_main
  route-forward_back rk queue q l = ground arith

  pub remove-Routed :
      (qm : QueueManager) (queue : Handle) (l : Log)
      → Routed qm l
      → let r = remove k qm queue l in Routed r.0.0 r.1
  unfolding remove route
  remove-Routed qm queue l v = elim (Bool-cases (has queue qm.queues)) [
    | inl held ↦
        rw (held, remove)
          (record {
            distinct = drop_key-Distinct queue qm.queues v.distinct;
            inside = λ q h. ground (
              arith,
              v.inside q,
              has-drop_key queue q qm.queues v.distinct,
              route-forward_back qm.rk queue q l,
            );
            outside = λ q h. ground (
              arith,
              v.outside q,
              has-drop_key queue q qm.queues v.distinct,
              route-forward_back qm.rk queue q l,
            );
          })
    | inr absent ↦ rw (absent, remove) v
  ]

  -- After the loop every queue that was in the list is on the main queue.
  route-forward_all :
      (rk q : Handle) (queues : List Handle) (l : Log)
      → route rk q (forward_all k rk queues l).1 ≡ (if has q queues then main else route rk q l)
  unfolding forward_all has
  route-forward_all rk q [] l = refl
  route-forward_all rk q (queue ∷ queues) l = ground (
    arith,
    route-forward_all rk q queues (forward_back k rk queue l).1,
    route-forward_back rk queue q l,
  )

  pub clear_all-Routed :
      (qm : QueueManager) (l : Log) → Routed qm l → let r = clear_all k qm l in Routed r.0 r.1
  unfolding clear_all has
  clear_all-Routed qm l v = record {
    distinct = tt;
    inside = λ q h. cc;
    outside = λ q h. ground (arith, v.outside q, route-forward_all qm.rk q qm.queues l);
  }

  step-Routed :
      (u : Use) (qm : QueueManager) (l : Log)
      → Routed qm l
      → let r = step k u qm l in Routed r.0 r.1
  unfolding step
  step-Routed (adds queue) qm l v = add-Routed qm queue l v
  step-Routed (removes queue) qm l v = remove-Routed qm queue l v
  step-Routed clears qm l v = clear_all-Routed qm l v

  pub session-Routed :
      (uses : List Use) (qm : QueueManager) (l : Log)
      → Routed qm l
      → let r = session k uses qm l in Routed r.0 r.1
  unfolding session
  session-Routed [] qm l v = v
  session-Routed (u ∷ uses) qm l v =
      let r = step k u qm l in session-Routed uses r.0 r.1 (step-Routed u qm l v)

  -- After any calls on a new manager, its set holds exactly the queues whose events go to the queue
  -- itself, each once, where none did before.
  pub session_new-Routed :
      (rk : Handle) (uses : List Use) (l : Log)
      → ((q : Handle) → route rk q l ≢ detached)
      → let r = session k uses (queue_manager rk) l in Routed r.0 r.1
  unfolding queue_manager has
  session_new-Routed rk uses l none_yet =
      session-Routed uses (queue_manager rk) l
        (record { distinct = tt; inside = λ q h. cc; outside = λ q h. none_yet q })

  -- Once `clear_all` has run, every queue that the manager held is on the main queue of the
  -- consumer, no queue is left detached, and the manager holds none.
  pub clear_all-main :
      (qm : QueueManager) (l : Log)
      → Routed qm l
      → let r = clear_all k qm l in
        ((q : Handle) → has q qm.queues ≡ true → route qm.rk q r.1 ≡ main)
        × ((q : Handle) → route qm.rk q r.1 ≢ detached)
        × (r.0.queues ≡ [])
  unfolding clear_all
  clear_all-main qm l v = (
    λ q h. ground (arith, route-forward_all qm.rk q qm.queues l),
    λ q. ground (arith, v.outside q, route-forward_all qm.rk q qm.queues l),
    refl,
  )
