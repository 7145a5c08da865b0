-- ===== src/Consumer/Life/Guarded.antt =====
-- c_src/exrdkafka_consumer.cc: what happens to the queues of a consumer between its creation and its
-- destructor keeps track of which of them are detached.
use exrdkafka.Base.{
  ℕ, zero, suc, ◌≡◌, ◌≢◌, refl, ap, ◌∙◌, List, [], ◌∷◌, ◌++◌, Option, none, some, inl, inr,
  Bool-cases,
}
use exrdkafka.Base.Sets.{has}
use exrdkafka.Base.Int.{ℤ, pos, is_zero}
use exrdkafka.Base.Text.{codes}
use exrdkafka.Erl.{Bytes}
use exrdkafka.Erl.Utils.{c_str}
use exrdkafka.Rd.{Kafka, Handle, Log, Call, Partition}
use exrdkafka.Logger.{log_message, logger_callback}
use exrdkafka.Queues.{QueueManager, add, remove, forward_back, forward_all, clear_all}
use exrdkafka.Queues.Routing.{Routed, Route, route, remove-Routed, clear_all-Routed, clear_all-main}
use exrdkafka.Consumer.Partitions.Branches.{after_assign, assign_lem, assign_stopped}
use exrdkafka.Consumer.Partitions.Assignment.{Routed-pass, enif_new_queue-Routed}
use exrdkafka.Consumer.Partitions.{
  Consumer, EnifQueue, Rebalance, assign_partitions_code, revoke_partitions_code, other_code,
  enif_new_queue, assign_each, assigned_list, assign_partitions, revoke_partitions, rebalance_cb,
  give_back, enif_queue_free, enif_consumer_queue_cleanup,
}

-- Whenever a consumer was closed, no queue of `rk` was detached.
unfoldable pub Clean : Handle → Log → Type 0
Clean rk [] = Unit {0}
Clean rk (Call.consumer_close h ∷ l) = ((q : Handle) → route rk q l ≢ Route.detached) × Clean rk l
Clean rk (_ ∷ l) = Clean rk l

-- The manager is that of `rk` and holds its detached queues.
pub record Guarded (rk : Handle) (qm : QueueManager) (l : Log) : Type 0 where
  pub same : qm.rk ≡ rk
  pub routed : Routed qm l
  pub clean : Clean rk l

-- Between the logs no queue is forwarded and no consumer closed.
pub record Passes (l l' : Log) : Type 0 where
  pub routes : (r q : Handle) → route r q l' ≡ route r q l
  pub cleans : (r : Handle) → Clean r l → Clean r l'

pub Guarded-pass :
    (rk : Handle) (qm : QueueManager) (l l' : Log)
    → Passes l l'
    → Guarded rk qm l
    → Guarded rk qm l'
Guarded-pass rk qm l l' p g = record {
  same = g.same;
  routed = Routed-pass qm l l' (λ q. p.routes qm.rk q) g.routed;
  clean = p.cleans rk g.clean;
}

pub Passes-trans : (a b c : Log) → Passes a b → Passes b c → Passes a c
Passes-trans a b c p q = record {
  routes = λ r j. q.routes r j ∙ p.routes r j;
  cleans = λ r h. q.cleans r (p.cleans r h);
}

module _ (k : Kafka) where
  Clean-forward_all :
      (r rk : Handle) (queues : List Handle) (l : Log)
      → Clean r l
      → Clean r (forward_all k rk queues l).1
  unfolding Clean forward_all forward_back
  Clean-forward_all r rk [] l h = h
  Clean-forward_all r rk (queue ∷ queues) l h =
      Clean-forward_all r rk queues (forward_back k rk queue l).1 h

  pub clear_all-Guarded :
      (rk : Handle) (qm : QueueManager) (l : Log)
      → Guarded rk qm l
      → let r = clear_all k qm l in
        Guarded rk r.0 r.1 × ((q : Handle) → route rk q r.1 ≢ Route.detached)
  unfolding clear_all
  clear_all-Guarded rk qm l g = (
    record {
      same = g.same;
      routed = clear_all-Routed k qm l g.routed;
      clean = Clean-forward_all rk qm.rk qm.queues l g.clean;
    },
    λ q e.
        (clear_all-main k qm l g.routed).1 q (ap (λ z. route z q (clear_all k qm l).1) g.same ∙ e),
  )

  remove-Guarded :
      (rk : Handle) (qm : QueueManager) (queue : Handle) (l : Log)
      → Guarded rk qm l
      → let r = remove k qm queue l in Guarded rk r.0.0 r.1
  unfolding remove Clean forward_back
  remove-Guarded rk qm queue l g =
      let routed = remove-Routed k qm queue l g.routed in
      elim (Bool-cases (has queue qm.queues)) [
        | inl held ↦ record {
          same = rw (held, remove) g.same;
          routed = routed;
          clean = rw (held, remove) g.clean;
        }
        | inr absent ↦ rw (absent, remove) g
      ]

  give_back-Guarded :
      (rk : Handle) (qm : QueueManager) (o : Option Handle) (l : Log)
      → Guarded rk qm l
      → let r = give_back k qm o l in Guarded rk r.0 r.1
  unfolding give_back
  give_back-Guarded rk qm none l g = g
  give_back-Guarded rk qm (some queue) l g = remove-Guarded rk qm queue l g

  pub queue_free-Guarded :
      (rk : Handle) (c : Consumer) (q : EnifQueue) (l : Log)
      → Guarded rk c.qm l
      → let r = enif_queue_free k c q l in Guarded rk r.0.qm r.1
  unfolding enif_queue_free route Clean
  queue_free-Guarded rk c q l g =
      Guarded-pass rk _ _ _ (record { routes = λ r j. refl; cleans = λ r h. h })
        (give_back-Guarded rk c.qm q.queue l g)

  pub queue_cleanup-Guarded :
      (rk : Handle) (c : Consumer) (q : EnifQueue) (l : Log)
      → Guarded rk c.qm l
      → let r = enif_consumer_queue_cleanup k c (some q) l in Guarded rk r.0.1.qm r.1
  unfolding enif_consumer_queue_cleanup
  queue_cleanup-Guarded rk c q l g = give_back-Guarded rk c.qm q.queue l g

  log_message-Passes :
      (log_pid : ℕ) (rk : Handle) (level : ℤ) (msg : Bytes) (l : Log)
      → Passes l (log_message k log_pid rk level msg l).1
  unfolding log_message logger_callback Clean route
  log_message-Passes zero rk level msg l = record { routes = λ r j. refl; cleans = λ r h. h }
  log_message-Passes (suc n) rk level msg l = record { routes = λ r j. refl; cleans = λ r h. h }

  after_assign-Passes :
      (log_pid : ℕ) (rk : Handle) (partitions : Option (List Partition)) (l : Log)
      → Passes l (after_assign k log_pid rk partitions l)
  unfolding route Clean
  after_assign-Passes log_pid rk partitions l =
      let response = k.assign_answer l rk partitions in
      let l₁ = Call.assign rk partitions ∷ l in
      let msg = codes "failed to assign the new partitions" ++ c_str (k.err2str response) in
      let first : Passes l l₁ = record { routes = λ r j. refl; cleans = λ r h. h } in
      elim (Bool-cases (is_zero response)) [
        | inl e ↦ rw e first
        | inr e ↦ rw e (Passes-trans l l₁ _ first (log_message-Passes log_pid rk (pos 3) msg l₁))
      ]

  assign_each-Guarded :
      (h : Handle) (c : Consumer) (rk : Handle) (objs : List Partition) (l : Log)
      → Guarded h c.qm l
      → let r = assign_each k c rk objs l in Guarded h r.0.0.qm r.1
  unfolding assign_each enif_new_queue add route Clean
  assign_each-Guarded h c rk [] l g = g
  assign_each-Guarded h c rk (obj ∷ objs) l g =
      let r = enif_new_queue k c rk (c_str obj.topic) obj.partition l in
      let l' = Call.release_resource r.0.1.self ∷ Call.make_resource r.0.1.self ∷ r.1 in
      let routed = (enif_new_queue-Routed k c rk (c_str obj.topic) obj.partition l g.routed).0 in
      assign_each-Guarded h r.0.0 rk objs l' (record {
        same = g.same;
        routed = Routed-pass r.0.0.qm r.1 l' (λ q. refl) routed;
        clean = g.clean;
      })

  assigned_list-Guarded :
      (h : Handle) (c : Consumer) (rk : Handle) (partitions : Option (List Partition)) (l : Log)
      → Guarded h c.qm l
      → let r = assigned_list k c rk partitions l in Guarded h r.0.0.qm r.1
  unfolding assigned_list
  assigned_list-Guarded h c rk none l g = g
  assigned_list-Guarded h c rk (some objs) l g = assign_each-Guarded h c rk objs l g

  assign_partitions-Guarded :
      (h : Handle) (log_pid : ℕ) (c : Consumer) (rk : Handle) (partitions : Option (List Partition))
      (l : Log)
      → Guarded h c.qm l
      → let r = assign_partitions k log_pid c rk partitions l in Guarded h r.0.0.qm r.1
  unfolding route Clean
  assign_partitions-Guarded h log_pid c rk partitions l g = elim (Bool-cases c.running) [
    | inr off ↦
        rw (assign_stopped k log_pid rk c partitions l off)
          (Guarded-pass h c.qm l _ (record { routes = λ r j. refl; cleans = λ r x. x }) g)
    | inl on ↦
        let l' = after_assign k log_pid rk partitions l in
        let g' = Guarded-pass h c.qm l l' (after_assign-Passes log_pid rk partitions l) g in
        rw (assign_lem k log_pid rk c partitions l on) (
          Guarded-pass h _ _ _ (record { routes = λ r j. refl; cleans = λ r x. x })
            (assigned_list-Guarded h c rk partitions l' g'))
  ]

  revoke-Passes :
      (c : Consumer) (rk : Handle) (partitions : Option (List Partition)) (l : Log)
      → Passes l (revoke_partitions k c rk partitions l).1
  unfolding revoke_partitions route Clean
  revoke-Passes c rk partitions l = elim (Bool-cases c.running) [
    | inl on ↦ rw (on, revoke_partitions) (record { routes = λ r j. refl; cleans = λ r x. x })
    | inr off ↦ rw (off, revoke_partitions) (record { routes = λ r j. refl; cleans = λ r x. x })
  ]

  pub rebalance_cb-Guarded :
      (h : Handle) (log_pid : ℕ) (c : Consumer) (rk : Handle) (code : Rebalance)
      (partitions : Option (List Partition)) (l : Log)
      → Guarded h c.qm l
      → let r = rebalance_cb k log_pid c rk code partitions l in Guarded h r.0.0.qm r.1
  unfolding rebalance_cb
  rebalance_cb-Guarded h log_pid c rk assign_partitions_code partitions l g =
      assign_partitions-Guarded h log_pid c rk partitions l g
  rebalance_cb-Guarded h log_pid c rk revoke_partitions_code partitions l g =
      Guarded-pass h c.qm l _ (revoke-Passes c rk partitions l) g
  rebalance_cb-Guarded h log_pid c rk (other_code err) partitions l g =
      let msg = codes "rebalance error: " ++ c_str (k.err2str err) in
      let l₁ = (log_message k log_pid rk (pos 3) msg l).1 in
      Guarded-pass h c.qm l₁ _ (revoke-Passes c rk partitions l₁)
        (Guarded-pass h c.qm l l₁ (log_message-Passes log_pid rk (pos 3) msg l) g)
