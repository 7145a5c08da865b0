-- ===== src/Consumer/Partitions/Assignment.antt =====
-- c_src/exrdkafka_consumer.cc: what an assignment does to the queues of a consumer.
use exrdkafka.Base.{
  zero, suc, ◌≡◌, refl, ap, sym, ◌∙◌, List, [], ◌∷◌, ◌++◌, true, none, some, arith, inl, inr,
  Bool-cases, length, All,
}
use exrdkafka.Base.Sets.{has, has-add_key}
use exrdkafka.Base.Int.{ℤ, pos, is_zero}
use exrdkafka.Erl.{
  Bytes, Term, Atom, atom, int, binary, resource, tuple, item, end, tuple2, list_from_array,
}
use exrdkafka.Erl.Utils.{c_str, c_str-c_str}
use exrdkafka.Rd.Ledger.{queue_calls}
use exrdkafka.Rd.{Kafka, Handle, Log, Call, Partition}
use exrdkafka.Base.Text.{codes}
use exrdkafka.Logger.{logger_callback, log_message}
use exrdkafka.Queues.{QueueManager, add}
use exrdkafka.Queues.Routing.{Routed, route, add-Routed}
use exrdkafka.Consumer.Partitions.Branches.{after_assign, assign_lem}
use exrdkafka.Consumer.Partitions.{
  Consumer, EnifQueue, assigned_term, enif_new_queue, assign_each, assigned_list, rebalance_cb,
  assign_partitions_code,
}

-- The terms that go to the owner: for each partition `{Topic, Partition, Offset, Queue}`, with the
-- resource made for it.
abbrev pub terms_of : List Partition → List EnifQueue → List Term
terms_of (obj ∷ objs) (q ∷ qs) =
    tuple (
      item (binary (c_str obj.topic))
        (item (int obj.partition) (item (int obj.offset) (item (resource q.self) end))))
    ∷ terms_of objs qs
terms_of _ _ = []

-- What is called to make the queues `qs` for the partitions, after the calls `l`: each queue is that
-- of its own topic and partition, and its resource refers to the consumer `self`.
abbrev pub made_for : Handle → Handle → List Partition → List EnifQueue → Log → Log
made_for rk self (obj ∷ objs) (q ∷ qs) l = elim q.queue [
  | none ↦ made_for rk self objs qs l
  | some queue ↦ made_for rk self objs qs (
      Call.release_resource q.self
      ∷ Call.make_resource q.self
      ∷ Call.alloc_resource q.self
      ∷ Call.keep_resource self
      ∷ Call.queue_get_partition rk (c_str obj.topic) obj.partition queue
      ∷ l)
]
made_for rk self _ _ l = l

abbrev pub Made : Consumer → Handle → List Partition → List EnifQueue → Log → Log → Type 0
Made c rk objs qs l l' =
    (queue_calls l' ≡ made_for rk c.self objs qs (queue_calls l))
    × All (λ q. q.consumer ≡ c.self) qs

-- The queue of the resource is in the set of the manager.
abbrev pub Held : QueueManager → EnifQueue → Type 0
Held qm q = (h : Handle) × (q.queue ≡ some h) × (has h qm.queues ≡ true)

-- Nothing that the set held was dropped.
abbrev pub Keeps : QueueManager → QueueManager → Type 0
Keeps a b = (h : Handle) → has h a.queues ≡ true → has h b.queues ≡ true

pub Routed-pass :
    (qm : QueueManager) (l l' : Log)
    → ((q : Handle) → route qm.rk q l' ≡ route qm.rk q l)
    → Routed qm l
    → Routed qm l'
Routed-pass qm l l' same v = record {
  distinct = v.distinct;
  inside = λ q h. same q ∙ v.inside q h;
  outside = λ q h e. v.outside q h (sym (same q) ∙ e);
}

module _ (k : Kafka) where
  pub enif_new_queue-Routed :
      (c : Consumer) (rk : Handle) (topic : Bytes) (partition : ℤ) (l : Log)
      → Routed c.qm l
      → let r = enif_new_queue k c rk topic partition l in
        Routed r.0.0.qm r.1 × Held r.0.0.qm r.0.1 × Keeps c.qm r.0.0.qm × (r.0.0.owner ≡ c.owner)
  unfolding enif_new_queue add route
  enif_new_queue-Routed c rk topic partition l v =
      let name = c_str topic in
      let q = k.queue_get_partition_answer l rk name partition in
      let l₁ = Call.keep_resource c.self ∷ Call.queue_get_partition rk name partition q ∷ l in
      let r = add c.qm q l₁ in
      let routed = add-Routed c.qm q l₁ (Routed-pass c.qm l l₁ (λ j. refl) v) in
      (
        Routed-pass r.0 r.1 _ (λ j. refl) routed,
        (q, refl, ground (arith, has-add_key q q c.qm.queues)),
        (λ h e. ground (arith, has-add_key q h c.qm.queues)),
        refl,
      )

  Keeps-Held : (a b : QueueManager) (q : EnifQueue) → Keeps a b → Held a q → Held b q
  Keeps-Held a b q keeps (h, e, held) = (h, e, keeps h held)

  -- What a run of assignments makes of the partitions `objs`.
  abbrev pub Assigned : Consumer → List Partition → Consumer → List EnifQueue → Log → Type 0
  Assigned c objs c' qs l' =
      Routed c'.qm l'
      × All (Held c'.qm) qs
      × Keeps c.qm c'.qm
      × (length qs ≡ length objs)
      × (c'.owner ≡ c.owner)

  assign_each-Assigned :
      (c : Consumer) (rk : Handle) (objs : List Partition) (l : Log)
      → Routed c.qm l
      → let r = assign_each k c rk objs l in
        Assigned c objs r.0.0 r.0.2 r.1 × (r.0.1 ≡ terms_of objs r.0.2)
  unfolding assign_each assigned_term route
  assign_each-Assigned c rk [] l v = ((v, tt, (λ h e. e), refl, refl), refl)
  assign_each-Assigned c rk (obj ∷ objs) l v =
      let r = enif_new_queue k c rk (c_str obj.topic) obj.partition l in
      let (routed, held, keeps, same) =
        enif_new_queue-Routed c rk (c_str obj.topic) obj.partition l v in
      let l₁ = Call.release_resource r.0.1.self ∷ Call.make_resource r.0.1.self ∷ r.1 in
      let rest = assign_each k r.0.0 rk objs l₁ in
      let ((routed', held', keeps', size, same'), terms) =
        assign_each-Assigned r.0.0 rk objs l₁ (Routed-pass r.0.0.qm r.1 l₁ (λ j. refl) routed) in
      (
        (
          routed',
          (Keeps-Held r.0.0.qm rest.0.0.qm r.0.1 keeps' held, held'),
          (λ h e. keeps' h (keeps h e)),
          omega (arith, size),
          same' ∙ same,
        ),
        ap (◌∷◌ (assigned_term obj r.0.1)) terms,
      )

  assign_each-Made :
      (c : Consumer) (rk : Handle) (objs : List Partition) (l : Log)
      → let r = assign_each k c rk objs l in Made c rk objs r.0.2 l r.1
  unfolding assign_each queue_calls add
  assign_each-Made c rk [] l = (refl, tt)
  assign_each-Made c rk (obj ∷ objs) l =
      let r = enif_new_queue k c rk (c_str obj.topic) obj.partition l in
      let l₁ = Call.release_resource r.0.1.self ∷ Call.make_resource r.0.1.self ∷ r.1 in
      let rest = assign_each k r.0.0 rk objs l₁ in
      let (calls, owned) = assign_each-Made r.0.0 rk objs l₁ in
      let q = k.queue_get_partition_answer l rk (c_str (c_str obj.topic)) obj.partition in
      (
        calls
            ∙ ap
                (λ name. made_for rk c.self objs rest.0.2 (
                  Call.release_resource r.0.1.self
                  ∷ Call.make_resource r.0.1.self
                  ∷ Call.alloc_resource r.0.1.self
                  ∷ Call.keep_resource c.self
                  ∷ Call.queue_get_partition rk name obj.partition q
                  ∷ queue_calls l))
                (c_str-c_str obj.topic),
        (refl, owned),
      )

  log_message-queue_calls :
      (log_pid rk : Handle) (level : ℤ) (msg : Bytes) (l : Log)
      → queue_calls (log_message k log_pid rk level msg l).1 ≡ queue_calls l
  unfolding log_message logger_callback queue_calls
  log_message-queue_calls zero rk level msg l = refl
  log_message-queue_calls (suc n) rk level msg l = refl

  after_assign-queue_calls :
      (log_pid rk : Handle) (objs : List Partition) (l : Log)
      → queue_calls (after_assign k log_pid rk (some objs) l) ≡ queue_calls l
  unfolding queue_calls
  after_assign-queue_calls log_pid rk objs l =
      let response = k.assign_answer l rk (some objs) in
      let msg = codes "failed to assign the new partitions" ++ c_str (k.err2str response) in
      elim (Bool-cases (is_zero response)) [
        | inl e ↦ rw e refl
        | inr e ↦
            rw e (log_message-queue_calls log_pid rk (pos 3) msg (Call.assign rk (some objs) ∷ l))
      ]

  pub log_message-route :
      (log_pid rk : Handle) (level : ℤ) (msg : Bytes) (r q : Handle) (l : Log)
      → route r q (log_message k log_pid rk level msg l).1 ≡ route r q l
  unfolding log_message logger_callback route
  log_message-route zero rk level msg r q l = refl
  log_message-route (suc n) rk level msg r q l = refl

  after_assign-Routed :
      (log_pid rk : Handle) (objs : List Partition) (qm : QueueManager) (l : Log)
      → Routed qm l
      → Routed qm (after_assign k log_pid rk (some objs) l)
  unfolding route
  after_assign-Routed log_pid rk objs qm l v =
      let response = k.assign_answer l rk (some objs) in
      let l₁ = Call.assign rk (some objs) ∷ l in
      let msg = codes "failed to assign the new partitions" ++ c_str (k.err2str response) in
      elim (Bool-cases (is_zero response)) [
        | inl e ↦ rw e (Routed-pass qm l l₁ (λ q. refl) v)
        | inr e ↦
            rw e (Routed-pass qm l _ (λ q. log_message-route log_pid rk (pos 3) msg qm.rk q l₁) v)
      ]

  -- On an assignment, whether or not `rd_kafka_assign` fails, a running consumer asks librdkafka for
  -- the queue of each partition, in order, makes a resource that refers to the consumer for each, and
  -- ends by sending its owner the list of topic, partition, offset and resource, in order. If the set
  -- of its manager held the detached queues before, it does afterwards, the new ones among them; none
  -- is dropped.
  pub rebalance_cb-Assigned :
      (log_pid rk : Handle) (c : Consumer) (objs : List Partition) (l : Log)
      → c.running ≡ true
      → Routed c.qm l
      → let r = rebalance_cb k log_pid c rk assign_partitions_code (some objs) l in
        Assigned c objs r.0.0 r.0.1 r.1
        × Made c rk objs r.0.1 l r.1
        × (l' : Log) × (r.1
            ≡ Call.send c.owner
                (tuple2 (atom Atom.assign_partition) (list_from_array (terms_of objs r.0.1)))
              ∷ l')
  unfolding rebalance_cb route assigned_list queue_calls
  rebalance_cb-Assigned log_pid rk c objs l on v =
      let l₀ = after_assign k log_pid rk (some objs) l in
      let r = assign_each k c rk objs l₀ in
      let (did, terms) =
        assign_each-Assigned c rk objs l₀ (after_assign-Routed log_pid rk objs c.qm l v) in
      let (calls, owned) = assign_each-Made c rk objs l₀ in
      rw (assign_lem k log_pid rk c (some objs) l on) (
        (Routed-pass r.0.0.qm r.1 _ (λ q. refl) did.0, did.1, did.2, did.3, did.4),
        (
          calls
              ∙ ap (λ l'. made_for rk c.self objs r.0.2 l')
                  (after_assign-queue_calls log_pid rk objs l),
          owned,
        ),
        r.1,
        rw terms refl,
      )
