-- ===== src/Consumer/Poll.antt =====
-- c_src/exrdkafka_consumer.cc: the batch that a poll of a queue returns.
use exrdkafka.Base.{
  ℕ, zero, suc, ◌+◌, ◌<◌, ◌≤◌, ◌≡◌, refl, ◌∙◌, ap, sym, ◌⊎◌, ◌≢◌, List, [], ◌∷◌, ◌++◌, true, none,
  some, arith, inl, inr, Option-cases, Bool-cases, map, length, length-append, rev_onto, ltb,
}
use mathlib.Core.List.{append_assoc, append-nil}
use exrdkafka.Base.Int.{ℤ, minus_one}
use exrdkafka.Erl.{Term, ErlNif, int, ok_term, tuple3, list_from_array}
use exrdkafka.Rd.{Kafka, Handle, Log, Message, Event, Call}
use exrdkafka.Rd.Ledger.{received, events_opened, events_closed}
use exrdkafka.Message.{make_message_with, topic_term}
use exrdkafka.Consumer.{
  Batch, no_messages, header_for, push_message, push_messages, poll_loop, poll_result, poll_queue,
  enif_consumer_queue_poll,
}

-- The offset of the last message, -1 if there is none.
unfoldable pub last_offset : ℤ → List Message → ℤ
last_offset n [] = n
last_offset n (msg ∷ msgs) = last_offset msg.offset msgs

-- The terms of messages under the topic and the partition of the first of them.
unfoldable pub batch_terms : List Message → List Term
batch_terms [] = []
batch_terms (msg ∷ msgs) = map (make_message_with (topic_term msg) (int msg.partition)) (msg ∷ msgs)

push_messages-set :
    (ts : List Term) (h : Term × Term) (n : ℤ) (msgs : List Message)
    → push_messages (record { messages = ts; header = some h; last_offset = n }) msgs ≡ record {
      messages = ts ++ map (make_message_with h.0 h.1) msgs;
      header = some h;
      last_offset = last_offset n msgs;
    }
unfolding push_messages push_message last_offset
push_messages-set ts h n [] = rw (append-nil ts) refl
push_messages-set ts h n (msg ∷ msgs) =
    push_messages-set (ts ++ make_message_with h.0 h.1 msg ∷ []) h msg.offset msgs
    ∙ rw
        (append_assoc ts (make_message_with h.0 h.1 msg ∷ [])
          (map (make_message_with h.0 h.1) msgs))
        refl

push_messages-append :
    (b : Batch) (xs ys : List Message)
    → push_messages b (xs ++ ys) ≡ push_messages (push_messages b xs) ys
unfolding push_messages
push_messages-append b [] ys = refl
push_messages-append b (x ∷ xs) ys = push_messages-append (push_message b x) xs ys

length-push_messages :
    (b : Batch) (msgs : List Message)
    → length (push_messages b msgs).messages ≡ length b.messages + length msgs
unfolding push_messages push_message
length-push_messages b [] = omega arith
length-push_messages b (msg ∷ msgs) =
    let t = make_message_with (header_for b.header msg).0 (header_for b.header msg).1 msg in
    omega (arith, length-push_messages (push_message b msg) msgs, length-append b.messages (t ∷ []))

length_pos : {A : Type 0} (xs : List A) → xs ≢ [] → 0 < length xs
length_pos [] h = absurd (h refl)
length_pos (x ∷ xs) h = omega arith

rev_onto-append :
    {A : Type 0} (xs ys zs : List A) → rev_onto (xs ++ ys) zs ≡ rev_onto ys (rev_onto xs zs)
rev_onto-append [] ys zs = refl
rev_onto-append (x ∷ xs) ys zs = rev_onto-append xs ys (x ∷ zs)

module _ (k : Kafka) (queue : Handle) (max : ℕ) where
  -- Why the loop stopped.
  abbrev pub Stopped : Batch → Log → Type 0
  Stopped b l =
      (max ≤ length b.messages)
      ⊎ ((l' : Log) × (l ≡ Call.queue_poll queue none ∷ l') × (k.queue_poll_answer l' queue ≡ none))

  -- As many events at `h` were handed out from `l` to `l'` as were destroyed.
  abbrev pub EventsClosed : Handle → Log → Log → Type 0
  EventsClosed h l l' =
      events_opened h l' + events_closed h l ≡ events_opened h l + events_closed h l'

  -- The loop ended with the batch of the messages `msgs`.
  abbrev pub Polled : Batch → Log → List Message → Batch → Log → Type 0
  Polled b l msgs b' l' =
      (b' ≡ push_messages b msgs)
      × (received l' ≡ rev_onto msgs (received l))
      × Stopped b' l'
      × ((h : Handle) → EventsClosed h l l')

module _ (k : Kafka) (queue : Handle) (max : ℕ)
    (filled : (l : Log) (e : Event) → k.queue_poll_answer l queue ≡ some e → e.messages ≢ []) where
  abbrev Ends : ℕ → Batch → Log → Type 0
  Ends fuel b l =
      (msgs : List Message) × (b' : Batch) × (l' : Log) × (poll_loop k queue max fuel b l
        ≡ some (b', l'))
      × Polled k queue max b l msgs b' l'

  poll_loop-full : (fuel : ℕ) (b : Batch) (l : Log) → max ≤ length b.messages → Ends (suc fuel) b l
  unfolding poll_loop push_messages
  poll_loop-full fuel b l full = ([], b, l, ground arith, (refl, refl, inl full, λ h. refl))

  poll_loop-empty :
      (fuel : ℕ) (b : Batch) (l : Log)
      → ltb (length b.messages) max ≡ true
      → k.queue_poll_answer l queue ≡ none
      → Ends (suc fuel) b l
  unfolding poll_loop push_messages received events_opened events_closed
  poll_loop-empty fuel b l room empty = (
    [],
    b,
    Call.queue_poll queue none ∷ l,
    rw (room, empty, poll_loop) refl,
    (refl, refl, inr (l, refl, empty), λ h. refl),
  )

  poll_loop-event :
      (fuel : ℕ) (b : Batch) (l : Log) (e : Event)
      → ltb (length b.messages) max ≡ true
      → k.queue_poll_answer l queue ≡ some e
      → Ends fuel
          (push_messages b e.messages)
          (Call.event_destroy e.address ∷ Call.queue_poll queue (some e) ∷ l)
      → Ends (suc fuel) b l
  unfolding poll_loop received events_opened events_closed
  poll_loop-event fuel b l e room got (msgs, b', l', run, (pushed, same, why, closed)) = (
    e.messages ++ msgs,
    b',
    l',
    rw (room, got, poll_loop) run,
    (
      pushed ∙ sym (push_messages-append b e.messages msgs),
      same ∙ sym (rev_onto-append e.messages msgs (received l)),
      why,
      λ h. ground (arith, closed h),
    ),
  )

  poll_loop-Ends : (n : ℕ) (b : Batch) (l : Log) → max ≤ n + length b.messages → Ends (suc n) b l
  poll_loop-Ends zero b l enough = poll_loop-full zero b l (omega arith)
  poll_loop-Ends (suc n) b l enough = elim (Bool-cases (ltb (length b.messages) max)) [
    | inr full ↦ poll_loop-full (suc n) b l (ground arith)
    | inl room ↦ elim (Option-cases (k.queue_poll_answer l queue)) [
      | inl empty ↦ poll_loop-empty (suc n) b l room empty
      | inr (e, got) ↦
          let more = length_pos e.messages (filled l e got) in
          let b' = push_messages b e.messages in
          poll_loop-event (suc n) b l e room got (
            poll_loop-Ends n b' (Call.event_destroy e.address ∷ Call.queue_poll queue (some e) ∷ l)
              (omega (arith, length-push_messages b e.messages)))
    ]
  ]

push_messages-no_messages :
    (msgs : List Message)
    → let b = push_messages no_messages msgs in
      (b.messages ≡ batch_terms msgs) × (b.last_offset ≡ last_offset minus_one msgs)
unfolding push_messages push_message header_for batch_terms last_offset
push_messages-no_messages [] = (refl, refl)
push_messages-no_messages (msg ∷ msgs) =
    let e =
      push_messages-set (make_message_with (topic_term msg) (int msg.partition) msg ∷ [])
        (topic_term msg, int msg.partition) msg.offset msgs in
    (ap (λ (b : Batch). b.messages) e, ap (λ (b : Batch). b.last_offset) e)

-- What the result for the messages `msgs` is: their terms and the offset of the last.
abbrev pub result_for : List Message → Term
result_for msgs =
    tuple3 ok_term (list_from_array (batch_terms msgs)) (int (last_offset minus_one msgs))

module _ (nif : ErlNif) (k : Kafka) (queue : Handle)
    (filled : (l : Log) (e : Event) → k.queue_poll_answer l queue ≡ some e → e.messages ≢ []) where
  -- If no event is without messages, `enif_consumer_queue_poll` ends. It answers all messages that
  -- it received, in that order, with the offset of the last, -1 if there is none; it stops as soon as
  -- there are as many as was asked for or more, or at an empty queue; and it destroys each event.
  pub enif_consumer_queue_poll-Polled :
      (size : Term) (n : ℕ) (l : Log)
      → nif.get_uint size ≡ some n
      → (msgs : List Message) × (b : Batch) × (l' : Log) × (enif_consumer_queue_poll nif k
            (some (some queue))
            size
            l
          ≡ some (some (result_for msgs), l'))
        × Polled k queue n no_messages l msgs b l'
  unfolding enif_consumer_queue_poll poll_queue poll_result
  enif_consumer_queue_poll-Polled size n l e =
      let (msgs, b, l', run, did) = poll_loop-Ends k queue n filled n no_messages l (omega arith) in
      let (terms, offset) = push_messages-no_messages msgs in
      (
        msgs,
        b,
        l',
        rw (e, run, did.0, terms, offset, enif_consumer_queue_poll, poll_queue, poll_result) refl,
        did,
      )
