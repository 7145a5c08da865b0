-- ===== src/Producer/Outcomes.antt =====
-- c_src/exrdkafka_producer.cc: what handing over one message comes to.
use exrdkafka.Base.{
  ◌≡◌, refl, ap, sym, ◌∙◌, ◌⊎◌, List, [], ◌∷◌, Bool, true, false, Option, none, some, inl, inr,
  Bool-cases,
}
use exrdkafka.Base.Int.{pos, is_zero, is_zero-eq}
use exrdkafka.Erl.{Bytes, Term, atom, tuple, error, item, end}
use exrdkafka.Erl.Utils.{c_str}
use exrdkafka.Rd.{Kafka, Handle, Log, Call, Outgoing}
use exrdkafka.Rd.Ledger.{accepted}
use exrdkafka.Topics.Quiet.{view-get}
use exrdkafka.Topics.{TopicManager}
use exrdkafka.Topics.Lookup.{topic_of, get_or_create-Settles}
use exrdkafka.Producer.{
  Producer, Others, topic_for, produce_to, produce_plain, drop_headers, produce_full, is_plain,
}
use exrdkafka.Producer.Request.{Wanted}
use exrdkafka.Producer.Described.{Described, Filled}

-- `{error, u}` for some `u`.
abbrev pub is_error : Term → Bool
is_error (tuple (item (atom error) (item u end))) = true
is_error _ = false

abbrev pub IsError : Term → Type 0
IsError t = is_error t ≡ true

blind_accepted :
    (rk : Handle) (name : Bytes) (conf o : Option Handle) (l : Log)
    → accepted (Call.topic_new rk name conf o ∷ l) ≡ accepted l
unfolding accepted
blind_accepted rk name conf o l = refl

-- Neither headers nor a timestamp were asked for.
abbrev pub is_bare : Described → Bool
is_bare d = elim d.headers [ [] ↦ is_zero d.timestamp | h ∷ hs ↦ false ]

-- From `l` to `l'` librdkafka has taken what `d` describes, and `p` has become `p'`. Without headers
-- and timestamp it was handed to the topic that `p'` has for the name, after calls that hand over
-- nothing; otherwise to the client, with the timestamp and an object that was filled with the headers.
abbrev pub Takes : Described → Producer → Log → Producer → Log → Type 0
Takes d p l p' l' =
    ((is_bare d ≡ true)
      × (p'.kf ≡ p.kf)
      × (topic : Handle) × (topic_of d.topic_name p'.topics ≡ some topic)
      × (before : Log) × (l' ≡ Call.produce topic d.message (pos 0) ∷ before)
      × (accepted before ≡ accepted l))
    ⊎ ((is_bare d ≡ false)
        × (p' ≡ p)
        × (out : Option Handle) × (before : Log) × Filled d.headers out l before
        × (l'
            ≡ Call.producev p.kf (c_str d.topic_name) d.message out (some d.timestamp) (pos 0)
              ∷ before))

-- An error, and no message taken.
abbrev pub Refused : Log → Term → Log → Type 0
Refused l t l' = IsError t × (accepted l' ≡ accepted l)

-- No error: the message of a request was taken. An error: nothing was.
abbrev pub Outcome : Producer → Wanted → Log → Option Term → Producer → Log → Type 0
Outcome p w l none p' l' =
    ((p'.kf ≡ p.kf)
      × (topic : Handle) × (topic_of w.topic_name p'.topics ≡ some topic)
      × (before : Log) × (l' ≡ Call.produce topic w.message (pos 0) ∷ before)
      × (accepted before ≡ accepted l))
Outcome p w l (some t) p' l' = Refused l t l'

-- What `rd_kafka_produce` on a topic handle comes to.
abbrev pub Produced : Option Handle → Outgoing → Log → Option Term → Log → Type 0
Produced o m l none l' =
    (topic : Handle) × (o ≡ some topic) × (l' ≡ Call.produce topic m (pos 0) ∷ l)
Produced o m l (some t) l' = Refused l t l'

Outcome-from :
    (p p' : Producer) (w : Wanted) (l l₁ l' : Log) (topic : Option Handle) (o : Option Term)
    → topic ≡ topic_of w.topic_name p'.topics
    → accepted l₁ ≡ accepted l
    → p'.kf ≡ p.kf
    → Produced topic w.message l₁ o l'
    → Outcome p w l o p' l'
Outcome-from p p' w l l₁ l' topic none same quiet kf (t, e, log) =
    (kf, t, sym same ∙ e, l₁, log, quiet)
Outcome-from p p' w l l₁ l' topic (some t) same quiet kf (failed, none_taken) =
    (failed, none_taken ∙ quiet)

-- What `rd_kafka_producev` comes to.
abbrev pub OutcomeFull : Producer → Wanted → Log → Option Term → Log → Type 0
OutcomeFull p w l none l' =
    l' ≡ Call.producev p.kf (c_str w.topic_name) w.message w.headers (some w.timestamp) (pos 0) ∷ l
OutcomeFull p w l (some t) l' = Refused l t l'

-- A request with its headers as the arguments list them.
abbrev pub described : Wanted → List (Bytes × Bytes) → Described
described w hs = record {
  topic_name = w.topic_name;
  message = w.message;
  headers = hs;
  timestamp = w.timestamp;
}

module _ (k : Kafka) (others : Others) where
  -- Two rounds settle the topic, and nothing is handed over for it.
  topic_for-Settles :
      (tm : TopicManager) (name : Bytes) (l : Log)
      → let r = topic_for k others tm name l in
        (r.0.1 ≡ topic_of name r.0.0) × (accepted r.1 ≡ accepted l)
  unfolding topic_for
  topic_for-Settles tm name l =
      let (tm', l', e, keeps) = get_or_create-Settles k others name 0 tm l in
      rw (e, topic_for) (refl, view-get k accepted blind_accepted others 2 name tm l e)

  produce_to-Produced :
      (topic : Option Handle) (m : Outgoing) (l : Log)
      → let r = produce_to k others topic m l in Produced topic m l r.0 r.1
  unfolding produce_to accepted
  produce_to-Produced none m l = (refl, refl)
  produce_to-Produced (some topic) m l =
      let answer = k.produce_answer l topic m in
      elim (Bool-cases (is_zero answer)) [
        | inl e ↦
            rw (e, produce_to)
              (topic, refl, ap (λ a. Call.produce topic m a ∷ l) (is_zero-eq answer e))
        | inr e ↦ rw (e, produce_to, accepted) (refl, rw e refl)
      ]

  pub produce_plain-Outcome :
      (p : Producer) (w : Wanted) (l : Log)
      → let r = produce_plain k others p w l in Outcome p w l r.0.0 r.0.1 r.1
  unfolding produce_plain
  produce_plain-Outcome p w l =
      let r = topic_for k others p.topics w.topic_name l in
      let (same, quiet) = topic_for-Settles p.topics w.topic_name l in
      Outcome-from p (record p { topics = r.0.0 }) w l r.1 _ r.0.1
        (produce_to k others r.0.1 w.message r.1).0 same quiet refl
        (produce_to-Produced r.0.1 w.message r.1)

  drop_headers-accepted : (o : Option Handle) (l : Log) → accepted (drop_headers o l).1 ≡ accepted l
  unfolding drop_headers accepted
  drop_headers-accepted none l = refl
  drop_headers-accepted (some h) l = refl

  pub produce_full-Outcome :
      (p : Producer) (w : Wanted) (l : Log)
      → let r = produce_full k others p w l in OutcomeFull p w l r.0 r.1
  unfolding produce_full accepted
  produce_full-Outcome p w l =
      let name = c_str w.topic_name in
      let answer = k.producev_answer l p.kf name w.message w.headers (some w.timestamp) in
      let l' = Call.producev p.kf name w.message w.headers (some w.timestamp) answer ∷ l in
      elim (Bool-cases (is_zero answer)) [
        | inl e ↦
            rw (e, produce_full)
              (ap (λ a. Call.producev p.kf name w.message w.headers (some w.timestamp) a ∷ l)
                (is_zero-eq answer e))
        | inr e ↦
            rw (e, produce_full, accepted)
              (refl, drop_headers-accepted w.headers l' ∙ rw (e, accepted) refl)
      ]

  -- A request is plain just if its description is bare.
  pub bare_lem :
      (w : Wanted) (hs : List (Bytes × Bytes)) (l l' : Log)
      → Filled hs w.headers l l'
      → is_bare (described w hs) ≡ is_plain k others w
  unfolding is_plain
  bare_lem w hs l l' f = go hs w.headers refl f
    where
      go :
          (hs : List (Bytes × Bytes)) (o : Option Handle)
          → w.headers ≡ o
          → Filled hs o l l'
          → is_bare (described w hs) ≡ is_plain k others w
      go [] none e f = rw (e, is_plain) refl
      go [] (some out) e f = elim f [ ]
      go (h ∷ rest) none e f = elim f [ ]
      go (h ∷ rest) (some out) e f = rw (e, is_plain) refl
