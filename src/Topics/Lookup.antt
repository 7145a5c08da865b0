-- ===== src/Topics/Lookup.antt =====
-- c_src/topicmanager.cc: which topic a name has after `AddTopic` and `GetOrCreateTopic`.
use exrdkafka.Base.{
  ℕ, suc, ◌≡◌, refl, sym, ap, ◌∙◌, ◌⊎◌, inl, inr, List, [], ◌∷◌, Bool, Option, none, some, arith,
  true, false, Option-cases,
}
use exrdkafka.Base.Assoc.{find, find-put}
use exrdkafka.Erl.{Bytes, Bytes-discrete}
use exrdkafka.Erl.Utils.{c_str}
use exrdkafka.Rd.{Kafka, Handle, Log, Call}
use exrdkafka.Topics.{
  TopicManager, Added, add_topic, add_all, get_or_create_topic, keep_topic, Got, got,
}

abbrev pub topic_of : Bytes → TopicManager → Option Handle
topic_of name tm = find Bytes-discrete name tm.topics

-- Every entry of `tm` is one of `tm'`.
abbrev pub Keeps : TopicManager → TopicManager → Type 0
Keeps tm tm' = (name : Bytes) (h : Handle) → topic_of name tm ≡ some h → topic_of name tm' ≡ some h

keep_topic-Keeps :
    (tm : TopicManager) (name : Bytes) (o : Option Handle)
    → topic_of name tm ≡ none
    → Keeps tm (keep_topic tm name o).0
unfolding keep_topic
keep_topic-Keeps tm name none absent q h e = e
keep_topic-Keeps tm name (some t) absent q h e =
    ground (arith, find-put Bytes-discrete name q t tm.topics)

topic_of-keep_topic :
    (tm : TopicManager) (name : Bytes) (o : Option Handle)
    → topic_of name tm ≡ none
    → topic_of name (keep_topic tm name o).0 ≡ o
unfolding keep_topic
topic_of-keep_topic tm name none absent = absent
topic_of-keep_topic tm name (some t) absent =
    ground (arith, find-put Bytes-discrete name name t tm.topics)

keep_topic-parts :
    (tm : TopicManager) (name : Bytes) (o : Option Handle)
    → ((keep_topic tm name o).1 ≡ o) × ((keep_topic tm name o).2 ≡ false)
unfolding keep_topic
keep_topic-parts tm name none = (refl, refl)
keep_topic-parts tm name (some t) = (refl, refl)

-- Either the name has a topic, or librdkafka is asked for one and its answer is kept.
pub data AddCases (k : Kafka) (tm : TopicManager) (name : Bytes) (conf : Option Handle) (l : Log)
    (r : Added × Log) : Type 0 where
  found :
      (h : Handle)
      → topic_of name tm ≡ some h
      → r ≡ ((tm, none, true), l)
      → AddCases k tm name conf l r
  asked :
      (o : Option Handle)
      → topic_of name tm ≡ none
      → r ≡ (keep_topic tm name o, Call.topic_new tm.rk (c_str name) conf o ∷ l)
      → AddCases k tm name conf l r

module _ (tm : TopicManager) (topic : Option Handle) (exist : Bool) (l : Log) (again : Got)
    (name : Bytes) where
  got-once :
      topic ≡ topic_of name tm
      → exist ≡ false
      → got (tm, topic, exist) l again ≡ some ((tm, topic_of name tm), l)
  unfolding got
  got-once e f = ground arith

  got-again :
      (h : Handle)
      → topic ≡ none
      → exist ≡ true
      → topic_of name tm ≡ some h
      → again ≡ some ((tm, some h), l)
      → got (tm, topic, exist) l again ≡ some ((tm, topic_of name tm), l)
  unfolding got
  got-again h e f here r = ground arith

module _ (k : Kafka) where
  pub add_cases :
      (tm : TopicManager) (name : Bytes) (conf : Option Handle) (l : Log)
      → AddCases k tm name conf l (add_topic k tm name conf l)
  unfolding add_topic
  add_cases tm name conf l = elim (Option-cases (topic_of name tm)) [
    | inl e ↦ asked (k.topic_new_answer l tm.rk (c_str name) conf) e (rw (e, add_topic))
    | inr (h, e) ↦ found h e (rw (e, add_topic))
  ]

  pub add-Keeps :
      (tm : TopicManager) (name : Bytes) (conf : Option Handle) (l : Log)
      → Keeps tm (add_topic k tm name conf l).0.0
  add-Keeps tm name conf l = elim (add_cases tm name conf l) [
    | found h e r ↦ rw r (λ q h e. e)
    | asked o e r ↦ rw r (keep_topic-Keeps tm name o e)
  ]

  -- What is returned, and what `already_exist` says, against the map afterwards.
  add-answers :
      (tm : TopicManager) (name : Bytes) (conf : Option Handle) (l : Log)
      → let r = (add_topic k tm name conf l).0 in
        ((r.1 ≡ topic_of name r.0) × (r.2 ≡ false))
        ⊎ ((h : Handle) × (r.1 ≡ none) × (r.2 ≡ true) × (topic_of name r.0 ≡ some h))
  add-answers tm name conf l = elim (add_cases tm name conf l) [
    | found h e r ↦ rw r (inr (h, refl, refl, e))
    | asked o e r ↦
        let p = keep_topic-parts tm name o in
        rw r (inl (rw (topic_of-keep_topic tm name o e) p.0, p.1))
  ]

  add_all-Keeps :
      (adds : List (Bytes × Option Handle)) (tm : TopicManager) (l : Log)
      → Keeps tm (add_all k adds tm l).0
  unfolding add_all
  add_all-Keeps [] tm l q h e = e
  add_all-Keeps ((name, conf) ∷ adds) tm l q h e =
      let r = add_topic k tm name conf l in
      add_all-Keeps adds r.0.0 r.1 q h (add-Keeps tm name conf l q h e)

  module _ (others : ℕ → List (Bytes × Option Handle)) (name : Bytes) where
    -- A result that agrees with the map, over a map that has only grown.
    abbrev pub Settles : TopicManager → Got → Type 0
    Settles tm r =
        (tm' : TopicManager) × (l' : Log) × (r ≡ some ((tm', topic_of name tm'), l')) × Keeps tm tm'

    found-get :
        (n : ℕ) (tm : TopicManager) (l : Log) (h : Handle)
        → topic_of name tm ≡ some h
        → get_or_create_topic k others (suc n) name tm l ≡ some ((tm, some h), l)
    unfolding get_or_create_topic
    found-get n tm l h e = rw (e, get_or_create_topic)

    asked-get :
        (n : ℕ) (tm : TopicManager) (l : Log)
        → topic_of name tm ≡ none
        → let before = add_all k (others n) tm l in
          let r = add_topic k before.0 name none before.1 in
          get_or_create_topic k others (suc n) name tm l
          ≡ got r.0 r.1 (get_or_create_topic k others n name r.0.0 r.1)
    unfolding get_or_create_topic
    asked-get n tm l e = rw (e, get_or_create_topic)

    got-agrees :
        (n : ℕ) (tm : TopicManager) (l : Log)
        → let r = add_topic k tm name none l in
          got r.0 r.1 (get_or_create_topic k others (suc n) name r.0.0 r.1)
          ≡ some ((r.0.0, topic_of name r.0.0), r.1)
    got-agrees n tm l =
        let r = add_topic k tm name none l in
        let again = get_or_create_topic k others (suc n) name r.0.0 r.1 in
        elim (add-answers tm name none l) [
          | inl (e, f) ↦ got-once r.0.0 r.0.1 r.0.2 r.1 again name e f
          | inr (h, e, f, here) ↦
              got-again r.0.0 r.0.1 r.0.2 r.1 again name h e f here (found-get n r.0.0 r.1 h here)
        ]

    -- Whatever other threads add in between, two rounds suffice: the caller gets the topic that the
    -- map then has for the name, NULL only if it has none, and no entry is lost or replaced.
    pub get_or_create-Settles :
        (n : ℕ) (tm : TopicManager) (l : Log)
        → Settles tm (get_or_create_topic k others (suc (suc n)) name tm l)
    get_or_create-Settles n tm l =
        let before = add_all k (others (suc n)) tm l in
        let r = add_topic k before.0 name none before.1 in
        elim (Option-cases (topic_of name tm)) [
          | inr (h, e) ↦
              (tm, l, found-get (suc n) tm l h e ∙ ap (λ o. some ((tm, o), l)) (sym e), λ q h e. e)
          | inl e ↦ (
            r.0.0,
            r.1,
            asked-get (suc n) tm l e ∙ got-agrees n before.0 before.1,
            λ q h e.
                add-Keeps before.0 name none before.1 q h
                  (add_all-Keeps (others (suc n)) tm l q h e),
          )
        ]
