-- ===== src/Topics/Lifecycle.antt =====
-- c_src/topicmanager.cc: every topic handle that the manager creates is destroyed once.
use exrdkafka.Base.{
  ℕ, zero, suc, ◌+◌, ◌≡◌, refl, true, false, Option-cases, List, [], ◌∷◌, Option, none, some, arith,
  inl, inr, ◌==◌,
}
use exrdkafka.Base.Assoc.{find, put}
use exrdkafka.Erl.{Bytes, Bytes-discrete}
use exrdkafka.Erl.Utils.{c_str}
use exrdkafka.Rd.{Kafka, Handle, Log, Call}
use exrdkafka.Rd.Ledger.{topics_opened, topics_closed, tally}
use exrdkafka.Topics.{
  TopicManager, Added, add_topic, add_all, get_or_create_topic, keep_topic, destroy_topics, cleanup,
  Got, got, Use, adds, gets, session, topic_manager,
}
use exrdkafka.Topics.Lookup.{topic_of, found, asked, add_cases}

-- How often the map holds a handle.
unfoldable pub held : Handle → List (Bytes × Handle) → ℕ
held h [] = 0
held h ((name, j) ∷ m) = tally (j == h) (held h m)

-- What is created and not yet destroyed is what the map holds.
abbrev pub Owns : TopicManager → Log → Type 0
Owns tm l = (h : Handle) → topics_opened h l ≡ topics_closed h l + held h tm.topics

held-put :
    (h t : Handle) (name : Bytes) (m : List (Bytes × Handle))
    → find Bytes-discrete name m ≡ none
    → held h (put Bytes-discrete name t m) ≡ tally (t == h) (held h m)
unfolding held put find
held-put h t name [] e = refl
held-put h t name ((j, w) ∷ m) e = ground (arith, held-put h t name m)

keep_topic-Owns :
    (tm : TopicManager) (name : Bytes) (conf o : Option Handle) (l : Log)
    → topic_of name tm ≡ none
    → Owns tm l
    → Owns (keep_topic tm name o).0 (Call.topic_new tm.rk (c_str name) conf o ∷ l)
unfolding keep_topic topics_opened topics_closed
keep_topic-Owns tm name conf none l e own h = own h
keep_topic-Owns tm name conf (some t) l e own h = ground (arith, own h, held-put h t name tm.topics)

abbrev pub Accounted : Got → Type 0
Accounted none = Unit {0}
Accounted (some ((tm, topic), l)) = Owns tm l

got-Accounted :
    (r : Added) (l : Log) (again : Got) → Owns r.0 l → Accounted again → Accounted (got r l again)
unfolding got
got-Accounted (tm, some t, b) l again own acc = own
got-Accounted (tm, none, true) l again own acc = acc
got-Accounted (tm, none, false) l again own acc = own

module _ (k : Kafka) where
  pub add-Owns :
      (tm : TopicManager) (name : Bytes) (conf : Option Handle) (l : Log)
      → Owns tm l
      → let r = add_topic k tm name conf l in Owns r.0.0 r.1
  add-Owns tm name conf l own = elim (add_cases k tm name conf l) [
    | found h e r ↦ rw r own
    | asked o e r ↦ rw r (keep_topic-Owns tm name conf o l e own)
  ]

  add_all-Owns :
      (adds : List (Bytes × Option Handle)) (tm : TopicManager) (l : Log)
      → Owns tm l
      → let r = add_all k adds tm l in Owns r.0 r.1
  unfolding add_all
  add_all-Owns [] tm l own = own
  add_all-Owns ((name, conf) ∷ more) tm l own =
      let r = add_topic k tm name conf l in
      add_all-Owns more r.0.0 r.1 (add-Owns tm name conf l own)

  pub get_or_create-Accounted :
      (others : ℕ → List (Bytes × Option Handle)) (fuel : ℕ) (name : Bytes) (tm : TopicManager)
      (l : Log)
      → Owns tm l
      → Accounted (get_or_create_topic k others fuel name tm l)
  unfolding get_or_create_topic
  get_or_create-Accounted others zero name tm l own = tt
  get_or_create-Accounted others (suc n) name tm l own =
      let before = add_all k (others n) tm l in
      let r = add_topic k before.0 name none before.1 in
      let own' = add-Owns before.0 name none before.1 (add_all-Owns (others n) tm l own) in
      let again = get_or_create_topic k others n name r.0.0 r.1 in
      elim (Option-cases (topic_of name tm)) [
        | inl e ↦
            rw (e, get_or_create_topic)
              (got-Accounted r.0 r.1 again own'
                (get_or_create-Accounted others n name r.0.0 r.1 own'))
        | inr (h, e) ↦ rw (e, get_or_create_topic) own
      ]

  session-Owns :
      (uses : List Use) (tm : TopicManager) (l : Log)
      → Owns tm l
      → let r = session k uses tm l in Owns r.0 r.1
  unfolding session
  session-Owns [] tm l own = own
  session-Owns (adds name conf ∷ uses) tm l own =
      let r = add_topic k tm name conf l in
      session-Owns uses r.0.0 r.1 (add-Owns tm name conf l own)
  session-Owns (gets others name ∷ uses) tm l own =
      let acc = get_or_create-Accounted others 2 name tm l own in
      elim (Option-cases (get_or_create_topic k others 2 name tm l)) [
        | inl e ↦ rw (e, session) own
        | inr (((tm', topic), l'), e) ↦ rw (e, session) (session-Owns uses tm' l' (rw e at acc))
      ]

-- `Cleanup` destroys what the map holds, once for each entry, and creates nothing.
destroy_topics-counts :
    (m : List (Bytes × Handle)) (h : Handle) (l : Log)
    → let l' = (destroy_topics m l).1 in
      (topics_opened h l' ≡ topics_opened h l) × (topics_closed h l' ≡ topics_closed h l + held h m)
unfolding destroy_topics held topics_opened topics_closed
destroy_topics-counts [] h l = (refl, omega arith)
destroy_topics-counts ((name, t) ∷ m) h l =
    ground (arith, destroy_topics-counts m h (Call.topic_destroy t ∷ l))

-- Nothing is created and not destroyed once the manager is gone.
abbrev pub AllClosed : Log → Type 0
AllClosed l = (h : Handle) → topics_opened h l ≡ topics_closed h l

pub cleanup-AllClosed : (tm : TopicManager) (l : Log) → Owns tm l → AllClosed (cleanup tm l).1
unfolding cleanup
cleanup-AllClosed tm l own h = ground (arith, own h, destroy_topics-counts tm.topics h l)

-- From the constructor to the destructor, whatever the threads of the client do with the manager:
-- each topic handle that was created has been destroyed, as often as it was created.
pub session-AllClosed :
    (k : Kafka) (rk : Handle) (uses : List Use) (l : Log)
    → AllClosed l
    → let r = session k uses (topic_manager rk) l in AllClosed (cleanup r.0 r.1).1
unfolding topic_manager held
session-AllClosed k rk uses l closed =
    let r = session k uses (topic_manager rk) l in
    cleanup-AllClosed r.0 r.1
      (session-Owns k uses (topic_manager rk) l (λ h. omega (arith, closed h)))
