-- ===== src/Topics.antt =====
-- c_src/topicmanager.cc: the topic handles of one client, by name.
--
-- `topics_` is an association list. The lock makes `AddTopic` and `Cleanup` single steps;
-- `GetOrCreateTopic` reads the map without it, so what other threads add between its read and its
-- call of `AddTopic` is an argument.
pub mod Lookup
pub mod Lifecycle
pub mod Quiet
mod Tests
use exrdkafka.Base.{ℕ, zero, suc, List, [], ◌∷◌, Bool, true, false, Option, none, some}
use exrdkafka.Base.Assoc.{find, put}
use exrdkafka.Erl.{Bytes, Bytes-discrete}
use exrdkafka.Erl.Utils.{c_str}
use exrdkafka.Rd.{Kafka, Handle, Log, Io, pure, tell, ◌>>=◌, ◌>>◌, rd_topic_new}
use exrdkafka.Rd.{Call}

pub record TopicManager : Type 0 where
  pub rk : Handle
  pub topics : List (Bytes × Handle)

-- The constructor.
unfoldable pub topic_manager : Handle → TopicManager
topic_manager rk = record { rk = rk; topics = [] }

-- The topic, or NULL, and what `already_exist` is set to.
abbrev pub Added : Type 0
Added = TopicManager × Option Handle × Bool

unfoldable pub keep_topic : TopicManager → Bytes → Option Handle → Added
keep_topic tm name none = (tm, none, false)
keep_topic tm name (some topic) =
    (record tm { topics = put Bytes-discrete name topic tm.topics }, some topic, false)

-- What `GetOrCreateTopic` returns, with the map and the log after it.
abbrev pub Got : Type 0
Got = Option ((TopicManager × Option Handle) × Log)

-- `return topic ? topic : (already_exist ? GetOrCreateTopic(name) : NULL)`
unfoldable pub got : Added → Log → Got → Got
got (tm, some topic, exist) l again = some ((tm, some topic), l)
got (tm, none, true) l again = again
got (tm, none, false) l again = some ((tm, none), l)

module _ (k : Kafka) where
  unfoldable pub add_topic : TopicManager → Bytes → Option Handle → Io Added
  unfolding keep_topic
  add_topic tm name conf = elim (find Bytes-discrete name tm.topics) [
    | some topic ↦ pure (tm, none, true)
    | none ↦ do topic ← rd_topic_new k tm.rk (c_str name) conf; pure (keep_topic tm name topic)
  ]

  -- Calls of `AddTopic` by other threads, one after another.
  unfoldable pub add_all : List (Bytes × Option Handle) → TopicManager → Io TopicManager
  add_all [] tm = pure tm
  add_all ((name, conf) ∷ adds) tm = do r ← add_topic tm name conf; add_all adds r.0

  -- At most `fuel` rounds; `none` means that they did not suffice. In the round with `n` more to
  -- come, other threads make the calls `others n` between the read and `AddTopic`.
  unfoldable pub get_or_create_topic :
      (others : ℕ → List (Bytes × Option Handle)) (fuel : ℕ) → Bytes → TopicManager → Log → Got
  unfolding got
  get_or_create_topic others zero name tm l = none
  get_or_create_topic others (suc n) name tm l = elim (find Bytes-discrete name tm.topics) [
    | some topic ↦ some ((tm, some topic), l)
    | none ↦
        let before = add_all (others n) tm l in
        let r = add_topic before.0 name none before.1 in
        let again : Got = get_or_create_topic others n name r.0.0 r.1 in got r.0 r.1 again
  ]

unfoldable pub destroy_topics : List (Bytes × Handle) → Io (Unit {0})
destroy_topics [] = pure tt
destroy_topics ((name, topic) ∷ m) = do tell (Call.topic_destroy topic); destroy_topics m

-- `Cleanup`, which is all that the destructor does.
unfoldable pub cleanup : TopicManager → Io TopicManager
cleanup tm = do destroy_topics tm.topics; pure (record tm { topics = [] })

-- What the threads of a client do with its manager: `AddTopic`, or a whole `GetOrCreateTopic` with
-- what other threads add meanwhile.
pub data Use : Type 0 where
  adds : Bytes → Option Handle → Use
  gets : (ℕ → List (Bytes × Option Handle)) → Bytes → Use

module _ (k : Kafka) where
  -- Two rounds are enough for `GetOrCreateTopic`: `Topics.Lookup`.
  unfoldable pub session : List Use → TopicManager → Io TopicManager
  session [] tm = pure tm
  session (adds name conf ∷ uses) tm = do r ← add_topic k tm name conf; session uses r.0
  session (gets others name ∷ uses) tm = λ l. elim (get_or_create_topic k others 2 name tm l) [
    | none ↦ (tm, l)
    | some ((tm', topic), l') ↦ session uses tm' l'
  ]
