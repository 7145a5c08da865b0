-- ===== src/Locks/Adding.antt =====
-- c_src/topicmanager.cc: `AddTopic` statement by statement, among other threads that call it.
use exrdkafka.Base.{
  ℕ, ◌≡◌, refl, sym, ap, ◌∙◌, true, inl, inr, Option-cases, List, [], ◌∷◌, ◌++◌, Option, none, some,
  get_elem?,
}
use exrdkafka.Base.Assoc.{find, put}
use exrdkafka.Erl.{Bytes, Bytes-discrete}
use exrdkafka.Erl.Utils.{c_str}
use exrdkafka.Rd.{pure, Io, ◌>>=◌, Kafka, Handle, Log, rd_topic_new}
use exrdkafka.Topics.{TopicManager, Added, add_topic, add_all, keep_topic}
use exrdkafka.Locks.{Mutex, Body, returns, act, run_body, start, turns}
use exrdkafka.Locks.Threads.{open_body, left, calls_of, run_all}
use exrdkafka.Locks.Serial.{turns-Serial}

-- A topic manager and the log of the calls.
abbrev pub Shared : Type 0
Shared = TopicManager × Log

-- The arguments of a call.
abbrev pub Adds : Type 0
Adds = Bytes × Option Handle

unfoldable pub keep_body : Bytes → Option Handle → Body Shared
keep_body name none = returns
keep_body name (some topic) =
    act (λ s. (record s.0 { topics = put Bytes-discrete name topic s.0.topics }, s.1))
      (λ s. returns)

module _ (k : Kafka) where
  -- `rd_kafka_topic_new`, and the rest with the topic that it answers.
  unfoldable pub new_body : Bytes → Option Handle → Body Shared
  new_body name conf =
      act (λ s. (s.0, (rd_topic_new k s.0.rk (c_str name) conf s.1).1))
        (λ s. keep_body name (rd_topic_new k s.0.rk (c_str name) conf s.1).0)

  unfoldable pub found_body : Bytes → Option Handle → Option Handle → Body Shared
  found_body name conf (some topic) = returns
  found_body name conf none = new_body name conf

  unfoldable pub add_body : Adds → Body Shared
  add_body (name, conf) =
      act (λ s. s) (λ s. found_body name conf (find Bytes-discrete name s.0.topics))

  keep_body_lem :
      (name : Bytes) (topic : Option Handle) (tm : TopicManager) (l : Log)
      → run_body (keep_body name topic) (tm, l) ≡ ((keep_topic tm name topic).0, l)
  unfolding keep_body keep_topic
  keep_body_lem name none tm l = refl
  keep_body_lem name (some topic) tm l = refl

  -- What `AddTopic` does after it has looked for the name.
  abbrev found_topic : TopicManager → Bytes → Option Handle → Option Handle → Io Added
  found_topic tm name conf (some topic) = pure (tm, none, true)
  found_topic tm name conf none = do
    topic ← rd_topic_new k tm.rk (c_str name) conf
    pure (keep_topic tm name topic)

  found_body_lem :
      (name : Bytes) (conf topic : Option Handle) (tm : TopicManager) (l : Log)
      → run_body (found_body name conf topic) (tm, l)
        ≡ ((found_topic tm name conf topic l).0.0, (found_topic tm name conf topic l).1)
  unfolding found_body new_body
  found_body_lem name conf (some topic) tm l = refl
  found_body_lem name conf none tm l = keep_body_lem name _ tm _

  add_topic_lem :
      (name : Bytes) (conf : Option Handle) (tm : TopicManager) (l : Log)
      → add_topic k tm name conf l ≡ found_topic tm name conf (find Bytes-discrete name tm.topics) l
  unfolding add_topic
  add_topic_lem name conf tm l = elim (Option-cases (find Bytes-discrete name tm.topics)) [
    | inr (topic, e) ↦ rw (e, add_topic) refl
    | inl e ↦ rw (e, add_topic) refl
  ]

  -- In one go the statements do what `add_topic` does.
  add_body_lem :
      (name : Bytes) (conf : Option Handle) (s : Shared)
      → run_body (add_body (name, conf)) s
        ≡ ((add_topic k s.0 name conf s.1).0.0, (add_topic k s.0 name conf s.1).1)
  unfolding add_body
  add_body_lem name conf s =
      found_body_lem name conf (find Bytes-discrete name s.0.topics) s.0 s.1
      ∙ ap (λ r. (r.0.0, r.1)) (sym (add_topic_lem name conf s.0 s.1))

  abbrev pub calls : List (ℕ × Adds) → List Adds
  calls [] = []
  calls ((i, c) ∷ es) = c ∷ calls es

  run_all-add_all :
      (es : List (ℕ × Adds)) (s : Shared) → run_all add_body es s ≡ add_all k (calls es) s.0 s.1
  unfolding add_all
  run_all-add_all [] s = refl
  run_all-add_all ((i, (name, conf)) ∷ es) s =
      run_all-add_all es (run_body (add_body (name, conf)) s)
      ∙ ap (λ t. add_all k (calls es) t.0 t.1) (add_body_lem name conf s)

  -- Threads that call `AddTopic` with a lock, and may be stopped between any two statements: once the
  -- thread that is in the block has left it, if any is, the manager and the calls of librdkafka are
  -- those of the calls that have entered, one after another, and each thread's calls entered in its
  -- order.
  pub turns-Adds :
      (x : Mutex) (is : List ℕ) (programs : List (List Adds)) (tm : TopicManager) (l : Log)
      → let sys = turns x add_body is (start x add_body programs (tm, l)) in
        (run_body (open_body sys.threads) sys.state ≡ add_all k (calls sys.entered) tm l)
        × ((j : ℕ)
            → calls_of j sys.entered ++ left (get_elem? sys.threads j)
              ≡ left (get_elem? (start x add_body programs (tm, l)).threads j))
  turns-Adds x is programs tm l =
      let sys = turns x add_body is (start x add_body programs (tm, l)) in
      let (one, state, order) = turns-Serial x add_body programs (tm, l) is in
      (state ∙ run_all-add_all sys.entered (tm, l), order)
