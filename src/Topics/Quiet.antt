-- ===== src/Topics/Quiet.antt =====
-- c_src/topicmanager.cc: what a reading of the log that skips `rd_kafka_topic_new` is blind to.
use exrdkafka.Base.{
  ℕ, zero, suc, ◌≡◌, refl, ◌∙◌, List, [], ◌∷◌, Option, none, some, inl, inr, Option-cases, true,
  false,
}
use exrdkafka.Erl.{Bytes}
use exrdkafka.Erl.Utils.{c_str}
use exrdkafka.Rd.{Kafka, Handle, Log, Call}
use exrdkafka.Topics.{TopicManager, Added, Got, got, add_topic, add_all, get_or_create_topic}
use exrdkafka.Topics.Lookup.{topic_of, found, asked, add_cases}

module _ {ℓ} {B : Type ℓ} (k : Kafka) (view : Log → B)
    (blind : (rk : Handle) (name : Bytes) (conf o : Option Handle) (l : Log)
      → view (Call.topic_new rk name conf o ∷ l) ≡ view l) where
  pub view-add :
      (tm : TopicManager) (name : Bytes) (conf : Option Handle) (l : Log)
      → view (add_topic k tm name conf l).1 ≡ view l
  view-add tm name conf l = elim (add_cases k tm name conf l) [
    | found h e r ↦ rw r
    | asked o e r ↦ rw r (blind tm.rk (c_str name) conf o l)
  ]

  view-add_all :
      (adds : List (Bytes × Option Handle)) (tm : TopicManager) (l : Log)
      → view (add_all k adds tm l).1 ≡ view l
  unfolding add_all
  view-add_all [] tm l = refl
  view-add_all ((name, conf) ∷ more) tm l =
      let r = add_topic k tm name conf l in view-add_all more r.0.0 r.1 ∙ view-add tm name conf l

  abbrev Same : Got → B → Type ℓ
  Same none b = Unit
  Same (some (r, l)) b = view l ≡ b

  got-Same :
      (r : Added) (l : Log) (again : Got) (b : B)
      → view l ≡ b
      → Same again b
      → Same (got r l again) b
  unfolding got
  got-Same (tm, some t, e) l again b h a = h
  got-Same (tm, none, true) l again b h a = a
  got-Same (tm, none, false) l again b h a = h

  get-Same :
      (others : ℕ → List (Bytes × Option Handle)) (fuel : ℕ) (name : Bytes) (tm : TopicManager)
      (l : Log) (b : B)
      → view l ≡ b
      → Same (get_or_create_topic k others fuel name tm l) b
  unfolding get_or_create_topic
  get-Same others zero name tm l b h = tt
  get-Same others (suc n) name tm l b h = elim (Option-cases (topic_of name tm)) [
    | inr (t, e) ↦ rw (e, get_or_create_topic) h
    | inl e ↦
        let before = add_all k (others n) tm l in
        let r = add_topic k before.0 name none before.1 in
        let h' = view-add before.0 name none before.1 ∙ view-add_all (others n) tm l ∙ h in
        rw (e, get_or_create_topic)
          (got-Same r.0 r.1 (get_or_create_topic k others n name r.0.0 r.1) b h'
            (get-Same others n name r.0.0 r.1 b h'))
  ]

  pub view-get :
      (others : ℕ → List (Bytes × Option Handle)) (fuel : ℕ) (name : Bytes) (tm : TopicManager)
      (l : Log) {r : TopicManager × Option Handle} {l' : Log}
      → get_or_create_topic k others fuel name tm l ≡ some (r, l')
      → view l' ≡ view l
  view-get others fuel name tm l e = rw e at (get-Same others fuel name tm l (view l) refl)
