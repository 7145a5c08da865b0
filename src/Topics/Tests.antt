-- ===== src/Topics/Tests.antt =====
-- Tests of the topic manager, and its theorems at concrete inputs.
use exrdkafka.Base.{ℕ, ◌≡◌, refl, List, [], ◌∷◌, Option, none, some, ℕ_discrete}
use exrdkafka.Base.Assoc.{find, put}
use exrdkafka.Base.Text.{codes}
use exrdkafka.Erl.{Bytes, Bytes-discrete}
use exrdkafka.Erl.Utils.{c_str}
use exrdkafka.Rd.{Handle, Call}
use exrdkafka.Rd.Ledger.{topics_opened, topics_closed}
use exrdkafka.Rd.Sample.{willing}
use exrdkafka.Topics.{
  TopicManager, topic_manager, add_topic, add_all, get_or_create_topic, cleanup, Use, adds, gets,
  session,
}
use exrdkafka.Topics.Lookup.{Settles, get_or_create-Settles}
use exrdkafka.Topics.Lifecycle.{AllClosed, session-AllClosed}

abbrev empty : TopicManager
empty = record { rk = 1; topics = [] }

-- Another thread adds the topic between the read and the lock: the second round finds it.
abbrev racing : ℕ → List (Bytes × Option Handle)
racing n = (codes "orders", none) ∷ []

race :
    get_or_create_topic willing racing 2 (codes "orders") empty []
    ≡ some (
      (record empty { topics = (codes "orders", 100) ∷ [] }, some 100),
      Call.topic_new 1 (codes "orders") none (some 100) ∷ [],
    )
unfolding get_or_create_topic add_all add_topic find put c_str Bytes-discrete ℕ_discrete
race = refl

-- A second `AddTopic` of a name is refused.
twice :
    (session willing (adds (codes "a") none ∷ adds (codes "a") none ∷ []) empty []).0.topics
    ≡ (codes "a", 100) ∷ []
unfolding session add_topic find put c_str Bytes-discrete ℕ_discrete
twice = refl

get_or_create-Settles_example :
    Settles willing racing
      (codes "orders")
      empty
      (get_or_create_topic willing racing 2 (codes "orders") empty [])
get_or_create-Settles_example = get_or_create-Settles willing racing (codes "orders") 0 empty []

abbrev uses : List Use
uses = adds (codes "a") none ∷ gets racing (codes "b") ∷ []

session-AllClosed_example :
    AllClosed (let r = session willing uses (topic_manager 1) [] in (cleanup r.0 r.1).1)
unfolding topics_opened topics_closed
session-AllClosed_example = session-AllClosed willing 1 uses [] (λ h. refl)
