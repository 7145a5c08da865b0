-- ===== src/Producer/Life/Tests.antt =====
-- Tests of the life of a producer, and the theorems on it at concrete inputs.
use exrdkafka.Base.{◌≡◌, refl, List, [], ◌∷◌, true, false, none, arith}
use exrdkafka.Base.Assoc.{find}
use exrdkafka.Base.Int.{pos}
use exrdkafka.Base.Text.{codes}
use exrdkafka.Erl.{Term, Terms, nil, int, atom, true_, binary, Atom}
use exrdkafka.Rd.{Call}
use exrdkafka.Rd.Books.{Kind, balance}
use exrdkafka.Rd.Ledger.{topics_opened, topics_closed}
use exrdkafka.Rd.Owned.{nothing}
use exrdkafka.Rd.Sample.{willing, plain}
use exrdkafka.Topics.{topic_manager}
use exrdkafka.Topics.Lifecycle.{Owns, held}
use exrdkafka.Dispatcher.{Item, dispatcher}
use exrdkafka.Producer.{Producer}
use exrdkafka.Producer.Create.{enif_producer_new}
use exrdkafka.Producer.Create.Ownership.{Settles, enif_producer_new-Settles}
use exrdkafka.Producer.Life.{
  Session, Happening, adds_topic, sets_owner, cleans, life, stats_callback,
}
use exrdkafka.Producer.Life.Closing.{Gone, producer_life-Gone}

abbrev producer : Producer
producer = record { kf = 7; topics = topic_manager 7; owner_pid = 0; closing = false }

abbrev watched : Item
watched = record { is_consumer = false; max_poll_interval_ms = 0; last_poll_ms = 0 }

abbrev session : Session
session = record {
  producer = producer;
  notifier = record { running = true; events = []; objects = (7, watched) ∷ [] };
  pending = 0;
}

abbrev happenings : List Happening
happenings = sets_owner (int (pos 5)) ∷ adds_topic (binary (codes "orders")) nil ∷ cleans ∷ []

new-Owns : Owns producer.topics []
unfolding topics_opened topics_closed topic_manager held
new-Owns = ground arith

producer_life-Gone_example :
    let r = life willing plain happenings session [] in
    Gone willing 7 (balance Kind.clients 7 []) r.0 r.1
unfolding find
producer_life-Gone_example =
    producer_life-Gone willing plain happenings session [] refl refl new-Owns (refl, tt)
      (omega arith)

enif_producer_new-Settles_example :
    Settles Kind.clients 104 nothing []
      (enif_producer_new willing plain none (atom true_) nil 0 dispatcher [])
enif_producer_new-Settles_example =
    enif_producer_new-Settles willing plain none Kind.clients 104 (atom true_) nil 0 dispatcher []

-- Statistics are sent to the owner that was set, if any was.
stats : stats_callback (record producer { owner_pid = 5 }) (codes "{}") [] ≡ (
  0,
  Call.send 5
        (Term.tuple (Terms.item (atom Atom.stats) (Terms.item (binary (codes "{}")) Terms.end)))
      ∷ [],
)
unfolding stats_callback
stats = refl
