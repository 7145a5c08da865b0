-- ===== src/Consumer/Life/Tests.antt =====
-- Tests of the life of a consumer, and the theorems on it at concrete inputs.
use exrdkafka.Base.{◌≡◌, ◌⊎◌, refl, List, [], ◌∷◌, true, false, none, some, arith}
use exrdkafka.Base.Assoc.{find}
use exrdkafka.Base.Int.{pos}
use exrdkafka.Base.Text.{codes}
use exrdkafka.Erl.{nil, cell, int, binary, get_list_length}
use exrdkafka.Erl.Utils.{get_string, get_binary}
use exrdkafka.Consumer.Life.Offset.{Stores, enif_consumer_offset_store-Stores}
use exrdkafka.Rd.{Handle}
use exrdkafka.Rd.Books.{Kind}
use exrdkafka.Rd.Owned.{nothing}
use exrdkafka.Rd.Sample.{willing, plain}
use exrdkafka.Queues.{queue_manager}
use exrdkafka.Dispatcher.{Item, dispatcher}
use exrdkafka.Consumer.Partitions.{Consumer, assign_partitions_code}
use exrdkafka.Consumer.Create.{Arguments, enif_consumer_new, topic_subscribe, subscribe_some}
use exrdkafka.Consumer.Create.Starting.{Settles}
use exrdkafka.Consumer.Create.Ownership.{enif_consumer_new-Settles}
use exrdkafka.Consumer.Life.{
  Session, Happening, rebalances, completes_revoke, stores_offset, cleans, finishes, life,
  enif_consumer_offset_store,
}
use exrdkafka.Consumer.Life.Closing.{Closes, life-Closes}
use exrdkafka.Consumer.Life.Guarded.{Clean, Guarded}
use exrdkafka.Consumer.Life.Forwarding.{life-Clean}
use exrdkafka.Queues.Routing.{route}
use exrdkafka.Base.Sets.{has}
use exrdkafka.Consumer.Life.Twice.{second_cleanup-null}

abbrev consumer : Consumer
consumer = record {
  self = 1;
  kf = some 2;
  owner = 3;
  qm = queue_manager 2;
  running = true;
  closing = false;
}

abbrev watched : Item
watched = record { is_consumer = true; max_poll_interval_ms = 150000; last_poll_ms = 0 }

abbrev session : Session
session = record {
  consumer = consumer;
  notifier = record { running = true; events = []; objects = (2, watched) ∷ [] };
  pending = 0;
}

-- A revocation and an offset before the clean-up, and an assignment between it and its run.
abbrev happenings : List Happening
happenings =
    completes_revoke
    ∷ stores_offset plain (binary (codes "orders")) (int (pos 0)) (int (pos 7))
    ∷ cleans
    ∷ rebalances 0 2 assign_partitions_code none
    ∷ finishes
    ∷ []

life-Closes_example : Closes willing 2 (life willing happenings session []) []
unfolding find
life-Closes_example =
    life-Closes willing 2 happenings session [] refl refl refl (refl, tt) (omega arith)
      (tt, (tt, (tt, (refl, (refl, tt))))) (λ l name e. cc)

second_cleanup-null_example :
    (life willing (cleans ∷ finishes ∷ finishes ∷ cleans ∷ finishes ∷ []) session []).0 ≡ none
second_cleanup-null_example =
    second_cleanup-null willing [] [] (finishes ∷ []) (finishes ∷ []) session []

abbrev args : Arguments
args = record {
  self_pid = some 3;
  group_id = binary (codes "g");
  topics = cell (binary (codes "orders")) nil;
  client_config = nil;
  topic_config = nil;
}

enif_consumer_new-Settles_example :
    Settles Kind.clients 109 nothing [] (enif_consumer_new plain willing none args 0 dispatcher [])
enif_consumer_new-Settles_example =
    enif_consumer_new-Settles plain willing none Kind.clients 109 args 0 dispatcher []

-- The list of topics must not be empty.
no_topics : topic_subscribe plain willing nil [] ≡ (none, [])
unfolding topic_subscribe subscribe_some get_list_length
no_topics = refl

orders_text : get_string plain (binary (codes "orders")) ≡ some (codes "orders")
unfolding get_string get_binary
orders_text = refl

enif_consumer_offset_store-Stores_example :
    let r =
      enif_consumer_offset_store willing plain
        (some consumer)
        (binary (codes "orders"))
        (int (pos 0))
        (int (pos 8))
        [] in
    ((consumer.kf ≡ none) × (r.0 ≡ none))
    ⊎ ((rk : Handle) × (consumer.kf ≡ some rk)
        × Stores willing plain 100 rk (codes "orders") (pos 0) (pos 8) [] r)
enif_consumer_offset_store-Stores_example =
    enif_consumer_offset_store-Stores willing plain 100 consumer (binary (codes "orders"))
      (int (pos 0)) (int (pos 8)) (codes "orders") (pos 0) (pos 8) [] orders_text refl refl

new-Guarded : Guarded 2 consumer.qm []
unfolding Clean route has queue_manager
new-Guarded = record {
  same = refl;
  routed = record { distinct = tt; inside = λ q h. cc; outside = λ q h e. ground arith };
  clean = tt;
}

-- The partition queue that is detached by an assignment is back when the client is closed.
abbrev assigned : List Happening
assigned =
    rebalances 0 2 assign_partitions_code
      (some (record { topic = codes "a"; partition = pos 0; offset = pos 5 } ∷ []))
    ∷ cleans
    ∷ finishes
    ∷ []

life-Clean_example : Clean 2 (life willing assigned session []).1
life-Clean_example = life-Clean willing 2 assigned session [] new-Guarded
