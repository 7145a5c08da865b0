-- ===== src/Clients/Tests.antt =====
-- Tests of all producers and consumers, and the theorems on them at concrete inputs.
use exrdkafka.Base.{ℕ, ◌≡◌, ◌≢◌, ◌+◌, ◌<◌, refl, arith, List, [], ◌∷◌, none, some, true, false}
use exrdkafka.Base.Text.{codes, stoull}
use exrdkafka.Erl.{nil, cell, atom, true_, binary, Bytes-discrete, get_list_length, is_list}
use exrdkafka.Rd.{Log}
use exrdkafka.Rd.Sample.{willing, plain}
use exrdkafka.Producer.Life.{
  cleans, finishes, cleanup_producer, enif_producer_cleanup, enif_producer_free, finish, happen,
  settle, with_producer,
}
use exrdkafka.Consumer.Create.{
  Arguments, alloc_consumer, configure_consumer, enif_consumer_new, make_consumer, start_consumer,
  subscribe_consumer, subscribe_each, subscribe_some, topic_subscribe,
}
use exrdkafka.Clients.Standing.{opens, held}
use exrdkafka.Clients.Reached.{run-Polls, run-Accounted, run-Empties}
use exrdkafka.Rd.Ledger.{polls_of}
use exrdkafka.Rd.Books.{Kind, opened, closed}
use exrdkafka.Clients.{
  Clients, no_clients, Event, new_producer, new_consumer, on_producer, frees, signals, rounds, step,
  run, of_producer, of_consumer, gone, consumer_gone, free_at, with_producer_at,
}
use exrdkafka.Base.Assoc.{erase_key, find, put}
use exrdkafka.Config.{
  appy_kafka_default_config, appy_topic_default_config, is_ok, kafka_defaults, parse_config,
  parse_entries, parse_kafka_config, parse_topic_config, set_all,
}
use exrdkafka.Consumer.Life.{
  cleanup_consumer, close_unclosed, enif_consumer_free, stop_feedback, unwatch,
}
use exrdkafka.Dispatcher.{
  check_item, check_items, check_max_poll_interval_ms, check_objects, dispatcher, do_poll, drain,
  enable_events, process_round, remove, serve, signal, take_event, watch,
}
use exrdkafka.Erl.Utils.{get_binary, get_boolean, get_string}
use exrdkafka.Producer.Create.{
  alloc_producer, configure_producer, enif_producer_new, make_producer, start_producer,
}
use exrdkafka.Queues.{clear_all, forward_all, queue_manager}
use exrdkafka.Topics.{cleanup, destroy_topics, topic_manager}

abbrev args : Arguments
args = record {
  self_pid = some 3;
  group_id = binary (codes "g");
  topics = cell (binary (codes "orders")) nil;
  client_config = nil;
  topic_config = nil;
}

-- A producer and a consumer are made, and the thread makes a round.
abbrev made : List Event
made = new_producer (atom true_) nil 5 ∷ new_consumer args 6 ∷ signals 110 ∷ rounds 9 0 ∷ []

-- The producer is cleaned up before its destructor runs, the consumer is not.
abbrev ended : List Event
ended =
    new_producer (atom true_) nil 5
    ∷ new_consumer args 6
    ∷ on_producer 0 cleans
    ∷ rounds 9 0
    ∷ on_producer 0 finishes
    ∷ frees 0
    ∷ frees 1
    ∷ []

abbrev both : Clients
both = record {
  notifier = record {
    running = true;
    events = none ∷ some 110 ∷ [];
    objects =
        (110, record { is_consumer = false; max_poll_interval_ms = 150000; last_poll_ms = 5 })
        ∷ (130, record { is_consumer = true; max_poll_interval_ms = 150000; last_poll_ms = 6 })
        ∷ [];
  };
  resources =
      of_producer
        (record {
          kf = 110;
          topics = record { rk = 110; topics = [] };
          owner_pid = 0;
          closing = false;
        })
        0
      ∷ of_consumer
          (record {
            self = 1024;
            kf = some 130;
            owner = 3;
            qm = record { rk = 130; queues = [] };
            running = true;
            closing = false;
          })
          0
      ∷ [];
}

abbrev none_left : Clients
none_left = record {
  notifier = record { running = true; events = none ∷ none ∷ none ∷ []; objects = [] };
  resources = gone ∷ gone ∷ [];
}

-- The calls of librdkafka up to some events.
abbrev calls : List Event → Log
calls es = (run willing plain none es no_clients []).1

made_lem : run willing plain none made no_clients [] ≡ (some both, calls made)
unfolding step run start_producer make_producer alloc_producer configure_producer enif_producer_new
    subscribe_each subscribe_some topic_subscribe start_consumer subscribe_consumer make_consumer
    alloc_consumer configure_consumer enif_consumer_new dispatcher signal enable_events watch
    check_item check_items check_max_poll_interval_ms take_event process_round parse_entries
    parse_config set_all kafka_defaults appy_topic_default_config appy_kafka_default_config
    parse_topic_config parse_kafka_config is_ok is_list get_list_length Bytes-discrete get_binary
    get_string get_boolean stoull put topic_manager queue_manager
made_lem = refl

ended_lem : run willing plain none ended no_clients [] ≡ (some none_left, calls ended)
unfolding step run start_producer make_producer alloc_producer configure_producer enif_producer_new
    subscribe_each subscribe_some topic_subscribe start_consumer subscribe_consumer make_consumer
    alloc_consumer configure_consumer enif_consumer_new dispatcher signal enable_events watch
    check_item check_items check_max_poll_interval_ms take_event process_round parse_entries
    parse_config set_all kafka_defaults appy_topic_default_config appy_kafka_default_config
    parse_topic_config parse_kafka_config is_ok is_list get_list_length Bytes-discrete get_binary
    get_string get_boolean stoull put topic_manager queue_manager with_producer_at free_at
    consumer_gone cleanup_producer enif_producer_cleanup finish settle enif_producer_free happen
    with_producer stop_feedback cleanup_consumer unwatch close_unclosed enif_consumer_free
    destroy_topics cleanup clear_all forward_all remove check_objects find erase_key
ended_lem = refl

-- The producer is polled in the next round, for the first time.
polls_lem :
    (polls_of 110 (calls made) ≡ 0)
    × (polls_of 110 (step willing plain none (rounds 10 1) both (calls made)).1 ≡ 1)
unfolding step run start_producer make_producer alloc_producer configure_producer enif_producer_new
    subscribe_each subscribe_some topic_subscribe start_consumer subscribe_consumer make_consumer
    alloc_consumer configure_consumer enif_consumer_new dispatcher signal enable_events watch
    check_item check_items check_max_poll_interval_ms take_event process_round parse_entries
    parse_config set_all kafka_defaults appy_topic_default_config appy_kafka_default_config
    parse_topic_config parse_kafka_config is_ok is_list get_list_length Bytes-discrete get_binary
    get_string get_boolean stoull put topic_manager queue_manager with_producer_at free_at
    consumer_gone cleanup_producer enif_producer_cleanup finish settle enif_producer_free happen
    with_producer stop_feedback cleanup_consumer unwatch close_unclosed enif_consumer_free
    destroy_topics cleanup clear_all forward_all remove check_objects find erase_key serve do_poll
    drain polls_of
polls_lem = (refl, refl)

polled :
    polls_of 110 (step willing plain none (rounds 10 1) both (calls made)).1
    ≢ polls_of 110 (calls made)
polled e = omega (arith, e, polls_lem.0, polls_lem.1)

run-Polls_example :
    (opens 110 both.resources ≡ true)
    × (opened Kind.clients 110 [] + closed Kind.clients 110 (calls made)
        < opened Kind.clients 110 (calls made) + closed Kind.clients 110 [])
run-Polls_example = run-Polls willing plain none made both 110 10 1 [] (calls made) made_lem polled

run-Accounted_example :
    opened Kind.clients 130 (calls made) + closed Kind.clients 130 []
    ≡ opened Kind.clients 130 [] + closed Kind.clients 130 (calls made) + held 130 both.resources
run-Accounted_example = run-Accounted willing plain none made both 130 [] (calls made) made_lem

run-Empties_example :
    (none_left.notifier.objects ≡ [])
    × ((h : ℕ)
        → opened Kind.clients h (calls ended) + closed Kind.clients h []
          ≡ opened Kind.clients h [] + closed Kind.clients h (calls ended))
run-Empties_example =
    run-Empties willing plain none ended none_left [] (calls ended) ended_lem (tt, (tt, tt))
