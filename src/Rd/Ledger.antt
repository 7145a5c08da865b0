-- ===== src/Rd/Ledger.antt =====
-- How often the log creates and destroys an object of librdkafka, for each kind of handle.
use exrdkafka.Base.{ℕ, List, rev_onto, suc, [], ◌∷◌, Bool, none, some, ◌==◌, if◌then◌else◌}
use exrdkafka.Base.Int.{is_zero}
use exrdkafka.Rd.{Handle, Log, Call, Outgoing, Message}

abbrev pub tally : Bool → ℕ → ℕ
tally b n = if b then suc n else n

-- Topic handles: `rd_kafka_topic_new` against `rd_kafka_topic_destroy`.
unfoldable pub topics_opened : Handle → Log → ℕ
topics_opened h [] = 0
topics_opened h (Call.topic_new rk name conf (some j) ∷ l) = tally (j == h) (topics_opened h l)
topics_opened h (_ ∷ l) = topics_opened h l

unfoldable pub topics_closed : Handle → Log → ℕ
topics_closed h [] = 0
topics_closed h (Call.topic_destroy j ∷ l) = tally (j == h) (topics_closed h l)
topics_closed h (_ ∷ l) = topics_closed h l

-- Queue references: the three calls that hand one out against `rd_kafka_queue_destroy`.
unfoldable pub queues_opened : Handle → Log → ℕ
queues_opened h [] = 0
queues_opened h (Call.queue_get_partition rk topic partition j ∷ l) =
    tally (j == h) (queues_opened h l)
queues_opened h (Call.queue_get_consumer rk j ∷ l) = tally (j == h) (queues_opened h l)
queues_opened h (Call.queue_get_main rk j ∷ l) = tally (j == h) (queues_opened h l)
queues_opened h (_ ∷ l) = queues_opened h l

unfoldable pub queues_closed : Handle → Log → ℕ
queues_closed h [] = 0
queues_closed h (Call.queue_destroy j ∷ l) = tally (j == h) (queues_closed h l)
queues_closed h (_ ∷ l) = queues_closed h l

-- Polls of a client.
unfoldable pub polls_of : Handle → Log → ℕ
polls_of h [] = 0
polls_of h (Call.poll rk ∷ l) = tally (rk == h) (polls_of h l)
polls_of h (Call.consumer_poll rk msg ∷ l) = tally (rk == h) (polls_of h l)
polls_of h (_ ∷ l) = polls_of h l

-- Messages handed out by `rd_kafka_consumer_poll` against `rd_kafka_message_destroy`.
unfoldable pub messages_opened : Handle → Log → ℕ
messages_opened h [] = 0
messages_opened h (Call.consumer_poll rk (some j) ∷ l) = tally (j == h) (messages_opened h l)
messages_opened h (_ ∷ l) = messages_opened h l

unfoldable pub messages_closed : Handle → Log → ℕ
messages_closed h [] = 0
messages_closed h (Call.message_destroy j ∷ l) = tally (j == h) (messages_closed h l)
messages_closed h (_ ∷ l) = messages_closed h l

-- Objects of headers: created by `rd_kafka_headers_new`; destroyed, or taken over by a
-- `rd_kafka_producev` that succeeds.
unfoldable pub headers_opened : Handle → Log → ℕ
headers_opened h [] = 0
headers_opened h (Call.headers_new n j ∷ l) = tally (j == h) (headers_opened h l)
headers_opened h (_ ∷ l) = headers_opened h l

unfoldable pub headers_closed : Handle → Log → ℕ
headers_closed h [] = 0
headers_closed h (Call.headers_destroy j ∷ l) = tally (j == h) (headers_closed h l)
headers_closed h (Call.producev rk name m (some j) ts answer ∷ l) =
    if is_zero answer then tally (j == h) (headers_closed h l) else headers_closed h l
headers_closed h (_ ∷ l) = headers_closed h l

-- The messages that librdkafka has taken, newest first.
unfoldable pub accepted : Log → List Outgoing
accepted [] = []
accepted (Call.produce topic m answer ∷ l) = if is_zero answer then m ∷ accepted l else accepted l
accepted (Call.producev rk name m headers ts answer ∷ l) =
    if is_zero answer then m ∷ accepted l else accepted l
accepted (_ ∷ l) = accepted l

-- The messages of all calls that hand one over, taken or not, newest first.
unfoldable pub attempted : Log → List Outgoing
attempted [] = []
attempted (Call.produce topic m answer ∷ l) = m ∷ attempted l
attempted (Call.producev rk name m headers ts answer ∷ l) = m ∷ attempted l
attempted (_ ∷ l) = attempted l

-- The messages that polls of a queue have handed out, newest first.
unfoldable pub received : Log → List Message
received [] = []
received (Call.queue_poll q (some e) ∷ l) = rev_onto e.messages (received l)
received (_ ∷ l) = received l

-- Events handed out by `rd_kafka_queue_poll` against `rd_kafka_event_destroy`.
unfoldable pub events_opened : Handle → Log → ℕ
events_opened h [] = 0
events_opened h (Call.queue_poll q (some e) ∷ l) = tally (e.address == h) (events_opened h l)
events_opened h (_ ∷ l) = events_opened h l

unfoldable pub events_closed : Handle → Log → ℕ
events_closed h [] = 0
events_closed h (Call.event_destroy j ∷ l) = tally (j == h) (events_closed h l)
events_closed h (_ ∷ l) = events_closed h l

-- Configurations of topics: created by `rd_kafka_topic_conf_new`; destroyed, or taken by
-- `rd_kafka_topic_new`, which frees the configuration whether or not it makes a topic.
unfoldable pub confs_opened : Handle → Log → ℕ
confs_opened h [] = 0
confs_opened h (Call.topic_conf_new j ∷ l) = tally (j == h) (confs_opened h l)
confs_opened h (_ ∷ l) = confs_opened h l

unfoldable pub confs_closed : Handle → Log → ℕ
confs_closed h [] = 0
confs_closed h (Call.topic_conf_destroy j ∷ l) = tally (j == h) (confs_closed h l)
confs_closed h (Call.topic_new rk name (some j) topic ∷ l) = tally (j == h) (confs_closed h l)
confs_closed h (_ ∷ l) = confs_closed h l

-- Calls of `rd_kafka_topic_new` with a configuration that make no topic.
unfoldable pub confs_refused : Handle → Log → ℕ
confs_refused h [] = 0
confs_refused h (Call.topic_new rk name (some j) none ∷ l) = tally (j == h) (confs_refused h l)
confs_refused h (_ ∷ l) = confs_refused h l

-- The calls that make partition queues and resources, and that count the references to resources.
unfoldable pub queue_calls : Log → List Call
queue_calls [] = []
queue_calls (Call.queue_get_partition rk topic partition q ∷ l) =
    Call.queue_get_partition rk topic partition q ∷ queue_calls l
queue_calls (Call.alloc_resource r ∷ l) = Call.alloc_resource r ∷ queue_calls l
queue_calls (Call.make_resource r ∷ l) = Call.make_resource r ∷ queue_calls l
queue_calls (Call.keep_resource r ∷ l) = Call.keep_resource r ∷ queue_calls l
queue_calls (Call.release_resource r ∷ l) = Call.release_resource r ∷ queue_calls l
queue_calls (_ ∷ l) = queue_calls l
