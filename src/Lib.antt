-- ===== src/Lib.antt =====
-- Verification of the native module of exrdkafka (c_src), which connects Erlang to librdkafka.
--
-- The parts of the program and the files that model them:
-- - Erl.antt, Erl/Utils.antt: c_src/nif_utils.cc and the atoms of c_src/exrdkafka_nif.h, the
--   Erlang terms that the native functions take and return.
-- - Rd.antt: the calls of librdkafka and of the message passing of erl_nif. Rd/Ledger.antt and
--   Rd/Books.antt count what the log of these calls creates and destroys; Rd/Sample.antt has
--   parameters for the tests.
-- - Topics.antt: c_src/topicmanager.cc, the topic handles of a producer (`add_topic` is `AddTopic`,
--   `get_or_create_topic` is `GetOrCreateTopic`, `cleanup` is `Cleanup`).
-- - Queues.antt: c_src/queuemanager.cc, the partition queues that a consumer reads separately.
-- - Dispatcher.antt: c_src/queuecallbacksdispatcher.cc, the thread that polls all clients. A client is
--   watched when it is created and removed before it is closed.
-- - Config.antt: c_src/exrdkafka_config.cc, the options of clients and topics.
-- - Producer.antt: c_src/exrdkafka_producer.cc, `enif_produce`, `enif_produce_sync` and
--   `enif_produce_batch`; Producer/Request.antt reads their arguments, and Producer/TopicNew.antt is
--   `enif_producer_topic_new`. Producer/Create.antt is `enif_producer_new`, Producer/Life.antt the
--   clean-up, the destructor and the callbacks, Producer/Metadata.antt the two functions that read
--   metadata.
-- - Message.antt: c_src/exrdkafka_message.cc, a received message as a term.
-- - Consumer.antt: c_src/exrdkafka_consumer.cc, `enif_consumer_queue_poll`. Consumer/Partitions.antt:
--   the rebalance callback and the resources of the queues. Consumer/Create.antt is
--   `enif_consumer_new`, Consumer/Life.antt the clean-up, the destructor, the statistics and
--   `enif_consumer_offset_store`.
-- - Clients.antt: all producers and consumers of the module with the one dispatcher that they share;
--   their native functions, callbacks, clean-ups and destructors and the rounds of the polling thread
--   are events in any order.
-- - Locks.antt: c_src/critical_section.h, the lock of an object and the scope that takes it.
--   Locks/Adding.antt is `AddTopic` of c_src/topicmanager.cc statement by statement.
-- - Logger.antt: c_src/exrdkafka_logger.cc, the messages for the process that logs.
-- - Nif.antt: c_src/exrdkafka_nif.cc, the texts of the atoms, load, upgrade and unload with the
--   resource types, and the table of functions.
-- The children of these files hold the proofs, and a module Tests of each holds its tests.
--
-- State is passed explicitly: a method takes the record of its object and returns the new one. Calls
-- that leave the module are entries of a log, newest first, and their answers are parameters that may
-- depend on the whole log. Nothing is assumed of these answers unless a theorem says so; in
-- particular handles need not be fresh. What erl_nif computes from terms (texts from I/O lists,
-- ranges of integers, process identifiers) is a parameter as well.
--
-- Concurrency: a critical section is one step; Locks.antt has the steps of its statements.
-- GetOrCreateTopic reads its map without the lock, so any calls of AddTopic by other threads may
-- come between that read and its own. The polling thread is a list of turns among the calls of
-- other threads, and may take the events in any order; for its end, Dispatcher/Shutdown.antt
-- follows it from place to place. The run of a clean-up that std::async starts is a step among the
-- other things that happen to a client, and the destructor waits for it. That the unlocked read of
-- GetOrCreateTopic races with a writer of the same std::map is outside the model.
--
-- Bounds and fuel: get_or_create_topic takes its number of rounds as fuel; its callers give two, since a
-- topic that was added in the first is found in the second. Times and intervals of the dispatcher are
-- unsigned 64-bit numbers with their wrap-around. Between two polls of a consumer by the thread the
-- destructor of the dispatcher may clear `running_`; what the thread reads of it is a parameter.
-- The loop that empties a consumer runs over the messages that its polls hand out before they answer
-- NULL, so it is assumed that they do in the end. The loop of
-- enif_consumer_queue_poll has fuel for as many events as messages were asked for, and for one more
-- test: each event that is not empty makes the batch longer. Handles are numbers without a bound.
--
-- Maps and sets are association lists and lists; their order of iteration is not that of the C++
-- containers, and no theorem speaks of it. std::stoull is read as white space, a sign and decimal
-- digits. The module is built with NDEBUG and -fno-exceptions, so assertions are left out and an
-- exception of std::stoull ends the process.
--
-- Not modelled: the mutex and the resource types of erl_nif, which are parameters, and the layout
-- of memory: that enif_alloc_resource fails is an answer like any other, but other allocations
-- succeed. The headers of a message are the list that librdkafka hands out. The Elixir modules
-- under lib/ are not modelled.
pub mod Base
pub mod Erl
pub mod Rd
pub mod Topics
pub mod Queues
pub mod Dispatcher
pub mod Config
pub mod Producer
pub mod Message
pub mod Logger
pub mod Consumer
pub mod Nif
pub mod Clients
pub mod Locks
