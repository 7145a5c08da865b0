-- ===== src/Nif.antt =====
-- c_src/exrdkafka_nif.cc and c_src/exrdkafka_nif.h: the atoms, and what Erlang calls when it loads,
-- upgrades and unloads the module.
--
-- Each library image has its own `ATOMS`, whose members are 0 until they are made. Erlang calls
-- `on_nif_load` once, `on_nif_upgrade` for each newer instance of the module and `on_nif_unload` for
-- each instance that it purges, the oldest first. Blocks are counted, not addressed.
pub mod Upgrades
mod Tests
use exrdkafka.Base.{ℕ, suc, List, [], ◌∷◌, ◌++◌, Bool, true, false, Option, none, some}
use exrdkafka.Base.Text.{codes}
use exrdkafka.Erl.{
  Bytes, Atom, ok, undefined, error, true_, false_, badarg, options, message, brokers, topics,
  partitions, id, host, port, name, leader, replicas, isrs, delivery_report, log_event,
  assign_partition, revoke_partition, stats, client_stopped, not_available, create_time,
  log_append_time, Bytes-discrete,
}
use exrdkafka.Rd.{Handle}

-- The members of `ATOMS` in the order in which `on_nif_load` makes them, each with its text.
unfoldable pub k_atoms : List (Atom × Bytes)
k_atoms =
    (ok, codes "ok")
    ∷ (undefined, codes "undefined")
    ∷ (error, codes "error")
    ∷ (true_, codes "true")
    ∷ (false_, codes "false")
    ∷ (options, codes "options")
    ∷ (badarg, codes "badarg")
    ∷ (brokers, codes "brokers")
    ∷ (topics, codes "topics")
    ∷ (partitions, codes "partitions")
    ∷ (id, codes "id")
    ∷ (host, codes "host")
    ∷ (port, codes "port")
    ∷ (name, codes "name")
    ∷ (leader, codes "leader")
    ∷ (replicas, codes "replicas")
    ∷ (isrs, codes "isrs")
    ∷ (message, codes "exrdkafka_msg")
    ∷ (delivery_report, codes "delivery_report")
    ∷ (log_event, codes "log_message")
    ∷ (assign_partition, codes "assign_partitions")
    ∷ (revoke_partition, codes "revoke_partitions")
    ∷ (stats, codes "stats")
    ∷ (client_stopped, codes "client_stopped")
    ∷ (not_available, codes "not_available")
    ∷ (create_time, codes "create_time")
    ∷ (log_append_time, codes "log_append_time")
    ∷ []

-- Which members of `ATOMS` an image has made.
abbrev pub Atoms : Type 0
Atoms = List (Atom × Bytes)

-- What `enif_open_resource_type` answers an image for the name of a type, NULL included. It is asked
-- to create the type or to take it over.
abbrev pub Opens : Type 0
Opens = Bytes → Option Handle

-- `exrdkafka_data`; `none` is `nullptr`.
pub record Data : Type 0 where
  pub res_producer : Option Handle
  pub res_consumer : Option Handle
  pub res_queue : Option Handle
  pub notifier : Option Handle

unfoldable pub open_resources : Opens → Data → Data
open_resources opens data' = record data' {
  res_producer = opens (codes "res_producer");
  res_consumer = opens (codes "res_consumer");
  res_queue = opens (codes "res_queue");
}

-- A new block, of which each field is set before it is read.
abbrev pub block : Data
block = record { res_producer = none; res_consumer = none; res_queue = none; notifier = none }

-- What the images of the module have done: the `ATOMS` of the newest image and its data, the data of
-- the older ones that are not purged yet, the dispatchers deleted, and the blocks taken and given
-- back.
pub record Module : Type 0 where
  pub atoms : Atoms
  pub current : Data
  pub old : List Data
  pub deleted : List Handle
  pub allocated : ℕ
  pub freed : ℕ

-- On a fresh image, with the dispatcher that `new` makes.
unfoldable pub on_nif_load : Opens → Handle → Module
on_nif_load opens notifier = record {
  atoms = k_atoms;
  current = record (open_resources opens block) { notifier = some notifier };
  old = [];
  deleted = [];
  allocated = 1;
  freed = 0;
}

-- On a newer image, whose `ATOMS` are as the image begins.
unfoldable pub on_nif_upgrade : Opens → Atoms → Module → Module
on_nif_upgrade opens atoms m = record m {
  atoms = atoms;
  current = record (open_resources opens block) { notifier = m.current.notifier };
  old = m.old ++ record m.current { notifier = none } ∷ [];
  allocated = suc m.allocated;
}

unfoldable pub delete_notifier : Option Handle → List Handle → List Handle
delete_notifier none deleted = deleted
delete_notifier (some notifier) deleted = notifier ∷ deleted

-- Of the instance that has the data `priv_data`.
unfoldable pub on_nif_unload : Data → Module → Module
unfolding delete_notifier
on_nif_unload priv_data m = record m {
  deleted = delete_notifier priv_data.notifier m.deleted;
  freed = suc m.freed;
}

-- What Erlang does with a loaded module: a newer instance, or a purge of the oldest old one.
pub data Change : Type 0 where
  upgrades : Opens → Atoms → Change
  purges : Change

unfoldable pub purge : List Data → Module → Module
purge [] m = m
purge (d ∷ ds) m = on_nif_unload d (record m { old = ds })

unfoldable pub changes : List Change → Module → Module
changes [] m = m
changes (upgrades opens atoms ∷ us) m = changes us (on_nif_upgrade opens atoms m)
changes (purges ∷ us) m = changes us (purge m.old m)

-- The end of the module: the old instances are unloaded, then the newest.
unfoldable pub unload_all : List Data → Module → Module
unload_all [] m = on_nif_unload m.current (record m { old = [] })
unload_all (d ∷ ds) m = unload_all ds (on_nif_unload d m)

-- What Erlang may call: a name, the number of arguments, and whether the call runs on a scheduler
-- for long input and output.
pub record NifFunc : Type 0 where
  pub name : Bytes
  pub arity : ℕ
  pub io_bound : Bool

abbrev quick : Bytes → ℕ → NifFunc
quick text n = record { name = text; arity = n; io_bound = false }

abbrev slow : Bytes → ℕ → NifFunc
slow text n = record { name = text; arity = n; io_bound = true }

unfoldable pub nif_funcs : List NifFunc
nif_funcs =
    quick (codes "set_log_process") 1
    ∷ quick (codes "producer_new") 2
    ∷ quick (codes "producer_set_owner") 2
    ∷ quick (codes "producer_topic_new") 3
    ∷ quick (codes "producer_cleanup") 1
    ∷ quick (codes "produce") 7
    ∷ quick (codes "produce_sync") 7
    ∷ quick (codes "produce_batch") 3
    ∷ slow (codes "get_metadata") 1
    ∷ slow (codes "get_partitions_count") 2
    ∷ quick (codes "consumer_new") 4
    ∷ quick (codes "consumer_partition_revoke_completed") 1
    ∷ quick (codes "consumer_queue_poll") 2
    ∷ quick (codes "consumer_queue_cleanup") 1
    ∷ quick (codes "consumer_offset_store") 4
    ∷ quick (codes "consumer_cleanup") 1
    ∷ []
