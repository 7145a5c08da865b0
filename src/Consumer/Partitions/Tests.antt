-- ===== src/Consumer/Partitions/Tests.antt =====
-- Tests of the assignment of partitions, and the theorems on it at concrete inputs.
use exrdkafka.Base.{◌+◌, ◌≡◌, refl, arith, List, [], ◌∷◌, true, false, none, some, ◌==◌, ◌&&◌}
use exrdkafka.Base.Int.{pos}
use exrdkafka.Base.Text.{codes}
use exrdkafka.Base.Sets.{has, add_key, drop_key}
use exrdkafka.Erl.{Atom, atom, tuple2, list_from_array}
use exrdkafka.Erl.Utils.{c_str}
use exrdkafka.Rd.{Log, Call, Partition}
use exrdkafka.Rd.Ledger.{queues_opened, queues_closed, tally}
use exrdkafka.Rd.Sample.{willing}
use exrdkafka.Logger.{log_message, logger_callback}
use exrdkafka.Queues.{queue_manager, add, remove, forward_back}
use exrdkafka.Queues.Routing.{Routed, route}
use exrdkafka.Consumer.Partitions.{
  Consumer, EnifQueue, enif_new_queue, assign_each, assigned_list, assign_partitions,
  revoke_partitions, revoked_list, rebalance_cb, assign_partitions_code, other_code, give_back,
  enif_queue_free, enif_consumer_queue_cleanup, assigned_term, revoked_term,
}
use exrdkafka.Consumer.Partitions.Assignment.{Assigned, Made, terms_of, rebalance_cb-Assigned}
use exrdkafka.Consumer.Partitions.Release.{queue_life, queue_life-balance}

program : Unit {0}
unfolding enif_new_queue assign_each assigned_list assign_partitions revoke_partitions revoked_list
    rebalance_cb assigned_term revoked_term add add_key has list_from_array c_str log_message
    logger_callback queue_manager queue_life give_back enif_queue_free enif_consumer_queue_cleanup
    remove forward_back drop_key
program = tt

abbrev consumer : Consumer
consumer = record {
  self = 1;
  kf = some 2;
  owner = 3;
  qm = queue_manager 2;
  running = true;
  closing = false;
}

abbrev two_partitions : List Partition
two_partitions =
    record { topic = codes "a"; partition = pos 0; offset = pos 5 }
    ∷ record { topic = codes "a"; partition = pos 1; offset = pos 6 }
    ∷ []

-- Both queues are held, under their addresses.
assigned : (rebalance_cb willing 0 consumer 2 assign_partitions_code (some two_partitions) []).0 ≡ (
  record consumer { qm = record { rk = 2; queues = 107 ∷ 101 ∷ [] } },
  record { self = 1004; queue = some 101; consumer = 1 }
      ∷ record { self = 1010; queue = some 107; consumer = 1 }
      ∷ [],
)
unfolding program
assigned = refl

-- A consumer that is being closed is assigned nothing, and the error is logged.
closing :
    rebalance_cb willing 9 (record consumer { running = false }) 2 (other_code (pos 1)) none [] ≡ (
      (record consumer { running = false }, []),
      Call.assign 2 none ∷ (log_message willing 9 2 (pos 3) (codes "rebalance error: failed") []).1,
    )
unfolding program
closing = refl

new-Routed : Routed consumer.qm []
unfolding route has queue_manager
new-Routed = record { distinct = tt; inside = λ q h. cc; outside = λ q h e. ground arith }

rebalance_cb-Assigned_example :
    let r = rebalance_cb willing 0 consumer 2 assign_partitions_code (some two_partitions) [] in
    Assigned willing consumer two_partitions r.0.0 r.0.1 r.1
    × Made consumer 2 two_partitions r.0.1 [] r.1
    × (l' : Log) × (r.1
        ≡ Call.send 3
            (tuple2 (atom Atom.assign_partition) (list_from_array (terms_of two_partitions r.0.1)))
          ∷ l')
rebalance_cb-Assigned_example =
    rebalance_cb-Assigned willing 0 2 consumer two_partitions [] refl new-Routed

abbrev owner_of_queue : Consumer
owner_of_queue = record consumer { qm = record { rk = 2; queues = 101 ∷ [] } }

abbrev queue_resource : EnifQueue
queue_resource = record { self = 1004; queue = some 101; consumer = 1 }

queue_life-balance_example :
    let r = queue_life willing 2 owner_of_queue queue_resource [] in
    (r.0.qm ≡ (remove willing owner_of_queue.qm 101 []).0.0)
    × (queues_opened 101 r.1
          + queues_closed 101 []
          + tally (has 101 owner_of_queue.qm.queues && (101 == 101)) 0
        ≡ queues_opened 101 [] + queues_closed 101 r.1)
queue_life-balance_example =
    queue_life-balance willing 2 owner_of_queue queue_resource 101 101 [] refl
