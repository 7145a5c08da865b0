-- ===== src/Queues/Tests.antt =====
-- Tests of the queue manager, and its theorems at concrete inputs.
use exrdkafka.Base.{◌+◌, ◌≡◌, refl, ◌≢◌, [], ◌∷◌, none, some, true, false, ◌&&◌, ◌==◌}
use exrdkafka.Base.Sets.{has, add_key, drop_key}
use exrdkafka.Rd.{Handle, Log, Call}
use exrdkafka.Rd.Ledger.{queues_opened, queues_closed, tally}
use exrdkafka.Rd.Sample.{willing}
use exrdkafka.Queues.{
  QueueManager, queue_manager, add, remove, clear_all, adds, removes, clears, step, session,
}
use exrdkafka.Queues.Routing.{detached, main, route, Routed, session_new-Routed, clear_all-main}
use exrdkafka.Queues.References.{remove-balance, clear_all-leaks}

abbrev two : QueueManager
two = record { rk = 1; queues = 6 ∷ 5 ∷ [] }

abbrev two_log : Log
two_log = Call.queue_forward 6 none ∷ Call.queue_forward 5 none ∷ []

adds_two : session willing (adds 5 ∷ adds 6 ∷ []) (queue_manager 1) [] ≡ (two, two_log)
unfolding session step queue_manager add add_key has
adds_two = refl

removed : remove willing two 5 two_log ≡ (
  (record two { queues = 6 ∷ [] }, true),
  Call.queue_destroy 5
      ∷ Call.queue_destroy 102
      ∷ Call.queue_forward 5 (some 102)
      ∷ Call.queue_get_consumer 1 102
      ∷ two_log,
)
unfolding remove has drop_key
removed = refl

two-Routed : Routed two two_log
unfolding session step queue_manager add add_key has route
two-Routed = session_new-Routed willing 1 (adds 5 ∷ adds 6 ∷ []) [] (λ q e. cc)

session_new-Routed_example :
    let r = session willing (adds 5 ∷ removes 5 ∷ adds 6 ∷ clears ∷ []) (queue_manager 1) [] in
    Routed r.0 r.1
unfolding route
session_new-Routed_example =
    session_new-Routed willing 1 (adds 5 ∷ removes 5 ∷ adds 6 ∷ clears ∷ []) [] (λ q e. cc)

clear_all-main_example :
    let r = clear_all willing two two_log in
    ((q : Handle) → has q two.queues ≡ true → route 1 q r.1 ≡ main)
    × ((q : Handle) → route 1 q r.1 ≢ detached)
    × (r.0.queues ≡ [])
clear_all-main_example = clear_all-main willing two two_log two-Routed

remove-balance_example :
    let r = remove willing two 5 two_log in
    (r.0.1 ≡ has 5 two.queues)
    × (queues_opened 5 r.1 + queues_closed 5 two_log + tally (has 5 two.queues && (5 == 5)) 0
        ≡ queues_opened 5 two_log + queues_closed 5 r.1)
remove-balance_example = remove-balance willing two 5 5 two_log

clear_all-leaks_example :
    let r = clear_all willing two two_log in
    (queues_opened 5 r.1 + queues_closed 5 two_log ≡ queues_opened 5 two_log + queues_closed 5 r.1)
    × (remove willing r.0 5 r.1 ≡ ((r.0, false), r.1))
unfolding has
clear_all-leaks_example = clear_all-leaks willing two 5 two_log refl
