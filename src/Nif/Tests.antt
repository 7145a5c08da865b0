-- ===== src/Nif/Tests.antt =====
-- Tests of the module's entry, and the theorems on it at concrete inputs.
use exrdkafka.Base.{
  ◌+◌, ◌≡◌, refl, List, [], ◌∷◌, some, ℕ, ℕ_discrete, Bool, true, false, length, ◌==◌, ◌&&◌,
}
use exrdkafka.Base.Text.{codes}
use exrdkafka.Erl.{Bytes, Bytes-discrete}
use exrdkafka.Nif.{
  NifFunc, nif_funcs, Opens, open_resources, purge, on_nif_unload, Change, upgrades, purges,
  changes, on_nif_load, on_nif_upgrade, unload_all,
}
use exrdkafka.Nif.Upgrades.{changes-Ends}

-- Each image is answered other addresses.
abbrev opens : ℕ → Opens
opens n text = some (n + length text)

abbrev two_upgrades : List Change
two_upgrades = upgrades (opens 20) [] ∷ upgrades (opens 40) [] ∷ purges ∷ []

changes-Ends_example :
    let m = changes two_upgrades (on_nif_load (opens 0) 5) in
    let e = unload_all m.old m in (m.deleted ≡ []) × (e.deleted ≡ 5 ∷ []) × (e.allocated ≡ e.freed)
changes-Ends_example = changes-Ends (opens 0) 5 two_upgrades

-- An image that begins with an upgrade has made no atom.
no_atoms : (changes (upgrades (opens 20) [] ∷ []) (on_nif_load (opens 0) 5)).atoms ≡ []
unfolding changes on_nif_upgrade on_nif_load
no_atoms = refl

-- The newest image has the types that it was answered itself.
newest_types :
    (changes two_upgrades (on_nif_load (opens 0) 5)).current.res_queue
    ≡ some (40 + length (codes "res_queue"))
unfolding changes purge on_nif_unload on_nif_upgrade on_nif_load open_resources
newest_types = refl

-- The functions that are declared in lib/exrdkafka/exrdkafka_nif.ex, in its order.
abbrev declared : List (Bytes × ℕ)
declared =
    (codes "set_log_process", 1)
    ∷ (codes "producer_new", 2)
    ∷ (codes "producer_cleanup", 1)
    ∷ (codes "producer_set_owner", 2)
    ∷ (codes "producer_topic_new", 3)
    ∷ (codes "produce", 7)
    ∷ (codes "produce_sync", 7)
    ∷ (codes "produce_batch", 3)
    ∷ (codes "get_metadata", 1)
    ∷ (codes "get_partitions_count", 2)
    ∷ (codes "consumer_new", 4)
    ∷ (codes "consumer_partition_revoke_completed", 1)
    ∷ (codes "consumer_queue_poll", 2)
    ∷ (codes "consumer_queue_cleanup", 1)
    ∷ (codes "consumer_offset_store", 4)
    ∷ (codes "consumer_cleanup", 1)
    ∷ []

abbrev is_implemented : Bytes → ℕ → List NifFunc → Bool
is_implemented text n [] = false
is_implemented text n (f ∷ fs) =
    let rest = is_implemented text n fs in
    elim (Bytes-discrete f.name text) [ yes e ↦ f.arity == n | no e ↦ rest ]

abbrev all_implemented : List (Bytes × ℕ) → Bool
all_implemented [] = true
all_implemented ((text, n) ∷ fs) = is_implemented text n nif_funcs && all_implemented fs

-- Each of them is implemented, with as many arguments, and there are no others.
implemented : (all_implemented declared ≡ true) × (length declared ≡ length nif_funcs)
unfolding nif_funcs Bytes-discrete ℕ_discrete
implemented = (refl, refl)
