-- ===== src/Nif/Upgrades.antt =====
-- c_src/exrdkafka_nif.cc: one dispatcher over all instances of the module.
use exrdkafka.Base.{suc, ◌+◌, ◌≡◌, refl, List, [], ◌∷◌, ◌++◌, none, some, length, arith}
use std.Path.{subst}
use exrdkafka.Rd.{Handle}
use exrdkafka.Nif.{
  Data, Module, Atoms, Opens, on_nif_load, on_nif_upgrade, delete_notifier, on_nif_unload, Change,
  upgrades, purges, purge, changes, unload_all,
}

-- No instance of the list has a dispatcher.
abbrev AllNull : List Data → Type 0
AllNull [] = Unit {0}
AllNull (d ∷ ds) = (d.notifier ≡ none) × AllNull ds

-- Only the newest instance has the dispatcher, and each instance has a block.
record Standing (h : Handle) (m : Module) : Type 0 where
  newest : m.current.notifier ≡ some h
  nulls : AllNull m.old
  undeleted : m.deleted ≡ []
  blocks : m.allocated ≡ m.freed + suc (length m.old)

AllNull-snoc :
    (ds : List Data) (e : Data) → AllNull ds → AllNull (ds ++ record e { notifier = none } ∷ [])
AllNull-snoc [] e a = (refl, tt)
AllNull-snoc (d ∷ ds) e a = (a.0, AllNull-snoc ds e a.1)

length-snoc : (ds : List Data) (d : Data) → length (ds ++ d ∷ []) ≡ suc (length ds)
length-snoc [] d = refl
length-snoc (e ∷ ds) d = ground (arith, length-snoc ds d)

upgrade-Standing :
    (h : Handle) (opens : Opens) (atoms : Atoms) (m : Module)
    → Standing h m
    → Standing h (on_nif_upgrade opens atoms m)
unfolding on_nif_upgrade
upgrade-Standing h opens atoms m v = record {
  newest = v.newest;
  nulls = AllNull-snoc m.old m.current v.nulls;
  undeleted = v.undeleted;
  blocks = omega (arith, v.blocks, length-snoc m.old (record m.current { notifier = none }));
}

purge-Standing :
    (h : Handle) (ds : List Data) (m : Module) → m.old ≡ ds → Standing h m → Standing h (purge ds m)
unfolding purge on_nif_unload delete_notifier
purge-Standing h [] m e v = v
purge-Standing h (d ∷ ds) m e v =
    let nulls = subst AllNull e v.nulls in
    record {
      newest = v.newest;
      nulls = nulls.1;
      undeleted = ground (arith, nulls.0, v.undeleted);
      blocks = ground (arith, e, v.blocks);
    }

changes-Standing :
    (h : Handle) (us : List Change) (m : Module) → Standing h m → Standing h (changes us m)
unfolding changes
changes-Standing h [] m v = v
changes-Standing h (upgrades opens atoms ∷ us) m v =
    changes-Standing h us (on_nif_upgrade opens atoms m) (upgrade-Standing h opens atoms m v)
changes-Standing h (purges ∷ us) m v =
    changes-Standing h us (purge m.old m) (purge-Standing h m.old m refl v)

-- What the end of the module comes to.
abbrev Ended : Handle → Module → Type 0
Ended h m = (m.deleted ≡ h ∷ []) × (m.allocated ≡ m.freed)

unload_all-Ended :
    (h : Handle) (ds : List Data) (m : Module)
    → m.current.notifier ≡ some h
    → AllNull ds
    → m.deleted ≡ []
    → m.allocated ≡ m.freed + suc (length ds)
    → Ended h (unload_all ds m)
unfolding unload_all on_nif_unload delete_notifier
unload_all-Ended h [] m new a u b = (ground (arith, new, u), ground (arith, b))
unload_all-Ended h (d ∷ ds) m new a u b =
    unload_all-Ended h ds (on_nif_unload d m) new a.1 (ground (arith, a.0, u)) (ground (arith, b))

-- However often the module is upgraded and old instances of it are purged, its one dispatcher is not
-- deleted; once all instances are unloaded it was deleted once, and each block was given back.
pub changes-Ends :
    (opens : Opens) (h : Handle) (us : List Change)
    → let m = changes us (on_nif_load opens h) in
      let e = unload_all m.old m in
      (m.deleted ≡ []) × (e.deleted ≡ h ∷ []) × (e.allocated ≡ e.freed)
unfolding on_nif_load
changes-Ends opens h us =
    let m = changes us (on_nif_load opens h) in
    let v =
      changes-Standing h us (on_nif_load opens h)
        (record { newest = refl; nulls = tt; undeleted = refl; blocks = refl }) in
    let (deleted, blocks) = unload_all-Ended h m.old m v.newest v.nulls v.undeleted v.blocks in
    (v.undeleted, deleted, blocks)
