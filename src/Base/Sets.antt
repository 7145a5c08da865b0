-- ===== src/Base/Sets.antt =====
-- `std::set` of pointers as a list of addresses.
use Prim.Native.Nat.{ℕ}
use mathlib.Core.Path.{◌≡◌}
use mathlib.Core.List.{List, [], ◌∷◌}
use mathlib.Core.Bool.{Bool, true, false}
use native.Mathlib.Omega.{arith}
use exrdkafka.Base.Tests.{◌==◌, if◌then◌else◌}

unfoldable pub has : ℕ → List ℕ → Bool
has k [] = false
has k (j ∷ s) = if j == k then true else has k s

-- `insert` leaves a set that has the address as it is.
unfoldable pub add_key : ℕ → List ℕ → List ℕ
add_key k s = if has k s then s else k ∷ s

unfoldable pub drop_key : ℕ → List ℕ → List ℕ
drop_key k [] = []
drop_key k (j ∷ s) = if j == k then s else j ∷ drop_key k s

-- No address stands twice.
abbrev pub Distinct : List ℕ → Type 0
Distinct [] = Unit
Distinct (j ∷ s) = (has j s ≡ false) × Distinct s

pub has-add_key : (k q : ℕ) (s : List ℕ) → has q (add_key k s) ≡ (if k == q then true else has q s)
unfolding has add_key
has-add_key k q s = ground arith

pub add_key-Distinct : (k : ℕ) (s : List ℕ) → Distinct s → Distinct (add_key k s)
unfolding add_key
add_key-Distinct k s d = ground arith

pub has-drop_key :
    (k q : ℕ) (s : List ℕ) → Distinct s → has q (drop_key k s) ≡ (if k == q then false else has q s)
unfolding has drop_key
has-drop_key k q [] d = ground arith
has-drop_key k q (j ∷ s) d = ground (arith, has-drop_key k q s d.1)

pub drop_key-Distinct : (k : ℕ) (s : List ℕ) → Distinct s → Distinct (drop_key k s)
unfolding drop_key
drop_key-Distinct k [] d = tt
drop_key-Distinct k (j ∷ s) d = ground (arith, drop_key-Distinct k s d.1, has-drop_key k j s d.1)
