-- ===== src/Base/Assoc.antt =====
-- `std::map` and `std::unordered_map` as association lists.
use mathlib.Core.Path.{◌≡◌, refl}
use mathlib.Core.Logic.{◌≢◌, ite}
use mathlib.Core.List.{List, [], ◌∷◌}
use mathlib.Core.Option.{Option, none, some}
use native.Mathlib.Omega.{arith}

module _ {ℓ} {K V : Type ℓ} (dec : Discrete K) where
  unfoldable pub find : K → List (K × V) → Option V
  find k [] = none
  find k ((j, v) ∷ m) = ite (dec j k) (some v) (find k m)

  -- `m[k] = v`
  unfoldable pub put : K → V → List (K × V) → List (K × V)
  put k v [] = (k, v) ∷ []
  put k v ((j, w) ∷ m) = ite (dec j k) ((k, v) ∷ m) ((j, w) ∷ put k v m)

  unfoldable pub erase_key : K → List (K × V) → List (K × V)
  erase_key k [] = []
  erase_key k ((j, w) ∷ m) = ite (dec j k) m ((j, w) ∷ erase_key k m)

  pub find-put :
      (k q : K) (v : V) (m : List (K × V)) → find q (put k v m) ≡ ite (dec k q) (some v) (find q m)
  unfolding find put
  find-put k q v [] = refl
  find-put k q v ((j, w) ∷ m) = ground (arith, find-put k q v m)

  -- No key stands twice.
  abbrev pub Fresh : List (K × V) → Type ℓ
  Fresh [] = Unit
  Fresh ((j, w) ∷ m) = (find j m ≡ none) × Fresh m

  pub find-put_ne : (k q : K) (v : V) (m : List (K × V)) → k ≢ q → find q (put k v m) ≡ find q m
  unfolding find put
  find-put_ne k q v m h = ground (arith, find-put k q v m)

  pub put-Fresh : (k : K) (v : V) (m : List (K × V)) → Fresh m → Fresh (put k v m)
  unfolding put find
  put-Fresh k v [] h = (refl, tt)
  put-Fresh k v ((j, w) ∷ m) h = ground (arith, put-Fresh k v m h.1, find-put_ne k j v m)

  pub find-erase_ne : (k q : K) (m : List (K × V)) → k ≢ q → find q (erase_key k m) ≡ find q m
  unfolding find erase_key
  find-erase_ne k q [] h = refl
  find-erase_ne k q ((j, w) ∷ m) h = ground (arith, find-erase_ne k q m h)

  pub find-erase_self : (k : K) (m : List (K × V)) → Fresh m → find k (erase_key k m) ≡ none
  unfolding find erase_key
  find-erase_self k [] h = refl
  find-erase_self k ((j, w) ∷ m) h = ground (arith, find-erase_self k m h.1)

  pub find-erase_none :
      (k q : K) (m : List (K × V)) → find q m ≡ none → find q (erase_key k m) ≡ none
  unfolding find erase_key
  find-erase_none k q [] h = refl
  find-erase_none k q ((j, w) ∷ m) h = ground (arith, find-erase_none k q m)

  pub erase-Fresh : (k : K) (m : List (K × V)) → Fresh m → Fresh (erase_key k m)
  unfolding erase_key
  erase-Fresh k [] h = tt
  erase-Fresh k ((j, w) ∷ m) h = ground (arith, erase-Fresh k m h.1, find-erase_none k j m)

  -- Put back a key that was not there, and take it out again.
  pub erase-put : (k : K) (v : V) (m : List (K × V)) → find k m ≡ none → erase_key k (put k v m) ≡ m
  unfolding find put erase_key
  erase-put k v [] h = ground arith
  erase-put k v ((j, w) ∷ m) h = ground (arith, erase-put k v m)
