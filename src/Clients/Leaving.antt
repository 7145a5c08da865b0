-- ===== src/Clients/Leaving.antt =====
-- Resources that are open, and resources that are gone.
use exrdkafka.Base.{
  ◌<◌, ◌≡◌, refl, List, [], ◌∷◌, true, false, none, arith, inl, inr, Option-cases, Bool-cases,
  ℕ_discrete, All,
}
use exrdkafka.Base.Assoc.{find}
use exrdkafka.Rd.{Handle}
use exrdkafka.Rd.Owned.{at}
use exrdkafka.Dispatcher.{Item}
use exrdkafka.Clients.{Resource, of_producer, of_consumer, gone}
use exrdkafka.Clients.Standing.{opens, held, is_the, open_client, client_of}

-- A client that is open in a resource is still to be destroyed by it.
at-is_the : (h : Handle) (x : Resource) → is_the h (open_client x) ≡ true → at h (client_of x) ≡ 1
at-is_the h (of_producer p n) e = ground (arith, e)
at-is_the h (of_consumer c n) e = elim (Option-cases c.kf) [
  | inl f ↦ ground (arith, e, f)
  | inr (j, f) ↦ ground (arith, e, f)
]
at-is_the h gone e = ground (arith, e)

pub held-opens : (h : Handle) (xs : List Resource) → opens h xs ≡ true → 0 < held h xs
held-opens h [] e = ground (arith, e)
held-opens h (x ∷ xs) e = elim (Bool-cases (is_the h (open_client x))) [
  | inl f ↦ omega (arith, at-is_the h x f)
  | inr f ↦ omega (arith, held-opens h xs (ground (arith, e, f)))
]

-- The destructor of each resource has run.
abbrev pub IsGone : Resource → Type 0
IsGone (of_producer p n) = ⊥
IsGone (of_consumer c n) = ⊥
IsGone gone = Unit {0}

module _ (h : Handle) where
  pub opens-IsGone : (xs : List Resource) → All IsGone xs → opens h xs ≡ false
  opens-IsGone [] a = refl
  opens-IsGone (of_producer p n ∷ xs) a = absurd a.0
  opens-IsGone (of_consumer c n ∷ xs) a = absurd a.0
  opens-IsGone (gone ∷ xs) a = opens-IsGone xs a.1

  pub held-IsGone : (xs : List Resource) → All IsGone xs → held h xs ≡ 0
  held-IsGone [] a = refl
  held-IsGone (of_producer p n ∷ xs) a = absurd a.0
  held-IsGone (of_consumer c n ∷ xs) a = absurd a.0
  held-IsGone (gone ∷ xs) a = omega (arith, held-IsGone xs a.1)

-- A map in which nothing is found is empty.
pub nothing_found :
    (m : List (Handle × Item)) → ((h : Handle) → find ℕ_discrete h m ≡ none) → m ≡ []
unfolding find
nothing_found [] f = refl
nothing_found ((j, it) ∷ m) f = let e = f j in absurd (ground (arith, e))
