-- ===== src/Clients/Standing.antt =====
-- c_src/queuecallbacksdispatcher.cc and the resources: which clients are watched, and who destroys
-- them.
use exrdkafka.Base.{
  ℕ, zero, suc, ◌+◌, ◌≡◌, refl, ap, inl, inr, Bool-cases, List, [], ◌∷◌, ◌++◌, Bool, true, false,
  ◌||◌, Option, none, some, arith, ◌==◌, if◌then◌else◌, ℕ_discrete, All, get_elem?, set_at,
}
use std.Path.{subst}
use exrdkafka.Base.Assoc.{Fresh}
use exrdkafka.Rd.{Handle, Log}
use exrdkafka.Rd.Books.{Kind, opened, closed}
use exrdkafka.Rd.Owned.{at}
use exrdkafka.Dispatcher.{Dispatcher}
use exrdkafka.Dispatcher.Watched.{Unwatched}
use exrdkafka.Clients.{Resource, of_producer, of_consumer, gone, Clients, replaced}

-- The client of a resource, until it is destroyed.
abbrev pub client_of : Resource → Option Handle
client_of (of_producer p n) = some p.kf
client_of (of_consumer c n) = c.kf
client_of gone = none

-- Its client if the resource was not cleaned up.
abbrev pub open_client : Resource → Option Handle
open_client (of_producer p n) = if p.closing then none else some p.kf
open_client (of_consumer c n) = if c.closing then none else c.kf
open_client gone = none

abbrev pub is_the : Handle → Option Handle → Bool
is_the h none = false
is_the h (some j) = j == h

-- A resource of the list that is not cleaned up has the client `h`.
abbrev pub opens : Handle → List Resource → Bool
opens h [] = false
opens h (x ∷ xs) = is_the h (open_client x) || opens h xs

-- How many resources have the client `h` still to destroy.
abbrev pub held : Handle → List Resource → ℕ
held h [] = 0
held h (x ∷ xs) = at h (client_of x) + held h xs

-- No run of a clean-up is to come for a consumer that was not cleaned up, and one that was has
-- destroyed its client unless a run is to come.
abbrev pub IsIdle : Resource → Type 0
IsIdle (of_producer p n) = Unit {0}
IsIdle (of_consumer c n) = (c.closing ≡ false → n ≡ 0) × (c.closing ≡ true → n ≡ 0 → c.kf ≡ none)
IsIdle gone = Unit {0}

-- What a step may do to one resource, the dispatcher and the log.
pub record Changes (h : Handle) (x : Resource) (d : Dispatcher) (l : Log) (x' : Resource)
    (d' : Dispatcher) (l' : Log) : Type 0 where
  pub fresh : Fresh ℕ_discrete d.objects → Fresh ℕ_discrete d'.objects
  pub mono : Unwatched h d.objects → Unwatched h d'.objects
  pub shuts :
      Fresh ℕ_discrete d.objects
      → IsIdle x
      → is_the h (open_client x) ≡ true
      → is_the h (open_client x') ≡ false
      → Unwatched h d'.objects
  pub books :
      IsIdle x
      → opened Kind.clients h l' + closed Kind.clients h l + at h (client_of x)
        ≡ opened Kind.clients h l + closed Kind.clients h l' + at h (client_of x')
  pub idle : IsIdle x → IsIdle x'

-- What a step may do that makes a resource; with `gone`, none.
pub record Creates (h : Handle) (d : Dispatcher) (l : Log) (x : Resource) (d' : Dispatcher)
    (l' : Log) : Type 0 where
  pub fresh : Fresh ℕ_discrete d.objects → Fresh ℕ_discrete d'.objects
  pub watched : is_the h (open_client x) ≡ false → Unwatched h d.objects → Unwatched h d'.objects
  pub books :
      opened Kind.clients h l' + closed Kind.clients h l
      ≡ opened Kind.clients h l + closed Kind.clients h l' + at h (client_of x)
  pub idle : IsIdle x

-- What holds of all clients: `before` is the log at the start.
pub record Standing (h : Handle) (before : Log) (w : Clients) (l : Log) : Type 0 where
  pub fresh : Fresh ℕ_discrete w.notifier.objects
  pub idle : All IsIdle w.resources
  pub watched : opens h w.resources ≡ false → Unwatched h w.notifier.objects
  pub books :
      opened Kind.clients h l + closed Kind.clients h before
      ≡ opened Kind.clients h before + closed Kind.clients h l + held h w.resources

module _ (h : Handle) where
  IsIdle-at :
      (i : ℕ) (x : Resource) (xs : List Resource)
      → get_elem? xs i ≡ some x
      → All IsIdle xs
      → IsIdle x
  IsIdle-at i x [] e a = absurd (cc e)
  IsIdle-at zero x (y ∷ ys) e a = let s : y ≡ x = cc e in subst IsIdle s a.0
  IsIdle-at (suc i) x (y ∷ ys) e a = IsIdle-at i x ys e a.1

  IsIdle-set_at :
      (i : ℕ) (x : Resource) (xs : List Resource)
      → All IsIdle xs
      → IsIdle x
      → All IsIdle (set_at i x xs)
  IsIdle-set_at i x [] a b = tt
  IsIdle-set_at zero x (y ∷ ys) a b = (b, a.1)
  IsIdle-set_at (suc i) x (y ∷ ys) a b = (a.0, IsIdle-set_at i x ys a.1 b)

  held-set_at :
      (i : ℕ) (x x' : Resource) (xs : List Resource)
      → get_elem? xs i ≡ some x
      → held h (set_at i x' xs) + at h (client_of x) ≡ held h xs + at h (client_of x')
  held-set_at i x x' [] e = absurd (cc e)
  held-set_at zero x x' (y ∷ ys) e =
      let s : y ≡ x = cc e in omega (arith, ap (λ z. at h (client_of z)) s)
  held-set_at (suc i) x x' (y ∷ ys) e = omega (arith, held-set_at i x x' ys e)

  -- If `h` was open only at the place that is replaced, it was open there.
  opens-set_at :
      (i : ℕ) (x x' : Resource) (xs : List Resource)
      → get_elem? xs i ≡ some x
      → opens h (set_at i x' xs) ≡ false
      → opens h xs ≡ true
      → (is_the h (open_client x) ≡ true) × (is_the h (open_client x') ≡ false)
  opens-set_at i x x' [] e f t = absurd (cc e)
  opens-set_at zero x x' (y ∷ ys) e f t =
      let s : y ≡ x = cc e in
      let same = ap (λ z. is_the h (open_client z)) s in ground (arith, same, f, t)
  opens-set_at (suc i) x x' (y ∷ ys) e f t =
      opens-set_at i x x' ys e (ground (arith, f)) (ground (arith, f, t))

  pub Standing-replaced :
      (before l l' : Log) (w : Clients) (i : ℕ) (x x' : Resource) (d' : Dispatcher)
      → get_elem? w.resources i ≡ some x
      → Changes h x w.notifier l x' d' l'
      → Standing h before w l
      → Standing h before (replaced i x' d' w) l'
  Standing-replaced before l l' w i x x' d' e c v =
      let idle = IsIdle-at i x w.resources e v.idle in
      record {
        fresh = c.fresh v.fresh;
        idle = IsIdle-set_at i x' w.resources v.idle (c.idle idle);
        watched = λ f. elim (Bool-cases (opens h w.resources)) [
          | inl t ↦
              let (was, is) = opens-set_at i x x' w.resources e f t in c.shuts v.fresh idle was is
          | inr g ↦ c.mono (v.watched g)
        ];
        books = omega (arith, v.books, c.books idle, held-set_at i x x' w.resources e);
      }

  -- A resource that is new.
  opens-append :
      (xs : List Resource) (x : Resource)
      → opens h (xs ++ x ∷ []) ≡ (opens h xs || is_the h (open_client x))
  opens-append [] x = ground arith
  opens-append (y ∷ ys) x = ground (arith, opens-append ys x)

  held-append :
      (xs : List Resource) (x : Resource) → held h (xs ++ x ∷ []) ≡ held h xs + at h (client_of x)
  held-append [] x = omega arith
  held-append (y ∷ ys) x = omega (arith, held-append ys x)

  IsIdle-append :
      (xs : List Resource) (x : Resource) → All IsIdle xs → IsIdle x → All IsIdle (xs ++ x ∷ [])
  IsIdle-append [] x a b = (b, tt)
  IsIdle-append (y ∷ ys) x a b = (a.0, IsIdle-append ys x a.1 b)

  pub Standing-append :
      (before l l' : Log) (w : Clients) (x : Resource) (d' : Dispatcher)
      → Creates h w.notifier l x d' l'
      → Standing h before w l
      → Standing h before (record { notifier = d'; resources = w.resources ++ x ∷ [] }) l'
  Standing-append before l l' w x d' c v = record {
    fresh = c.fresh v.fresh;
    idle = IsIdle-append w.resources x v.idle c.idle;
    watched = λ f.
        let same = opens-append w.resources x in
        c.watched (ground (arith, same, f)) (v.watched (ground (arith, same, f)));
    books = omega (arith, v.books, c.books, held-append w.resources x);
  }

  -- A step that leaves the resources alone.
  pub Standing-quiet :
      (before l l' : Log) (w : Clients) (d' : Dispatcher)
      → Creates h w.notifier l gone d' l'
      → Standing h before w l
      → Standing h before (record w { notifier = d' }) l'
  Standing-quiet before l l' w d' c v = record {
    fresh = c.fresh v.fresh;
    idle = v.idle;
    watched = λ f. c.watched refl (v.watched f);
    books = omega (arith, v.books, c.books);
  }
