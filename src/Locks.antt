-- ===== src/Locks.antt =====
-- c_src/critical_section.h: threads that share one object take turns in its critical sections.
--
-- A critical section is a row of statements, and a thread may be stopped between any two of them.
pub mod Threads
pub mod Serial
pub mod Adding
mod Tests
use exrdkafka.Base.{
  ℕ, ◌≡◌, List, [], ◌∷◌, ◌++◌, Option, none, some, map, get_elem?, set_at, ◌==◌, if◌then◌else◌,
}

-- The mutex of erl_nif: a thread that locks it while it is locked has to wait, which is `none`.
pub record Mutex : Type 1 where
  pub Lock : Type 0
  pub enif_mutex_create : Lock
  pub enif_mutex_lock : Lock → Option Lock
  pub enif_mutex_unlock : Lock → Lock
  pub lock_create : (m : Lock) × (enif_mutex_lock enif_mutex_create ≡ some m)
  pub lock_lock : (m n : Lock) → enif_mutex_lock m ≡ some n → enif_mutex_lock n ≡ none
  pub unlock_lock : (m n : Lock) → enif_mutex_lock m ≡ some n → enif_mutex_unlock n ≡ m

-- The statements of a block: a change of the state, and what comes next after the state that the
-- statement saw.
pub data Body (S : Type 0) : Type 0 where
  returns : Body S
  act : (S → S) → (S → Body S) → Body S

-- The block in one go.
abbrev pub run_body : {S : Type 0} → Body S → S → S
run_body returns s = s
run_body (act f next) s = run_body (next s) (f s)

-- A thread with the calls it is still to make, and perhaps in the block of one.
pub data Thread (S C : Type 0) : Type 0 where
  outside : List C → Thread S C
  inside : Body S → List C → Thread S C

module _ (x : Mutex) where
  pub record CriticalSection : Type 0 where
    pub mutex : x.Lock

  unfoldable pub critical_section : CriticalSection
  critical_section = record { mutex = x.enif_mutex_create }

  abbrev locked : Option x.Lock → Option CriticalSection
  locked none = none
  locked (some m) = some (record { mutex = m })

  -- `none` while the thread waits.
  unfoldable pub enter : CriticalSection → Option CriticalSection
  enter crt = locked (x.enif_mutex_lock crt.mutex)

  unfoldable pub leave : CriticalSection → CriticalSection
  leave crt = record { mutex = x.enif_mutex_unlock crt.mutex }

  module _ {S C : Type 0} (body : C → Body S) where
    -- The object, its lock, and the calls that have entered, the oldest first.
    pub record System : Type 0 where
      pub crt : CriticalSection
      pub state : S
      pub threads : List (Thread S C)
      pub entered : List (ℕ × C)

    abbrev pub start : List (List C) → S → System
    unfolding critical_section
    start programs s = record {
      crt = critical_section;
      state = s;
      threads = map outside programs;
      entered = [];
    }

    -- `CritScope` enters where the block begins and leaves where it returns.
    unfoldable pub crit_scope : ℕ → Option (Thread S C) → System → System
    crit_scope i none sys = sys
    crit_scope i (some (outside [])) sys = sys
    crit_scope i (some (outside (c ∷ cs))) sys = elim (enter sys.crt) [
      | none ↦ sys
      | some crt ↦ record sys {
        crt = crt;
        threads = set_at i (inside (body c) cs) sys.threads;
        entered = sys.entered ++ (i, c) ∷ [];
      }
    ]
    crit_scope i (some (inside (act f next) cs)) sys = record sys {
      state = f sys.state;
      threads = set_at i (inside (next sys.state) cs) sys.threads;
    }
    crit_scope i (some (inside returns cs)) sys = record sys {
      crt = leave sys.crt;
      threads = set_at i (outside cs) sys.threads;
    }

    -- The threads take steps in any order.
    unfoldable pub turns : List ℕ → System → System
    turns [] sys = sys
    turns (i ∷ is) sys = turns is (crit_scope i (get_elem? sys.threads i) sys)
