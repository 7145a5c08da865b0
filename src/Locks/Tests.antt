-- ===== src/Locks/Tests.antt =====
-- Tests of the critical sections, and the theorems on them at concrete inputs.
use exrdkafka.Base.{
  ℕ, ◌+◌, ◌≤◌, ◌≡◌, refl, arith, List, [], ◌∷◌, ◌++◌, Bool, true, false, Option, none, some,
  get_elem?,
}
use exrdkafka.Base.Text.{codes}
use exrdkafka.Rd.Sample.{willing}
use exrdkafka.Topics.{topic_manager, add_all}
use exrdkafka.Locks.{
  Mutex, Body, returns, act, run_body, start, turns, crit_scope, enter, leave, critical_section,
}
use exrdkafka.Locks.Threads.{insiders, open_body, left, calls_of, run_all}
use exrdkafka.Locks.Serial.{turns-Serial}
use exrdkafka.Locks.Adding.{Adds, add_body, calls, turns-Adds}

abbrev lock_bool : Bool → Option Bool
lock_bool false = some true
lock_bool true = none

lock_twice : (m n : Bool) → lock_bool m ≡ some n → lock_bool n ≡ none
lock_twice false n e = ground (arith, e)
lock_twice true n e = ground (arith, e)

unlocked : (m n : Bool) → lock_bool m ≡ some n → false ≡ m
unlocked false n e = refl
unlocked true n e = ground (arith, e)

-- A mutex that is locked or not.
abbrev mutex : Mutex
mutex = record {
  Lock = Bool;
  enif_mutex_create = false;
  enif_mutex_lock = lock_bool;
  enif_mutex_unlock = λ m. false;
  lock_create = (true, refl);
  lock_lock = lock_twice;
  unlock_lock = unlocked;
}

-- A counter that is read in one statement and written in the next.
abbrev count : ℕ → Body ℕ
count n = act (λ s. s) (λ seen. act (λ s. seen + n) (λ s. returns))

abbrev counting : List (List ℕ)
counting = (2 ∷ []) ∷ (3 ∷ []) ∷ []

-- The second thread tries to enter after each step of the first.
abbrev order : List ℕ
order = 0 ∷ 1 ∷ 0 ∷ 1 ∷ 0 ∷ 1 ∷ 0 ∷ 1 ∷ 1 ∷ 1 ∷ 1 ∷ []

-- No addition is lost.
counted : (turns mutex count order (start mutex count counting 0)).state ≡ 5
unfolding turns crit_scope enter leave critical_section
counted = refl

turns-Serial_example :
    let sys = turns mutex count order (start mutex count counting 0) in
    (insiders sys.threads ≤ 1)
    × (run_body (open_body sys.threads) sys.state ≡ run_all count sys.entered 0)
    × ((j : ℕ)
        → calls_of j sys.entered ++ left (get_elem? sys.threads j)
          ≡ left (get_elem? (start mutex count counting 0).threads j))
turns-Serial_example = turns-Serial mutex count counting 0 order

abbrev adding : List (List Adds)
adding = ((codes "orders", none) ∷ []) ∷ ((codes "orders", none) ∷ []) ∷ []

turns-Adds_example :
    let body = add_body willing in
    let sys = turns mutex body order (start mutex body adding (topic_manager 7, [])) in
    (run_body (open_body sys.threads) sys.state
      ≡ add_all willing (calls willing sys.entered) (topic_manager 7) [])
    × ((j : ℕ)
        → calls_of j sys.entered ++ left (get_elem? sys.threads j)
          ≡ left (get_elem? (start mutex body adding (topic_manager 7, [])).threads j))
turns-Adds_example = turns-Adds willing mutex order adding (topic_manager 7) []
