-- ===== src/Locks/Serial.antt =====
-- c_src/critical_section.h: whatever the order of the steps, the calls run as if one by one.
use exrdkafka.Base.{
  ℕ_discrete, ℕ, ◌≤◌, ◌<◌, ◌≡◌, ◌⊎◌, inl, inr, refl, sym, ap, ◌∙◌, arith, List, [], ◌∷◌, ◌++◌,
  Option, none, some, map, get_elem?, set_at,
}
use std.Path.{subst}
use exrdkafka.Locks.{
  Mutex, Body, returns, act, run_body, Thread, outside, inside, critical_section, enter, leave,
  System, start, crit_scope, turns,
}
use exrdkafka.Locks.Threads.{
  insiders, open_body, left, calls_of, run_all, calls_of-append, counted, uncounted, run_all-append,
  insiders-set_at, get-set_at, get-set_at_ne, open_body-none, insiders-inside, open_body-inside,
}

module _ (x : Mutex) {S C : Type 0} (body : C → Body S) (programs : List (List C)) (s₀ : S) where
  -- At most one thread is in a block, which is when the mutex is locked; once it has left, the state
  -- is that of the calls one by one.
  record Serial (sys : System x body) : Type 0 where
    lock :
        ((insiders sys.threads ≡ 0) × (sys.crt.mutex ≡ x.enif_mutex_create))
        ⊎ ((insiders sys.threads ≡ 1)
            × (x.enif_mutex_lock x.enif_mutex_create ≡ some sys.crt.mutex))
    state : run_body (open_body sys.threads) sys.state ≡ run_all body sys.entered s₀
    order :
        (j : ℕ)
        → calls_of j sys.entered ++ left (get_elem? sys.threads j)
          ≡ left (get_elem? (start x body programs s₀).threads j)

  -- A step that begins no call leaves the calls alone.
  same_left :
      (i j : ℕ) (t u : Thread S C) (ts : List (Thread S C))
      → get_elem? ts i ≡ some t
      → left (some u) ≡ left (some t)
      → left (get_elem? (set_at i u ts) j) ≡ left (get_elem? ts j)
  same_left i j t u ts e f = elim (ℕ_discrete i j) [
    | yes p ↦
        subst (λ z. left (get_elem? (set_at i u ts) z) ≡ left (get_elem? ts z)) p
          (ap left (get-set_at i t u ts e) ∙ f ∙ sym (ap left e))
    | no p ↦ ap left (get-set_at_ne i j u ts p)
  ]

  -- With a thread in a block the mutex is locked.
  holds :
      (sys : System x body)
      → Serial sys
      → 0 < insiders sys.threads
      → (x.enif_mutex_lock x.enif_mutex_create ≡ some sys.crt.mutex) × (insiders sys.threads ≡ 1)
  holds sys v some_in = elim v.lock [
    | inl (zero_in, free) ↦ absurd (omega (arith, zero_in, some_in))
    | inr (one, held) ↦ (held, one)
  ]

  act-Serial :
      (i : ℕ) (f : S → S) (next : S → Body S) (cs : List C) (sys : System x body)
      → get_elem? sys.threads i ≡ some (inside (act f next) cs)
      → Serial sys
      → Serial (crit_scope x body i (some (inside (act f next) cs)) sys)
  unfolding crit_scope
  act-Serial i f next cs sys e v =
      let t : Thread S C = inside (act f next) cs in
      let u : Thread S C = inside (next sys.state) cs in
      let moved = insiders-set_at i t u sys.threads e in
      let some_in = insiders-inside i (act f next) cs sys.threads e in
      let (held, one) = holds sys v some_in in
      let at = get-set_at i t u sys.threads e in
      record {
        lock = inr (omega (arith, moved, one), held);
        state =
            ap (λ b. run_body b (f sys.state))
              (open_body-inside i (next sys.state) cs (set_at i u sys.threads) at
                (omega (arith, moved, one)))
            ∙ ap (λ b. run_body b sys.state)
                (sym (open_body-inside i (act f next) cs sys.threads e (omega (arith, one))))
            ∙ v.state;
        order = λ j.
            ap (λ z. calls_of j sys.entered ++ z) (same_left i j t u sys.threads e refl)
            ∙ v.order j;
      }

  leave-Serial :
      (i : ℕ) (cs : List C) (sys : System x body)
      → get_elem? sys.threads i ≡ some (inside returns cs)
      → Serial sys
      → Serial (crit_scope x body i (some (inside returns cs)) sys)
  unfolding crit_scope leave
  leave-Serial i cs sys e v =
      let t : Thread S C = inside returns cs in
      let u : Thread S C = outside cs in
      let moved = insiders-set_at i t u sys.threads e in
      let some_in = insiders-inside i returns cs sys.threads e in
      let (held, one) = holds sys v some_in in
      let none_in : insiders (set_at i u sys.threads) ≡ 0 = omega (arith, moved, one) in
      record {
        lock = inl (none_in, x.unlock_lock x.enif_mutex_create sys.crt.mutex held);
        state =
            ap (λ b. run_body b sys.state) (open_body-none (set_at i u sys.threads) none_in)
            ∙ ap (λ b. run_body b sys.state)
                (sym (open_body-inside i returns cs sys.threads e (omega (arith, one))))
            ∙ v.state;
        order = λ j.
            ap (λ z. calls_of j sys.entered ++ z) (same_left i j t u sys.threads e refl)
            ∙ v.order j;
      }

  -- The call that begins moves from the thread to those that have entered.
  begun :
      (i j : ℕ) (c : C) (cs : List C) (b : Body S) (ts : List (Thread S C)) (es : List (ℕ × C))
      → get_elem? ts i ≡ some (outside (c ∷ cs))
      → calls_of j (es ++ (i, c) ∷ []) ++ left (get_elem? (set_at i (inside b cs) ts) j)
        ≡ calls_of j es ++ left (get_elem? ts j)
  begun i j c cs b ts es e =
      let u : Thread S C = inside b cs in
      calls_of-append j i c es (left (get_elem? (set_at i u ts) j)) ∙ elim (ℕ_discrete i j) [
        | yes p ↦
            let moved =
              ap (◌∷◌ c) (ap left (get-set_at i (outside (c ∷ cs)) u ts e)) ∙ sym (ap left e) in
            let same =
              subst (λ z. c ∷ left (get_elem? (set_at i u ts) z) ≡ left (get_elem? ts z)) p moved in
            ap (λ z. calls_of j es ++ z) (counted i j c _ p ∙ same)
        | no p ↦
            let same = ap left (get-set_at_ne i j u ts p) in
            ap (λ z. calls_of j es ++ z) (uncounted i j c _ p ∙ same)
      ]

  enters-Serial :
      (i : ℕ) (c : C) (cs : List C) (m : x.Lock) (sys : System x body)
      → get_elem? sys.threads i ≡ some (outside (c ∷ cs))
      → insiders sys.threads ≡ 0
      → x.enif_mutex_lock x.enif_mutex_create ≡ some m
      → Serial sys
      → Serial (record sys {
        crt = record { mutex = m };
        threads = set_at i (inside (body c) cs) sys.threads;
        entered = sys.entered ++ (i, c) ∷ [];
      })
  enters-Serial i c cs m sys e none_in held v =
      let t : Thread S C = outside (c ∷ cs) in
      let u : Thread S C = inside (body c) cs in
      let moved = insiders-set_at i t u sys.threads e in
      let at = get-set_at i t u sys.threads e in
      let before = ap (λ b. run_body b sys.state) (open_body-none sys.threads none_in) in
      record {
        lock = inr (omega (arith, moved, none_in), held);
        state =
            ap (λ b. run_body b sys.state)
              (open_body-inside i (body c) cs (set_at i u sys.threads) at
                (omega (arith, moved, none_in)))
            ∙ ap (run_body (body c)) (sym before ∙ v.state)
            ∙ sym (run_all-append body sys.entered i c s₀);
        order = λ j. begun i j c cs (body c) sys.threads sys.entered e ∙ v.order j;
      }

  enter-Serial :
      (i : ℕ) (c : C) (cs : List C) (sys : System x body)
      → get_elem? sys.threads i ≡ some (outside (c ∷ cs))
      → Serial sys
      → Serial (crit_scope x body i (some (outside (c ∷ cs))) sys)
  unfolding crit_scope enter
  enter-Serial i c cs sys e v = elim v.lock [
    | inl (none_in, free) ↦
        let (m, held) = x.lock_create in
        let now : x.enif_mutex_lock sys.crt.mutex ≡ some m = ap x.enif_mutex_lock free ∙ held in
        rw (now, enter, crit_scope) (enters-Serial i c cs m sys e none_in held v)
    | inr (one, held) ↦
        let waits = x.lock_lock x.enif_mutex_create sys.crt.mutex held in
        rw (waits, enter, crit_scope) v
  ]

  crit_scope-Serial :
      (i : ℕ) (o : Option (Thread S C)) (sys : System x body)
      → get_elem? sys.threads i ≡ o
      → Serial sys
      → Serial (crit_scope x body i o sys)
  unfolding crit_scope
  crit_scope-Serial i none sys e v = v
  crit_scope-Serial i (some (outside [])) sys e v = v
  crit_scope-Serial i (some (outside (c ∷ cs))) sys e v = enter-Serial i c cs sys e v
  crit_scope-Serial i (some (inside (act f next) cs)) sys e v = act-Serial i f next cs sys e v
  crit_scope-Serial i (some (inside returns cs)) sys e v = leave-Serial i cs sys e v

  run-Serial : (is : List ℕ) (sys : System x body) → Serial sys → Serial (turns x body is sys)
  unfolding turns
  run-Serial [] sys v = v
  run-Serial (i ∷ is) sys v =
      run-Serial is _ (crit_scope-Serial i (get_elem? sys.threads i) sys refl v)

  none_inside : (cs : List (List C)) → insiders {S = S} (map outside cs) ≡ 0
  none_inside [] = refl
  none_inside (c ∷ cs) = none_inside cs

  start-Serial : Serial (start x body programs s₀)
  unfolding critical_section
  start-Serial = record {
    lock = inl (none_inside programs, refl);
    state = ap (λ b. run_body b s₀) (open_body-none (map outside programs) (none_inside programs));
    order = λ j. refl;
  }

  -- Threads that make calls in the critical sections of one object, and may be stopped between any
  -- two statements: at most one of them is in a block; once it has left, the object is as if the
  -- calls that have entered were made one by one, in the order in which they entered; and each
  -- thread's calls entered in its order.
  pub turns-Serial :
      (is : List ℕ)
      → let sys = turns x body is (start x body programs s₀) in
        (insiders sys.threads ≤ 1)
        × (run_body (open_body sys.threads) sys.state ≡ run_all body sys.entered s₀)
        × ((j : ℕ)
            → calls_of j sys.entered ++ left (get_elem? sys.threads j)
              ≡ left (get_elem? (start x body programs s₀).threads j))
  turns-Serial is =
      let sys = turns x body is (start x body programs s₀) in
      let v = run-Serial is (start x body programs s₀) start-Serial in
      (
        elim v.lock [
          | inl (none_in, free) ↦ omega (arith, none_in)
          | inr (one, held) ↦ omega (arith, one)
        ],
        v.state,
        v.order,
      )
