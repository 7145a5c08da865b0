-- ===== src/Locks/Threads.antt =====
-- c_src/critical_section.h: which threads are in a block, and which calls have entered.
use exrdkafka.Base.{
  ℕ, zero, suc, ◌+◌, ◌≤◌, ◌<◌, ◌≡◌, ◌≢◌, refl, ap, arith, List, [], ◌∷◌, ◌++◌, Option, none, some,
  get_elem?, set_at, ◌==◌, if◌then◌else◌,
}
use exrdkafka.Locks.{Body, returns, run_body, Thread, outside, inside}

-- How many threads are in a block, and what the first of them has still to do.
abbrev pub insiders : {S C : Type 0} → List (Thread S C) → ℕ
insiders [] = 0
insiders (outside cs ∷ ts) = insiders ts
insiders (inside b cs ∷ ts) = suc (insiders ts)

abbrev pub open_body : {S C : Type 0} → List (Thread S C) → Body S
open_body [] = returns
open_body (outside cs ∷ ts) = open_body ts
open_body (inside b cs ∷ ts) = b

-- The calls that a thread has not begun.
abbrev pub left : {S C : Type 0} → Option (Thread S C) → List C
left none = []
left (some (outside cs)) = cs
left (some (inside b cs)) = cs

-- The calls of one thread among those that have entered.
abbrev pub calls_of : {C : Type 0} → ℕ → List (ℕ × C) → List C
calls_of i [] = []
calls_of i ((j, c) ∷ es) = if j == i then c ∷ calls_of i es else calls_of i es

-- Some calls, each in one go.
abbrev pub run_all : {S C : Type 0} → (C → Body S) → List (ℕ × C) → S → S
run_all body [] s = s
run_all body ((i, c) ∷ es) s = run_all body es (run_body (body c) s)

pub calls_of-append :
    {C : Type 0} (j i : ℕ) (c : C) (es : List (ℕ × C)) (cs : List C)
    → calls_of j (es ++ (i, c) ∷ []) ++ cs ≡ calls_of j es ++ (if i == j then c ∷ cs else cs)
calls_of-append j i c [] cs = ground arith
calls_of-append j i c ((i', d) ∷ es) cs = ground (arith, calls_of-append j i c es cs)

pub counted :
    {C : Type 0} (i j : ℕ) (c : C) (cs : List C) → i ≡ j → (if i == j then c ∷ cs else cs) ≡ c ∷ cs
counted i j c cs p = ground (arith, p)

pub uncounted :
    {C : Type 0} (i j : ℕ) (c : C) (cs : List C) → i ≢ j → (if i == j then c ∷ cs else cs) ≡ cs
uncounted i j c cs p = ground (arith, p)

module _ {S C : Type 0} where
  pub run_all-append :
      (body : C → Body S) (es : List (ℕ × C)) (i : ℕ) (c : C) (s : S)
      → run_all body (es ++ (i, c) ∷ []) s ≡ run_body (body c) (run_all body es s)
  run_all-append body [] i c s = refl
  run_all-append body ((j, d) ∷ es) i c s = run_all-append body es i c (run_body (body d) s)

  -- One for a thread in a block.
  abbrev weight : Thread S C → ℕ
  weight (outside cs) = 0
  weight (inside b cs) = 1

  insiders-cons :
      (t : Thread S C) (ts : List (Thread S C)) → insiders (t ∷ ts) ≡ weight t + insiders ts
  insiders-cons (outside cs) ts = omega arith
  insiders-cons (inside b cs) ts = omega arith

  pub insiders-set_at :
      (i : ℕ) (t u : Thread S C) (ts : List (Thread S C))
      → get_elem? ts i ≡ some t
      → insiders (set_at i u ts) + weight t ≡ insiders ts + weight u
  insiders-set_at i t u [] e = absurd (cc e)
  insiders-set_at zero t u (v ∷ ts) e =
      let same : v ≡ t = cc e in
      omega (arith, insiders-cons u ts, insiders-cons v ts, ap weight same)
  insiders-set_at (suc i) t u (v ∷ ts) e =
      omega (arith, insiders-cons v (set_at i u ts), insiders-cons v ts, insiders-set_at i t u ts e)

  pub get-set_at :
      (i : ℕ) (t u : Thread S C) (ts : List (Thread S C))
      → get_elem? ts i ≡ some t
      → get_elem? (set_at i u ts) i ≡ some u
  get-set_at i t u [] e = absurd (cc e)
  get-set_at zero t u (v ∷ ts) e = refl
  get-set_at (suc i) t u (v ∷ ts) e = get-set_at i t u ts e

  pub get-set_at_ne :
      (i j : ℕ) (u : Thread S C) (ts : List (Thread S C))
      → i ≢ j
      → get_elem? (set_at i u ts) j ≡ get_elem? ts j
  get-set_at_ne i j u [] e = refl
  get-set_at_ne zero zero u (v ∷ ts) e = absurd (e refl)
  get-set_at_ne zero (suc j) u (v ∷ ts) e = refl
  get-set_at_ne (suc i) zero u (v ∷ ts) e = refl
  get-set_at_ne (suc i) (suc j) u (v ∷ ts) e = get-set_at_ne i j u ts (λ p. e (ap suc p))

  pub open_body-none : (ts : List (Thread S C)) → insiders ts ≡ 0 → open_body ts ≡ returns
  open_body-none [] e = refl
  open_body-none (outside cs ∷ ts) e = open_body-none ts e
  open_body-none (inside b cs ∷ ts) e = absurd (omega (arith, e))

  pub insiders-inside :
      (i : ℕ) (b : Body S) (cs : List C) (ts : List (Thread S C))
      → get_elem? ts i ≡ some (inside b cs)
      → 0 < insiders ts
  insiders-inside i b cs [] e = absurd (cc e)
  insiders-inside zero b cs (v ∷ ts) e =
      let same : v ≡ inside b cs = cc e in omega (arith, insiders-cons v ts, ap weight same)
  insiders-inside (suc i) b cs (v ∷ ts) e =
      omega (arith, insiders-cons v ts, insiders-inside i b cs ts e)

  pub open_body-inside :
      (i : ℕ) (b : Body S) (cs : List C) (ts : List (Thread S C))
      → get_elem? ts i ≡ some (inside b cs)
      → insiders ts ≤ 1
      → open_body ts ≡ b
  open_body-inside i b cs [] e f = absurd (cc e)
  open_body-inside zero b cs (v ∷ ts) e f = let same : v ≡ inside b cs = cc e in rw same refl
  open_body-inside (suc i) b cs (outside ds ∷ ts) e f = open_body-inside i b cs ts e f
  open_body-inside (suc i) b cs (inside d ds ∷ ts) e f =
      absurd (omega (arith, f, insiders-inside i b cs ts e))
