-- ===== src/Dispatcher/Tended.antt =====
-- c_src/queuecallbacksdispatcher.cc: which clients a round of the thread polls.
use exrdkafka.Base.{
  ℕ, ◌-◌, ◌≤◌, ◌<◌, ◌≡◌, ◌⊎◌, refl, List, [], ◌∷◌, Bool, true, false, Bool-cases, leb, arith, map,
  inl, inr, Option-cases, min, none, ℕ_discrete, ap, if_pos, if_neg, ◌∙◌,
}
use exrdkafka.Rd.{Kafka, Handle, Log}
use exrdkafka.Rd.Ledger.{polls_of}
use exrdkafka.Dispatcher.Poll.{do_poll-le, do_poll-lt}
use exrdkafka.Dispatcher.{
  Dispatcher, Item, u64, add64, sub64, check_item, check_items, serve, check_objects, do_poll,
}
use exrdkafka.Base.Assoc.{find, put}

-- What a check does not change of an entry.
abbrev pub settings : Handle × Item → Handle × Bool × ℕ
settings (rk, it) = (rk, it.is_consumer, it.max_poll_interval_ms)

-- From `l` to `l'` a client was left alone, or it was polled and has the time `now`.
abbrev pub Tended : ℕ → Log → Log → Handle × Item → Handle × Item → Type 0
Tended now l l' (rk, it) (rk', it') =
    (it' ≡ it) ⊎ ((it'.last_poll_ms ≡ now) × (polls_of rk l < polls_of rk l'))

abbrev pub AllTended : ℕ → Log → Log → List (Handle × Item) → List (Handle × Item) → Type 0
AllTended now l l' [] [] = Unit
AllTended now l l' (o ∷ os) (p ∷ ps) = Tended now l l' o p × AllTended now l l' os ps
AllTended now l l' _ _ = ⊥

-- Polls are only added.
abbrev pub Grows : Log → Log → Type 0
Grows l l' = (h : Handle) → polls_of h l ≤ polls_of h l'

AllTended-refl : (now : ℕ) (l l' : Log) (m : List (Handle × Item)) → AllTended now l l' m m
AllTended-refl now l l' [] = tt
AllTended-refl now l l' (o ∷ os) = (inl refl, AllTended-refl now l l' os)

Tended-trans :
    (now : ℕ) (a b c : Log) (o p q : Handle × Item)
    → Grows a b
    → Grows b c
    → p.0 ≡ o.0
    → Tended now a b o p
    → Tended now b c p q
    → Tended now a c o q
Tended-trans now a b c (rk, it) (rk', it') (rk'', it'') f g same (inl e) (inl e') = inl (e' ∙ e)
Tended-trans now a b c (rk, it) (rk', it') (rk'', it'') f g same (inr t) (inl e') =
    inr (ap (λ (i : Item). i.last_poll_ms) e' ∙ t.0, omega (arith, t.1, g rk))
Tended-trans now a b c (rk, it) (rk', it') (rk'', it'') f g same t (inr t') =
    let later : polls_of rk b < polls_of rk c = rw (← same) t'.1 in
    inr (t'.0, omega (arith, later, f rk))

pub AllTended-trans :
    (now : ℕ) (a b c : Log) (os ps qs : List (Handle × Item))
    → Grows a b
    → Grows b c
    → map settings ps ≡ map settings os
    → AllTended now a b os ps
    → AllTended now b c ps qs
    → AllTended now a c os qs
AllTended-trans now a b c [] [] [] f g e t t' = tt
AllTended-trans now a b c [] [] (q ∷ qs) f g e t t' = t'
AllTended-trans now a b c [] (p ∷ ps) qs f g e t t' = elim t [ ]
AllTended-trans now a b c (o ∷ os) [] qs f g e t t' = elim t [ ]
AllTended-trans now a b c (o ∷ os) (p ∷ ps) [] f g e t t' = t'
AllTended-trans now a b c (o ∷ os) (p ∷ ps) (q ∷ qs) f g e t t' = (
  Tended-trans now a b c o p q f g (cc) t.0 t'.0,
  AllTended-trans now a b c os ps qs f g (cc) t.1 t'.1,
)

Tended-weaken :
    (now : ℕ) (a b c d : Log) (o p : Handle × Item)
    → Grows a b
    → Grows c d
    → Tended now b c o p
    → Tended now a d o p
Tended-weaken now a b c d (rk, it) (rk', it') f g (inl e) = inl e
Tended-weaken now a b c d (rk, it) (rk', it') f g (inr t) =
    inr (t.0, omega (arith, t.1, f rk, g rk))

AllTended-weaken :
    (now : ℕ) (a b c : Log) (os ps : List (Handle × Item))
    → Grows a b
    → AllTended now b c os ps
    → AllTended now a c os ps
AllTended-weaken now a b c [] [] f t = tt
AllTended-weaken now a b c [] (p ∷ ps) f t = t
AllTended-weaken now a b c (o ∷ os) [] f t = t
AllTended-weaken now a b c (o ∷ os) (p ∷ ps) f t =
    (Tended-weaken now a b c c o p f (λ h. omega arith) t.0, AllTended-weaken now a b c os ps f t.1)

-- A client that is served is polled.
put-AllTended :
    (now : ℕ) (l l' : Log) (obj : Handle) (it it' : Item) (m : List (Handle × Item))
    → it'.last_poll_ms ≡ now
    → polls_of obj l < polls_of obj l'
    → AllTended now l l' m (put ℕ_discrete obj it' m) ⊎ (find ℕ_discrete obj m ≡ none)
unfolding find put
put-AllTended now l l' obj it it' [] e p = inr refl
put-AllTended now l l' obj it it' ((j, w) ∷ m) e p = elim (ℕ_discrete j obj) [
  | yes same ↦ rw (if_pos _ same) (inl (inr (e, rw same p), AllTended-refl now l l' m))
  | no differs ↦ elim (put-AllTended now l l' obj it it' m e p) [
    | inl rest ↦ rw (if_neg _ differs) (inl (inl refl, rest))
    | inr missing ↦ inr (rw (if_neg _ differs) missing)
  ]
]

-- The thread goes on, and no thread stops it in the loop of a poll.
module _ (k : Kafka) (now : ℕ) (steady : (l : Log) → k.stopping l ≡ false) where
  check_item-Tended :
      (rk : Handle) (it : Item) (l : Log)
      → let r = check_item k true now rk it l in Tended now l r.1 (rk, it) (rk, r.0) × Grows l r.1
  unfolding check_item
  check_item-Tended rk it l =
      elim (Bool-cases (leb it.max_poll_interval_ms (sub64 now it.last_poll_ms))) [
        | inl due ↦
            rw (due, check_item)
              (
                inr (refl, do_poll-lt k rk it.is_consumer l (steady l)),
                λ h. do_poll-le k true rk it.is_consumer h l,
              )
        | inr early ↦ rw (early, check_item) (inl refl, λ h. omega arith)
      ]

  check_items-Tended :
      (objects : List (Handle × Item)) (next : ℕ) (l : Log)
      → let r = check_items k true now next objects l in
        AllTended now l r.1 objects r.0.0 × Grows l r.1
  unfolding check_items
  check_items-Tended [] next l = (tt, λ h. omega arith)
  check_items-Tended ((rk, it) ∷ objects) next l =
      let r = check_item k true now rk it l in
      let next' = min next (add64 r.0.max_poll_interval_ms (sub64 now r.0.last_poll_ms)) in
      let rest = check_items k true now next' objects r.1 in
      let (one, grows) = check_item-Tended rk it l in
      let (others, grows') = check_items-Tended objects next' r.1 in
      (
        (
          Tended-weaken now l l r.1 rest.1 (rk, it) (rk, r.0) (λ h. omega arith) grows' one,
          AllTended-weaken now l r.1 rest.1 objects rest.0.0 grows others,
        ),
        λ h. omega (arith, grows h, grows' h),
      )

  pub objects-Tended :
      (d : Dispatcher) (m : List (Handle × Item)) (l : Log)
      → d.running ≡ true
      → d.objects ≡ m
      → let r = check_objects k now d m l in AllTended now l r.1 m r.0.0.objects × Grows l r.1
  unfolding check_objects
  objects-Tended d [] l on e = rw e (tt, λ h. omega arith)
  objects-Tended d (o ∷ os) l on e = rw on (check_items-Tended (o ∷ os) (u64 - 1) l)

  pub serve-Tended :
      (obj : Handle) (d : Dispatcher) (l : Log)
      → d.running ≡ true
      → let r = serve k now obj d l in
        AllTended now l r.1 d.objects r.0.objects × Grows l r.1 × (r.0.running ≡ true)
  unfolding serve
  serve-Tended obj d l on = elim (Option-cases (find ℕ_discrete obj d.objects)) [
    | inl e ↦ rw (e, serve) (AllTended-refl now l l d.objects, (λ h. omega arith), on)
    | inr (it, e) ↦
        let l' = (do_poll k d.running obj it.is_consumer l).1 in
        let it' = record it { last_poll_ms = now } in
        let polled : polls_of obj l < polls_of obj l' =
          rw on (do_poll-lt k obj it.is_consumer l (steady l)) in
        elim (put-AllTended now l l' obj it it' d.objects refl polled) [
          | inl t ↦ rw (e, serve) (t, (λ h. do_poll-le k d.running obj it.is_consumer h l), on)
          | inr missing ↦ cc
        ]
  ]
