-- ===== src/Dispatcher/Deadlines.antt =====
-- c_src/queuecallbacksdispatcher.cc: after `check_max_poll_interval_ms` no client is overdue.
use exrdkafka.Base.{
  ℕ, ◌<◌, ◌≡◌, refl, List, [], ◌∷◌, Bool, true, false, arith, All, map, inl, inr, Option-cases, min,
  Option, none, some, ℕ_discrete, ap, if_pos, if_neg, ◌∙◌,
}
use mathlib.Core.Path.{ap₂}
use exrdkafka.Rd.{Kafka, Handle, Log}
use exrdkafka.Dispatcher.{
  Dispatcher, Item, u64, add64, sub64, check_item, check_items, check_max_poll_interval_ms, serve,
  process_round, check_objects,
}
use exrdkafka.Dispatcher.Tended.{settings, AllTended, AllTended-trans, objects-Tended, serve-Tended}
use exrdkafka.Base.Assoc.{find, put}

-- The intervals are positive, and times are 64-bit.
abbrev pub IsTimely : Handle × Item → Type 0
IsTimely (rk, it) = (0 < it.max_poll_interval_ms) × (it.last_poll_ms < u64)

-- Less than its interval has passed since the client was last polled.
abbrev pub NotOverdue : ℕ → Handle × Item → Type 0
NotOverdue now (rk, it) = sub64 now it.last_poll_ms < it.max_poll_interval_ms

module _ (k : Kafka) (running : Bool) (now : ℕ) (fits : now < u64) where
  check_item-NotOverdue :
      (rk : Handle) (it : Item) (l : Log)
      → IsTimely (rk, it)
      → let it' = (check_item k running now rk it l).0 in
        NotOverdue now (rk, it') × IsTimely (rk, it') × (settings (rk, it') ≡ settings (rk, it))
  unfolding check_item
  check_item-NotOverdue rk it l t = ground arith

  pub check_items-NotOverdue :
      (objects : List (Handle × Item)) (next : ℕ) (l : Log)
      → All IsTimely objects
      → let objects' = (check_items k running now next objects l).0.0 in
        All (NotOverdue now) objects'
        × All IsTimely objects'
        × (map settings objects' ≡ map settings objects)
  unfolding check_items
  check_items-NotOverdue [] next l t = (tt, tt, refl)
  check_items-NotOverdue ((rk, it) ∷ objects) next l t =
      let r = check_item k running now rk it l in
      let next' = min next (add64 r.0.max_poll_interval_ms (sub64 now r.0.last_poll_ms)) in
      let (due, timely, same) = check_item-NotOverdue rk it l t.0 in
      let (dues, timelies, sames) = check_items-NotOverdue objects next' r.1 t.1 in
      ((due, dues), (timely, timelies), ap₂ (◌∷◌) same sames)

-- No client is overdue, and no client or setting is lost.
abbrev pub Timed : ℕ → List (Handle × Item) → List (Handle × Item) → Type 0
Timed now before after =
    All (NotOverdue now) after × All IsTimely after × (map settings after ≡ map settings before)

found-IsTimely :
    (obj : Handle) (it : Item) (m : List (Handle × Item))
    → find ℕ_discrete obj m ≡ some it
    → All IsTimely m
    → IsTimely (obj, it)
unfolding find
found-IsTimely obj it [] e t = cc
found-IsTimely obj it ((j, w) ∷ m) e t = ground (arith, found-IsTimely obj it m)

-- A client that is served keeps its settings.
put-settings :
    (obj : Handle) (it it' : Item) (m : List (Handle × Item))
    → find ℕ_discrete obj m ≡ some it
    → settings (obj, it') ≡ settings (obj, it)
    → IsTimely (obj, it')
    → All IsTimely m
    → All IsTimely (put ℕ_discrete obj it' m)
      × (map settings (put ℕ_discrete obj it' m) ≡ map settings m)
unfolding find put
put-settings obj it it' [] e s t ts = cc
put-settings obj it it' ((j, w) ∷ m) e s t ts = elim (ℕ_discrete j obj) [
  | yes p ↦ rw (if_pos _ p) ((t, ts.1), ground arith)
  | no p ↦
      let (timely, same) = put-settings obj it it' m (ground arith) s t ts.1 in
      rw (if_neg _ p) ((ts.0, timely), ap (◌∷◌ (settings (j, w))) same)
]

module _ (k : Kafka) (now : ℕ) (fits : now < u64) where
  objects-Timed :
      (d : Dispatcher) (m : List (Handle × Item)) (l : Log)
      → d.objects ≡ m
      → All IsTimely m
      → Timed now m (check_objects k now d m l).0.0.objects
  unfolding check_objects
  objects-Timed d [] l e t = rw e (tt, tt, refl)
  objects-Timed d (o ∷ os) l e t = check_items-NotOverdue k d.running now fits (o ∷ os) _ l t

  check-Timed :
      (d : Dispatcher) (l : Log)
      → All IsTimely d.objects
      → Timed now d.objects (check_max_poll_interval_ms k now d l).0.0.objects
  unfolding check_max_poll_interval_ms
  check-Timed d l t = objects-Timed d d.objects l refl t

  serve-settings :
      (obj : Handle) (d : Dispatcher) (l : Log)
      → All IsTimely d.objects
      → let d' = (serve k now obj d l).0 in
        All IsTimely d'.objects × (map settings d'.objects ≡ map settings d.objects)
  unfolding serve
  serve-settings obj d l t = elim (Option-cases (find ℕ_discrete obj d.objects)) [
    | inl e ↦ rw (e, serve) (t, refl)
    | inr (it, e) ↦
        let old = found-IsTimely obj it d.objects e t in
        rw (e, serve)
          (put-settings obj it (record it { last_poll_ms = now }) d.objects e refl (old.0, fits) t)
  ]

  process_round-Timed :
      (e : Option (Option Handle × List (Option Handle))) (d : Dispatcher) (l : Log)
      → All IsTimely d.objects
      → Timed now d.objects (process_round k now e d l).0.0.objects
  unfolding process_round
  process_round-Timed none d l t = check-Timed d l t
  process_round-Timed (some (none, es)) d l t = check-Timed (record d { events = es }) l t
  process_round-Timed (some (some obj, es)) d l t =
      let r = serve k now obj (record d { events = es }) l in
      let (timely, same) = serve-settings obj (record d { events = es }) l t in
      let (due, timely', same') = check-Timed r.0 r.1 timely in (due, timely', same' ∙ same)

module _ (k : Kafka) (now : ℕ) (fits : now < u64) (steady : (l : Log) → k.stopping l ≡ false) where
  process_round-Tended :
      (e : Option (Option Handle × List (Option Handle))) (d : Dispatcher) (l : Log)
      → d.running ≡ true
      → All IsTimely d.objects
      → let r = process_round k now e d l in AllTended now l r.1 d.objects r.0.0.objects
  unfolding process_round check_max_poll_interval_ms
  process_round-Tended none d l on t = (objects-Tended k now steady d d.objects l on refl).0
  process_round-Tended (some (none, es)) d l on t =
      (objects-Tended k now steady (record d { events = es }) d.objects l on refl).0
  process_round-Tended (some (some obj, es)) d l on t =
      let r = serve k now obj (record d { events = es }) l in
      let (served, grows, on') = serve-Tended k now steady obj (record d { events = es }) l on in
      let (checked, grows') = objects-Tended k now steady r.0 r.0.objects r.1 on' refl in
      let (timely, same) = serve-settings k now fits obj (record d { events = es }) l t in
      AllTended-trans now l r.1 _ d.objects r.0.objects _ grows grows' same served checked

  -- Whatever event a round of the thread takes, or if none comes, while the dispatcher is not being
  -- stopped, the intervals are positive and times fit 64 bits: after the round each watched client was
  -- polled less than its interval ago; it was either left alone, with the time of its last poll, or
  -- librdkafka was asked to poll it in this round and the time is that of the round; and no client or
  -- setting is lost.
  pub process_round-Checked :
      (e : Option (Option Handle × List (Option Handle))) (d : Dispatcher) (l : Log)
      → d.running ≡ true
      → All IsTimely d.objects
      → let r = process_round k now e d l in
        Timed now d.objects r.0.0.objects × AllTended now l r.1 d.objects r.0.0.objects
  process_round-Checked e d l on t =
      (process_round-Timed k now fits e d l t, process_round-Tended e d l on t)
