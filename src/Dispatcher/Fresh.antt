-- ===== src/Dispatcher/Fresh.antt =====
-- c_src/queuecallbacksdispatcher.cc: no client is entered twice.
use exrdkafka.Base.{
  ℕ, ◌≡◌, refl, ap, ◌⊎◌, ◌++◌, List, [], ◌∷◌, Bool, Option, none, some, arith, inl, inr, min,
  Option-cases, ℕ_discrete, ◌-◌, ◌/◌,
}
use exrdkafka.Base.Assoc.{find, Fresh, put-Fresh, erase-Fresh, put}
use exrdkafka.Base.Text.{codes, stoull}
use exrdkafka.Rd.{Kafka, Handle, Log}
use exrdkafka.Dispatcher.{
  Dispatcher, Item, add64, sub64, u64, watch, remove, check_item, check_items, check_objects,
  check_max_poll_interval_ms, serve, process_round,
}

abbrev IsFresh : Dispatcher → Type 0
IsFresh d = Fresh ℕ_discrete d.objects

-- The clients of a map, in its order.
abbrev keys : List (Handle × Item) → List Handle
keys [] = []
keys ((rk, it) ∷ m) = rk ∷ keys m

find-keys :
    (rk : Handle) (m m' : List (Handle × Item))
    → keys m' ≡ keys m
    → find ℕ_discrete rk m ≡ none
    → find ℕ_discrete rk m' ≡ none
unfolding find
find-keys rk [] [] e f = refl
find-keys rk [] ((j, w) ∷ m') e f = absurd (cc e)
find-keys rk ((i, v) ∷ m) [] e f = absurd (cc e)
find-keys rk ((i, v) ∷ m) ((j, w) ∷ m') e f =
    let same : j ≡ i = cc e in
    let rest : keys m' ≡ keys m = cc e in ground (arith, same, f, find-keys rk m m' rest)

Fresh-keys :
    (m m' : List (Handle × Item)) → keys m' ≡ keys m → Fresh ℕ_discrete m → Fresh ℕ_discrete m'
Fresh-keys m [] e f = tt
Fresh-keys [] ((j, w) ∷ m') e f = absurd (cc e)
Fresh-keys ((i, v) ∷ m) ((j, w) ∷ m') e f =
    let same : j ≡ i = cc e in
    let rest : keys m' ≡ keys m = cc e in
    (find-keys j m m' rest (rw same f.0), Fresh-keys m m' rest f.1)

-- The dispatcher after `watch`.
abbrev pub watching : Handle → Item → Dispatcher → Dispatcher
watching rk it d = record d {
  objects = put ℕ_discrete rk it d.objects;
  events = d.events ++ none ∷ [];
}

module _ (k : Kafka) where
  pub remove-Fresh :
      (rk : Handle) (d : Dispatcher) (l : Log) → IsFresh d → IsFresh (remove k rk d l).0.0
  unfolding remove
  remove-Fresh rk d l f = elim (Option-cases (find ℕ_discrete rk d.objects)) [
    | inl e ↦ rw (e, remove) f
    | inr (it, e) ↦ rw (e, remove) (erase-Fresh ℕ_discrete rk d.objects f)
  ]

  -- `watch` ends the process, or makes an entry.
  pub watch-cases :
      (rk : Handle) (is_consumer : Bool) (now : ℕ) (d : Dispatcher) (l : Log)
      → ((watch k rk is_consumer now d l).0 ≡ none)
        ⊎ ((it : Item) × ((watch k rk is_consumer now d l).0 ≡ some (watching rk it d)))
  unfolding watch
  watch-cases rk is_consumer now d l =
      elim (Option-cases (stoull (k.conf_get_answer l rk (codes "max.poll.interval.ms")))) [
        | inl f ↦ inl (rw (f, watch) refl)
        | inr (ms, f) ↦
            let it : Item = record {
              is_consumer = is_consumer;
              max_poll_interval_ms = ms / 2;
              last_poll_ms = now;
            } in
            inr (it, rw (f, watch) refl)
      ]

  keys-check_items :
      (running : Bool) (now next : ℕ) (m : List (Handle × Item)) (l : Log)
      → keys (check_items k running now next m l).0.0 ≡ keys m
  unfolding check_items
  keys-check_items running now next [] l = refl
  keys-check_items running now next ((rk, it) ∷ m) l =
      let r = check_item k running now rk it l in
      let next' = min next (add64 r.0.max_poll_interval_ms (sub64 now r.0.last_poll_ms)) in
      ap (◌∷◌ rk) (keys-check_items running now next' m r.1)

  objects-Fresh :
      (now : ℕ) (d : Dispatcher) (m : List (Handle × Item)) (l : Log)
      → d.objects ≡ m
      → Fresh ℕ_discrete m
      → IsFresh (check_objects k now d m l).0.0
  unfolding check_objects
  objects-Fresh now d [] l e f = rw e f
  objects-Fresh now d (o ∷ os) l e f =
      Fresh-keys (o ∷ os) _ (keys-check_items d.running now (u64 - 1) (o ∷ os) l) f

  check-Fresh :
      (now : ℕ) (d : Dispatcher) (l : Log)
      → IsFresh d
      → IsFresh (check_max_poll_interval_ms k now d l).0.0
  unfolding check_max_poll_interval_ms
  check-Fresh now d l f = objects-Fresh now d d.objects l refl f

  pub process_round-Fresh :
      (now : ℕ) (e : Option (Option Handle × List (Option Handle))) (d : Dispatcher) (l : Log)
      → IsFresh d
      → IsFresh (process_round k now e d l).0.0
  unfolding process_round serve
  process_round-Fresh now none d l f = check-Fresh now d l f
  process_round-Fresh now (some (none, es)) d l f = check-Fresh now (record d { events = es }) l f
  process_round-Fresh now (some (some obj, es)) d l f =
      elim (Option-cases (find ℕ_discrete obj d.objects)) [
        | inl e ↦ rw (e, process_round, serve) (check-Fresh now (record d { events = es }) l f)
        | inr (it, e) ↦
            rw (e, process_round, serve)
              (check-Fresh now _ _ (put-Fresh ℕ_discrete obj _ d.objects f))
      ]
