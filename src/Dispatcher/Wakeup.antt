-- ===== src/Dispatcher/Wakeup.antt =====
-- c_src/queuecallbacksdispatcher.cc: the timeout that `check_max_poll_interval_ms` asks for.
use exrdkafka.Base.{
  ℕ, ◌+◌, ◌-◌, ◌*◌, ◌%◌, ◌^◌, ◌<◌, ◌≤◌, ◌≡◌, ◌↔◌, Option, refl, List, [], ◌∷◌, Bool, true, false,
  arith, min, All,
}
use exrdkafka.Base.Int.{pos}
use exrdkafka.Rd.{Kafka, Handle, Log}
use exrdkafka.Dispatcher.{
  Dispatcher, Item, u64, to_int64, add64, sub64, check_item, check_items, check_objects,
  check_max_poll_interval_ms, is_unlimited,
}

sub64-eq-sub : (a b : ℕ) → b ≤ a → a < u64 → sub64 a b ≡ a - b
sub64-eq-sub a b h f = omega arith

-- The timeout in microseconds for a least schedule of `n` ms.
to_timeout :
    (n : ℕ) → n * 1000 < 2 ^ 63 → to_int64 ((min (u64 - 1) n * 1000) % u64) ≡ pos (n * 1000)
to_timeout n small =
    let e : (min (u64 - 1) n * 1000) % u64 ≡ n * 1000 = omega arith in rw e (ground arith)

module _ (k : Kafka) where
  check_item_fresh :
      (running : Bool) (now : ℕ) (rk : Handle) (it : Item) (l : Log)
      → sub64 now it.last_poll_ms < it.max_poll_interval_ms
      → check_item k running now rk it l ≡ (it, l)
  unfolding check_item
  check_item_fresh running now rk it l h = ground arith

  -- One watched client, polled less than its interval ago (the interval is half of its
  -- max.poll.interval.ms): it is not polled, and the thread asks to be woken after the interval plus
  -- the time that has passed since the last poll, not after what is left of the interval.
  pub check-oversleeps :
      (running : Bool) (events : List (Option Handle)) (rk : Handle) (it : Item) (now : ℕ) (l : Log)
      → it.last_poll_ms ≤ now
      → now < u64
      → now - it.last_poll_ms < it.max_poll_interval_ms
      → (it.max_poll_interval_ms + (now - it.last_poll_ms)) * 1000 < 2 ^ 63
      → let d : Dispatcher = record {
        running = running;
        events = events;
        objects = (rk, it) ∷ [];
      } in
        check_max_poll_interval_ms k now d l
        ≡ ((d, pos ((it.max_poll_interval_ms + (now - it.last_poll_ms)) * 1000)), l)
  unfolding check_max_poll_interval_ms check_objects check_items
  check-oversleeps running events rk it now l past fits fresh small =
      let e = sub64-eq-sub now it.last_poll_ms past fits in
      let f = check_item_fresh running now rk it l (omega (arith, e)) in
      let n = it.max_poll_interval_ms + (now - it.last_poll_ms) in
      let g : add64 it.max_poll_interval_ms (sub64 now it.last_poll_ms) ≡ n = omega (arith, e) in
      rw (f, g, to_timeout n small)

-- Twice the interval of a client, in microseconds, fits a signed 64-bit number.
abbrev pub IsShort : Handle × Item → Type 0
IsShort (rk, it) = it.max_poll_interval_ms * 2000 < 2 ^ 63

to_timeout-limited :
    (n : ℕ) → n * 1000 < 2 ^ 63 → is_unlimited (to_int64 ((n * 1000) % u64)) ≡ false
to_timeout-limited n small =
    let e : (n * 1000) % u64 ≡ n * 1000 = omega arith in rw e (ground arith)

module _ (k : Kafka) (running : Bool) (now : ℕ) where
  -- After its check the time since the last poll of a client is within its interval.
  check_item-within :
      (rk : Handle) (it : Item) (l : Log)
      → let it' = (check_item k running now rk it l).0 in
        (sub64 now it'.last_poll_ms ≤ it.max_poll_interval_ms)
        × (it'.max_poll_interval_ms ≡ it.max_poll_interval_ms)
  unfolding check_item
  check_item-within rk it l = ground arith

  check_items-le :
      (objects : List (Handle × Item)) (next : ℕ) (l : Log)
      → (check_items k running now next objects l).0.1 ≤ next
  unfolding check_items
  check_items-le [] next l = omega arith
  check_items-le ((rk, it) ∷ objects) next l =
      let r = check_item k running now rk it l in
      let next' = min next (add64 r.0.max_poll_interval_ms (sub64 now r.0.last_poll_ms)) in
      omega (arith, check_items-le objects next' r.1)

  check_items-short :
      (rk : Handle) (it : Item) (objects : List (Handle × Item)) (next : ℕ) (l : Log)
      → IsShort (rk, it)
      → (check_items k running now next ((rk, it) ∷ objects) l).0.1 * 1000 < 2 ^ 63
  unfolding check_items
  check_items-short rk it objects next l short =
      let r = check_item k running now rk it l in
      let next' = min next (add64 r.0.max_poll_interval_ms (sub64 now r.0.last_poll_ms)) in
      let (within, same) = check_item-within rk it l in
      omega (arith, check_items-le objects next' r.1, within, same)

objects-timeout :
    (k : Kafka) (now : ℕ) (d : Dispatcher) (m : List (Handle × Item)) (l : Log)
    → All IsShort m
    → (is_unlimited (check_objects k now d m l).0.1 ≡ true) ↔ (m ≡ [])
unfolding check_objects
objects-timeout k now d [] l short = (λ _. refl, λ _. refl)
objects-timeout k now d ((rk, it) ∷ os) l short =
    let n = (check_items k d.running now (u64 - 1) ((rk, it) ∷ os) l).0.1 in
    let small = check_items-short k d.running now rk it os (u64 - 1) l short.0 in
    let limited = to_timeout-limited n small in (λ e. cc, λ e. cc)

-- If the interval of each client is short enough that twice as many microseconds fit a signed 64-bit
-- number, the thread waits without limit, which is a negative timeout, exactly when no client is
-- watched.
pub check_unlimited_iff :
    (k : Kafka) (now : ℕ) (d : Dispatcher) (l : Log)
    → All IsShort d.objects
    → (is_unlimited (check_max_poll_interval_ms k now d l).0.1 ≡ true) ↔ (d.objects ≡ [])
unfolding check_max_poll_interval_ms
check_unlimited_iff k now d l short = objects-timeout k now d d.objects l short
