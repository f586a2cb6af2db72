-- ===== src/Limits/Flood/Rate.antt =====
-- What the token bucket promises: no burst or rate beyond the policy gets through, and a sender who
-- keeps to the rate is never stopped.
use bnet_command_center.Base.{
  ℕ, suc, ◌+◌, ◌-◌, ◌*◌, ◌/◌, ◌≤◌, ◌<◌, ◌≡◌, refl, ap, ◌∙◌, ltb, if◌then◌else◌, inl, inr,
  Bool-cases, ◌==◌, List, [], ◌∷◌, length, arith, u64_mod, u32_mod,
}
use bnet_command_center.Policy.{FloodPolicy}
use bnet_command_center.Limits.Flood.{
  FloodVerdict, allow, exceeded, FloodTracker, new, saturating_mul, refill, spend, check, run,
}

-- A tracker within its capacity, which is far from the end of a `u64`.
pub record IsValid (t : FloodTracker) : Type 0 where
  pub within : t.millitokens ≤ t.capacity
  pub small : t.capacity < u32_mod * 1000

pub new-IsValid : (p : FloodPolicy) (now : ℕ) → p.burst < u32_mod → IsValid (new p now)
unfolding new
new-IsValid p now h = omega arith

pub check-IsValid : (t : FloodTracker) (now : ℕ) → IsValid t → IsValid (check t now).0
unfolding check spend refill
check-IsValid t now v = ground arith

-- The number of messages that were let through.
abbrev pub passed : List FloodVerdict → ℕ
passed [] = 0
passed (allow ∷ vs) = suc (passed vs)
passed (exceeded p ∷ vs) = passed vs

-- Refilling adds at most what the rate allows for the time that went by.
refill-gain :
    (t : FloodTracker) (now : ℕ)
    → 10 * (refill t now).millitokens + t.per_10s * t.last_ms
      ≤ 10 * t.millitokens + t.per_10s * (refill t now).last_ms
unfolding refill
refill-gain t now =
    let d = now - t.last_ms in
    elim (Bool-cases (d == 0)) [
      | inl idle ↦ rw (idle, refill) (omega arith)
      | inr busy ↦
          let e : now ≡ t.last_ms + d = ground arith in
          rw (busy, refill) (omega (arith, ap (λ (x : ℕ). t.per_10s * x) e))
    ]

refill_keeps :
    (t : FloodTracker) (now : ℕ)
    → ((refill t now).per_10s ≡ t.per_10s) × ((refill t now).capacity ≡ t.capacity)
unfolding refill
refill_keeps t now = ground arith

-- A message is let through exactly when it is paid for.
spend-paid :
    (t : FloodTracker)
    → 10 * (spend t).0.millitokens + 10000 * passed ((spend t).1 ∷ []) ≡ 10 * t.millitokens
unfolding spend
spend-paid t = ground arith

spend_keeps :
    (t : FloodTracker)
    → ((spend t).0.per_10s ≡ t.per_10s)
      × ((spend t).0.capacity ≡ t.capacity)
      × ((spend t).0.last_ms ≡ t.last_ms)
unfolding spend
spend_keeps t = ground arith

check-paid :
    (t : FloodTracker) (now : ℕ)
    → 10 * (check t now).0.millitokens
        + 10000 * passed ((check t now).1 ∷ [])
        + t.per_10s * t.last_ms
      ≤ 10 * t.millitokens + t.per_10s * (check t now).0.last_ms
unfolding check
check-paid t now =
    let r = refill t now in rw ((spend_keeps r).2) (omega (arith, spend-paid r, refill-gain t now))

check_keeps :
    (t : FloodTracker) (now : ℕ)
    → ((check t now).0.per_10s ≡ t.per_10s) × ((check t now).0.capacity ≡ t.capacity)
unfolding check
check_keeps t now = ground (arith, refill_keeps t now, spend_keeps (refill t now))

check-within :
    (t : FloodTracker) (now : ℕ)
    → t.millitokens ≤ t.capacity
    → (check t now).0.millitokens ≤ (check t now).0.capacity
unfolding check spend refill
check-within t now h = ground arith

check-last :
    (t : FloodTracker) (now : ℕ)
    → (check t now).0.last_ms ≡ (if ltb t.last_ms now then now else t.last_ms)
unfolding check spend refill
check-last t now = ground arith

run-capacity : (t : FloodTracker) (times : List ℕ) → (run t times).0.capacity ≡ t.capacity
unfolding run
run-capacity t [] = refl
run-capacity t (now ∷ times) = run-capacity (check t now).0 times ∙ (check_keeps t now).1

passed-cons :
    (v : FloodVerdict) (vs : List FloodVerdict) → passed (v ∷ vs) ≡ passed (v ∷ []) + passed vs
passed-cons allow vs = omega arith
passed-cons (exceeded p) vs = omega arith

run-paid :
    (t : FloodTracker) (times : List ℕ)
    → 10 * (run t times).0.millitokens + 10000 * passed (run t times).1 + t.per_10s * t.last_ms
      ≤ 10 * t.millitokens + t.per_10s * (run t times).0.last_ms
unfolding run
run-paid t [] = omega arith
run-paid t (now ∷ times) =
    let t' = (check t now).0 in
    let rate = (check_keeps t now).0 in
    omega (
      arith,
      check-paid t now,
      rw rate at (run-paid t' times),
      passed-cons (check t now).1 (run t' times).1,
    )

-- The latest time of a connection.
abbrev pub latest : ℕ → List ℕ → ℕ
latest last [] = last
latest last (now ∷ times) = latest (if ltb last now then now else last) times

-- The bucket is never over its capacity, and knows the latest time.
run-within :
    (t : FloodTracker) (times : List ℕ)
    → t.millitokens ≤ t.capacity
    → let t' = (run t times).0 in
      (t'.millitokens ≤ t.capacity)
      × (t'.per_10s ≡ t.per_10s)
      × (t'.last_ms ≡ latest t.last_ms times)
unfolding run
run-within t [] h = (h, refl, refl)
run-within t (now ∷ times) h =
    let t' = (check t now).0 in
    let (rate, cap) = check_keeps t now in
    let ih = run-within t' times (check-within t now h) in
    (rw cap at ih.0, ih.1 ∙ rate, ih.2 ∙ ap (λ (l : ℕ). latest l times) (check-last t now))

-- In any stretch of a connection, whatever came before it and at whatever times and in whatever order
-- the clock gives, the burst and the sustained rate bound how many messages pass: ten thousand times
-- their number is at most ten thousand times the burst plus the rate for ten seconds times the
-- milliseconds by which the latest time moves on in the stretch.
pub passed-run-le :
    (p : FloodPolicy) (start : ℕ) (history times : List ℕ)
    → let t = (run (new p start) history).0 in
      10000 * passed (run t times).1 + p.messages_per_10s * latest start history
      ≤ 10000 * p.burst + p.messages_per_10s * latest (latest start history) times
unfolding new
passed-run-le p start history times =
    let t = (run (new p start) history).0 in
    let (within, rate, last) = run-within (new p start) history (omega arith) in
    let (_, _, last') = run-within t times (rw (run-capacity (new p start) history) within) in
    let paid = run-paid t times in omega (arith, within, rw (rate, last', last) at paid)

-- Two messages in a row are as far apart as the rate asks, and the clock does not run backwards.
abbrev pub Spaced : ℕ → ℕ → List ℕ → Type 0
Spaced rate last [] = Unit {0}
Spaced rate last (now ∷ times) = (10000 ≤ rate * (now - last)) × Spaced rate now times

-- After a wait that the rate asks for, refilling leaves a message's worth in the bucket.
refill-enough :
    (t : FloodTracker) (now : ℕ)
    → IsValid t
    → 1000 ≤ t.capacity
    → 10000 ≤ t.per_10s * (now - t.last_ms)
    → (1000 ≤ (refill t now).millitokens) × ((refill t now).last_ms ≡ now)
unfolding refill
refill-enough t now v h k =
    let d = now - t.last_ms in
    elim (Bool-cases (d == 0)) [
      | inl idle ↦
          let e : d ≡ 0 = ground arith in absurd (omega (arith, ap (λ (x : ℕ). t.per_10s * x) e))
      | inr busy ↦ rw (busy, refill) (omega arith)
    ]

check-allow :
    (t : FloodTracker) (now : ℕ)
    → IsValid t
    → 1000 ≤ t.capacity
    → 10000 ≤ t.per_10s * (now - t.last_ms)
    → ((check t now).1 ≡ allow) × ((check t now).0.last_ms ≡ now)
unfolding check spend
check-allow t now v h k = ground (arith, refill-enough t now v h k)

run-Spaced :
    (t : FloodTracker) (times : List ℕ)
    → IsValid t
    → 1000 ≤ t.capacity
    → Spaced t.per_10s t.last_ms times
    → passed (run t times).1 ≡ length times
unfolding run
run-Spaced t [] v h s = refl
run-Spaced t (now ∷ times) v h s =
    let t' = (check t now).0 in
    let (goes, last) = check-allow t now v h s.0 in
    let (rate, cap) = check_keeps t now in
    let rest : Spaced t'.per_10s t'.last_ms times = rw (rate, last) s.1 in
    let ih = run-Spaced t' times (check-IsValid t now v) (rw cap h) rest in rw goes (ap suc ih)

-- A sender whose messages are at least as far apart as the sustained rate asks is never stopped,
-- if the policy allows a burst of one: every message passes.
pub passed-run_of_Spaced :
    (p : FloodPolicy) (start : ℕ) (times : List ℕ)
    → p.burst < u32_mod
    → 1 ≤ p.burst
    → Spaced p.messages_per_10s start times
    → passed (run (new p start) times).1 ≡ length times
unfolding new
passed-run_of_Spaced p start times small burst s =
    run-Spaced (new p start) times (new-IsValid p start small) (omega arith) s

-- The tracker never leaves its capacity, so that the sum of `refill` never wraps around, and it
-- counts every message that it stops.
pub check_lem :
    (t : FloodTracker) (now : ℕ)
    → IsValid t
    → IsValid (check t now).0
      × (t.millitokens + saturating_mul (now - t.last_ms) t.per_10s / 10 < u64_mod)
      × ((check t now).0.suppressed + passed ((check t now).1 ∷ []) ≡ t.suppressed + 1)
unfolding check refill spend
check_lem t now v = (check-IsValid t now v, omega arith, ground arith)
