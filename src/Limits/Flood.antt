-- ===== src/Limits/Flood.antt =====
-- `FloodTracker` (crates/bnetcc-core/src/limits.rs): a token bucket over a clock that the caller
-- gives. Its numbers are `u64`; the sum of `refill` is written with its wrap-around.
pub mod Rate
mod Tests
use bnet_command_center.Base.{
  ℕ, suc, ◌+◌, ◌-◌, ◌*◌, ◌/◌, ◌%◌, min, Bool, List, [], ◌∷◌, leb, ◌==◌, if◌then◌else◌, u64_mod,
}
use bnet_command_center.Policy.{FloodPenalty, FloodPolicy}

pub data FloodVerdict : Type 0 where
  allow : FloodVerdict
  exceeded : FloodPenalty → FloodVerdict

pub record FloodTracker : Type 0 where
  pub millitokens : ℕ
  pub capacity : ℕ
  pub per_10s : ℕ
  pub last_ms : ℕ
  pub penalty : FloodPenalty
  pub suppressed : ℕ

pub new : FloodPolicy → ℕ → FloodTracker
new policy now = record {
  millitokens = policy.burst * 1000;
  capacity = policy.burst * 1000;
  per_10s = policy.messages_per_10s;
  last_ms = now;
  penalty = policy.penalty;
  suppressed = 0;
}

-- `u64::saturating_mul`.
pub saturating_mul : ℕ → ℕ → ℕ
saturating_mul a b = min (a * b) (u64_mod - 1)

-- `now - last_ms` is `saturating_sub`, and a clock that stands or runs backwards gives nothing.
pub refill : FloodTracker → ℕ → FloodTracker
unfolding saturating_mul
refill t now =
    let elapsed = now - t.last_ms in
    if elapsed == 0 then t else (record t {
      last_ms = now;
      millitokens =
          min ((t.millitokens + saturating_mul elapsed t.per_10s / 10) % u64_mod) t.capacity;
    })

-- One message, on a bucket that is refilled.
spend : FloodTracker → FloodTracker × FloodVerdict
spend t =
    if leb 1000 t.millitokens
    then (record t { millitokens = t.millitokens - 1000 }, allow)
    else (record t { suppressed = t.suppressed + 1 }, exceeded t.penalty)

pub check : FloodTracker → ℕ → FloodTracker × FloodVerdict
check t now = spend (refill t now)

-- The messages of a connection, by the times at which they come in: the tracker afterwards, and
-- the verdicts in order.
pub run : FloodTracker → List ℕ → FloodTracker × List FloodVerdict
run t [] = (t, [])
run t (now ∷ times) =
    let (t', verdict) = check t now in
    let (t'', verdicts) = run t' times in (t'', verdict ∷ verdicts)
