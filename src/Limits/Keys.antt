-- ===== src/Limits/Keys.antt =====
-- `KeyRegistry` (crates/bnetcc-core/src/limits.rs): one live session for each CD key, with a
-- cooldown after release, and bans. A `KeyId` of twenty bytes is a number; times are milliseconds.
pub mod Valid
pub mod Exclusive
mod Tests
use bnet_command_center.Base.{
  ℕ, ◌-◌, Option, none, some, Bool, List, [], ◌∷◌, length, ltb, if◌then◌else◌, ℕ_discrete,
}
use bnet_command_center.Base.Map
use bnet_command_center.Base.Set

pub data KeyVerdict : Type 0 where
  ok : KeyVerdict
  in_use : ℕ → KeyVerdict
  banned : KeyVerdict

pub record KeyRegistry : Type 0 where
  pub active : List (ℕ × ℕ)
  pub cooling : List (ℕ × (ℕ × ℕ))
  pub banned_keys : List ℕ
  pub cooldown_ms : ℕ

unfoldable pub new : ℕ → KeyRegistry
new cooldown = record { active = []; cooling = []; banned_keys = []; cooldown_ms = cooldown }

pub ban : KeyRegistry → ℕ → KeyRegistry
ban r key = record r {
  banned_keys = Set.insert key r.banned_keys;
  active = Map.remove ℕ_discrete key r.active;
}

pub unban : KeyRegistry → ℕ → KeyRegistry × Bool
unban r key =
    (record r { banned_keys = Set.remove key r.banned_keys }, Set.contains key r.banned_keys)

-- Whether a released key still cools: `now` may lie before the release, as clocks do.
abbrev pub is_cooling : KeyRegistry → ℕ → ℕ × ℕ → Bool
is_cooling r now (holder, at) = ltb (now - at) r.cooldown_ms

abbrev pub take_key : KeyRegistry → ℕ → ℕ → KeyRegistry × KeyVerdict
take_key r key account = (
  record r {
    cooling = Map.remove ℕ_discrete key r.cooling;
    active = Map.insert ℕ_discrete key account r.active;
  },
  ok,
)

-- `claim` on a key that is neither banned nor active; `r` is the registry with the stale entries
-- gone.
abbrev pub claim_cooled : KeyRegistry → ℕ → ℕ → ℕ → Option (ℕ × ℕ) → KeyRegistry × KeyVerdict
claim_cooled r key account now none = take_key r key account
claim_cooled r key account now (some (holder, at)) =
    if ltb (now - at) r.cooldown_ms then (r, in_use holder) else take_key r key account

abbrev pub claim_inactive : KeyRegistry → ℕ → ℕ → ℕ → Option ℕ → KeyRegistry × KeyVerdict
claim_inactive r key account now (some holder) = (r, in_use holder)
claim_inactive r key account now none =
    let r' = record r { cooling = Map.retain ℕ_discrete (is_cooling r now) r.cooling } in
    claim_cooled r' key account now (Map.get ℕ_discrete key r'.cooling)

unfoldable pub claim : KeyRegistry → ℕ → ℕ → ℕ → KeyRegistry × KeyVerdict
claim r key account now =
    if Set.contains key r.banned_keys
    then (r, banned)
    else claim_inactive r key account now (Map.get ℕ_discrete key r.active)

abbrev pub release_held : KeyRegistry → ℕ → ℕ → Option ℕ → KeyRegistry
release_held r key now none = r
release_held r key now (some holder) = record r {
  active = Map.remove ℕ_discrete key r.active;
  cooling = Map.insert ℕ_discrete key (holder, now) r.cooling;
}

unfoldable pub release : KeyRegistry → ℕ → ℕ → KeyRegistry
release r key now = release_held r key now (Map.get ℕ_discrete key r.active)

-- What may happen to a registry; the last number of a claim or release is the time.
pub data Event : Type 0 where
  claims : ℕ → ℕ → ℕ → Event
  releases : ℕ → ℕ → Event
  bans unbans : ℕ → Event

pub step : KeyRegistry → Event → KeyRegistry
step r (claims key account now) = (claim r key account now).0
step r (releases key now) = release r key now
step r (bans key) = ban r key
step r (unbans key) = (unban r key).0

pub run : KeyRegistry → List Event → KeyRegistry
run r [] = r
run r (e ∷ es) = run (step r e) es
