-- ===== src/Limits/Keys/Valid.antt =====
-- The invariant of the registry and the verdict of a claim, told by the key's state alone.
use bnet_command_center.Base.{
  ℕ, ◌≡◌, refl, inl, inr, Option, none, some, false, List, [], ◌∷◌, if◌then◌else◌, arith,
  ℕ_discrete, Option-cases,
}
use bnet_command_center.Base.Map
use bnet_command_center.Base.Set
use bnet_command_center.Limits.Keys.{
  KeyVerdict, ok, in_use, banned, KeyRegistry, new, ban, unban, is_cooling, claim, release, Event,
  claims, releases, bans, unbans, step, run,
}

-- No key is listed twice, no active key cools, and no active key is banned.
pub record IsValid (r : KeyRegistry) : Type 0 where
  pub active_once : Map.Unique ℕ_discrete r.active
  pub cooling_once : Map.Unique ℕ_discrete r.cooling
  pub apart :
      (k a : ℕ) → Map.get ℕ_discrete k r.active ≡ some a → Map.get ℕ_discrete k r.cooling ≡ none
  pub lawful :
      (k a : ℕ) → Map.get ℕ_discrete k r.active ≡ some a → Set.contains k r.banned_keys ≡ false

-- Who blocks a key at a time: its holder, or the one who released it less than a cooldown ago.
abbrev cooled_by : Option (ℕ × ℕ) → Option ℕ
cooled_by none = none
cooled_by (some (holder, at)) = some holder

abbrev held_by : Option ℕ → Option ℕ → Option ℕ
held_by (some a) other = some a
held_by none other = other

unfoldable pub blocker : KeyRegistry → ℕ → ℕ → Option ℕ
blocker r key now =
    held_by (Map.get ℕ_discrete key r.active)
      (cooled_by (Map.only ℕ_discrete (is_cooling r now) (Map.get ℕ_discrete key r.cooling)))

abbrev pub verdict : Option ℕ → KeyVerdict
verdict none = ok
verdict (some a) = in_use a

-- The verdict on a claim is `banned` for a banned key, names the blocker if there is one, and is
-- `ok` otherwise.
pub claim-blocker :
    (r : KeyRegistry) (key account now : ℕ)
    → IsValid r
    → (claim r key account now).1
      ≡ (if Set.contains key r.banned_keys then banned else verdict (blocker r key now))
unfolding claim blocker
claim-blocker r key account now v =
    ground (arith, Map.get-retain ℕ_discrete (is_cooling r now) key r.cooling v.cooling_once)

module _ (r : KeyRegistry) (v : IsValid r) where
  claim-IsValid : (key account now : ℕ) → IsValid (claim r key account now).0
  unfolding claim
  claim-IsValid key account now =
      let cooled = Map.retain ℕ_discrete (is_cooling r now) r.cooling in
      let once = Map.retain-Unique ℕ_discrete (is_cooling r now) r.cooling v.cooling_once in
      record {
        active_once =
            ground (arith, Map.insert-Unique ℕ_discrete key account r.active v.active_once);
        cooling_once = ground (arith, once, Map.remove-Unique ℕ_discrete key cooled once);
        apart = λ k a. ground (
          arith,
          v.apart k a,
          Map.get-insert ℕ_discrete key k account r.active,
          Map.get-remove ℕ_discrete key k cooled,
          Map.get-retain ℕ_discrete (is_cooling r now) k r.cooling v.cooling_once,
        );
        lawful =
            λ k a. ground (arith, v.lawful k a, Map.get-insert ℕ_discrete key k account r.active);
      }

  release-IsValid : (key now : ℕ) → IsValid (release r key now)
  unfolding release
  release-IsValid key now = record {
    active_once = ground (arith, Map.remove-Unique ℕ_discrete key r.active v.active_once);
    cooling_once = elim (Option-cases (Map.get ℕ_discrete key r.active)) [
      | inl e ↦ rw (e, release) v.cooling_once
      | inr (a, e) ↦
          rw (e, release) (Map.insert-Unique ℕ_discrete key (a, now) r.cooling v.cooling_once)
    ];
    apart = λ k a. elim (Option-cases (Map.get ℕ_discrete key r.active)) [
      | inl e ↦ rw (e, release) (v.apart k a)
      | inr (b, e) ↦
          rw (e, release)
            (ground (
              arith,
              v.apart k a,
              Map.get-remove ℕ_discrete key k r.active,
              Map.get-insert ℕ_discrete key k (b, now) r.cooling,
            ))
    ];
    lawful = λ k a. ground (arith, v.lawful k a, Map.get-remove ℕ_discrete key k r.active);
  }

  ban-IsValid : (key : ℕ) → IsValid (ban r key)
  unfolding ban
  ban-IsValid key = record {
    active_once = Map.remove-Unique ℕ_discrete key r.active v.active_once;
    cooling_once = v.cooling_once;
    apart = λ k a. ground (arith, v.apart k a, Map.get-remove ℕ_discrete key k r.active);
    lawful = λ k a. ground (
      arith,
      v.lawful k a,
      Map.get-remove ℕ_discrete key k r.active,
      Set.contains-insert key k r.banned_keys,
    );
  }

  unban-IsValid : (key : ℕ) → IsValid (unban r key).0
  unfolding unban
  unban-IsValid key = record {
    active_once = v.active_once;
    cooling_once = v.cooling_once;
    apart = v.apart;
    lawful = λ k a. ground (arith, v.lawful k a, Set.contains-remove key k r.banned_keys);
  }

pub step-IsValid : (r : KeyRegistry) (e : Event) → IsValid r → IsValid (step r e)
unfolding step
step-IsValid r (claims key account now) v = claim-IsValid r v key account now
step-IsValid r (releases key now) v = release-IsValid r v key now
step-IsValid r (bans key) v = ban-IsValid r v key
step-IsValid r (unbans key) v = unban-IsValid r v key

pub run-IsValid : (r : KeyRegistry) (es : List Event) → IsValid r → IsValid (run r es)
unfolding run
run-IsValid r [] v = v
run-IsValid r (e ∷ es) v = run-IsValid (step r e) es (step-IsValid r e v)

-- After any history of a new registry no key is listed twice, and a key that a session holds is
-- neither cooling nor banned.
pub keys_run-IsValid : (cooldown : ℕ) (es : List Event) → IsValid (run (new cooldown) es)
unfolding new Map.get
keys_run-IsValid cooldown es =
    run-IsValid (new cooldown) es
      (record { active_once = tt; cooling_once = tt; apart = λ k a h. refl; lawful = λ k a h. cc })
