-- ===== src/Limits/Keys/Tests.antt =====
-- A registry of CD keys on concrete events.
use bnet_command_center.Base.{List, [], ◌∷◌, ◌≡◌, refl, ℕ_discrete, arith}
use bnet_command_center.Base.Map
use bnet_command_center.Base.Set
use bnet_command_center.Limits.Keys.{
  ok, in_use, banned, KeyRegistry, new, ban, unban, claim, release, Event, claims, releases, bans,
  unbans, step, run,
}
use bnet_command_center.Limits.Keys.Valid.{IsValid, keys_run-IsValid}
use bnet_command_center.Limits.Keys.Exclusive.{claim_excludes, Holds}

program : Unit {0}
unfolding ℕ_discrete Map.get Map.insert Map.remove Map.retain Set.contains Set.insert Set.remove new
    ban unban claim release step run
program = tt

-- Key 7 is taken by account 1, key 8 is banned, and key 9 was released at 500.
abbrev history : List Event
history = claims 7 1 100 ∷ bans 8 ∷ claims 9 3 200 ∷ releases 9 500 ∷ []

abbrev busy : KeyRegistry
busy = run (new 1000) history

busy-IsValid : IsValid busy
busy-IsValid = keys_run-IsValid 1000 history

verdicts :
    ((claim busy 7 2 600).1 ≡ in_use 1)
    × ((claim busy 8 2 600).1 ≡ banned)
    × ((claim busy 9 2 600).1 ≡ in_use 3)
    × ((claim busy 9 2 1500).1 ≡ ok)
unfolding program
verdicts = (refl, refl, refl, refl)

granted : (claim busy 5 4 600).1 ≡ ok
unfolding program
granted = refl

held : Holds busy 7 1
unfolding program
held = refl

claim_excludes_example :
    (claim
      (run (claim busy 5 4 600).0 (claims 5 6 650 ∷ releases 7 700 ∷ unbans 5 ∷ []))
      5
      6
      9000).1
    ≡ in_use 4
claim_excludes_example =
    claim_excludes busy 5 4 600 (claims 5 6 650 ∷ releases 7 700 ∷ unbans 5 ∷ []) 6 9000
      busy-IsValid granted (tt, (λ e. omega (arith, e), (tt, tt)))
