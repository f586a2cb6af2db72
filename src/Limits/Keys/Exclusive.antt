-- ===== src/Limits/Keys/Exclusive.antt =====
-- One live session for each CD key, over whole histories, and the cooldown after a release.
use bnet_command_center.Base.{
  ℕ, ◌-◌, ◌∙◌, ◌≡◌, ◌≢◌, some, List, [], ◌∷◌, ltb, if◌then◌else◌, arith, ℕ_discrete, All,
}
use bnet_command_center.Base.Map
use bnet_command_center.Limits.Keys.{
  ok, in_use, KeyRegistry, ban, unban, claim, release, Event, claims, releases, bans, unbans, step,
  run,
}
use bnet_command_center.Limits.Keys.Valid.{
  IsValid, step-IsValid, run-IsValid, claim-blocker, blocker,
}

-- What takes a key from its holder: its release and its ban.
abbrev pub Spares : ℕ → Event → Type 0
Spares key (claims k account now) = Unit {0}
Spares key (releases k now) = k ≢ key
Spares key (bans k) = k ≢ key
Spares key (unbans k) = Unit {0}

abbrev pub Holds : KeyRegistry → ℕ → ℕ → Type 0
Holds r key account = Map.get ℕ_discrete key r.active ≡ some account

step-Holds :
    (r : KeyRegistry) (e : Event) (key account : ℕ)
    → Spares key e
    → Holds r key account
    → Holds (step r e) key account
unfolding step claim release ban unban
step-Holds r (claims k a now) key account s h =
    ground (arith, Map.get-insert ℕ_discrete k key a r.active)
step-Holds r (releases k now) key account s h =
    ground (arith, Map.get-remove ℕ_discrete k key r.active)
step-Holds r (bans k) key account s h = ground (arith, Map.get-remove ℕ_discrete k key r.active)
step-Holds r (unbans k) key account s h = h

run-Holds :
    (r : KeyRegistry) (es : List Event) (key account : ℕ)
    → All (Spares key) es
    → Holds r key account
    → Holds (run r es) key account
unfolding run
run-Holds r [] key account s h = h
run-Holds r (e ∷ es) key account s h =
    run-Holds (step r e) es key account s.1 (step-Holds r e key account s.0 h)

claim-Holds :
    (r : KeyRegistry) (key account now : ℕ)
    → (claim r key account now).1 ≡ ok
    → Holds (claim r key account now).0 key account
unfolding claim
claim-Holds r key account now h = ground (arith, Map.get-insert ℕ_discrete key key account r.active)

claim-held :
    (r : KeyRegistry) (key account other now : ℕ)
    → IsValid r
    → Holds r key account
    → (claim r key other now).1 ≡ in_use account
unfolding claim
claim-held r key account other now v h = ground (arith, v.lawful key account h)

-- One live session for each key: after a session of a valid registry has claimed a key, and
-- whatever happens afterwards other than the key's release and its ban, every further claim of it
-- is refused and names that session's account.
pub claim_excludes :
    (r : KeyRegistry) (key account now : ℕ) (es : List Event) (other later : ℕ)
    → IsValid r
    → (claim r key account now).1 ≡ ok
    → All (Spares key) es
    → (claim (run (claim r key account now).0 es) key other later).1 ≡ in_use account
unfolding step
claim_excludes r key account now es other later v h s =
    let r' = (claim r key account now).0 in
    let v' = run-IsValid r' es (step-IsValid r (claims key account now) v) in
    claim-held (run r' es) key account other later v'
      (run-Holds r' es key account s (claim-Holds r key account now h))

-- After its release at time `at` a key of a valid registry is refused to everybody, in the name of
-- its last holder, for less than the cooldown (counted from zero if the clock runs backwards), and
-- granted from then on.
pub claim-release :
    (r : KeyRegistry) (key account other at now : ℕ)
    → IsValid r
    → Holds r key account
    → (claim (release r key at) key other now).1
      ≡ (if ltb (now - at) r.cooldown_ms then in_use account else ok)
unfolding release blocker step
claim-release r key account other at now v h =
    claim-blocker (release r key at) key other now (step-IsValid r (releases key at) v)
    ∙ ground (
      arith,
      v.lawful key account h,
      Map.get-remove ℕ_discrete key key r.active,
      Map.get-insert ℕ_discrete key key (account, at) r.cooling,
    )
