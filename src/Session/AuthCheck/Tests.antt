-- ===== src/Session/AuthCheck/Tests.antt =====
-- Concrete SID_AUTH_CHECK frames.
use bnet_command_center.Base.{
  ℕ, [], ◌∷◌, ◌≡◌, ◌≢◌, refl, none, some, Bool, true, false, leb, arith, ℕ_discrete,
}
use bnet_command_center.Base.Map
use bnet_command_center.Base.Set
use bnet_command_center.Limits.Keys
use bnet_command_center.Limits.Keys.{KeyRegistry, KeyVerdict}
use bnet_command_center.Session.{versioning, authenticating, Session}
use bnet_command_center.Session.AuthCheck.{
  answered, passed, old_version, release_all, claim_keys, version_allowed, receive_auth_check,
  auth_check_old_version,
}
use bnet_command_center.Session.AuthCheck.Claims.{holder, claim_keys-refused}

program : Unit {0}
unfolding ℕ_discrete Map.get Map.insert Map.remove Map.retain Set.contains Keys.new Keys.claim
    Keys.release release_all answered claim_keys version_allowed
program = tt

-- Key 7 is held by account 5, and the others are free.
abbrev busy : KeyRegistry
busy = (Keys.claim (Keys.new 1000) 7 5 100).0

second_held : (claim_keys busy 200 [] 0 (6 ∷ 7 ∷ [])).1 ≡ 0x211
unfolding program
second_held = refl

claim_keys-refused_example : holder (claim_keys busy 200 [] 0 (6 ∷ 7 ∷ [])).0 6 ≡ holder busy 6
claim_keys-refused_example = claim_keys-refused busy 200 (6 ∷ 7 ∷ []) 6 refused
  where
    refused : (claim_keys busy 200 [] 0 (6 ∷ 7 ∷ [])).1 ≢ passed
    refused e = unfold program in omega (arith, e)

    among : Set.contains 8 (6 ∷ 8 ∷ []) ≡ true
    among = unfold program in refl

abbrev awaiting : Session
awaiting = record { state = versioning; account = none }

-- A policy that allows versions from 10 on.
abbrev from_ten : ℕ → Bool
from_ten = leb 10

auth_check_old_version_example :
    let (s', r', status, claimed') =
      receive_auth_check from_ten true awaiting busy [] (some 9) (some (6 ∷ [])) 200 true in
    (status ≡ old_version) × (r' ≡ busy) × (claimed' ≡ []) × (s'.state ≡ authenticating)
auth_check_old_version_example =
    auth_check_old_version from_ten true awaiting busy [] (some 9) (some (6 ∷ [])) 200 refl too_old
  where
    too_old : version_allowed from_ten true (some 9) ≡ false
    too_old = unfold program in refl

    taken : (Keys.claim busy 7 0 200).1 ≡ KeyVerdict.in_use 5
    taken = unfold program in refl
