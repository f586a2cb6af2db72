-- ===== src/Bridge/Registry/Tests.antt =====
-- The users of a Discord bridge.
use bnet_command_center.Base.{take, List, [], ◌∷◌, ◌≡◌, refl, some, true, arith, ℕ_discrete}
use bnet_command_center.Base.Map
use bnet_command_center.Bridge.{
  BridgeTag, is_alphanumeric, prefix_len, is_carried, sanitize_remote_name, suffix_text, digits,
  derive_name,
}
use bnet_command_center.Bridge.Registry.{
  BridgedUser, BridgeRegistry, new, by_remote_id, by_name, is_free, try_suffixes, allocate_name,
  upsert, remove, Report, upserts, step, run,
}
use bnet_command_center.Bridge.Registry.Allocate.{IsFirstFree, Entered, upsert-suffix}
use bnet_command_center.Bridge.Registry.Stable.{account_of, run-account}
use bnet_command_center.Bridge.Registry.Valid.{IsValid, new-IsValid}
use bnet_command_center.Text.{
  Text-discrete, codes, lowercase, to_lower, text_eq, byte_len, utf8_len, is_digit,
}

abbrev discord : BridgeTag
discord = record { as_str = codes "D" }

program : Unit {0}
unfolding ℕ_discrete Map.get Map.insert Map.remove Text-discrete lowercase to_lower text_eq new
    by_remote_id by_name is_free try_suffixes allocate_name upsert remove step run derive_name
    sanitize_remote_name is_carried is_alphanumeric is_digit suffix_text digits prefix_len take
    byte_len utf8_len
program = tt

abbrev guild : BridgeRegistry
guild = run (new discord) (upserts (codes "u1") (codes "Alice") 7 ∷ [])

alice : account_of guild (codes "u1") ≡ some 7
unfolding program
alice = refl

abbrev reports : List Report
reports = upserts (codes "u2") (codes "alice") 8 ∷ upserts (codes "u1") (codes "Mallory") 9 ∷ []

reported :
    (by_name (run guild reports) (codes "d:MALLORY")
      ≡ some (record { account = 7; remote_id = codes "u1"; name = codes "D:Mallory" }))
    × (by_name (run guild reports) (codes "D:alice#2")
        ≡ some (record { account = 8; remote_id = codes "u2"; name = codes "D:alice#2" }))
unfolding program
reported = (refl, refl)

run-account_example : account_of (run guild reports) (codes "u1") ≡ some 7
run-account_example = run-account guild reports (codes "u1") 7 (tt, (tt, tt)) alice

guild-IsValid : IsValid guild
unfolding program
guild-IsValid =
    (upsert-suffix (new discord) (codes "u1") (codes "Alice") 7 2 (new-IsValid discord) refl
      (omega arith) (omega arith) refl).4

-- Alice is Mallory from now on.
upsert-suffix_example :
    (u : BridgedUser) × IsFirstFree guild (codes "u1") (codes "Mallory") u.name
    × Entered guild (codes "u1") 9 u (upsert guild (codes "u1") (codes "Mallory") 9)
    × (by_name (upsert guild (codes "u1") (codes "Mallory") 9).0 u.name ≡ some u)
    × IsValid (upsert guild (codes "u1") (codes "Mallory") 9).0
upsert-suffix_example =
    upsert-suffix guild (codes "u1") (codes "Mallory") 9 2 guild-IsValid refl (omega arith)
      (omega arith) two_free
  where
    two_free : is_free guild (codes "u1") (derive_name guild.tag (codes "Mallory") (some 2)) ≡ true
    two_free = unfold program in refl
