-- ===== src/Storage/Memory/Tests.antt =====
-- The characters of one account.
use bnet_command_center.Base.{◌≡◌, refl, none, List, [], ◌∷◌, map, ℕ_discrete}
use bnet_command_center.Base.Map
use bnet_command_center.Text.{codes, Text-discrete, is_digit, same_text}
use bnet_command_center.Bridge.{is_alphanumeric, name_is_reserved_for_bridges}
use bnet_command_center.Storage.Memory.{
  NewAccount, Character, xsha1, new, create_account, create_character, update_character,
}
use bnet_command_center.Storage.Memory.Calls.{Call, create, make_character, change_character, run}
use bnet_command_center.Storage.Memory.Characters.{HasOwners, run-HasOwners}

abbrev alice : NewAccount
alice = record { name = codes "Alice"; credential = xsha1 []; created_at = 7; attrs = [] }

abbrev zon : Character
zon = record {
  account = 1;
  name = codes "Zon";
  class = 0;
  status = 32;
  level = 1;
  progression = 0;
  created_at = 8;
  last_played = 8;
  save = none;
}

abbrev calls : List Call
calls =
    create alice
    ∷ make_character zon
    ∷ make_character (record zon { name = codes "ZON" })
    ∷ change_character (record zon { level = 9 })
    ∷ []

one_of_a_name : map (λ (c : Character). c.level) (run calls new).characters ≡ 9 ∷ []
unfolding new run create_account create_character update_character Map.get Map.insert Text-discrete
    ℕ_discrete is_alphanumeric is_digit name_is_reserved_for_bridges same_text
one_of_a_name = refl

run-HasOwners_example : HasOwners (run calls new)
unfolding new
run-HasOwners_example = run-HasOwners calls new (tt, tt)
