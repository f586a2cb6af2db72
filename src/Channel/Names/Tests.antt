-- ===== src/Channel/Names/Tests.antt =====
-- Concrete channel names.
use bnet_command_center.Base.{[], ◌∷◌, ◌≡◌, refl, some, true, false}
use bnet_command_center.Text.{
  codes, byte_len, utf8_len, to_lower, lowercase, text_eq, same_text, is_whitespace, trim_start,
  trim, starts_with,
}
use bnet_command_center.Channel.{never, first_arrival, name_match}
use bnet_command_center.Channel.Names.{
  split_bytes, try_prefix, classify_lower, classify_name, designated_op_name, op_grant_for_name,
  gateway_may_join,
}

program : Unit {0}
unfolding to_lower lowercase text_eq same_text is_whitespace trim_start trim starts_with byte_len
    utf8_len split_bytes try_prefix classify_lower classify_name designated_op_name
    op_grant_for_name gateway_may_join
program = tt

grants_by_name :
    (op_grant_for_name (codes "Op  Ann ") true ≡ some (name_match (codes "Ann")))
    × (op_grant_for_name (codes "clan  x") true ≡ some (name_match (codes "x")))
    × (op_grant_for_name (codes "Public Chat") true ≡ some never)
    × (op_grant_for_name (codes "Den") true ≡ some first_arrival)
unfolding program
grants_by_name = (refl, refl, refl, refl)

gateway_rooms :
    (gateway_may_join (codes "Public 1") [] ≡ true)
    × (gateway_may_join (codes "Den") [] ≡ false)
    × (gateway_may_join (codes "den ") (codes "Den" ∷ []) ≡ true)
unfolding program
gateway_rooms = (refl, refl, refl)
