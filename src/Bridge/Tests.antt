-- ===== src/Bridge/Tests.antt =====
-- A Discord bridge.
use bnet_command_center.Base.{take, [], ◌≡◌, refl, none, some, true, ok, err}
use bnet_command_center.Bridge.{
  BridgeTag, tag_length, tag_characters, new_tag, is_alphanumeric, prefix_len, is_bridged_name,
  name_is_reserved_for_bridges, is_carried, sanitize_remote_name, suffix_text, digits, derive_name,
}
use bnet_command_center.Bridge.Derived.{is_bridged_name-derive_name}
use bnet_command_center.Text.{codes, byte_len, utf8_len, is_digit}

abbrev discord : BridgeTag
discord = record { as_str = codes "D" }

tags :
    (new_tag (codes "D") ≡ ok discord)
    × (new_tag (codes "DISC") ≡ err (tag_length 4))
    × (new_tag (codes "D:") ≡ err tag_characters)
unfolding new_tag is_alphanumeric is_digit byte_len utf8_len
tags = (refl, refl, refl)

names :
    (derive_name discord (codes "al ice é") none ≡ codes "D:alice")
    × (derive_name discord (codes "a-very-long-display-name") (some 12) ≡ codes "D:a-very-lon#12")
    × (derive_name discord [] none ≡ codes "D:user")
unfolding derive_name sanitize_remote_name is_carried is_alphanumeric is_digit suffix_text digits
    prefix_len take byte_len utf8_len
names = (refl, refl, refl)

-- Two remote ids with one fallback name.
one_fallback :
    derive_name discord (codes "123456789012345678") none
    ≡ derive_name discord (codes "123456789012399999") none
unfolding derive_name sanitize_remote_name is_carried is_alphanumeric is_digit suffix_text digits
    prefix_len take byte_len utf8_len
one_fallback = refl

discord_new : new_tag (codes "D") ≡ ok discord
discord_new = tags.0

is_bridged_name-derive_name_example :
    (is_bridged_name (derive_name discord (codes "alice") none) ≡ some discord)
    × (name_is_reserved_for_bridges (derive_name discord (codes "alice") none) ≡ true)
is_bridged_name-derive_name_example =
    is_bridged_name-derive_name (codes "D") discord (codes "alice") none discord_new
