-- ===== src/Bridge.antt =====
-- Bridged identities (crates/bnetcc-core/src/bridge.rs): tags, and the names that remote users get.
pub mod Suffix
pub mod Derived
pub mod Registry
pub mod Origin
mod Tests
use bnet_command_center.Base.{
  take, ℕ, zero, suc, ◌+◌, ◌-◌, ◌/◌, ◌%◌, Option, none, some, Bool, true, false, not, ◌&&◌, ◌||◌,
  List, [], ◌∷◌, ◌++◌, ltb, leb, ◌==◌, if◌then◌else◌, Result, ok, err, length, is_empty, any, all,
  retain,
}
use bnet_command_center.Text.{Text, codes, byte_len, split_once, is_digit}

abbrev pub separator : ℕ
separator = b':'

abbrev pub max_name : ℕ
max_name = 15

abbrev pub max_tag : ℕ
max_tag = 3

abbrev pub max_hops : ℕ
max_hops = 3

abbrev pub fallback_stem : Text
fallback_stem = codes "user"

pub data BridgeError : Type 0 where
  tag_length : ℕ → BridgeError
  tag_characters empty_remote_id : BridgeError

pub record BridgeTag : Type 0 where
  pub as_str : Text

-- `is_ascii_alphanumeric`. On the bytes of a text it holds of all or fails as on its code points,
-- since every byte of a longer character is 128 or more.
unfoldable pub is_alphanumeric : ℕ → Bool
is_alphanumeric c = is_digit c || (leb b'A' c && leb c b'Z' || leb b'a' c && leb c b'z')

-- `BridgeTag::new`.
unfoldable pub new_tag : Text → Result BridgeTag BridgeError
unfolding is_alphanumeric
new_tag raw =
    if is_empty raw || ltb max_tag (byte_len raw)
    then err (tag_length (byte_len raw))
    else (if all is_alphanumeric raw then ok (record { as_str = raw }) else err tag_characters)

pub prefix_len : BridgeTag → ℕ
prefix_len tag = byte_len tag.as_str + 1

abbrev ok_tag : Result BridgeTag BridgeError → Option BridgeTag
ok_tag (ok tag) = some tag
ok_tag (err e) = none

abbrev tag_of : Option (Text × Text) → Option BridgeTag
tag_of none = none
tag_of (some (tag, rest)) = if is_empty rest then none else ok_tag (new_tag tag)

pub is_bridged_name : Text → Option BridgeTag
unfolding new_tag
is_bridged_name name = tag_of (split_once separator name)

unfoldable pub name_is_reserved_for_bridges : Text → Bool
name_is_reserved_for_bridges name = any (λ c. c == separator) name

-- What a Battle.net name may hold besides letters and digits: `-`, `_`, `[`, `]`.
pub is_carried : ℕ → Bool
unfolding is_alphanumeric
is_carried c = is_alphanumeric c || (c == b'-' || (c == b'_' || (c == b'[' || c == b']')))

abbrev or_fallback : Text → Text
or_fallback cleaned = if is_empty cleaned then fallback_stem else cleaned

pub sanitize_remote_name : Text → Text
unfolding is_carried
sanitize_remote_name display = or_fallback (retain is_carried display)

-- A `u32` in decimals, of which it has ten at most.
digits : ℕ → ℕ → Text
digits zero n = []
digits (suc places) n =
    let rest = digits places (n / 10) in
    if ltb n 10 then (b'0' + n) ∷ [] else rest ++ (b'0' + n % 10) ∷ []

pub suffix_text : Option ℕ → Text
unfolding digits
suffix_text none = []
suffix_text (some n) = b'#' ∷ digits 10 n

-- The suffix is ASCII, so that its bytes are its characters.
pub derive_name : BridgeTag → Text → Option ℕ → Text
unfolding sanitize_remote_name suffix_text prefix_len take
derive_name tag display suffix =
    let stem = sanitize_remote_name display in
    let suffix_str = suffix_text suffix in
    let budget = (max_name - prefix_len tag) - length suffix_str in
    let truncated = take budget stem in
    if is_empty truncated
    then tag.as_str ++ separator ∷ suffix_str
    else tag.as_str ++ separator ∷ (truncated ++ suffix_str)
