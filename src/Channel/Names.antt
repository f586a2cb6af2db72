-- ===== src/Channel/Names.antt =====
-- The conventions for channel names (crates/bnetcc-core/src/channel.rs): how a name is classified,
-- who is granted operator by it, and which channels a gateway user may enter.
pub mod Cuts
pub mod Laws
mod Tests
use bnet_command_center.Base.{
  ℕ, ◌+◌, ◌-◌, Option, none, some, Bool, true, false, not, ◌&&◌, ◌||◌, List, [], ◌∷◌, ◌==◌, ltb,
  leb, if◌then◌else◌, is_empty, any,
}
use bnet_command_center.Channel.{OpGrant, never, first_arrival, name_match}
use bnet_command_center.Text.{
  Text, lowercase, text_eq, same_text, trim, starts_with, codes, utf8_len, byte_len,
}

pub data NameKind : Type 0 where
  op_or_clan public private : NameKind

pub classify_lower : Text → NameKind
classify_lower lower =
    if starts_with (codes "op ") lower || starts_with (codes "clan ") lower
    then op_or_clan
    else (if starts_with (codes "public") lower then public else private)

pub classify_name : Text → NameKind
unfolding classify_lower
classify_name display = classify_lower (lowercase (trim display))

-- `(&s[..n], &s[n..])`: a slice that ends inside a character panics, which is `none` here.
abbrev consed : ℕ → Option (Text × Text) → Option (Text × Text)
consed c none = none
consed c (some (s, t)) = some (c ∷ s, t)

pub split_bytes : ℕ → Text → Option (Text × Text)
unfolding utf8_len
split_bytes n [] = if n == 0 then some ([], []) else none
split_bytes n (c ∷ cs) =
    let rest = consed c (split_bytes (n - utf8_len c) cs) in
    if n == 0 then some ([], c ∷ cs) else (if leb (utf8_len c) n then rest else none)

-- A function that may panic, and otherwise gives an optional name.
pub data Named : Type 0 where
  panics unnamed : Named
  named : Text → Named

-- One round of the loop over the prefixes; `otherwise` is the rest of the loop.
abbrev after_prefix : Text → Option (Text × Text) → Named → Named
after_prefix prefix none otherwise = panics
after_prefix prefix (some (head, rest)) otherwise =
    if same_text head prefix && not (is_empty (trim rest)) then named (trim rest) else otherwise

pub try_prefix : Text → Text → Named → Named
unfolding byte_len split_bytes
try_prefix prefix trimmed otherwise =
    if ltb (byte_len prefix) (byte_len trimmed)
    then after_prefix prefix (split_bytes (byte_len prefix) trimmed) otherwise
    else otherwise

pub designated_op_name : Text → Named
unfolding try_prefix
designated_op_name display =
    let trimmed = trim display in
    try_prefix (codes "op ") trimmed (try_prefix (codes "clan ") trimmed unnamed)

abbrev grant_to : Named → Option OpGrant
grant_to panics = none
grant_to unnamed = some never
grant_to (named name) = some (name_match name)

abbrev grant_by_kind : NameKind → Named → Bool → Option OpGrant
grant_by_kind op_or_clan name auto_op_private = grant_to name
grant_by_kind public name auto_op_private = some never
grant_by_kind private name auto_op_private = some (if auto_op_private then first_arrival else never)

-- `none` is a panic.
pub op_grant_for_name : Text → Bool → Option OpGrant
op_grant_for_name display auto_op_private =
    grant_by_kind (classify_name display) (designated_op_name display) auto_op_private

abbrev is_public : NameKind → Bool
is_public public = true
is_public _ = false

pub gateway_may_join : Text → List Text → Bool
gateway_may_join display extra =
    if is_public (classify_name display)
    then true
    else any (λ c. text_eq (lowercase (trim c)) (lowercase (trim display))) extra
