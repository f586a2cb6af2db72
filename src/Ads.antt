-- ===== src/Ads.antt =====
-- Advertisement banners (crates/bnetcc-core/src/ads.rs): which one a client is shown next. The cursor
-- is the identifier that the client sends, so the node keeps no state.
pub mod Rotation
mod Tests
use bnet_command_center.Base.{
  ℕ, zero, suc, ◌+◌, ◌-◌, ◌%◌, ◌≡◌, Option, none, some, Bool, true, false, ◌&&◌, ◌||◌, List, [],
  ◌∷◌, length, is_empty, retain, find, ltb, ◌==◌, if◌then◌else◌, u32_mod,
}
use bnet_command_center.Text.{Text, codes}
use bnet_command_center.Wire.Number.{from_ascii}

-- `product` and `language` restrict the banner, where they are given.
pub record AdBanner : Type 0 where
  pub id : ℕ
  pub filename : Text
  pub url : Text
  pub product : Option ℕ
  pub language : Option ℕ

abbrev pub product_matches : Option ℕ → ℕ → Bool
product_matches none product = true
product_matches (some want) product = want == product

abbrev pub language_matches : Option ℕ → Option ℕ → Bool
language_matches none language = true
language_matches (some want) (some got) = want == got
language_matches (some want) none = false

unfoldable pub matches : AdBanner → ℕ → Option ℕ → Bool
matches b product language =
    product_matches b.product product && language_matches b.language language

-- The banners of an `AdRotation`.
abbrev pub AdRotation : Type 0
AdRotation = List AdBanner

abbrev pub with_id : ℕ → AdBanner → AdBanner
with_id i b = record {
  id = i;
  filename = b.filename;
  url = b.url;
  product = b.product;
  language = b.language;
}

-- The identifiers follow on `i`, on u32.
unfoldable pub number_from : ℕ → List AdBanner → List AdBanner
number_from i [] = []
number_from i (b ∷ banners) = with_id ((i + 1) % u32_mod) b ∷ number_from (i + 1) banners

unfoldable pub new : List AdBanner → AdRotation
unfolding number_from
new banners = number_from 0 banners

unfoldable pub by_id : AdRotation → ℕ → Option AdBanner
by_id r id = find (λ b. b.id == id) r

-- The element of an index, which is in range wherever the code reads one.
abbrev pub nth : List AdBanner → ℕ → Option AdBanner
nth [] i = none
nth (b ∷ banners) i = let rest = nth banners (i - 1) in if i == 0 then some b else rest

abbrev pub later : Option ℕ → Option ℕ
later none = none
later (some i) = some (suc i)

abbrev pub position : List AdBanner → ℕ → Option ℕ
position [] id = none
position (b ∷ banners) id =
    let rest = later (position banners id) in if b.id == id then some 0 else rest

-- WAR3 and W3XP.
unfoldable pub is_random_product : ℕ → Bool
unfolding from_ascii
is_random_product product =
    product == from_ascii (codes "WAR3") || (product == from_ascii (codes "W3XP"))

abbrev pub candidates : AdRotation → ℕ → Option ℕ → List AdBanner
candidates r product language = retain (λ b. matches b product language) r

abbrev pub following : ℕ → Option ℕ → ℕ
following size (some i) = if ltb (i + 1) size then i + 1 else 0
following size none = 0

unfoldable pub next : AdRotation → ℕ → Option ℕ → ℕ → ℕ → Option AdBanner
unfolding matches is_random_product
next r product language previous seed =
    let cs = candidates r product language in
    if is_empty cs
    then none
    else if is_random_product product
    then nth cs (seed % length cs)
    else nth cs (following (length cs) (position cs previous))
