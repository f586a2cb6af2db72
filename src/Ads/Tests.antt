-- ===== src/Ads/Tests.antt =====
-- Banners for two products.
use bnet_command_center.Base.{
  ℕ, ◌+◌, ◌≡◌, refl, false, Option, none, some, List, [], ◌∷◌, ◌++◌, length, arith,
}
use bnet_command_center.Text.{Text, codes}
use bnet_command_center.Wire.Number.{from_ascii}
use bnet_command_center.Ads.{AdBanner, new, by_id, next, matches, is_random_product, candidates}
use bnet_command_center.Ads.Rotation.{shown, next-rotates}

abbrev sexp : ℕ
sexp = 1397053520

abbrev banner : Text → Option ℕ → AdBanner
banner name product = record {
  id = 0;
  filename = name;
  url = codes "https://example.invalid";
  product = product;
  language = none;
}

abbrev banners : List AdBanner
banners =
    banner (codes "all.smk") none
    ∷ banner (codes "sc_only.smk") (some sexp)
    ∷ banner (codes "w3.mng") (some 1463898675)
    ∷ []

next-rotates_example :
    shown (new banners) sexp none 0 5 (length (candidates (new banners) sexp none) + 3)
    ≡ candidates (new banners) sexp none ++ shown (new banners) sexp none 0 5 3
next-rotates_example = next-rotates banners sexp none 5 3 (omega arith) sequential
  where
    sequential : is_random_product sexp ≡ false
    sequential = unfold is_random_product in refl

-- WarCraft III, whose client is at a banner that is gone.
the_third : by_id (new banners) 3 ≡ next (new banners) 1463898675 none 9 7
unfolding by_id new next matches is_random_product from_ascii
the_third = refl
