-- ===== src/Bridge/Origin/Tests.antt =====
-- A message between two bridges.
use bnet_command_center.Base.{List, some, ◌++◌, All, [], ◌∷◌, ◌≡◌, refl, true, false}
use bnet_command_center.Bridge.{BridgeTag}
use bnet_command_center.Bridge.Origin.{
  local_origin, push, may_deliver_to, same_tag, relay, IsLoopFree, origin, takers, is_closed,
  relay-IsLoopFree,
}
use bnet_command_center.Text.{codes, text_eq}

abbrev discord : BridgeTag
discord = record { as_str = codes "D" }

abbrev ragnarok : BridgeTag
ragnarok = record { as_str = codes "RO" }

-- The fourth bridge and the second visit are refused.
relayed : (relay local_origin (discord ∷ ragnarok ∷ discord ∷ [])).1 ≡ true ∷ true ∷ false ∷ []
unfolding local_origin relay push may_deliver_to same_tag text_eq
relayed = refl

abbrev offers : List BridgeTag
offers = discord ∷ ragnarok ∷ discord ∷ []

relay-IsLoopFree_example :
    let (c, tooks) = relay (origin (some ragnarok)) offers in
    (c.hops ≡ (origin (some ragnarok)).hops ++ takers offers tooks)
    × IsLoopFree c
    × All (λ t. is_closed t c ≡ true) offers
relay-IsLoopFree_example = relay-IsLoopFree (some ragnarok) offers
