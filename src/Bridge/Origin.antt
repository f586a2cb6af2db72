-- ===== src/Bridge/Origin.antt =====
-- `OriginChain` (crates/bnetcc-core/src/bridge.rs): the bridges that a message has passed through.
mod Tests
use bnet_command_center.Base.{
  ℕ, suc, ◌+◌, ◌≤◌, ◌≡◌, refl, Option, none, some, Bool, true, false, not, ◌&&◌, ◌||◌, List, [],
  ◌∷◌, ◌++◌, leb, if◌then◌else◌, length, length-append, arith, any, All, ap, ◌∙◌, Bool-cases, inl,
  inr,
}
use bnet_command_center.Bridge.{BridgeTag, max_hops}
use bnet_command_center.Text.{text_eq, text_eq_refl}

pub record OriginChain : Type 0 where
  pub hops : List BridgeTag

pub local_origin : OriginChain
local_origin = record { hops = [] }

pub from_bridge : BridgeTag → OriginChain
from_bridge tag = record { hops = tag ∷ [] }

pub depth : OriginChain → ℕ
depth c = length c.hops

-- Derived equality of tags.
pub same_tag : BridgeTag → BridgeTag → Bool
same_tag a b = text_eq a.as_str b.as_str

abbrev passed_by : BridgeTag → List BridgeTag → Bool
passed_by tag = any λ t. same_tag t tag

pub may_deliver_to : OriginChain → BridgeTag → Bool
unfolding same_tag
may_deliver_to c tag = if leb max_hops (length c.hops) then false else not (passed_by tag c.hops)

pub push : OriginChain → BridgeTag → OriginChain × Bool
push c tag =
    if not (may_deliver_to c tag)
    then (c, false)
    else (record c { hops = c.hops ++ tag ∷ [] }, true)

-- The bridges that a message is offered to, one after the other: the chain, and whether each took it.
pub relay : OriginChain → List BridgeTag → OriginChain × List Bool
relay c [] = (c, [])
relay c (tag ∷ tags) =
    let (c', took) = push c tag in let (c'', tooks) = relay c' tags in (c'', took ∷ tooks)

abbrev pub AllDistinct : List BridgeTag → Type 0
AllDistinct [] = Unit {0}
AllDistinct (t ∷ ts) = (any (λ x. same_tag t x) ts ≡ false) × AllDistinct ts

-- A chain without a loop: no bridge stands in it twice, and it is at most three long.
pub record IsLoopFree (c : OriginChain) : Type 0 where
  pub apart : AllDistinct c.hops
  pub short : length c.hops ≤ max_hops

any-snoc :
    (p : BridgeTag → Bool) (ts : List BridgeTag) (t : BridgeTag)
    → any p (ts ++ t ∷ []) ≡ (any p ts || p t)
any-snoc p [] t = ground arith
any-snoc p (x ∷ ts) t = ground (arith, any-snoc p ts t)

snoc-AllDistinct :
    (ts : List BridgeTag) (t : BridgeTag)
    → AllDistinct ts
    → passed_by t ts ≡ false
    → AllDistinct (ts ++ t ∷ [])
snoc-AllDistinct [] t d h = (refl, tt)
snoc-AllDistinct (x ∷ ts) t d h =
    (ground (arith, any-snoc (same_tag x) ts t), snoc-AllDistinct ts t d.1 (ground arith))

push-IsLoopFree : (c : OriginChain) (tag : BridgeTag) → IsLoopFree c → IsLoopFree (push c tag).0
unfolding push may_deliver_to
push-IsLoopFree c tag v = record {
  apart = ground (arith, snoc-AllDistinct c.hops tag v.apart);
  short = ground (arith, length-append c.hops (tag ∷ []));
}

relay_keeps : (c : OriginChain) (tags : List BridgeTag) → IsLoopFree c → IsLoopFree (relay c tags).0
unfolding relay
relay_keeps c [] v = v
relay_keeps c (tag ∷ tags) v = relay_keeps (push c tag).0 tags (push-IsLoopFree c tag v)

-- The bridges that took the message.
abbrev pub takers : List BridgeTag → List Bool → List BridgeTag
takers (tag ∷ tags) (true ∷ tooks) = tag ∷ takers tags tooks
takers (tag ∷ tags) (false ∷ tooks) = takers tags tooks
takers tags tooks = []

append-nil : (ts : List BridgeTag) → ts ≡ ts ++ []
append-nil [] = refl
append-nil (t ∷ ts) = ap (λ us. t ∷ us) (append-nil ts)

append-snoc : (ts us : List BridgeTag) (t : BridgeTag) → (ts ++ t ∷ []) ++ us ≡ ts ++ t ∷ us
append-snoc [] us t = refl
append-snoc (x ∷ ts) us t = ap (λ vs. x ∷ vs) (append-snoc ts us t)

relay-takers :
    (c : OriginChain) (tags : List BridgeTag)
    → (relay c tags).0.hops ≡ c.hops ++ takers tags (relay c tags).1
unfolding relay push
relay-takers c [] = append-nil c.hops
relay-takers c (tag ∷ tags) = elim (Bool-cases (may_deliver_to c tag)) [
  | inl e ↦
      let c' : OriginChain = record { hops = c.hops ++ tag ∷ [] } in
      rw e (relay-takers c' tags ∙ append-snoc c.hops (takers tags (relay c' tags).1) tag)
  | inr e ↦ rw e (relay-takers c tags)
]

-- Whether a bridge stands in a chain, or the chain is at its end.
abbrev pub is_closed : BridgeTag → OriginChain → Bool
is_closed tag c = passed_by tag c.hops || leb max_hops (length c.hops)

push-is_closed :
    (c : OriginChain) (tag t : BridgeTag) → is_closed t c ≡ true → is_closed t (push c tag).0 ≡ true
unfolding push
push-is_closed c tag t h = elim (Bool-cases (may_deliver_to c tag)) [
  | inl e ↦
      rw e
        (ground (arith, any-snoc (λ x. same_tag x t) c.hops tag, length-append c.hops (tag ∷ [])))
  | inr e ↦ rw e h
]

relay-is_closed :
    (c : OriginChain) (tags : List BridgeTag) (t : BridgeTag)
    → is_closed t c ≡ true
    → is_closed t (relay c tags).0 ≡ true
unfolding relay
relay-is_closed c [] t h = h
relay-is_closed c (tag ∷ tags) t h =
    relay-is_closed (push c tag).0 tags t (push-is_closed c tag t h)

pushed-is_closed : (c : OriginChain) (tag : BridgeTag) → is_closed tag (push c tag).0 ≡ true
unfolding push may_deliver_to same_tag
pushed-is_closed c tag =
    ground (arith, any-snoc (λ x. same_tag x tag) c.hops tag, text_eq_refl tag.as_str)

relay-All :
    (c : OriginChain) (tags : List BridgeTag) → All (λ t. is_closed t (relay c tags).0 ≡ true) tags
unfolding relay
relay-All c [] = tt
relay-All c (tag ∷ tags) =
    let c' = (push c tag).0 in
    (relay-is_closed c' tags tag (pushed-is_closed c tag), relay-All c' tags)

-- Where a message comes from: Battle.net, or a bridge.
pub origin : Option BridgeTag → OriginChain
unfolding local_origin from_bridge
origin none = local_origin
origin (some tag) = from_bridge tag

-- A message never comes back to a bridge. To whatever bridges a message is offered, in whatever order
-- and also when a caller does not ask first: the chain records where it came from and then just the
-- bridges that took it; no bridge stands in the chain twice, and at most three do; and every bridge
-- that it was offered to is in the chain, or the chain has three.
pub relay-IsLoopFree :
    (source : Option BridgeTag) (tags : List BridgeTag)
    → let (c, tooks) = relay (origin source) tags in
      (c.hops ≡ (origin source).hops ++ takers tags tooks)
      × IsLoopFree c
      × All (λ t. is_closed t c ≡ true) tags
unfolding origin local_origin from_bridge
relay-IsLoopFree none tags =
    let start : IsLoopFree local_origin = record { apart = tt; short = omega arith } in
    (
      relay-takers local_origin tags,
      relay_keeps local_origin tags start,
      relay-All local_origin tags,
    )
relay-IsLoopFree (some tag) tags =
    let start : IsLoopFree (from_bridge tag) = record { apart = (refl, tt); short = omega arith } in
    (
      relay-takers (from_bridge tag) tags,
      relay_keeps (from_bridge tag) tags start,
      relay-All (from_bridge tag) tags,
    )
