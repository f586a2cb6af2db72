-- ===== src/Policy/Modes.antt =====
-- The default policies of the three modes (`Policy::for_mode`) and changes of a product's limits
-- (`patch_product`, `set_product`).
use bnet_command_center.Base.{ℕ, ◌≤◌, ◌≡◌, ◌≢◌, refl, arith, ℕ_discrete}
use bnet_command_center.Base.Map
use bnet_command_center.Client.{ClientClass, gateway, bnftp, game_pending, game}
use bnet_command_center.Policy.{
  ServerMode, gaming, warnet, both, refuse, both_gates, allowed, narrowed_limits, hub_serialized,
  ConnLimits, ConnLimitsPatch, apply_patch, tighter, ClientLimits, product_limits, for_class,
  patch_product, Policy, for_mode, narrowed_by,
}

-- Each of the three limits of one set is at most that of the other.
abbrev pub AtMost : ConnLimits → ConnLimits → Type 0
AtMost a b = (a.per_ip ≤ b.per_ip) × (a.per_account ≤ b.per_account) × (a.global ≤ b.global)

-- A patch of a product gives that product the limits that were in force for it, with the fields
-- replaced that the patch names.
pub for_class-patch_product :
    (l : ClientLimits) (product : ℕ) (patch : ConnLimitsPatch)
    → for_class (patch_product l product patch) (game product)
      ≡ apply_patch patch (for_class l (game product))
unfolding for_class product_limits patch_product
for_class-patch_product l product patch =
    let limits = apply_patch patch (for_class l (game product)) in
    ground (arith, Map.get-insert ℕ_discrete product product limits l.products)

-- A patch of a product leaves the limits of every other class as they were.
pub for_class-patch_other :
    (l : ClientLimits) (product : ℕ) (patch : ConnLimitsPatch) (c : ClientClass)
    → c ≢ game product
    → for_class (patch_product l product patch) c ≡ for_class l c
unfolding for_class product_limits patch_product
for_class-patch_other l product patch gateway h = refl
for_class-patch_other l product patch bnftp h = refl
for_class-patch_other l product patch game_pending h = refl
for_class-patch_other l product patch (game k) h =
    let limits = apply_patch patch (for_class l (game product)) in
    ground (arith, Map.get-insert ℕ_discrete product k limits l.products)

-- In every mode a connection is admitted while its product is unknown under limits that are at
-- least as loose as any product's, and every gateway is held to one connection for each address.
pub for_mode-pending :
    (mode : ServerMode)
    → ((product : ℕ)
        → AtMost
            (for_class (for_mode mode).clients (game product))
            (for_class (for_mode mode).clients game_pending))
      × ((for_class (for_mode mode).clients gateway).per_ip ≡ 1)
unfolding for_mode for_class product_limits Map.get
for_mode-pending gaming = (λ k. omega arith, refl)
for_mode-pending warnet = (λ k. omega arith, refl)
for_mode-pending both = (λ k. omega arith, refl)

-- Whatever a node asks for, under a hub in warnet mode hosting, listing, realms and the WarCraft III
-- listener are all refused, chat events go through the hub's sequencer, and the gateway takes one
-- connection for each address at most.
pub narrowed_by-warnet :
    (node : Policy)
    → let p = narrowed_by (for_mode warnet) node in
      (p.game_hosting ≡ refuse)
      × (p.game_listing ≡ refuse)
      × (p.realms ≡ refuse)
      × (p.w3_routing ≡ refuse)
      × (p.chat_ordering ≡ hub_serialized)
      × ((for_class p.clients gateway).per_ip ≤ 1)
unfolding narrowed_by for_mode both_gates allowed narrowed_limits tighter for_class
narrowed_by-warnet node = (refl, refl, refl, refl, refl, ground arith)
