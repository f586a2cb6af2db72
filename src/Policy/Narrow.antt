-- ===== src/Policy/Narrow.antt =====
-- Narrowing a policy (`Policy::narrowed_by`): what a node can take from the hub's policy.
use bnet_command_center.Base.{
  ℕ, min, ◌≡◌, refl, List, [], ◌∷◌, none, some, ◌||◌, ◌↔◌, arith, ℕ_discrete, if◌then◌else◌,
  is_some,
}
use bnet_command_center.Base.Map
use bnet_command_center.Base.Set
use bnet_command_center.Client.{ClientClass, gateway, bnftp, game_pending, game}
use bnet_command_center.Policy.{
  Gate, allow, allowed, both_gates, ConnLimits, tighter, ClientLimits, product_limits, for_class,
  key_set, narrowed_products, narrowed_limits, Policy, narrowed_by,
}

get-narrowed_products :
    (a b : ClientLimits) (keys : List ℕ) (k : ℕ)
    → Map.get ℕ_discrete k (narrowed_products a b keys) ≡ (
        if Set.contains k keys
        then some (tighter (product_limits a k) (product_limits b k))
        else none)
unfolding Map.get Set.contains
get-narrowed_products a b [] k = refl
get-narrowed_products a b (j ∷ keys) k = ground (
  arith,
  Map.get-insert ℕ_discrete j k (tighter (product_limits a j) (product_limits b j))
      (narrowed_products a b keys),
  get-narrowed_products a b keys k,
)

contains-key_set :
    (m : List (ℕ × ConnLimits)) (keys : List ℕ) (k : ℕ)
    → Set.contains k (key_set m keys) ≡ (is_some (Map.get ℕ_discrete k m) || Set.contains k keys)
unfolding Map.get
contains-key_set [] keys k = refl
contains-key_set ((j, l) ∷ m) keys k =
    ground (arith, Set.contains-insert j k (key_set m keys), contains-key_set m keys k)

product-narrowed :
    (a b : ClientLimits) (k : ℕ)
    → product_limits (narrowed_limits a b) k ≡ tighter (product_limits a k) (product_limits b k)
unfolding product_limits narrowed_limits Set.contains
product-narrowed a b k = ground (
  arith,
  get-narrowed_products a b (key_set a.products (key_set b.products [])) k,
  contains-key_set a.products (key_set b.products []) k,
  contains-key_set b.products [] k,
)

-- For every client class the narrowed limits are the tighter of the two sides' limits for that
-- class, also for a product that one side or neither names.
pub for_class-narrowed :
    (a b : ClientLimits) (c : ClientClass)
    → for_class (narrowed_limits a b) c ≡ tighter (for_class a c) (for_class b c)
unfolding for_class narrowed_limits
for_class-narrowed a b gateway = refl
for_class-narrowed a b bnftp = refl
for_class-narrowed a b game_pending = refl
for_class-narrowed a b (game k) = product-narrowed a b k

-- Each of the three limits is the lower one.
abbrev pub IsLower : ConnLimits → ConnLimits → ConnLimits → Type 0
IsLower l a b =
    (l.per_ip ≡ min a.per_ip b.per_ip)
    × (l.per_account ≡ min a.per_account b.per_account)
    × (l.global ≡ min a.global b.global)

tighter-IsLower : (a b : ConnLimits) → IsLower (tighter a b) a b
unfolding tighter
tighter-IsLower a b = ground arith

both_gates_iff : (a b : Gate) → (both_gates a b ≡ allow) ↔ ((a ≡ allow) × (b ≡ allow))
unfolding both_gates allowed
both_gates_iff a b = ground arith

-- What is left of the hub's policy: a subsystem is open exactly if both sides allow it, each limit of
-- each client class is the lower of the two sides', and all else is the hub's.
pub record Narrows (p hub node : Policy) : Type 0 where
  pub hosting :
      (p.game_hosting ≡ allow) ↔ ((hub.game_hosting ≡ allow) × (node.game_hosting ≡ allow))
  pub listing :
      (p.game_listing ≡ allow) ↔ ((hub.game_listing ≡ allow) × (node.game_listing ≡ allow))
  pub realms : (p.realms ≡ allow) ↔ ((hub.realms ≡ allow) × (node.realms ≡ allow))
  pub routing : (p.w3_routing ≡ allow) ↔ ((hub.w3_routing ≡ allow) × (node.w3_routing ≡ allow))
  pub mode : p.mode ≡ hub.mode
  pub ordering : p.chat_ordering ≡ hub.chat_ordering
  pub game_rate : p.game_flood ≡ hub.game_flood
  pub gateway_rate : p.gateway_flood ≡ hub.gateway_flood
  pub limits :
      (c : ClientClass)
      → IsLower (for_class p.clients c) (for_class hub.clients c) (for_class node.clients c)

-- `narrowed_by` opens a subsystem exactly if the hub and the node both do; for every client class each
-- limit is the lower one of the hub's and the node's; the mode, the ordering of chat events and the
-- rates of messages are the hub's.
pub narrowed_by-Narrows : (hub node : Policy) → Narrows (narrowed_by hub node) hub node
unfolding narrowed_by
narrowed_by-Narrows hub node = record {
  hosting = both_gates_iff hub.game_hosting node.game_hosting;
  listing = both_gates_iff hub.game_listing node.game_listing;
  realms = both_gates_iff hub.realms node.realms;
  routing = both_gates_iff hub.w3_routing node.w3_routing;
  mode = refl;
  ordering = refl;
  game_rate = refl;
  gateway_rate = refl;
  limits = λ c. rw (for_class-narrowed hub.clients node.clients c) (tighter-IsLower _ _);
}

tighter_right_comm : (a b c : ConnLimits) → tighter (tighter a b) c ≡ tighter (tighter a c) b
unfolding tighter
tighter_right_comm a b c = ground arith

-- Two nodes' restrictions can be applied in either order: every class ends with the same limits.
pub narrowed_limits_right_comm :
    (l a b : ClientLimits) (c : ClientClass)
    → for_class (narrowed_limits (narrowed_limits l a) b) c
      ≡ for_class (narrowed_limits (narrowed_limits l b) a) c
narrowed_limits_right_comm l a b c =
    simp for_class-narrowed (tighter_right_comm (for_class l c) (for_class a c) (for_class b c))
