-- ===== src/Policy.antt =====
-- Server policy (crates/bnetcc-core/src/policy.rs): the modes, the limits for each client class,
-- and how a node's policy narrows the hub's.
pub mod Narrow
pub mod Modes
mod Tests
use bnet_command_center.Base.{
  Result, ok, err, ℕ, List, [], ◌∷◌, ◌++◌, Option, none, some, map, ltb, if◌then◌else◌, get_or,
  ℕ_discrete, Bool, true, false, ◌&&◌,
}
use bnet_command_center.Base.Map
use bnet_command_center.Base.Set
use bnet_command_center.Client.{ClientClass, gateway, bnftp, game_pending, game}
use bnet_command_center.Text.{Text, codes, lowercase, text_eq, trim}

pub data ServerMode : Type 0 where
  gaming warnet both : ServerMode

pub parse_lower : Text → Text → Result ServerMode Text
parse_lower s lower =
    if text_eq lower (codes "gaming")
    then ok gaming
    else (if text_eq lower (codes "warnet")
        then ok warnet
        else (if text_eq lower (codes "both") then ok both else err s))

-- `ServerMode::parse`.
pub parse : Text → Result ServerMode Text
unfolding parse_lower
parse s = parse_lower s (lowercase (trim s))

-- `ServerMode::as_str`.
pub mode_name : ServerMode → Text
mode_name gaming = codes "gaming"
mode_name warnet = codes "warnet"
mode_name both = codes "both"

pub data Gate : Type 0 where
  allow refuse : Gate

pub data ChatOrdering : Type 0 where
  local_first hub_serialized : ChatOrdering

pub record ConnLimits : Type 0 where
  pub per_ip : ℕ
  pub per_account : ℕ
  pub global : ℕ

abbrev lesser : ℕ → ℕ → ℕ
lesser a b = if ltb a b then a else b

-- `ConnLimits::min`.
pub tighter : ConnLimits → ConnLimits → ConnLimits
tighter a b = record {
  per_ip = lesser a.per_ip b.per_ip;
  per_account = lesser a.per_account b.per_account;
  global = lesser a.global b.global;
}

pub record ConnLimitsPatch : Type 0 where
  pub per_ip : Option ℕ
  pub per_account : Option ℕ
  pub global : Option ℕ

pub apply_patch : ConnLimitsPatch → ConnLimits → ConnLimits
apply_patch p base = record {
  per_ip = get_or p.per_ip base.per_ip;
  per_account = get_or p.per_account base.per_account;
  global = get_or p.global base.global;
}

pub record ClientLimits : Type 0 where
  pub gateway_limits : ConnLimits
  pub bnftp_limits : ConnLimits
  pub pending_limits : ConnLimits
  pub game_default : ConnLimits
  pub products : List (ℕ × ConnLimits)

pub product_limits : ClientLimits → ℕ → ConnLimits
product_limits l product = get_or (Map.get ℕ_discrete product l.products) l.game_default

pub for_class : ClientLimits → ClientClass → ConnLimits
unfolding product_limits
for_class l gateway = l.gateway_limits
for_class l bnftp = l.bnftp_limits
for_class l game_pending = l.pending_limits
for_class l (game product) = product_limits l product

pub set_product : ClientLimits → ℕ → ConnLimits → ClientLimits
set_product l product limits = record l {
  products = Map.insert ℕ_discrete product limits l.products;
}

pub patch_product : ClientLimits → ℕ → ConnLimitsPatch → ClientLimits
unfolding apply_patch for_class
patch_product l product patch =
    let base = for_class l (game product) in
    record l { products = Map.insert ℕ_discrete product (apply_patch patch base) l.products }

-- The products that either set names, each once.
abbrev key_set : List (ℕ × ConnLimits) → List ℕ → List ℕ
key_set [] keys = keys
key_set ((k, _) ∷ m) keys = Set.insert k (key_set m keys)

-- The loop over the key set.
abbrev narrowed_products : ClientLimits → ClientLimits → List ℕ → List (ℕ × ConnLimits)
narrowed_products a b [] = []
narrowed_products a b (k ∷ keys) =
    Map.insert ℕ_discrete k (tighter (product_limits a k) (product_limits b k))
      (narrowed_products a b keys)

pub narrowed_limits : ClientLimits → ClientLimits → ClientLimits
unfolding product_limits
narrowed_limits a b = record {
  gateway_limits = tighter a.gateway_limits b.gateway_limits;
  bnftp_limits = tighter a.bnftp_limits b.bnftp_limits;
  pending_limits = tighter a.pending_limits b.pending_limits;
  game_default = tighter a.game_default b.game_default;
  products = narrowed_products a b (key_set a.products (key_set b.products []));
}

pub data FloodPenalty : Type 0 where
  drop_message : FloodPenalty
  mute : ℕ → FloodPenalty
  disconnect : FloodPenalty

pub record FloodPolicy : Type 0 where
  pub messages_per_10s : ℕ
  pub burst : ℕ
  pub penalty : FloodPenalty

pub record Policy : Type 0 where
  pub mode : ServerMode
  pub game_hosting : Gate
  pub game_listing : Gate
  pub realms : Gate
  pub w3_routing : Gate
  pub chat_ordering : ChatOrdering
  pub clients : ClientLimits
  pub game_flood : FloodPolicy
  pub gateway_flood : FloodPolicy

pub allowed : Gate → Bool
allowed allow = true
allowed refuse = false

pub both_gates : Gate → Gate → Gate
unfolding allowed
both_gates a b = if allowed a && allowed b then allow else refuse

-- `Policy::narrowed_by`: the hub's policy, narrowed by a node's.
pub narrowed_by : Policy → Policy → Policy
narrowed_by hub node = record {
  mode = hub.mode;
  game_hosting = both_gates hub.game_hosting node.game_hosting;
  game_listing = both_gates hub.game_listing node.game_listing;
  realms = both_gates hub.realms node.realms;
  w3_routing = both_gates hub.w3_routing node.w3_routing;
  chat_ordering = hub.chat_ordering;
  clients = narrowed_limits hub.clients node.clients;
  game_flood = hub.game_flood;
  gateway_flood = hub.gateway_flood;
}

by_mode {ℓ} : {A : Type ℓ} → ServerMode → A → A → A → A
by_mode gaming a b c = a
by_mode warnet a b c = b
by_mode both a b c = c

mode_gate : ServerMode → Gate
mode_gate warnet = refuse
mode_gate gaming = allow
mode_gate both = allow

mode_ordering : ServerMode → ChatOrdering
mode_ordering warnet = hub_serialized
mode_ordering gaming = local_first
mode_ordering both = local_first

pub mode_clients : ServerMode → ClientLimits
unfolding by_mode
mode_clients mode = record {
  gateway_limits = record { per_ip = 1; per_account = 1; global = by_mode mode 256 2048 1024 };
  bnftp_limits = record { per_ip = 4; per_account = 4; global = 512 };
  pending_limits = record { per_ip = 16; per_account = 4294967295; global = 8192 };
  game_default = record { per_ip = 8; per_account = 2; global = 4096 };
  products = [];
}

pub for_mode : ServerMode → Policy
unfolding by_mode mode_gate mode_ordering mode_clients
for_mode mode = record {
  mode = mode;
  game_hosting = mode_gate mode;
  game_listing = mode_gate mode;
  realms = mode_gate mode;
  w3_routing = mode_gate mode;
  chat_ordering = mode_ordering mode;
  clients = mode_clients mode;
  game_flood = record { messages_per_10s = 12; burst = 5; penalty = mute 30 };
  gateway_flood = record {
    messages_per_10s = by_mode mode 60 200 120;
    burst = by_mode mode 20 60 40;
    penalty = drop_message;
  };
}
