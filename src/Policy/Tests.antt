-- ===== src/Policy/Tests.antt =====
-- Concrete policies.
use bnet_command_center.Base.{ok, err, ℕ, none, some, ◌≡◌, refl, ℕ_discrete}
use bnet_command_center.Base.Map
use bnet_command_center.Base.Set
use bnet_command_center.Client.{game}
use bnet_command_center.Policy.{
  parse, mode_name, gaming, warnet, both, refuse, both_gates, allowed, ConnLimits, ConnLimitsPatch,
  apply_patch, tighter, ClientLimits, product_limits, for_class, set_product, patch_product,
  narrowed_limits, Policy, narrowed_by, for_mode, mode_clients,
}
use bnet_command_center.Text.{codes, lowercase, to_lower, text_eq, trim, trim_start, is_whitespace}
use bnet_command_center.Policy.Narrow.{Narrows, narrowed_by-Narrows}

program : Unit {0}
unfolding ℕ_discrete Set.insert Set.contains Map.get Map.insert for_class product_limits set_product
    patch_product apply_patch narrowed_limits tighter both_gates allowed narrowed_by for_mode
    mode_clients
program = tt

-- Two products as a node sees them.
abbrev star : ℕ
star = 0x53544152

abbrev warcraft : ℕ
warcraft = 0x57335850

abbrev strict : ConnLimits
strict = record { per_ip = 2; per_account = 1; global = 100 }

abbrev node : ClientLimits
node = set_product (mode_clients both) star strict

abbrev loose : ConnLimitsPatch
loose = record { per_ip = some 64; per_account = none; global = none }

abbrev node_policy : Policy
node_policy = record (for_mode both) { game_hosting = refuse; clients = node }

narrowed_star : for_class (narrowed_limits (mode_clients gaming) node) (game star) ≡ strict
unfolding program
narrowed_star = refl

narrowed_other :
    for_class (narrowed_limits (mode_clients gaming) node) (game warcraft)
    ≡ record { per_ip = 8; per_account = 2; global = 4096 }
unfolding program
narrowed_other = refl

patched_star :
    for_class (patch_product node star loose) (game star)
    ≡ record { per_ip = 64; per_account = 1; global = 100 }
unfolding program
patched_star = refl

narrowed_by-Narrows_example :
    Narrows (narrowed_by (for_mode gaming) node_policy) (for_mode gaming) node_policy
narrowed_by-Narrows_example = narrowed_by-Narrows (for_mode gaming) node_policy

parsed :
    (parse (mode_name gaming) ≡ ok gaming)
    × (parse (mode_name warnet) ≡ ok warnet)
    × (parse (codes " BOTH ") ≡ ok both)
    × (parse (codes "war") ≡ err (codes "war"))
unfolding parse mode_name lowercase to_lower text_eq trim trim_start is_whitespace
parsed = (refl, refl, refl, refl)
