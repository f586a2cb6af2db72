-- ===== src/Storage/Schema.antt =====
-- Who may read and write an attribute (crates/bnetcc-storage/src/attr.rs). A map of attributes is the
-- association list of Storage.
pub mod Longest
pub mod Access
mod Tests
use bnet_command_center.Base.{
  ℕ, ◌≡◌, Option, none, some, Bool, true, false, not, ◌||◌, List, [], ◌∷◌, ◌++◌, retain, map, ltb,
  leb, ◌==◌, if◌then◌else◌, ite,
}
use bnet_command_center.Base.Map
use bnet_command_center.Text.{
  Text, Text-discrete, codes, byte_len, lowercase, trim, starts_with, text_eq, split_once,
}
use bnet_command_center.Storage.{AttrMap}

-- Who asks.
pub data Actor : Type 0 where
  other internal admin : Actor
  owner : ℕ → Actor

pub data Level : Type 0 where
  any_actor owner_only internal_only : Level

unfoldable pub permits : Level → Actor → ℕ → Bool
permits any_actor _ account = true
permits owner_only internal account = true
permits owner_only admin account = true
permits owner_only (owner id) account = id == account
permits owner_only other account = false
permits internal_only internal account = true
permits internal_only _ account = false

pub record Acl : Type 0 where
  pub read : Level
  pub write : Level

abbrev pub public_acl : Acl
public_acl = record { read = any_actor; write = owner_only }

abbrev pub private_acl : Acl
private_acl = record { read = owner_only; write = owner_only }

abbrev pub server_public : Acl
server_public = record { read = any_actor; write = internal_only }

abbrev pub secret : Acl
secret = record { read = internal_only; write = internal_only }

abbrev pub with_backslash : ℕ → ℕ
with_backslash c = if c == b'/' then b'\\' else c

-- `AttrKey::new`.
unfoldable pub new_key : Text → Text
unfolding trim lowercase
new_key raw = lowercase (map with_backslash (trim raw))

abbrev pub first_segment : Text → Option (Text × Text) → Text
first_segment key none = key
first_segment key (some (before, after)) = before

pub namespace : Text → Text
unfolding split_once
namespace key = first_segment key (split_once b'\\' key)

pub record AttrSchema : Type 0 where
  -- The longest prefix first.
  pub rules : List (Text × Acl)
  pub fallback : Acl

unfoldable pub empty_schema : Acl → AttrSchema
empty_schema acl = record { rules = []; fallback = acl }

-- `sort_by_key`, which is stable.
unfoldable pub insert_rule : Text × Acl → List (Text × Acl) → List (Text × Acl)
unfolding byte_len
insert_rule r [] = r ∷ []
insert_rule r (s ∷ rules) =
    let later = insert_rule r rules in
    if ltb (byte_len r.0) (byte_len s.0) then s ∷ later else r ∷ s ∷ rules

unfoldable pub sort_rules : List (Text × Acl) → List (Text × Acl)
unfolding insert_rule
sort_rules [] = []
sort_rules (r ∷ rules) = insert_rule r (sort_rules rules)

unfoldable pub set : Text → Acl → AttrSchema → AttrSchema
unfolding new_key sort_rules text_eq
set prefix acl s =
    let key = new_key prefix in
    record {
      rules = sort_rules (retain (λ r. not (text_eq r.0 key)) s.rules ++ (key, acl) ∷ []);
      fallback = s.fallback;
    }

-- A prefix rules its own key and the keys below it.
unfoldable pub governs : Text → Text → Bool
unfolding text_eq starts_with
governs prefix key = text_eq key prefix || starts_with (prefix ++ b'\\' ∷ []) key

unfoldable pub first_rule : List (Text × Acl) → Acl → Text → Acl
unfolding governs
first_rule [] fallback key = fallback
first_rule (r ∷ rules) fallback key =
    let later = first_rule rules fallback key in if governs r.0 key then r.1 else later

unfoldable pub acl_of : AttrSchema → Text → Acl
unfolding first_rule
acl_of s key = first_rule s.rules s.fallback key

unfoldable pub can_read : AttrSchema → Text → Actor → ℕ → Bool
unfolding acl_of permits
can_read s key actor account = permits (acl_of s key).read actor account

unfoldable pub can_write : AttrSchema → Text → Actor → ℕ → Bool
unfolding acl_of permits
can_write s key actor account = permits (acl_of s key).write actor account

unfoldable pub filter_readable : AttrSchema → AttrMap → Actor → ℕ → AttrMap
unfolding can_read
filter_readable s attrs actor account = retain (λ e. can_read s e.0 actor account) attrs

-- The loop of `partition_writable` with what it has accepted and denied.
unfoldable pub partition_loop :
    AttrSchema → Actor → ℕ → AttrMap → AttrMap → List Text → AttrMap × List Text
unfolding can_write
partition_loop s actor account [] done denied = (done, denied)
partition_loop s actor account ((k, v) ∷ attrs) done denied =
    let allowed = can_write s k actor account in
    partition_loop s actor account attrs
      (if allowed then Map.insert Text-discrete k v done else done)
      (if allowed then denied else denied ++ k ∷ [])

unfoldable pub partition_writable : AttrSchema → AttrMap → Actor → ℕ → AttrMap × List Text
unfolding partition_loop
partition_writable s attrs actor account = partition_loop s actor account attrs [] []

abbrev pub password_digest : Text
password_digest = codes "System\\Password Digest"

abbrev pub srp_salt : Text
srp_salt = codes "System\\SRP Salt"

abbrev pub srp_verifier : Text
srp_verifier = codes "System\\SRP Verifier"

unfoldable pub default_schema : AttrSchema
unfolding set empty_schema
default_schema = set (codes "profile") public_acl (
    set (codes "Record") server_public (
      set (codes "System") server_public (
        set srp_verifier secret
          (set srp_salt secret (set password_digest secret (empty_schema private_acl))))))
