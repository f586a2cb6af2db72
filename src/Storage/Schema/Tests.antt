-- ===== src/Storage/Schema/Tests.antt =====
-- The schema on its own keys.
use bnet_command_center.Base.{
  is_some, ℕ_discrete, ◌≡◌, ◌≢◌, refl, true, false, not, ◌&&◌, if◌then◌else◌, none, [], ◌∷◌,
}
use bnet_command_center.Base.Map
use bnet_command_center.Text.{Text, Text-discrete, codes, trim_start, is_whitespace}
use bnet_command_center.Storage.{AttrMap, lookup}
use bnet_command_center.Storage.Attrs.{IsUnique}
use bnet_command_center.Storage.Schema.{
  internal, admin, owner, private_acl, public_acl, secret, server_public, new_key, namespace, set,
  governs, empty_schema, acl_of, can_write, filter_readable, partition_writable, default_schema,
}
use bnet_command_center.Storage.Schema.Longest.{Rules, InForce, set_all, last_set, acl_of-set_all}
use bnet_command_center.Storage.Schema.Access.{
  is_credential, listed_in, default_schema-credentials, partition_writable-split,
}

one_separator : new_key (codes "  profile/Location ") ≡ codes "profile\\location"
unfolding new_key trim_start is_whitespace
one_separator = refl

first_part : namespace (codes "record\\sexp\\0\\wins") ≡ codes "record"
unfolding namespace
first_part = refl

not_a_longer_word :
    acl_of
      (set (codes "profile") public_acl (empty_schema private_acl))
      (codes "profiles\\location")
    ≡ private_acl
unfolding acl_of new_key trim_start is_whitespace set empty_schema
not_a_longer_word = refl

owner_alone : can_write default_schema (codes "profile\\location") (owner 9) 7 ≡ false
unfolding can_write default_schema new_key trim_start is_whitespace
owner_alone = refl

abbrev written : Rules
written =
    (codes "System", server_public)
    ∷ (codes "system/Password Digest", secret)
    ∷ (codes "SYSTEM", public_acl)
    ∷ []

acl_of-set_all_example :
    InForce
      (last_set written (λ p. none))
      private_acl
      (codes "system\\password digest")
      (acl_of (set_all written (empty_schema private_acl)) (codes "system\\password digest"))
acl_of-set_all_example = acl_of-set_all written private_acl (codes "system\\password digest")

abbrev digest : Text
digest = codes "system\\password digest"

abbrev stored_attrs : AttrMap
stored_attrs = (digest, codes "deadbeef") ∷ (codes "profile\\location", codes "Reykjavik") ∷ []

distinct : IsUnique stored_attrs
unfolding Map.get Text-discrete ℕ_discrete
distinct = (refl, (refl, tt))

hidden : is_credential digest ≡ true
unfolding new_key trim_start is_whitespace governs
hidden = refl

not_internal : admin ≢ internal
not_internal e = cc

default_schema-credentials_example :
    (lookup (filter_readable default_schema stored_attrs admin 7) digest ≡ none)
    × (lookup (partition_writable default_schema stored_attrs admin 7).0 digest ≡ none)
default_schema-credentials_example =
    default_schema-credentials stored_attrs admin 7 digest distinct hidden not_internal

partition_writable-split_example :
    (lookup (partition_writable default_schema stored_attrs (owner 7) 7).0 digest
      ≡ (if can_write default_schema digest (owner 7) 7 then lookup stored_attrs digest else none))
    × (listed_in digest (partition_writable default_schema stored_attrs (owner 7) 7).1
        ≡ not (can_write default_schema digest (owner 7) 7) && is_some (lookup stored_attrs digest))
partition_writable-split_example =
    partition_writable-split default_schema stored_attrs (owner 7) 7 digest distinct
