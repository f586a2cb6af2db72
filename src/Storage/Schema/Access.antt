-- ===== src/Storage/Schema/Access.antt =====
-- Who sees and writes which attributes.
use bnet_command_center.Base.{
  is_some, ℕ, ◌≡◌, ◌≢◌, refl, sym, ap, ◌∙◌, none, Bool, true, false, not, ◌||◌, ◌&&◌, List, [], ◌∷◌,
  ◌++◌, any, retain, if◌then◌else◌, arith,
}
use bnet_command_center.Base.Map
use bnet_command_center.Text.{
  Text, Text-discrete, codes, trim_start, is_whitespace, text_eq, text_eq_refl, text_eq→eq,
}
use bnet_command_center.Storage.{AttrMap, lookup}
use bnet_command_center.Storage.Attrs.{IsUnique}
use bnet_command_center.Storage.Schema.{
  Actor, other, internal, admin, owner, Acl, server_public, public_acl, secret, permits, AttrSchema,
  new_key, governs, first_rule, acl_of, can_read, can_write, filter_readable, partition_loop,
  partition_writable, password_digest, srp_salt, srp_verifier, default_schema,
}

-- A map filtered by its keys.
lookup-retain :
    (p : Text → Bool) (attrs : AttrMap) (key : Text)
    → lookup (retain (λ e. p e.0) attrs) key ≡ (if p key then lookup attrs key else none)
unfolding lookup Map.get
lookup-retain p [] key = ground arith
lookup-retain p ((k, v) ∷ attrs) key = elim (Text-discrete k key) [
  | yes same ↦ rw same (ground (arith, lookup-retain p attrs key))
  | no apart ↦ ground (arith, lookup-retain p attrs key)
]

-- A filtered map has the entries that the actor may read, with their values, and no other.
pub lookup-filter_readable :
    (s : AttrSchema) (attrs : AttrMap) (actor : Actor) (account : ℕ) (key : Text)
    → lookup (filter_readable s attrs actor account) key
      ≡ (if can_read s key actor account then lookup attrs key else none)
unfolding filter_readable
lookup-filter_readable s attrs actor account key =
    lookup-retain (λ k. can_read s k actor account) attrs key

-- The keys of the credentials and those below them.
abbrev pub is_credential : Text → Bool
is_credential key =
    governs (new_key password_digest) key
    || governs (new_key srp_salt) key
    || governs (new_key srp_verifier) key

abbrev open_rules : List (Text × Acl)
open_rules =
    (codes "profile", public_acl)
    ∷ (codes "system", server_public)
    ∷ (codes "record", server_public)
    ∷ []

abbrev default_rules : List (Text × Acl)
default_rules =
    (new_key password_digest, secret)
    ∷ (new_key srp_verifier, secret)
    ∷ (new_key srp_salt, secret)
    ∷ open_rules

default_schema_lem : default_schema.rules ≡ default_rules
unfolding default_schema new_key trim_start is_whitespace
default_schema_lem = refl

first_rule-three :
    (p q r : Text) (rules : List (Text × Acl)) (fallback : Acl) (key : Text)
    → governs p key || governs r key || governs q key ≡ true
    → first_rule ((p, secret) ∷ (q, secret) ∷ (r, secret) ∷ rules) fallback key ≡ secret
unfolding first_rule
first_rule-three p q r rules fallback key h = ground arith

default_acl : (key : Text) → is_credential key ≡ true → acl_of default_schema key ≡ secret
unfolding acl_of
default_acl key h =
    ap (λ rules. first_rule rules default_schema.fallback key) default_schema_lem
    ∙ first_rule-three (new_key password_digest) (new_key srp_verifier) (new_key srp_salt)
        open_rules default_schema.fallback key h

permits-secret :
    (actor : Actor) (account : ℕ) → actor ≢ internal → permits secret.read actor account ≡ false
unfolding permits
permits-secret other account n = refl
permits-secret internal account n = let no : ⊥ = n refl in elim no [ ]
permits-secret admin account n = refl
permits-secret (owner id) account n = refl

-- Whether a key is in a list.
abbrev pub listed_in : Text → List Text → Bool
listed_in key keys = any (λ k. text_eq k key) keys

listed_in-last :
    (key k : Text) (keys : List Text)
    → listed_in key (keys ++ k ∷ []) ≡ listed_in key keys || text_eq k key
listed_in-last key k [] = ground arith
listed_in-last key k (j ∷ keys) = ground (arith, listed_in-last key k keys)

accepted-step :
    (s : AttrSchema) (actor : Actor) (account : ℕ) (k v : Text) (attrs done : AttrMap) (key : Text)
    → lookup attrs k ≡ none
    → let writable = can_write s key actor account in
      (if writable && is_some (lookup attrs key)
        then lookup attrs key
        else lookup
            (if can_write s k actor account then Map.insert Text-discrete k v done else done)
            key)
      ≡ (if writable && is_some (lookup ((k, v) ∷ attrs) key)
          then lookup ((k, v) ∷ attrs) key
          else lookup done key)
unfolding lookup Map.get
accepted-step s actor account k v attrs done key u = elim (Text-discrete k key) [
  | yes same ↦
      let there = Map.get-insert Text-discrete k key v done in
      let allowed : can_write s k actor account ≡ can_write s key actor account =
        ap (λ j. can_write s j actor account) same in
      let fresh : lookup attrs key ≡ none = ap (lookup attrs) (sym same) ∙ u in
      ground (arith, there, allowed, fresh)
  | no apart ↦ ground (arith, Map.get-insert Text-discrete k key v done)
]

refused-step :
    (s : AttrSchema) (actor : Actor) (account : ℕ) (k v : Text) (attrs : AttrMap)
    (denied : List Text) (key : Text)
    → lookup attrs k ≡ none
    → let refused = not (can_write s key actor account) in
      listed_in key (if can_write s k actor account then denied else denied ++ k ∷ [])
        || (refused && is_some (lookup attrs key))
      ≡ listed_in key denied || (refused && is_some (lookup ((k, v) ∷ attrs) key))
unfolding lookup Map.get
refused-step s actor account k v attrs denied key u = elim (Text-discrete k key) [
  | yes same ↦
      let allowed : can_write s k actor account ≡ can_write s key actor account =
        ap (λ j. can_write s j actor account) same in
      let fresh : lookup attrs key ≡ none = ap (lookup attrs) (sym same) ∙ u in
      ground (
        arith,
        allowed,
        fresh,
        listed_in-last key k denied,
        ap (λ j. text_eq j key) same,
        text_eq_refl key,
      )
  | no apart ↦ ground (arith, listed_in-last key k denied, text_eq→eq k key)
]

-- What the loop has accepted and denied at its end.
abbrev Split :
    AttrSchema → Actor → ℕ → AttrMap → AttrMap → List Text → Text → AttrMap × List Text → Type 0
Split s actor account attrs done denied key r =
    let writable = can_write s key actor account in
    (lookup r.0 key
      ≡ (if writable && is_some (lookup attrs key) then lookup attrs key else lookup done key))
    × (listed_in key r.1 ≡ listed_in key denied || (not writable && is_some (lookup attrs key)))

partition_loop-Split :
    (s : AttrSchema) (actor : Actor) (account : ℕ) (attrs done : AttrMap) (denied : List Text)
    (key : Text)
    → IsUnique attrs
    → Split s actor account attrs done denied key (partition_loop s actor account attrs done denied)
unfolding partition_loop lookup Map.get
partition_loop-Split s actor account [] done denied key u = (ground arith, ground arith)
partition_loop-Split s actor account ((k, v) ∷ attrs) done denied key u =
    let allowed = can_write s k actor account in
    let ih =
      partition_loop-Split s actor account attrs
        (if allowed then Map.insert Text-discrete k v done else done)
        (if allowed then denied else denied ++ k ∷ []) key u.1 in
    (
      ih.0 ∙ accepted-step s actor account k v attrs done key u.0,
      ih.1 ∙ refused-step s actor account k v attrs denied key u.0,
    )

-- A write is split into the entries that the actor may write, with their values, and the keys of the
-- others, each of them reported.
pub partition_writable-split :
    (s : AttrSchema) (attrs : AttrMap) (actor : Actor) (account : ℕ) (key : Text)
    → IsUnique attrs
    → let r = partition_writable s attrs actor account in
      let writable = can_write s key actor account in
      (lookup r.0 key ≡ (if writable then lookup attrs key else none))
      × (listed_in key r.1 ≡ not writable && is_some (lookup attrs key))
unfolding partition_writable lookup Map.get
partition_writable-split s attrs actor account key u =
    let h = partition_loop-Split s actor account attrs [] [] key u in (h.0 ∙ ground arith, h.1)

-- Under the default schema, whatever attributes an account has, a filtered map holds no credential,
-- and none is accepted for writing, unless the server itself asks.
pub default_schema-credentials :
    (attrs : AttrMap) (actor : Actor) (account : ℕ) (key : Text)
    → IsUnique attrs
    → is_credential key ≡ true
    → actor ≢ internal
    → (lookup (filter_readable default_schema attrs actor account) key ≡ none)
      × (lookup (partition_writable default_schema attrs actor account).0 key ≡ none)
unfolding can_read can_write
default_schema-credentials attrs actor account key u h n =
    let read = lookup-filter_readable default_schema attrs actor account key in
    let write = (partition_writable-split default_schema attrs actor account key u).0 in
    let denied = permits-secret actor account n in
    let acl = default_acl key h in (read ∙ rw (acl, denied) refl, write ∙ rw (acl, denied) refl)
