-- ===== src/Storage/Names.antt =====
-- Account names: `validate_account_name` and `split_realm` of crates/bnetcc-storage/src/lib.rs.
use bnet_command_center.Base.{
  ℕ, ◌≤◌, ◌≡◌, ◌≢◌, refl, ◌↔◌, ◌⊎◌, Option, none, some, Bool, true, false, not, ◌&&◌, ◌||◌, [], ◌∷◌,
  ◌++◌, length, is_empty, any, all, ltb, leb, ◌==◌, if◌then◌else◌, inl, inr, Result, ok, err, ◌>>=◌,
  arith,
}
use bnet_command_center.Text.{Text, codes, byte_len, utf8_len, rsplit_once, split_later, is_digit}
use bnet_command_center.Bridge.{
  separator, BridgeTag, new_tag, derive_name, is_alphanumeric, name_is_reserved_for_bridges,
}
use bnet_command_center.Bridge.Derived.{new_tag-IsTag, derive_name-remainder, remainder}
use bnet_command_center.Storage.{StorageError, invalid_name}

abbrev pub min_len : ℕ
min_len = 2

abbrev pub max_len : ℕ
max_len = 15

abbrev pub parts : Text → Option (Text × Text) → Text × Option Text
parts name none = (name, none)
parts name (some (bare, realm)) = (bare, some realm)

-- The bare name, and the realm after the last `@`.
unfoldable pub split_realm : Text → Text × Option Text
unfolding rsplit_once
split_realm name = parts name (rsplit_once b'@' name)

abbrev pub is_ascii : Text → Bool
is_ascii s = all (λ c. ltb c 128) s

-- White space and control bytes. On the bytes of a text it holds of one exactly when it holds of a
-- code point, since every byte of a longer character is 128 or more.
abbrev pub is_blank : ℕ → Bool
is_blank c = leb c 32 || (c == 127)

unfoldable pub check_realm : Option Text → Result (Unit {0}) StorageError
unfolding byte_len
check_realm none = ok tt
check_realm (some realm) =
    if is_empty realm || ltb max_len (byte_len realm)
    then err (invalid_name (codes "realm must be 1 to 15 characters"))
    else if not (is_ascii realm) || any is_blank realm
    then err (invalid_name (codes "realm contains whitespace, control or non-ASCII characters"))
    else ok tt

unfoldable pub check_bare : Text → Result (Unit {0}) StorageError
unfolding byte_len
check_bare name =
    if ltb (byte_len name) min_len
    then err (invalid_name (codes "shorter than 2 characters"))
    else if ltb max_len (byte_len name)
    then err (invalid_name (codes "longer than 15 characters"))
    else if not (is_ascii name)
    then err (invalid_name (codes "non-ASCII characters"))
    else if any is_blank name
    then err (invalid_name (codes "whitespace or control characters"))
    else if not (any is_alphanumeric name)
    then err (invalid_name (codes "must contain at least one letter or digit"))
    else if name_is_reserved_for_bridges name
    then err (invalid_name (codes "':' is reserved for bridged identities"))
    else ok tt

unfoldable pub validate_account_name : Text → Result (Unit {0}) StorageError
unfolding split_realm check_realm check_bare
validate_account_name name =
    let (bare, realm) = split_realm name in check_realm realm >>= λ checked. check_bare bare

-- What is promised of an accepted name: printable ASCII without spaces, of the lengths of the
-- protocol.
abbrev pub is_visible : ℕ → Bool
is_visible c = ltb 32 c && ltb c 127

abbrev pub IsRealm : Option Text → Type 0
IsRealm none = Unit {0}
IsRealm (some realm) = (1 ≤ length realm) × (length realm ≤ 15) × (all is_visible realm ≡ true)

abbrev pub IsBare : Text → Type 0
IsBare name =
    (2 ≤ length name)
    × (length name ≤ 15)
    × (all is_visible name ≡ true)
    × (any is_alphanumeric name ≡ true)
    × (name_is_reserved_for_bridges name ≡ false)

visible : (s : Text) → (is_ascii s && not (any is_blank s)) ≡ all is_visible s
visible [] = refl
visible (c ∷ s) = ground (arith, visible s)

byte_len-ascii : (s : Text) → is_ascii s ≡ true → byte_len s ≡ length s
unfolding byte_len utf8_len
byte_len-ascii [] h = refl
byte_len-ascii (c ∷ s) h = ground (arith, byte_len-ascii s (ground arith))

byte_len-ge : (s : Text) → length s ≤ byte_len s
unfolding byte_len utf8_len
byte_len-ge [] = omega arith
byte_len-ge (c ∷ s) = ground (arith, byte_len-ge s)

is_empty_iff : (s : Text) → (is_empty s ≡ false) ↔ (1 ≤ length s)
is_empty_iff [] = ground arith
is_empty_iff (c ∷ s) = ground arith

check_realm_iff : (realm : Option Text) → (check_realm realm ≡ ok tt) ↔ IsRealm realm
unfolding check_realm
check_realm_iff none = (λ h. tt, λ h. refl)
check_realm_iff (some realm) =
    ground (arith, visible realm, byte_len-ascii realm, byte_len-ge realm, is_empty_iff realm)

check_bare_iff : (name : Text) → (check_bare name ≡ ok tt) ↔ IsBare name
unfolding check_bare
check_bare_iff name = ground (arith, visible name, byte_len-ascii name, byte_len-ge name)

bind_iff :
    (r s : Result (Unit {0}) StorageError)
    → ((r >>= λ checked. s) ≡ ok tt) ↔ ((r ≡ ok tt) × (s ≡ ok tt))
bind_iff (ok x) s = (λ h. (refl, h), λ h. h.1)
bind_iff (err e) s = (λ h. (h, let no : ⊥ = cc h in elim no [ ]), λ h. h.0)

pub validate_account_name_iff :
    (name : Text)
    → (validate_account_name name ≡ ok tt)
      ↔ (IsRealm (split_realm name).1 × IsBare (split_realm name).0)
unfolding validate_account_name
validate_account_name_iff name =
    let (bare, realm) = split_realm name in
    let both = bind_iff (check_realm realm) (check_bare bare) in
    let left = check_realm_iff realm in
    let right = check_bare_iff bare in
    (λ h. (left.0 (both.0 h).0, right.0 (both.0 h).1), λ h. both.1 (left.1 h.0, right.1 h.1))

letters_only : (c : ℕ) → is_alphanumeric c ≡ true → (c == b'@') ≡ false
unfolding is_alphanumeric is_digit
letters_only c h = ground arith

later-colon :
    (c : ℕ) (cs : Text) (o : Option (Text × Text))
    → (c == b'@') ≡ false
    → ((c == separator) ≡ true) ⊎ (name_is_reserved_for_bridges (parts cs o).0 ≡ true)
    → name_is_reserved_for_bridges (parts (c ∷ cs) (split_later cs c b'@' o)).0 ≡ true
unfolding name_is_reserved_for_bridges
later-colon c cs none e h = rw e (ground arith)
later-colon c cs (some (bare, realm)) e h = ground arith

split_realm-colon :
    (tag rest : Text)
    → all is_alphanumeric tag ≡ true
    → name_is_reserved_for_bridges (split_realm (tag ++ separator ∷ rest)).0 ≡ true
unfolding split_realm rsplit_once
split_realm-colon [] rest h = later-colon separator rest (rsplit_once b'@' rest) refl (inl refl)
split_realm-colon (c ∷ tag) rest h =
    later-colon c (tag ++ separator ∷ rest) (rsplit_once b'@' (tag ++ separator ∷ rest))
      (letters_only c (ground arith)) (inr (split_realm-colon tag rest (ground arith)))

-- No account can be registered under a name that a bridge derives, with any suffix, from any display
-- name and any tag that `BridgeTag::new` gives.
pub validate_account_name-derive_name :
    (raw : Text) (tag : BridgeTag) (display : Text) (suffix : Option ℕ)
    → new_tag raw ≡ ok tag
    → validate_account_name (derive_name tag display suffix) ≢ ok tt
validate_account_name-derive_name raw tag display suffix h accepted =
    let bare = ((validate_account_name_iff (derive_name tag display suffix)).0 accepted).1 in
    let colon =
      split_realm-colon tag.as_str (remainder tag display suffix)
        (new_tag-IsTag raw tag h).letters in
    let same = derive_name-remainder tag display suffix in
    let free = bare.4 in cc (same, colon, free)
