-- ===== src/Storage/Memory.antt =====
-- `MemoryStorage` (crates/bnetcc-storage/src/memory.rs), the reference backend: accounts by id and by
-- name in lower case, attributes, bans and the characters of Diablo II.
pub mod Valid
pub mod Deleted
pub mod Calls
pub mod Behind
pub mod Characters
mod Tests
use bnet_command_center.Base.{
  ℕ, suc, ◌+◌, ◌%◌, ◌^◌, ◌≡◌, refl, Option, none, some, Bool, true, false, not, ◌&&◌, List, [], ◌∷◌,
  ◌++◌, length, is_empty, take, drop, leb, ltb, ◌==◌, if◌then◌else◌, ℕ_discrete, get_or, is_some,
  Result, ok, err, ◌>>=◌, retain, find, any,
}
use bnet_command_center.Base.Map
use bnet_command_center.Text.{Text, Text-discrete, lowercase, same_text}
use bnet_command_center.Storage.{StorageError, name_taken, no_such_account, AttrMap, extend, patch}
use bnet_command_center.Storage.Names.{validate_account_name}

-- `Credential` (crates/bnetcc-storage/src/model.rs).
pub data Credential : Type 0 where
  xsha1 : List ℕ → Credential
  srp : List ℕ → List ℕ → Credential

pub record Account : Type 0 where
  pub id : ℕ
  pub name : Text
  pub credential : Credential
  pub created_at : ℕ

pub record NewAccount : Type 0 where
  pub name : Text
  pub credential : Credential
  pub created_at : ℕ
  pub attrs : AttrMap

pub data BanScope : Type 0 where
  node network : BanScope

pub record Ban : Type 0 where
  pub account : ℕ
  pub scope : BanScope
  pub reason : Text
  pub applied_at : ℕ
  pub expires_at : Option ℕ

BanScope-discrete : Discrete BanScope
BanScope-discrete = hlevel

unfoldable pub BanKey-discrete : Discrete (ℕ × BanScope)
unfolding BanScope-discrete
BanKey-discrete = hlevel (ℕ_discrete, BanScope-discrete)

-- `Ban::active_at`.
abbrev pub active_at : Ban → ℕ → Bool
active_at ban now = elim ban.expires_at [ none ↦ true | some expires ↦ ltb now expires ]

pub record Character : Type 0 where
  pub account : ℕ
  pub name : Text
  pub class : ℕ
  pub status : ℕ
  pub level : ℕ
  pub progression : ℕ
  pub created_at : ℕ
  pub last_played : ℕ
  pub save : Option (List ℕ)

pub record MemoryStorage : Type 0 where
  pub accounts : List (ℕ × Account)
  pub by_name : List (Text × ℕ)
  pub attrs : List (ℕ × AttrMap)
  pub bans : List ((ℕ × BanScope) × Ban)
  pub characters : List Character
  pub next_id : ℕ

unfoldable pub new : MemoryStorage
new = record { accounts = []; by_name = []; attrs = []; bans = []; characters = []; next_id = 0 }

unfoldable pub account_by_id : MemoryStorage → ℕ → Option Account
account_by_id m id = Map.get ℕ_discrete id m.accounts

abbrev pub found : MemoryStorage → Option ℕ → Option Account
found m none = none
found m (some id) = Map.get ℕ_discrete id m.accounts

unfoldable pub account_by_name : MemoryStorage → Text → Option Account
unfolding lowercase
account_by_name m name = found m (Map.get Text-discrete (lowercase name) m.by_name)

-- The account that `create_account` stores, and where.
abbrev pub stored : MemoryStorage → NewAccount → Account
stored m req = record {
  id = (m.next_id + 1) % 2 ^ 64;
  name = req.name;
  credential = req.credential;
  created_at = req.created_at;
}

abbrev pub store : MemoryStorage → NewAccount → MemoryStorage
store m req =
    let a = stored m req in
    record {
      accounts = Map.insert ℕ_discrete a.id a m.accounts;
      by_name = Map.insert Text-discrete (lowercase req.name) a.id m.by_name;
      attrs = if is_empty req.attrs then m.attrs else Map.insert ℕ_discrete a.id req.attrs m.attrs;
      bans = m.bans;
      characters = m.characters;
      next_id = a.id;
    }

abbrev pub create_free :
    MemoryStorage → NewAccount → Option ℕ → Result Account StorageError × MemoryStorage
create_free m req (some id) = (err name_taken, m)
create_free m req none = (ok (stored m req), store m req)

abbrev pub create_named :
    MemoryStorage
    → NewAccount
    → Result (Unit {0}) StorageError
    → Result Account StorageError × MemoryStorage
create_named m req (err e) = (err e, m)
create_named m req (ok checked) =
    create_free m req (Map.get Text-discrete (lowercase req.name) m.by_name)

unfoldable pub create_account :
    MemoryStorage → NewAccount → Result Account StorageError × MemoryStorage
unfolding lowercase validate_account_name
create_account m req = create_named m req (validate_account_name req.name)

abbrev pub set_found :
    MemoryStorage → ℕ → Credential → Option Account → Result (Unit {0}) StorageError × MemoryStorage
set_found m id credential none = (err no_such_account, m)
set_found m id credential (some a) = (
  ok tt,
  record m {
    accounts = Map.insert ℕ_discrete id (record a { credential = credential }) m.accounts;
  },
)

unfoldable pub set_credential :
    MemoryStorage → ℕ → Credential → Result (Unit {0}) StorageError × MemoryStorage
set_credential m id credential = set_found m id credential (Map.get ℕ_discrete id m.accounts)

abbrev pub attrs_of : MemoryStorage → ℕ → AttrMap
attrs_of m id = get_or (Map.get ℕ_discrete id m.attrs) []

unfoldable pub attrs_get : MemoryStorage → ℕ → List Text → AttrMap
unfolding patch
attrs_get m id keys = patch keys (attrs_of m id) []

unfoldable pub attrs_all : MemoryStorage → ℕ → AttrMap
attrs_all m id = attrs_of m id

unfoldable pub attrs_put : MemoryStorage → ℕ → AttrMap → MemoryStorage
unfolding extend
attrs_put m id attrs =
    if is_empty attrs
    then m
    else record m { attrs = Map.insert ℕ_discrete id (extend (attrs_of m id) attrs) m.attrs }

unfoldable pub ban_put : MemoryStorage → Ban → MemoryStorage
ban_put m ban = record m { bans = Map.insert BanKey-discrete (ban.account, ban.scope) ban m.bans }

-- A ban that is active.
abbrev pub still : Option Ban → ℕ → Option Ban
still none now = none
still (some ban) now = if active_at ban now then some ban else none

abbrev pub first_of : {A : Type 0} → Option A → Option A → Option A
first_of (some a) other = some a
first_of none other = other

-- The network's ban comes before the node's.
unfoldable pub ban_get : MemoryStorage → ℕ → ℕ → Option Ban
ban_get m id now =
    first_of (still (Map.get BanKey-discrete (id, network) m.bans) now)
      (still (Map.get BanKey-discrete (id, node) m.bans) now)

unfoldable pub ban_clear : MemoryStorage → ℕ → BanScope → MemoryStorage
ban_clear m id scope = record m { bans = Map.remove BanKey-discrete (id, scope) m.bans }

abbrev pub unnamed : List (Text × ℕ) → Option Account → List (Text × ℕ)
unnamed by_name none = by_name
unnamed by_name (some a) = Map.remove Text-discrete (lowercase a.name) by_name

-- The bans and the characters of the account go with it.
unfoldable pub delete_account : MemoryStorage → ℕ → MemoryStorage
unfolding lowercase
delete_account m id = record {
  accounts = Map.remove ℕ_discrete id m.accounts;
  by_name = unnamed m.by_name (Map.get ℕ_discrete id m.accounts);
  attrs = Map.remove ℕ_discrete id m.attrs;
  bans = retain (λ (e : (ℕ × BanScope) × Ban). not (e.0.0 == id)) m.bans;
  characters = retain (λ (c : Character). not (c.account == id)) m.characters;
  next_id = m.next_id;
}

unfoldable pub characters_of : MemoryStorage → ℕ → List Character
characters_of m account = retain (λ (c : Character). c.account == account) m.characters

unfoldable pub character_by_name : MemoryStorage → Text → Option Character
unfolding same_text
character_by_name m name = find (λ (c : Character). same_text c.name name) m.characters

abbrev pub add_character :
    MemoryStorage → Character → Option Account → Result (Unit {0}) StorageError × MemoryStorage
add_character m c none = (err no_such_account, m)
add_character m c (some a) =
    if any (λ (d : Character). same_text d.name c.name) m.characters
    then (err name_taken, m)
    else (ok tt, record m { characters = m.characters ++ c ∷ [] })

unfoldable pub create_character :
    MemoryStorage → Character → Result (Unit {0}) StorageError × MemoryStorage
create_character m c = add_character m c (Map.get ℕ_discrete c.account m.accounts)

-- The character of an account with a name, in any case.
abbrev pub is_character : ℕ → Text → Character → Bool
is_character account name d = d.account == account && same_text d.name name

abbrev pub updated : Character → Character → Character
updated c d = record d {
  status = c.status;
  level = c.level;
  progression = c.progression;
  last_played = c.last_played;
  save = c.save;
}

-- The first character that is the one of `c` takes its progress.
unfoldable pub update_first : Character → List Character → List Character
update_first c [] = []
update_first c (d ∷ ds) =
    let later = update_first c ds in
    if is_character c.account c.name d then updated c d ∷ ds else d ∷ later

unfoldable pub update_character : MemoryStorage → Character → Bool × MemoryStorage
unfolding update_first
update_character m c =
    if any (is_character c.account c.name) m.characters
    then (true, record m { characters = update_first c m.characters })
    else (false, m)

unfoldable pub delete_character : MemoryStorage → ℕ → Text → Bool × MemoryStorage
delete_character m account name =
    let left = retain (λ (d : Character). not (is_character account name d)) m.characters in
    (not (length left == length m.characters), record m { characters = left })
