-- ===== src/Storage.antt =====
-- Persistence: crates/bnetcc-storage. The errors of the store (lib.rs), attributes, and the attribute
-- calls of the `Storage` trait as an interface.
pub mod Attrs
pub mod Names
pub mod Memory
pub mod WriteBehind
pub mod Schema
mod Tests
use bnet_command_center.Base.{
  ℕ, ◌≡◌, Option, none, some, List, [], ◌∷◌, ite, ℕ_discrete, Result, ok, err,
}
use bnet_command_center.Base.Map
use bnet_command_center.Text.{Text, Text-discrete}

pub data StorageError : Type 0 where
  name_taken no_such_account : StorageError
  invalid_name backend_error : Text → StorageError

-- `BTreeMap<AttrKey, String>`.
abbrev pub AttrMap : Type 0
AttrMap = List (Text × Text)

-- What a set of attributes says of a key.
abbrev pub Attributes : Type 0
Attributes = Text → Option Text

unfoldable pub lookup : AttrMap → Attributes
lookup attrs key = Map.get Text-discrete key attrs

-- `extend`, or a loop of `insert`.
unfoldable pub extend : AttrMap → AttrMap → AttrMap
extend m [] = m
extend m ((k, v) ∷ attrs) = extend (Map.insert Text-discrete k v m) attrs

-- Attributes written over others, one after the other.
unfoldable pub overlay : AttrMap → Attributes → Attributes
overlay [] below = below
overlay ((k, v) ∷ attrs) below =
    overlay attrs (λ key. ite (Text-discrete k key) (some v) (below key))

abbrev pub patch_one : Text → Option Text → AttrMap → AttrMap
patch_one key none out = out
patch_one key (some v) out = Map.insert Text-discrete key v out

-- The values of the keys that are asked for, written over others.
unfoldable pub patch : List Text → AttrMap → AttrMap → AttrMap
unfolding lookup
patch [] pending out = out
patch (key ∷ keys) pending out = patch keys pending (patch_one key (lookup pending key) out)

-- A value, if its key is among those asked for.
unfoldable pub listed : List Text → Text → Option Text → Option Text
listed [] key v = none
listed (k ∷ keys) key v = ite (Text-discrete k key) v (listed keys key v)

-- The calls of a backend on attributes and accounts that the write-behind layer makes, with what it
-- relies on. `view` is what the backend holds of an account, and `Known` holds of the accounts that
-- it has: what is put for another account may be dropped.
pub record Backend (S : Type 0) : Type 1 where
  pub attrs_get : S → ℕ → List Text → Result AttrMap StorageError
  pub attrs_all : S → ℕ → Result AttrMap StorageError
  pub attrs_put : S → ℕ → AttrMap → Result S StorageError
  pub delete_account : S → ℕ → Result S StorageError
  pub flush : S → Result S StorageError
  pub view : S → ℕ → Attributes
  pub Known : S → ℕ → Type 0
  pub get-view :
      (s : S) (id : ℕ) (keys : List Text) (m : AttrMap) (key : Text)
      → attrs_get s id keys ≡ ok m
      → lookup m key ≡ listed keys key (view s id key)
  pub all-view :
      (s : S) (id : ℕ) (m : AttrMap) (key : Text)
      → attrs_all s id ≡ ok m
      → lookup m key ≡ view s id key
  -- A batch is one transaction.
  pub put-view :
      (s s' : S) (id : ℕ) (attrs : AttrMap) (j : ℕ) (key : Text)
      → Known s id
      → attrs_put s id attrs ≡ ok s'
      → view s' j key ≡ ite (ℕ_discrete id j) (overlay attrs (view s id) key) (view s j key)
  pub put-Known :
      (s s' : S) (id : ℕ) (attrs : AttrMap) (j : ℕ)
      → attrs_put s id attrs ≡ ok s'
      → Known s j
      → Known s' j
  pub flush-view : (s s' : S) (j : ℕ) (key : Text) → flush s ≡ ok s' → view s' j key ≡ view s j key
  pub flush-Known : (s s' : S) (j : ℕ) → flush s ≡ ok s' → Known s j → Known s' j
  pub delete-view :
      (s s' : S) (id j : ℕ) (key : Text)
      → delete_account s id ≡ ok s'
      → view s' j key ≡ ite (ℕ_discrete id j) none (view s j key)
