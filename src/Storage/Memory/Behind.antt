-- ===== src/Storage/Memory/Behind.antt =====
-- The reference backend keeps what the write-behind layer relies on.
use bnet_command_center.Base.{
  ℕ, ◌≡◌, refl, ap, ◌∙◌, none, some, List, [], ◌∷◌, ite, ℕ_discrete, get_or, Result, ok, arith,
}
use bnet_command_center.Base.Map
use bnet_command_center.Text.{Text}
use bnet_command_center.Storage.{StorageError, AttrMap, lookup, extend, overlay, listed, Backend}
use bnet_command_center.Storage.Attrs.{or_else-none, lookup-extend}
use bnet_command_center.Storage.WriteBehind.Slots.{patch-lookup, same-ite}
use bnet_command_center.Storage.Memory.{
  MemoryStorage, attrs_of, attrs_get, attrs_all, attrs_put, delete_account,
}

pub get-lookup :
    (m : MemoryStorage) (id : ℕ) (keys : List Text) (key : Text)
    → lookup (attrs_get m id keys) key ≡ listed keys key (lookup (attrs_of m id) key)
unfolding attrs_get lookup Map.get
get-lookup m id keys key = patch-lookup keys (attrs_of m id) [] key ∙ or_else-none _

put-case :
    {P : Type 0} (m : MemoryStorage) (id : ℕ) (attrs : AttrMap) (j : ℕ) (key : Text) (d : Dec P)
    → lookup
        (get_or (ite d (some (extend (attrs_of m id) attrs)) (Map.get ℕ_discrete j m.attrs)) [])
        key
      ≡ ite d (overlay attrs (lookup (attrs_of m id)) key) (lookup (attrs_of m j) key)
put-case m id attrs j key (yes e) = lookup-extend attrs (attrs_of m id) key
put-case m id attrs j key (no n) = refl

pub put-lookup :
    (m : MemoryStorage) (id : ℕ) (attrs : AttrMap) (j : ℕ) (key : Text)
    → lookup (attrs_of (attrs_put m id attrs) j) key
      ≡ ite
          (ℕ_discrete id j)
          (overlay attrs (lookup (attrs_of m id)) key)
          (lookup (attrs_of m j) key)
unfolding attrs_put overlay
put-lookup m id [] j key = same-ite (ℕ_discrete id j) (λ (i : ℕ). lookup (attrs_of m i) key)
put-lookup m id (a ∷ attrs) j key =
    rw (Map.get-insert ℕ_discrete id j (extend (attrs_of m id) (a ∷ attrs)) m.attrs)
      (put-case m id (a ∷ attrs) j key (ℕ_discrete id j))

pub delete-lookup :
    (m : MemoryStorage) (id j : ℕ) (key : Text)
    → lookup (attrs_of (delete_account m id) j) key
      ≡ ite (ℕ_discrete id j) none (lookup (attrs_of m j) key)
unfolding delete_account lookup Map.get
delete-lookup m id j key = ground (arith, Map.get-remove ℕ_discrete id j m.attrs)

pub answered : {A : Type 0} {a b : A} → ◌≡◌ {A = Result A StorageError} (ok a) (ok b) → b ≡ a
answered e = cc e

unfoldable pub backend : Backend MemoryStorage
unfolding attrs_all
backend = record {
  attrs_get = λ m id keys. ok (attrs_get m id keys);
  attrs_all = λ m id. ok (attrs_all m id);
  attrs_put = λ m id attrs. ok (attrs_put m id attrs);
  delete_account = λ m id. ok (delete_account m id);
  flush = λ m. ok m;
  view = λ m id. lookup (attrs_of m id);
  Known = λ m id. Unit {0};
  get-view = λ m id keys n key e.
      ap (λ (x : AttrMap). lookup x key) (answered e) ∙ get-lookup m id keys key;
  all-view = λ m id n key e. ap (λ (x : AttrMap). lookup x key) (answered e);
  put-view = λ m m' id attrs j key k e.
      ap (λ (x : MemoryStorage). lookup (attrs_of x j) key) (answered e)
      ∙ put-lookup m id attrs j key;
  put-Known = λ m m' id attrs j e k. tt;
  flush-view = λ m m' j key e. ap (λ (x : MemoryStorage). lookup (attrs_of x j) key) (answered e);
  flush-Known = λ m m' j e k. tt;
  delete-view = λ m m' id j key e.
      ap (λ (x : MemoryStorage). lookup (attrs_of x j) key) (answered e) ∙ delete-lookup m id j key;
}
