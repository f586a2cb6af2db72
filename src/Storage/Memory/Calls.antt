-- ===== src/Storage/Memory/Calls.antt =====
-- Runs of calls on the reference backend, and what a created account is found by.
use bnet_command_center.Base.{
  Bool-cases, inl, inr, any, ℕ, ◌+◌, ◌≤◌, ◌<◌, ◌^◌, ◌≡◌, refl, sym, ap, ◌∙◌, Option, none, some,
  List, [], ◌∷◌, length, ite, ℕ_discrete, Result, ok, err, arith,
}
use bnet_command_center.Base.Map
use bnet_command_center.Text.{Text, Text-discrete, lowercase, same_text}
use bnet_command_center.Storage.{StorageError, AttrMap}
use bnet_command_center.Storage.Names.{validate_account_name}
use bnet_command_center.Storage.Memory.{
  Credential, Account, NewAccount, Ban, BanScope, MemoryStorage, found, account_by_name, stored,
  store, create_free, create_named, create_account, set_found, set_credential, attrs_put, ban_put,
  ban_clear, delete_account, Character, add_character, create_character, update_character,
  delete_character, is_character,
}
use bnet_command_center.Storage.Memory.Valid.{
  IsValid, HasRoom, create_account-IsValid, set_credential-IsValid,
}
use bnet_command_center.Storage.Memory.Deleted.{delete_account-IsValid}

pub data Call : Type 0 where
  create : NewAccount → Call
  credential : ℕ → Credential → Call
  attributes : ℕ → AttrMap → Call
  ban : Ban → Call
  unban : ℕ → BanScope → Call
  delete : ℕ → Call
  make_character change_character : Character → Call
  drop_character : ℕ → Text → Call

abbrev pub apply : Call → MemoryStorage → MemoryStorage
apply (create req) m = (create_account m req).1
apply (credential id c) m = (set_credential m id c).1
apply (attributes id attrs) m = attrs_put m id attrs
apply (ban b) m = ban_put m b
apply (unban id scope) m = ban_clear m id scope
apply (delete id) m = delete_account m id
apply (make_character c) m = (create_character m c).1
apply (change_character c) m = (update_character m c).1
apply (drop_character account name) m = (delete_character m account name).1

unfoldable pub run : List Call → MemoryStorage → MemoryStorage
run [] m = m
run (call ∷ calls) m = run calls (apply call m)

put-accounts :
    (m : MemoryStorage) (id : ℕ) (attrs : AttrMap)
    → (IsValid m → IsValid (attrs_put m id attrs)) × ((attrs_put m id attrs).next_id ≡ m.next_id)
unfolding attrs_put
put-accounts m id [] = (λ v. v, refl)
put-accounts m id (a ∷ attrs) = (λ v. v, refl)

-- A call on characters leaves the accounts as they are.
add-accounts :
    (m : MemoryStorage) (c : Character) (o : Option Account)
    → (IsValid m → IsValid (add_character m c o).1) × ((add_character m c o).1.next_id ≡ m.next_id)
add-accounts m c none = (λ v. v, refl)
add-accounts m c (some a) =
    elim (Bool-cases (any (λ (d : Character). same_text d.name c.name) m.characters)) [
      | inl e ↦ rw e (λ v. v, refl)
      | inr e ↦ rw e (λ v. v, refl)
    ]

update-accounts :
    (m : MemoryStorage) (c : Character)
    → (IsValid m → IsValid (update_character m c).1)
      × ((update_character m c).1.next_id ≡ m.next_id)
unfolding update_character
update-accounts m c = elim (Bool-cases (any (is_character c.account c.name) m.characters)) [
  | inl e ↦ rw e (λ v. v, refl)
  | inr e ↦ rw e (λ v. v, refl)
]

free-next :
    (m : MemoryStorage) (req : NewAccount) (o : Option ℕ)
    → (create_free m req o).1.next_id ≤ m.next_id + 1
free-next m req (some id) = omega arith
free-next m req none = omega arith

create-next :
    (m : MemoryStorage) (req : NewAccount) (r : Result (Unit {0}) StorageError)
    → (create_named m req r).1.next_id ≤ m.next_id + 1
create-next m req (err e) = omega arith
create-next m req (ok checked) = free-next m req _

set-next :
    (m : MemoryStorage) (id : ℕ) (c : Credential) (o : Option Account)
    → (set_found m id c o).1.next_id ≡ m.next_id
set-next m id c none = refl
set-next m id c (some a) = refl

apply-next : (call : Call) (m : MemoryStorage) → (apply call m).next_id ≤ m.next_id + 1
unfolding create_account set_credential ban_put ban_clear delete_account create_character
    delete_character
apply-next (create req) m = create-next m req _
apply-next (credential id c) m = omega (arith, set-next m id c (Map.get ℕ_discrete id m.accounts))
apply-next (attributes id attrs) m = omega (arith, (put-accounts m id attrs).1)
apply-next (ban b) m = omega arith
apply-next (unban id scope) m = omega arith
apply-next (delete id) m = omega arith
apply-next (make_character c) m =
    omega (arith, (add-accounts m c (Map.get ℕ_discrete c.account m.accounts)).1)
apply-next (change_character c) m = omega (arith, (update-accounts m c).1)
apply-next (drop_character account name) m = omega arith

apply-IsValid : (call : Call) (m : MemoryStorage) → IsValid m → HasRoom m → IsValid (apply call m)
unfolding ban_put ban_clear create_character delete_character
apply-IsValid (create req) m v room = create_account-IsValid m req v room
apply-IsValid (credential id c) m v room = set_credential-IsValid m id c v
apply-IsValid (attributes id attrs) m v room = (put-accounts m id attrs).0 v
apply-IsValid (ban b) m v room = v
apply-IsValid (unban id scope) m v room = v
apply-IsValid (delete id) m v room = delete_account-IsValid m id v
apply-IsValid (make_character c) m v room =
    (add-accounts m c (Map.get ℕ_discrete c.account m.accounts)).0 v
apply-IsValid (change_character c) m v room = (update-accounts m c).0 v
apply-IsValid (drop_character account name) m v room = v

-- Over every call, while the ids of 64 bits last, each name leads to an account that bears it in some
-- case, and each account bears its id, which has been given out, and is found by its name.
pub run-IsValid :
    (calls : List Call) (m : MemoryStorage)
    → IsValid m
    → m.next_id + length calls < 2 ^ 64
    → IsValid (run calls m)
unfolding run
run-IsValid [] m v room = v
run-IsValid (call ∷ calls) m v room =
    run-IsValid calls (apply call m) (apply-IsValid call m v (omega arith))
      (omega (arith, apply-next call m))

created_free :
    (m m' : MemoryStorage) (req : NewAccount) (a : Account) (o : Option ℕ)
    → create_free m req o ≡ (ok a, m')
    → (o ≡ none) × (stored m req ≡ a) × (store m req ≡ m')
created_free m m' req a (some id) h = let no : ⊥ = cc h in elim no [ ]
created_free m m' req a none h = (refl, cc h, cc h)

created :
    (m m' : MemoryStorage) (req : NewAccount) (a : Account) (r : Result (Unit {0}) StorageError)
    → create_named m req r ≡ (ok a, m')
    → (Map.get Text-discrete (lowercase req.name) m.by_name ≡ none)
      × (stored m req ≡ a)
      × (store m req ≡ m')
created m m' req a (err e) h = let no : ⊥ = cc h in elim no [ ]
created m m' req a (ok checked) h = created_free m m' req a _ h

-- Names that are not the new one are found as before.
found-store :
    (m : MemoryStorage) (req : NewAccount) (name : Text) (o : Option ℕ)
    → IsValid m
    → HasRoom m
    → Map.get Text-discrete (lowercase name) m.by_name ≡ o
    → found (store m req) o ≡ found m o
found-store m req name none v room e = refl
found-store m req name (some id) v room e =
    let (b, there, bears) = v.0 (lowercase name) id e in
    let old = v.1 id b there in
    let apart : ¬ ((stored m req).id ≡ id) = λ same. let no : ⊥ = omega arith in no in
    Map.get-insert_other ℕ_discrete (stored m req).id id (stored m req) m.accounts apart

store-found :
    (m : MemoryStorage) (req : NewAccount) (name : Text)
    (d : Dec (lowercase req.name ≡ lowercase name))
    → IsValid m
    → HasRoom m
    → account_by_name (store m req) name ≡ ite d (some (stored m req)) (account_by_name m name)
unfolding account_by_name
store-found m req name (yes same) v room =
    let a = stored m req in
    rw (sym same, Map.get-insert_same Text-discrete (lowercase req.name) a.id m.by_name)
      (Map.get-insert_same ℕ_discrete a.id a m.accounts)
store-found m req name (no other) v room =
    rw
      (Map.get-insert_other Text-discrete (lowercase req.name) (lowercase name) (stored m req).id
        m.by_name other)
      (found-store m req name (Map.get Text-discrete (lowercase name) m.by_name) v room refl)

-- An account that is created, while the ids last, is found by its name in any case, and every other
-- name is found as before.
pub create_account-found :
    (m m' : MemoryStorage) (req : NewAccount) (a : Account) (name : Text)
    → IsValid m
    → HasRoom m
    → create_account m req ≡ (ok a, m')
    → account_by_name m' name
      ≡ ite (Text-discrete (lowercase req.name) (lowercase name)) (some a) (account_by_name m name)
unfolding create_account
create_account-found m m' req a name v room h =
    let (free, is_a, is_m') = created m m' req a (validate_account_name req.name) h in
    let d = Text-discrete (lowercase req.name) (lowercase name) in
    ap (λ (s : MemoryStorage). account_by_name s name) (sym is_m')
    ∙ store-found m req name d v room
    ∙ ap (λ (x : Account). ite d (some x) (account_by_name m name)) is_a
