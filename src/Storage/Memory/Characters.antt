-- ===== src/Storage/Memory/Characters.antt =====
-- The characters over every call: each has its account, and no two have one name.
use bnet_command_center.Base.{
  ℕ, ◌≡◌, refl, ap, Option, none, some, is_some, Bool, Bool-cases, inl, inr, true, false, not, List,
  [], ◌∷◌, ◌++◌, All, any, retain, ◌==◌, ℕ_discrete, Result, ok, err, arith,
}
use bnet_command_center.Base.Map
use bnet_command_center.Text.{Text, Text-discrete, lowercase, same_text, same_text_comm}
use bnet_command_center.Storage.{StorageError, AttrMap}
use bnet_command_center.Storage.Names.{validate_account_name}
use bnet_command_center.Storage.Memory.{
  Credential, Account, NewAccount, Character, MemoryStorage, create_free, create_named,
  create_account, set_found, set_credential, attrs_put, ban_put, ban_clear, delete_account,
  add_character, create_character, is_character, update_first, update_character, delete_character,
}
use bnet_command_center.Storage.Memory.Calls.{
  Call, create, credential, attributes, ban, unban, delete, make_character, change_character,
  drop_character, apply, run,
}

abbrev Owned : List (ℕ × Account) → List Character → Type 0
Owned accounts = All (λ (c : Character). is_some (Map.get ℕ_discrete c.account accounts) ≡ true)

-- No name in any case is a later one's.
abbrev Apart : List Character → Type 0
Apart [] = Unit {0}
Apart (c ∷ cs) = All (λ (d : Character). same_text d.name c.name ≡ false) cs × Apart cs

abbrev pub HasOwners : MemoryStorage → Type 0
HasOwners m = Owned m.accounts m.characters × Apart m.characters

Owned-insert :
    (id : ℕ) (a : Account) (accounts : List (ℕ × Account)) (cs : List Character)
    → Owned accounts cs
    → Owned (Map.insert ℕ_discrete id a accounts) cs
Owned-insert id a accounts [] h = tt
Owned-insert id a accounts (c ∷ cs) h = (
  ground (arith, Map.get-insert ℕ_discrete id c.account a accounts, h.0),
  Owned-insert id a accounts cs h.1,
)

Owned-remove :
    (id : ℕ) (accounts : List (ℕ × Account)) (cs : List Character)
    → Owned accounts cs
    → Owned
        (Map.remove ℕ_discrete id accounts)
        (retain (λ (c : Character). not (c.account == id)) cs)
Owned-remove id accounts [] h = tt
Owned-remove id accounts (c ∷ cs) h =
    let rest = Owned-remove id accounts cs h.1 in
    elim (Bool-cases (c.account == id)) [
      | inl e ↦ rw e rest
      | inr e ↦ rw e (ground (arith, Map.get-remove ℕ_discrete id c.account accounts, h.0), rest)
    ]

retain-All :
    (P : Character → Type 0) (p : Character → Bool) (cs : List Character)
    → All P cs
    → All P (retain p cs)
retain-All P p [] h = tt
retain-All P p (c ∷ cs) h = elim (Bool-cases (p c)) [
  | inl e ↦ rw e (h.0, retain-All P p cs h.1)
  | inr e ↦ rw e (retain-All P p cs h.1)
]

retain-Apart : (p : Character → Bool) (cs : List Character) → Apart cs → Apart (retain p cs)
retain-Apart p [] h = tt
retain-Apart p (c ∷ cs) h = elim (Bool-cases (p c)) [
  | inl e ↦ rw e (retain-All _ p cs h.0, retain-Apart p cs h.1)
  | inr e ↦ rw e (retain-Apart p cs h.1)
]

append-All :
    (P : Character → Type 0) (cs : List Character) (c : Character)
    → All P cs
    → P c
    → All P (cs ++ c ∷ [])
append-All P [] c h p = (p, tt)
append-All P (d ∷ cs) c h p = (h.0, append-All P cs c h.1 p)

append-Apart :
    (cs : List Character) (c : Character)
    → any (λ (d : Character). same_text d.name c.name) cs ≡ false
    → Apart cs
    → Apart (cs ++ c ∷ [])
append-Apart [] c free h = (tt, tt)
append-Apart (d ∷ cs) c free h = (
  append-All _ cs c h.0 (ground (arith, same_text_comm c.name d.name)),
  append-Apart cs c (ground arith) h.1,
)

-- A predicate on the owner and the name is kept by an update.
update-All :
    (P : ℕ → Text → Type 0) (c : Character) (ds : List Character)
    → All (λ (d : Character). P d.account d.name) ds
    → All (λ (d : Character). P d.account d.name) (update_first c ds)
unfolding update_first
update-All P c [] h = tt
update-All P c (d ∷ ds) h = elim (Bool-cases (is_character c.account c.name d)) [
  | inl e ↦ rw e (h.0, h.1)
  | inr e ↦ rw e (h.0, update-All P c ds h.1)
]

update-Apart : (c : Character) (ds : List Character) → Apart ds → Apart (update_first c ds)
unfolding update_first
update-Apart c [] h = tt
update-Apart c (d ∷ ds) h = elim (Bool-cases (is_character c.account c.name d)) [
  | inl e ↦ rw e (h.0, h.1)
  | inr e ↦
      rw e
        (update-All (λ account name. same_text name d.name ≡ false) c ds h.0, update-Apart c ds h.1)
]

add-HasOwners :
    (m : MemoryStorage) (c : Character) (o : Option Account)
    → Map.get ℕ_discrete c.account m.accounts ≡ o
    → HasOwners m
    → HasOwners (add_character m c o).1
add-HasOwners m c none e h = h
add-HasOwners m c (some a) e h =
    elim (Bool-cases (any (λ (d : Character). same_text d.name c.name) m.characters)) [
      | inl taken ↦ rw taken h
      | inr free ↦
          rw free
            (append-All _ m.characters c h.0 (ap is_some e), append-Apart m.characters c free h.1)
    ]

update-HasOwners :
    (m : MemoryStorage) (c : Character) → HasOwners m → HasOwners (update_character m c).1
unfolding update_character
update-HasOwners m c h = elim (Bool-cases (any (is_character c.account c.name) m.characters)) [
  | inl e ↦
      let kept =
        λ (account : ℕ) (name : Text). is_some (Map.get ℕ_discrete account m.accounts) ≡ true in
      rw e (update-All kept c m.characters h.0, update-Apart c m.characters h.1)
  | inr e ↦ rw e h
]

create-HasOwners :
    (m : MemoryStorage) (req : NewAccount) (r : Result (Unit {0}) StorageError)
    → HasOwners m
    → HasOwners (create_named m req r).1
create-HasOwners m req (err e) h = h
create-HasOwners m req (ok checked) h =
    elim (Map.get Text-discrete (lowercase req.name) m.by_name)
      as (λ o. HasOwners (create_free m req o).1) [
        | none ↦ (Owned-insert _ _ m.accounts m.characters h.0, h.1)
        | some id ↦ h
      ]

set-HasOwners :
    (m : MemoryStorage) (id : ℕ) (c : Credential) (o : Option Account)
    → HasOwners m
    → HasOwners (set_found m id c o).1
set-HasOwners m id c none h = h
set-HasOwners m id c (some a) h = (Owned-insert _ _ m.accounts m.characters h.0, h.1)

put-HasOwners :
    (m : MemoryStorage) (id : ℕ) (attrs : AttrMap) → HasOwners m → HasOwners (attrs_put m id attrs)
unfolding attrs_put
put-HasOwners m id [] h = h
put-HasOwners m id (a ∷ attrs) h = h

apply-HasOwners : (call : Call) (m : MemoryStorage) → HasOwners m → HasOwners (apply call m)
unfolding create_account set_credential ban_put ban_clear delete_account create_character
    delete_character
apply-HasOwners (create req) m h = create-HasOwners m req (validate_account_name req.name) h
apply-HasOwners (credential id c) m h = set-HasOwners m id c (Map.get ℕ_discrete id m.accounts) h
apply-HasOwners (attributes id attrs) m h = put-HasOwners m id attrs h
apply-HasOwners (ban b) m h = h
apply-HasOwners (unban id scope) m h = h
apply-HasOwners (delete id) m h =
    (Owned-remove id m.accounts m.characters h.0, retain-Apart _ m.characters h.1)
apply-HasOwners (make_character c) m h =
    add-HasOwners m c (Map.get ℕ_discrete c.account m.accounts) refl h
apply-HasOwners (change_character c) m h = update-HasOwners m c h
apply-HasOwners (drop_character account name) m h =
    (retain-All _ _ m.characters h.0, retain-Apart _ m.characters h.1)

-- Over every call, each character belongs to an account that is there, and no two characters have
-- the same name in any case.
pub run-HasOwners : (calls : List Call) (m : MemoryStorage) → HasOwners m → HasOwners (run calls m)
unfolding run
run-HasOwners [] m h = h
run-HasOwners (call ∷ calls) m h = run-HasOwners calls (apply call m) (apply-HasOwners call m h)
