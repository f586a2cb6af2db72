-- ===== src/Storage/Memory/Valid.antt =====
-- The two indexes of the accounts agree over every call.
use bnet_command_center.Base.{
  ℕ, ◌+◌, ◌≤◌, ◌<◌, ◌^◌, ◌≡◌, refl, sym, ap, ◌∙◌, Option, none, some, ℕ_discrete, Result, ok, err,
  arith,
}
use bnet_command_center.Base.Map
use bnet_command_center.Text.{Text, Text-discrete, lowercase}
use bnet_command_center.Storage.{StorageError}
use bnet_command_center.Storage.Names.{validate_account_name}
use bnet_command_center.Storage.Memory.{
  Credential, Account, NewAccount, MemoryStorage, new, stored, store, create_free, create_named,
  create_account, set_found, set_credential,
}

-- A name leads to an account that bears it, in some case.
abbrev pub IsNamed : MemoryStorage → Type 0
IsNamed m =
    (name : Text) (id : ℕ)
    → Map.get Text-discrete name m.by_name ≡ some id
    → (a : Account) × (Map.get ℕ_discrete id m.accounts ≡ some a) × (lowercase a.name ≡ name)

-- An account bears its id, which has been given out, and its name leads to it.
abbrev pub IsIndexed : MemoryStorage → Type 0
IsIndexed m =
    (id : ℕ) (a : Account)
    → Map.get ℕ_discrete id m.accounts ≡ some a
    → (a.id ≡ id)
      × (id ≤ m.next_id)
      × (Map.get Text-discrete (lowercase a.name) m.by_name ≡ some id)

abbrev pub IsValid : MemoryStorage → Type 0
IsValid m = IsNamed m × IsIndexed m

pub new-IsValid : IsValid new
unfolding new Map.get
new-IsValid =
    (λ name id e. let no : ⊥ = cc e in elim no [ ], λ id a e. let no : ⊥ = cc e in elim no [ ])

-- Ids that have not run out.
abbrev pub HasRoom : MemoryStorage → Type 0
HasRoom m = m.next_id + 1 < 2 ^ 64

store-IsNamed :
    (m : MemoryStorage) (req : NewAccount) → IsValid m → HasRoom m → IsNamed (store m req)
store-IsNamed m req v room name id e =
    let a = stored m req in
    let fresh : a.id ≡ m.next_id + 1 = omega arith in
    elim (Text-discrete (lowercase req.name) name) [
      | yes same ↦
          let here : some a.id ≡ some id =
            sym (Map.get-insert_same Text-discrete (lowercase req.name) a.id m.by_name)
            ∙ ap (λ (n : Text). Map.get Text-discrete n (store m req).by_name) same
            ∙ e in
          let at_id : a.id ≡ id = cc here in
          (
            a,
            ap (λ (i : ℕ). Map.get ℕ_discrete i (store m req).accounts) (sym at_id)
                ∙ Map.get-insert_same ℕ_discrete a.id a m.accounts,
            same,
          )
      | no other ↦
          let before =
            sym (Map.get-insert_other Text-discrete (lowercase req.name) name a.id m.by_name other)
            ∙ e in
          let (b, there, named) = v.0 name id before in
          let old = v.1 id b there in
          let apart : ¬ (a.id ≡ id) = λ same. let no : ⊥ = omega arith in no in
          (b, Map.get-insert_other ℕ_discrete a.id id a m.accounts apart ∙ there, named)
    ]

store-IsIndexed :
    (m : MemoryStorage) (req : NewAccount)
    → IsValid m
    → HasRoom m
    → Map.get Text-discrete (lowercase req.name) m.by_name ≡ none
    → IsIndexed (store m req)
store-IsIndexed m req v room free id b e =
    let a = stored m req in
    let fresh : a.id ≡ m.next_id + 1 = omega arith in
    elim (ℕ_discrete a.id id) [
      | yes same ↦
          let here : some a ≡ some b =
            sym (Map.get-insert_same ℕ_discrete a.id a m.accounts)
            ∙ ap (λ (i : ℕ). Map.get ℕ_discrete i (store m req).accounts) same
            ∙ e in
          let it : a ≡ b = cc here in
          (
            ap (λ (x : Account). x.id) (sym it) ∙ same,
            omega arith,
            ap (λ (x : Account). Map.get Text-discrete (lowercase x.name) (store m req).by_name)
                  (sym it)
                ∙ Map.get-insert_same Text-discrete (lowercase req.name) a.id m.by_name
                ∙ ap some same,
          )
      | no other ↦
          let before = sym (Map.get-insert_other ℕ_discrete a.id id a m.accounts other) ∙ e in
          let old = v.1 id b before in
          let apart : ¬ (lowercase req.name ≡ lowercase b.name) = λ same.
            let clash : none ≡ some id =
              sym free ∙ ap (λ (n : Text). Map.get Text-discrete n m.by_name) same ∙ old.2 in
            cc clash in
          (
            old.0,
            omega arith,
            Map.get-insert_other Text-discrete (lowercase req.name) (lowercase b.name) a.id
                  m.by_name apart
                ∙ old.2,
          )
    ]

create_free-IsValid :
    (m : MemoryStorage) (req : NewAccount) (o : Option ℕ)
    → IsValid m
    → HasRoom m
    → Map.get Text-discrete (lowercase req.name) m.by_name ≡ o
    → IsValid (create_free m req o).1
create_free-IsValid m req (some id) v room e = v
create_free-IsValid m req none v room e =
    (store-IsNamed m req v room, store-IsIndexed m req v room e)

create_named-IsValid :
    (m : MemoryStorage) (req : NewAccount) (r : Result (Unit {0}) StorageError)
    → IsValid m
    → HasRoom m
    → IsValid (create_named m req r).1
create_named-IsValid m req (err e) v room = v
create_named-IsValid m req (ok checked) v room = create_free-IsValid m req _ v room refl

pub create_account-IsValid :
    (m : MemoryStorage) (req : NewAccount)
    → IsValid m
    → HasRoom m
    → IsValid (create_account m req).1
unfolding create_account
create_account-IsValid m req v room =
    create_named-IsValid m req (validate_account_name req.name) v room

set_found-IsValid :
    (m : MemoryStorage) (id : ℕ) (credential : Credential) (o : Option Account)
    → Map.get ℕ_discrete id m.accounts ≡ o
    → IsValid m
    → IsValid (set_found m id credential o).1
set_found-IsValid m id credential none e v = v
set_found-IsValid m id credential (some a) e v =
    let a' = record a { credential = credential } in
    let accounts = Map.insert ℕ_discrete id a' m.accounts in
    (
      λ name i named.
          let (b, there, bears) = v.0 name i named in
          elim (ℕ_discrete id i) [
            | yes same ↦
                let it : some a ≡ some b =
                  sym e ∙ ap (λ (k : ℕ). Map.get ℕ_discrete k m.accounts) same ∙ there in
                let known : a ≡ b = cc it in
                (
                  a',
                  ap (λ (k : ℕ). Map.get ℕ_discrete k accounts) (sym same)
                      ∙ Map.get-insert_same ℕ_discrete id a' m.accounts,
                  ap (λ (x : Account). lowercase x.name) known ∙ bears,
                )
            | no other ↦
                (b, Map.get-insert_other ℕ_discrete id i a' m.accounts other ∙ there, bears)
          ],
      λ i b there. elim (ℕ_discrete id i) [
        | yes same ↦
            let it : some a' ≡ some b =
              sym (Map.get-insert_same ℕ_discrete id a' m.accounts)
              ∙ ap (λ (k : ℕ). Map.get ℕ_discrete k accounts) same
              ∙ there in
            let known : a' ≡ b = cc it in
            let old = v.1 id a e in
            (
              ap (λ (x : Account). x.id) (sym known) ∙ old.0 ∙ same,
              omega arith,
              ap (λ (x : Account). Map.get Text-discrete (lowercase x.name) m.by_name) (sym known)
                  ∙ old.2
                  ∙ ap some same,
            )
        | no other ↦
            v.1 i b (sym (Map.get-insert_other ℕ_discrete id i a' m.accounts other) ∙ there)
      ],
    )

pub set_credential-IsValid :
    (m : MemoryStorage) (id : ℕ) (credential : Credential)
    → IsValid m
    → IsValid (set_credential m id credential).1
unfolding set_credential
set_credential-IsValid m id credential v = set_found-IsValid m id credential _ refl v
