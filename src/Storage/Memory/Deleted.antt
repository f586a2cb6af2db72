-- ===== src/Storage/Memory/Deleted.antt =====
-- A deleted account leaves both indexes, and its name is free.
use bnet_command_center.Base.{ℕ, ◌≡◌, refl, sym, ap, ◌∙◌, Option, none, some, ℕ_discrete}
use bnet_command_center.Base.Map
use bnet_command_center.Text.{Text, Text-discrete, lowercase}
use bnet_command_center.Storage.Memory.{Account, MemoryStorage, delete_account, unnamed}
use bnet_command_center.Storage.Memory.Valid.{IsValid}

module _ (m : MemoryStorage) (id : ℕ) (v : IsValid m) where
  unnamed-other :
      (o : Option Account) (name : Text) (i : ℕ)
      → Map.get ℕ_discrete id m.accounts ≡ o
      → Map.get Text-discrete name (unnamed m.by_name o) ≡ some i
      → ¬ (id ≡ i) × (Map.get Text-discrete name m.by_name ≡ some i)
  unnamed-other none name i e h =
      let (b, there, bears) = v.0 name i h in
      (
        (λ same.
            let clash : none ≡ some b =
              sym e ∙ ap (λ (k : ℕ). Map.get ℕ_discrete k m.accounts) same ∙ there in
            cc clash),
        h,
      )
  unnamed-other (some a) name i e h = elim (Text-discrete (lowercase a.name) name) [
    | yes same ↦
        let gone : none ≡ some i =
          sym (Map.get-remove_same Text-discrete (lowercase a.name) m.by_name)
          ∙ ap (λ (n : Text). Map.get Text-discrete n (unnamed m.by_name (some a))) same
          ∙ h in
        let no : ⊥ = cc gone in elim no [ ]
    | no other ↦
        let before =
          sym (Map.get-remove_other Text-discrete (lowercase a.name) name m.by_name other) ∙ h in
        let (b, there, bears) = v.0 name i before in
        (
          (λ same.
              let it : some a ≡ some b =
                sym e ∙ ap (λ (k : ℕ). Map.get ℕ_discrete k m.accounts) same ∙ there in
              let known : a ≡ b = cc it in
              other (ap (λ (x : Account). lowercase x.name) known ∙ bears)),
          before,
        )
  ]

  unnamed-kept :
      (o : Option Account) (b : Account) (i : ℕ)
      → Map.get ℕ_discrete id m.accounts ≡ o
      → ¬ (id ≡ i)
      → Map.get Text-discrete (lowercase b.name) m.by_name ≡ some i
      → Map.get Text-discrete (lowercase b.name) (unnamed m.by_name o) ≡ some i
  unnamed-kept none b i e other h = h
  unnamed-kept (some a) b i e other h =
      let apart : ¬ (lowercase a.name ≡ lowercase b.name) = λ same.
        let both : some id ≡ some i =
          sym (v.1 id a e).2 ∙ ap (λ (n : Text). Map.get Text-discrete n m.by_name) same ∙ h in
        let known : id ≡ i = cc both in other known in
      Map.get-remove_other Text-discrete (lowercase a.name) (lowercase b.name) m.by_name apart ∙ h

  pub delete_account-IsValid : IsValid (delete_account m id)
  unfolding delete_account
  delete_account-IsValid = (
    λ name i named.
        let (other, before) = unnamed-other _ name i refl named in
        let (b, there, bears) = v.0 name i before in
        (b, Map.get-remove_other ℕ_discrete id i m.accounts other ∙ there, bears),
    λ i b there. elim (ℕ_discrete id i) [
      | yes same ↦
          let gone : none ≡ some b =
            sym (Map.get-remove_same ℕ_discrete id m.accounts)
            ∙ ap (λ (k : ℕ). Map.get ℕ_discrete k (Map.remove ℕ_discrete id m.accounts)) same
            ∙ there in
          let no : ⊥ = cc gone in elim no [ ]
      | no other ↦
          let old = v.1 i b (sym (Map.get-remove_other ℕ_discrete id i m.accounts other) ∙ there) in
          (old.0, old.1, unnamed-kept _ b i refl other old.2)
    ],
  )
