-- ===== src/Channel/Succession.antt =====
-- Who is operator next.
use bnet_command_center.Base.{
  ℕ, ◌≡◌, refl, ap, ◌⊎◌, inl, inr, Option, none, some, Bool, true, false, not, List, [], ◌∷◌, ◌++◌,
  ◌==◌, find, retain, arith, Option-cases,
}
use bnet_command_center.Base.Set
use bnet_command_center.Channel.{Channel, Member, has_account, holds, succeed, remove_at}
use bnet_command_center.Channel.Valid.{IsValid}
use bnet_command_center.Channel.Valid.Removal.{has_account-split}

abbrev pub first : List ℕ → Option ℕ
first [] = none
first (x ∷ xs) = some x

-- In a list all of which passes, the first is found.
find-first :
    (p : ℕ → Bool) (xs : List ℕ)
    → ((x : ℕ) → Set.contains x xs ≡ true → p x ≡ true)
    → find p xs ≡ first xs
unfolding Set.contains
find-first p [] h = refl
find-first p (x ∷ xs) h = ground (arith, h x)

-- Retaining what is not in a list changes nothing.
retain-absent :
    (a : ℕ) (xs : List ℕ) → Set.contains a xs ≡ false → retain (λ x. not (x == a)) xs ≡ xs
unfolding Set.contains
retain-absent a [] h = refl
retain-absent a (x ∷ xs) h = ground (arith, retain-absent a xs)

-- When the operator's last session is removed, operator passes to the first of the designated
-- heirs, who is always present, and to nobody if none is designated; the outcome reports the same.
pub remove_at-succession :
    (c : Channel) (before : List Member) (m : Member) (after : List Member)
    → IsValid c
    → c.members ≡ before ++ m ∷ after
    → c.operator ≡ some m.account
    → has_account m.account (before ++ after) ≡ false
    → let (c', out) = remove_at c (before, m, after) in
      (c'.operator ≡ first c.heirs) × (out.new_operator ≡ first c.heirs)
unfolding remove_at
remove_at-succession c before m after v roster led gone =
    let heirs = retain-absent m.account c.heirs (v.not_heir m.account led) in
    let here =
      find-first (λ h. has_account h (before ++ after)) c.heirs
        (λ h e. ground (
          arith,
          v.heirs_present h e,
          ap (has_account h) roster,
          has_account-split before m after h,
          v.not_heir m.account led,
        )) in
    let led' : holds c.operator m.account ≡ true = ground arith in
    elim (Option-cases (first c.heirs)) [
      | inl e ↦ rw (gone, led', remove_at, heirs, here, e, succeed) (refl, refl)
      | inr (h, e) ↦ rw (gone, led', remove_at, heirs, here, e, succeed) (refl, refl)
    ]

-- While the operator's account has another session, removing a member moves no operator and drops
-- no heir.
pub remove_at-steady :
    (c : Channel) (before : List Member) (m : Member) (after : List Member)
    → has_account m.account (before ++ after) ≡ true ⊎ (holds c.operator m.account ≡ false)
    → ((remove_at c (before, m, after)).0.operator ≡ c.operator)
      × ((remove_at c (before, m, after)).1.new_operator ≡ none)
unfolding remove_at
remove_at-steady c before m after h = ground arith
