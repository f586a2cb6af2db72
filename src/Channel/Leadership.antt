-- ===== src/Channel/Leadership.antt =====
-- Operator cannot be taken: over every call it stays, or it passes to the first heir.
use bnet_command_center.Base.{
  ℕ, ◌≡◌, refl, sym, ap, subst, ◌∙◌, ◌⊎◌, inl, inr, Option, none, some, Bool, false, not, List, ◌∷◌,
  ◌++◌, ◌==◌, find, retain, arith, Option-cases, Bool-cases,
}
use bnet_command_center.Base.Set
use bnet_command_center.Text.{Text, same_text}
use bnet_command_center.Channel.{
  Channel, Member, Position, position, position_by_name, has_account, holds, succeed, remove_at,
  remove_found, join, enter, leave, designate, kick, ban, unban, kick_at, kick_by_name, ban_at,
  ban_by_name, designate_at, designate_by_name, Call, joins, leaves, designates, kicks,
  bans_account, unbans, kicks_name, bans_name, designates_name, sets_op_grant, sets_persist,
  set_op_grant, set_persist, step,
}
use bnet_command_center.Channel.Roster.{position-split}
use bnet_command_center.Channel.Succession.{first, remove_at-succession, remove_at-steady}
use bnet_command_center.Channel.Valid.{IsValid}
use bnet_command_center.Channel.Valid.Removal.{flag_first-has_account}
use bnet_command_center.Channel.Valid.Actions.{bans-IsValid}

remove_at-gone :
    (c : Channel) (before : List Member) (m : Member) (after : List Member)
    → has_account m.account (before ++ after) ≡ false
    → has_account m.account (remove_at c (before, m, after)).0.members ≡ false
unfolding remove_at succeed
remove_at-gone c before m after gone = elim (Bool-cases (holds c.operator m.account)) [
  | inr e ↦ rw (gone, e, remove_at) gone
  | inl e ↦
      elim (Option-cases (
        find (λ h. has_account h (before ++ after)) (retain (λ h. not (h == m.account)) c.heirs))) [
          | inl n ↦ rw (gone, e, remove_at, n, succeed) gone
          | inr (h, n) ↦
              rw (gone, e, remove_at, n, succeed)
                (flag_first-has_account (before ++ after) h m.account ∙ gone)
        ]
]

module _ (c : Channel) (a : ℕ) (v : IsValid c) (led : c.operator ≡ some a) where
  -- Operator stays, or the account is gone and operator passes to the first heir.
  Next : Channel → Type 0
  Next c' =
      (c'.operator ≡ some a) ⊎ ((c'.operator ≡ first c.heirs) × (has_account a c'.members ≡ false))

  removed-Next :
      (bans : List ℕ) (before : List Member) (m : Member) (after : List Member)
      → c.members ≡ before ++ m ∷ after
      → Next (remove_at (record c { bans = bans }) (before, m, after)).0
  unfolding Next
  removed-Next bans before m after split =
      let c' = record c { bans = bans } in
      elim (Bool-cases (has_account m.account (before ++ after))) [
        | inl still ↦ inl (ground (arith, remove_at-steady c' before m after (inl still)))
        | inr gone ↦ elim (Bool-cases (m.account == a)) [
          | inr other ↦
              inl (ground (arith, remove_at-steady c' before m after (inr (ground arith))))
          | inl own ↦
              let e : m.account ≡ a = ground arith in
              inr (
                (remove_at-succession c' before m after (bans-IsValid c bans v) split
                    (led ∙ ap some (sym e)) gone).0,
                subst (λ k. has_account k (remove_at c' (before, m, after)).0.members ≡ false) e
                    (remove_at-gone c' before m after gone),
              )
        ]
      ]

  found-Next :
      (bans : List ℕ) (p : Member → Bool)
      → Next (remove_found (record c { bans = bans }) (position p c.members)).0
  unfolding Next
  found-Next bans p = elim (Option-cases (position p c.members)) [
    | inl e ↦ rw (e, remove_found) (inl led)
    | inr ((before, m, after), e) ↦
        rw (e, remove_found)
          (removed-Next bans before m after (position-split p c.members before m after e).0)
  ]

  same-Next : Next c
  unfolding Next
  same-Next = inl led

  join-Next :
      (account : ℕ) (name : Text) (base_flags : ℕ) (statstring : List ℕ)
      → Next (join c account name base_flags statstring).0
  unfolding Next join enter
  join-Next account name base_flags statstring = inl (ground arith)

  kick_at-Next : (by : ℕ) (p : Member → Bool) → Next (kick_at c by (position p c.members)).0
  unfolding kick_at
  kick_at-Next by p = elim (Option-cases (position p c.members)) [
    | inl e ↦ rw (e, kick_at) same-Next
    | inr ((before, m, after), e) ↦
        let removed =
          removed-Next c.bans before m after (position-split p c.members before m after e).0 in
        elim (Bool-cases (m.account == by)) [
          | inl self ↦ rw (e, kick_at, self) same-Next
          | inr other ↦ rw (e, kick_at, other) removed
        ]
  ]

  ban_at-Next : (by : ℕ) (p : Member → Bool) → Next (ban_at c by (position p c.members)).0
  unfolding ban_at
  ban_at-Next by p = elim (Option-cases (position p c.members)) [
    | inl e ↦ rw (e, ban_at) same-Next
    | inr ((before, m, after), e) ↦
        let split = (position-split p c.members before m after e).0 in
        elim (Bool-cases (m.account == by)) [
          | inl self ↦ rw (e, ban_at, self) same-Next
          | inr other ↦
              rw (e, ban_at, other)
                (removed-Next (Set.insert m.account c.bans) before m after split)
        ]
  ]

  designate_at-same : (by : ℕ) (o : Option Position) → (designate_at c by o).0.operator ≡ c.operator
  unfolding designate_at
  designate_at-same by none = refl
  designate_at-same by (some (before, m, after)) = ground arith

-- Operator cannot be taken: over any call of a valid channel with an operator, either the operator
-- is the same, or the operator's account has no session left in the channel and operator is with
-- the first of the designated heirs, or with nobody if there is none.
pub step-operator :
    (c : Channel) (a : ℕ) (e : Call)
    → IsValid c
    → c.operator ≡ some a
    → ((step c e).operator ≡ some a)
      ⊎ (((step c e).operator ≡ first c.heirs) × (has_account a (step c e).members ≡ false))
unfolding step Next leave kick ban unban designate kick_by_name ban_by_name designate_by_name
    set_op_grant set_persist
step-operator c a (joins account name flags statstring) v led =
    join-Next c a v led account name flags statstring
step-operator c a (leaves name) v led = found-Next c a v led c.bans (λ m. same_text m.name name)
step-operator c a (designates by heir) v led = inl (ground arith)
step-operator c a (kicks by target) v led =
    ground (arith, found-Next c a v led c.bans (λ m. m.account == target))
step-operator c a (bans_account by target) v led =
    ground (arith, found-Next c a v led (Set.insert target c.bans) (λ m. m.account == target))
step-operator c a (unbans by target) v led = inl (ground arith)
step-operator c a (kicks_name by target) v led =
    ground (arith, kick_at-Next c a v led by (λ m. same_text m.name target))
step-operator c a (bans_name by target) v led =
    ground (arith, ban_at-Next c a v led by (λ m. same_text m.name target))
step-operator c a (designates_name by target) v led =
    inl (ground (arith, designate_at-same c a v led by (position_by_name c.members target)))
step-operator c a (sets_op_grant grant) v led = inl led
step-operator c a (sets_persist persist) v led = inl led
