-- ===== src/Channel/Valid/Actions.antt =====
-- Leaving and the operator actions keep the invariant of a channel.
use bnet_command_center.Base.{
  ℕ, ◌+◌, ◌%◌, u64_mod, ◌≡◌, ◌≢◌, ap, ◌∙◌, none, some, Bool, true, false, not, List, [], ◌∷◌, ◌++◌,
  ◌==◌, retain, arith, inl, inr, Option-cases, Bool-cases,
}
use bnet_command_center.Base.Set
use bnet_command_center.Text.{Text, same_text}
use bnet_command_center.Channel.{
  Channel, Member, position, position_by_name, has_account, holds, remove_found, is_operator,
  designate, kick, ban, unban, kick_at, kick_by_name, ban_at, ban_by_name, designate_at,
  designate_by_name,
}
use bnet_command_center.Channel.Valid.{IsValid}
use bnet_command_center.Channel.Valid.Removal.{remove_at-IsValid, has_account-split}
use bnet_command_center.Channel.Roster.{position-split, contains-retain, contains-snoc}

pub remove_found-IsValid :
    (c : Channel) (p : Member → Bool)
    → IsValid c
    → IsValid (remove_found c (position p c.members)).0
remove_found-IsValid c p v = elim (Option-cases (position p c.members)) [
  | inl e ↦ rw (e, remove_found) v
  | inr ((before, m, after), e) ↦
      rw (e, remove_found)
        (remove_at-IsValid c before m after (position-split p c.members before m after e).0 v)
]

-- The bans play no part in the invariant.
pub bans-IsValid : (c : Channel) (bans : List ℕ) → IsValid c → IsValid (record c { bans = bans })
bans-IsValid c bans v = record {
  operator_present = v.operator_present;
  heirs_present = v.heirs_present;
  leaderless = v.leaderless;
  not_heir = v.not_heir;
  capacity = v.capacity;
  distinct = v.distinct;
  flagged = v.flagged;
}

module _ (c : Channel) (v : IsValid c) where
  -- Designating an heir who is present and is not the operator.
  heir-IsValid :
      (heirs : List ℕ) (seq : ℕ)
      → c.operator ≢ none
      → ((h : ℕ) → Set.contains h heirs ≡ true → has_account h c.members ≡ true)
      → ((a : ℕ) → c.operator ≡ some a → Set.contains a heirs ≡ false)
      → IsValid (record c { heirs = heirs; seq = seq })
  heir-IsValid heirs seq led here other = record {
    operator_present = v.operator_present;
    heirs_present = here;
    leaderless = λ e. absurd (led e);
    not_heir = other;
    capacity = v.capacity;
    distinct = v.distinct;
    flagged = v.flagged;
  }

  pub designate-IsValid : (by heir : ℕ) → IsValid (designate c by heir).0
  unfolding designate is_operator
  designate-IsValid by heir = elim (Bool-cases (holds c.operator by)) [
    | inr e ↦ rw (e, designate) v
    | inl led ↦ elim (Bool-cases (by == heir)) [
      | inl e ↦ rw (led, e, designate) v
      | inr other ↦ elim (Bool-cases (has_account heir c.members)) [
        | inr e ↦ rw (led, other, e, designate) v
        | inl here ↦
            let rest = retain (λ h. not (h == heir)) c.heirs in
            rw (led, other, here, designate)
              (heir-IsValid (rest ++ heir ∷ []) ((c.seq + 1) % u64_mod) (λ e. ground arith)
                (λ h e. ground (
                  arith,
                  contains-snoc heir h rest,
                  contains-retain heir h c.heirs,
                  v.heirs_present h,
                ))
                (λ a e. ground (
                  arith,
                  contains-snoc heir a rest,
                  contains-retain heir a c.heirs,
                  v.not_heir a e,
                )))
      ]
    ]
  ]

  pub kick-IsValid : (by target : ℕ) → IsValid (kick c by target).0
  unfolding kick
  kick-IsValid by target =
      let removed = remove_found-IsValid c (λ m. m.account == target) v in
      ground (arith, v, removed)

  pub ban-IsValid : (by target : ℕ) → IsValid (ban c by target).0
  unfolding ban
  ban-IsValid by target =
      let c' = record c { bans = Set.insert target c.bans } in
      let removed =
        remove_found-IsValid c' (λ m. m.account == target)
          (bans-IsValid c (Set.insert target c.bans) v) in
      ground (arith, v, removed)

  pub unban-IsValid : (by target : ℕ) → IsValid (unban c by target).0
  unfolding unban
  unban-IsValid by target = ground (arith, v, bans-IsValid c (Set.remove target c.bans) v)

  pub kick_by_name-IsValid : (by : ℕ) (target : Text) → IsValid (kick_by_name c by target).0
  unfolding kick_by_name
  kick_by_name-IsValid by target = elim (Bool-cases (holds c.operator by)) [
    | inr e ↦ rw (e, kick_by_name) v
    | inl led ↦ elim (Option-cases (position_by_name c.members target)) [
      | inl e ↦ rw (led, e, kick_by_name, kick_at) v
      | inr ((before, m, after), e) ↦
          let (split, _) =
            position-split (λ m. same_text m.name target) c.members before m after e in
          elim (Bool-cases (m.account == by)) [
            | inl self ↦ rw (led, e, kick_by_name, kick_at, self) v
            | inr other ↦
                rw (led, e, kick_by_name, kick_at, other)
                  (remove_at-IsValid c before m after split v)
          ]
    ]
  ]

  pub ban_by_name-IsValid : (by : ℕ) (target : Text) → IsValid (ban_by_name c by target).0
  unfolding ban_by_name
  ban_by_name-IsValid by target = elim (Bool-cases (holds c.operator by)) [
    | inr e ↦ rw (e, ban_by_name) v
    | inl led ↦ elim (Option-cases (position_by_name c.members target)) [
      | inl e ↦ rw (led, e, ban_by_name, ban_at) v
      | inr ((before, m, after), e) ↦
          let (split, _) =
            position-split (λ m. same_text m.name target) c.members before m after e in
          let bans = Set.insert m.account c.bans in
          elim (Bool-cases (m.account == by)) [
            | inl self ↦ rw (led, e, ban_by_name, ban_at, self) v
            | inr other ↦
                rw (led, e, ban_by_name, ban_at, other)
                  (remove_at-IsValid (record c { bans = bans }) before m after split
                    (bans-IsValid c bans v))
          ]
    ]
  ]

  pub designate_by_name-IsValid :
      (by : ℕ) (target : Text) → IsValid (designate_by_name c by target).0
  unfolding designate_by_name
  designate_by_name-IsValid by target = elim (Bool-cases (holds c.operator by)) [
    | inr e ↦ rw (e, designate_by_name) v
    | inl led ↦ elim (Option-cases (position_by_name c.members target)) [
      | inl e ↦ rw (led, e, designate_by_name, designate_at) v
      | inr ((before, m, after), e) ↦
          let (split, _) =
            position-split (λ m. same_text m.name target) c.members before m after e in
          let here : has_account m.account c.members ≡ true =
            ap (has_account m.account) split
            ∙ ground (arith, has_account-split before m after m.account) in
          elim (Bool-cases (m.account == by)) [
            | inl self ↦ rw (led, e, designate_by_name, designate_at, self) v
            | inr other ↦ elim (Bool-cases (Set.contains m.account c.heirs)) [
              | inl known ↦ rw (led, e, designate_by_name, designate_at, other, known) v
              | inr new_heir ↦
                  rw (led, e, designate_by_name, designate_at, other, new_heir)
                    (heir-IsValid (c.heirs ++ m.account ∷ []) ((c.seq + 1) % u64_mod)
                      (λ e. ground arith)
                      (λ h e. ground (arith, contains-snoc m.account h c.heirs, v.heirs_present h))
                      (λ a e. ground (arith, contains-snoc m.account a c.heirs, v.not_heir a e)))
            ]
          ]
    ]
  ]
