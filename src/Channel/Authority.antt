-- ===== src/Channel/Authority.antt =====
-- Who may act, and how a join is decided.
use bnet_command_center.Base.{
  ℕ, ◌≤◌, ◌<◌, ◌≡◌, ◌⊎◌, none, some, true, false, List, [], ◌∷◌, ◌++◌, if◌then◌else◌, length, arith,
  ok, err,
}
use bnet_command_center.Base.Set
use bnet_command_center.Text.{Text}
use bnet_command_center.Channel.{
  Channel, not_operator, JoinOutcome, JoinDenial, full, banned, already_present, has_name,
  has_operator_flag, enter, join, is_operator, designate, kick, ban, unban, kick_by_name,
  ban_by_name, designate_by_name,
}
use bnet_command_center.Channel.Roster.{set_operator_flag_lem, clear_operator_flag_lem}

-- Every operator action of an account that is not the operator is refused as such, and leaves the
-- channel as it was.
pub actions_need_operator :
    (c : Channel) (by target : ℕ) (name : Text)
    → is_operator c by ≡ false
    → (designate c by target ≡ (c, err not_operator))
      × (kick c by target ≡ (c, err not_operator))
      × (ban c by target ≡ (c, err not_operator))
      × (unban c by target ≡ (c, err not_operator))
      × (kick_by_name c by name ≡ (c, err not_operator))
      × (ban_by_name c by name ≡ (c, err not_operator))
      × (designate_by_name c by name ≡ (c, err not_operator))
unfolding is_operator designate kick ban unban kick_by_name ban_by_name designate_by_name
actions_need_operator c by target name e = (
  rw (e, designate),
  rw (e, kick),
  rw (e, ban),
  rw (e, unban),
  rw (e, kick_by_name),
  rw (e, ban_by_name),
  rw (e, designate_by_name),
)

-- What a join that is let in does: the account is not banned, the name is free and there is room;
-- the new member stands at the end of the roster and shows the operator's flag exactly if operator
-- was granted, which happens only in a channel without an operator.
pub record Joined (c : Channel) (account : ℕ) (name : Text) (statstring : List ℕ) (c' : Channel)
    (out : JoinOutcome) : Type 0 where
  pub unbanned : Set.contains account c.bans ≡ false
  pub fresh : has_name name c.members ≡ false
  pub room : (c.max_users ≡ 0) ⊎ (length c.members < c.max_users)
  pub roster :
      c'.members
      ≡ c.members
        ++ record { account = account; name = name; flags = out.flags; statstring = statstring }
          ∷ []
  pub shown : has_operator_flag out.flags ≡ out.granted_operator
  pub leader : c'.operator ≡ (if out.granted_operator then some account else c.operator)
  pub vacant : (out.granted_operator ≡ false) ⊎ (c.operator ≡ none)

-- A join that is let in is as `Joined` says.
pub join-Joined :
    (c : Channel) (account : ℕ) (name : Text) (base_flags : ℕ) (statstring : List ℕ)
    (out : JoinOutcome)
    → (join c account name base_flags statstring).1 ≡ ok out
    → Joined c account name statstring (join c account name base_flags statstring).0 out
unfolding join enter
join-Joined c account name base_flags statstring out h = record {
  unbanned = ground arith;
  fresh = ground arith;
  room = ground arith;
  roster = ground arith;
  shown = ground (arith, set_operator_flag_lem base_flags, clear_operator_flag_lem base_flags);
  leader = ground arith;
  vacant = ground arith;
}

-- A refusal names the first thing that stands in the way, the ban before the name before the
-- capacity, and leaves the channel as it was.
pub join-refused :
    (c : Channel) (account : ℕ) (name : Text) (base_flags : ℕ) (statstring : List ℕ)
    (d : JoinDenial)
    → (join c account name base_flags statstring).1 ≡ err d
    → ((join c account name base_flags statstring).0 ≡ c)
      × (((d ≡ banned) × (Set.contains account c.bans ≡ true))
          ⊎ (((d ≡ already_present)
                × (Set.contains account c.bans ≡ false)
                × (has_name name c.members ≡ true))
              ⊎ ((d ≡ full)
                  × (Set.contains account c.bans ≡ false)
                  × (has_name name c.members ≡ false)
                  × (0 < c.max_users)
                  × (c.max_users ≤ length c.members))))
unfolding join enter
join-refused c account name base_flags statstring d h = ground arith
