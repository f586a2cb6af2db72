-- ===== src/Channel/Valid/Entry.antt =====
-- A join keeps the invariant of a channel.
use bnet_command_center.Base.{
  ℕ, ◌<◌, ◌≡◌, ◌≢◌, none, some, true, false, not, ◌&&◌, List, [], ◌∷◌, ◌==◌, leb, length, arith,
  inl, inr, Bool-cases, length-append, is_some,
}
use bnet_command_center.Base.Set
use bnet_command_center.Text.{Text}
use bnet_command_center.Channel.{
  Channel, Member, has_name, set_operator_flag, clear_operator_flag, grants, enter, join,
}
use bnet_command_center.Channel.Valid.{IsValid}
use bnet_command_center.Channel.Valid.Removal.{weaken-Shows}
use bnet_command_center.Channel.Roster.{
  All-append, Distinct-snoc, has_account-append, Shows, clear_operator_flag_lem,
}

module _ (c : Channel) (v : IsValid c) where
  -- A member enters without the operator's flag.
  enter_plain-IsValid :
      (account : ℕ) (name : Text) (base_flags : ℕ) (statstring : List ℕ)
      → has_name name c.members ≡ false
      → (c.max_users ≢ 0 → length c.members < c.max_users)
      → IsValid (enter c account name base_flags statstring false).0
  unfolding enter
  enter_plain-IsValid account name base_flags statstring fresh room =
      let m : Member = record {
        account = account;
        name = name;
        flags = clear_operator_flag base_flags;
        statstring = statstring;
      } in
      record {
        operator_present =
            λ a e. ground (arith, has_account-append a c.members (m ∷ []), v.operator_present a e);
        heirs_present =
            λ h e. ground (arith, has_account-append h c.members (m ∷ []), v.heirs_present h e);
        leaderless = v.leaderless;
        not_heir = v.not_heir;
        capacity = λ h. omega (arith, room h, length-append c.members (m ∷ []));
        distinct = Distinct-snoc c.members m fresh v.distinct;
        flagged =
            All-append (Shows c.operator) c.members (m ∷ []) v.flagged
              (λ f. absurd (ground (arith, clear_operator_flag_lem base_flags)), tt);
      }

  -- A member enters a channel without an operator, and becomes its operator.
  enter_operator-IsValid :
      (account : ℕ) (name : Text) (base_flags : ℕ) (statstring : List ℕ)
      → c.operator ≡ none
      → has_name name c.members ≡ false
      → (c.max_users ≢ 0 → length c.members < c.max_users)
      → IsValid (enter c account name base_flags statstring true).0
  unfolding enter Set.contains
  enter_operator-IsValid account name base_flags statstring free fresh room =
      let m : Member = record {
        account = account;
        name = name;
        flags = set_operator_flag base_flags;
        statstring = statstring;
      } in
      let nobody = v.leaderless free in
      record {
        operator_present = λ a e. ground (arith, has_account-append a c.members (m ∷ []));
        heirs_present = λ h e. absurd (ground (arith, nobody));
        leaderless = λ e. cc;
        not_heir = λ a e. rw nobody;
        capacity = λ h. omega (arith, room h, length-append c.members (m ∷ []));
        distinct = Distinct-snoc c.members m fresh v.distinct;
        flagged =
            All-append (Shows (some account)) c.members (m ∷ [])
              (weaken-Shows account c.members (rw free at v.flagged)) (λ f. ground arith, tt);
      }

  pub join-IsValid :
      (account : ℕ) (name : Text) (base_flags : ℕ) (statstring : List ℕ)
      → IsValid (join c account name base_flags statstring).0
  unfolding join
  join-IsValid account name base_flags statstring =
      elim (Bool-cases (Set.contains account c.bans)) [
        | inl e ↦ rw (e, join) v
        | inr unbanned ↦ elim (Bool-cases (has_name name c.members)) [
          | inl e ↦ rw (unbanned, e, join) v
          | inr fresh ↦
              elim (Bool-cases (not (c.max_users == 0) && leb c.max_users (length c.members))) [
                | inl e ↦ rw (unbanned, fresh, e, join) v
                | inr room ↦
                    let open_seat : c.max_users ≢ 0 → length c.members < c.max_users =
                      λ h. ground (arith, h) in
                    let granted = not (is_some c.operator) && grants c.op_grant c.members name in
                    elim (Bool-cases granted) [
                      | inl e ↦
                          rw (unbanned, fresh, room, e, join)
                            (enter_operator-IsValid account name base_flags statstring
                              (ground arith) fresh open_seat)
                      | inr e ↦
                          rw (unbanned, fresh, room, e, join)
                            (enter_plain-IsValid account name base_flags statstring fresh open_seat)
                    ]
              ]
        ]
      ]
