-- ===== src/Channel/Bans.antt =====
-- What a ban does, and what it leaves.
use bnet_command_center.Base.{
  ℕ, ◌≡◌, ◌≢◌, refl, Option, none, some, true, false, List, [], ◌∷◌, ◌++◌, ◌==◌, arith, ok, err,
  All, ==_iff,
}
use bnet_command_center.Base.Set
use bnet_command_center.Text.{Text}
use bnet_command_center.Channel.Roster.{position-split}
use bnet_command_center.Channel.{
  Channel, Member, Position, position_by_name, position_by_account, has_account, succeed, remove_at,
  remove_found, join, enter, banned, leave, leave_account, is_operator, designate, kick, ban, unban,
  is_banned, kick_at, kick_by_name, ban_at, ban_by_name, designate_at, designate_by_name,
  LeaveOutcome, Call, joins, leaves, designates, kicks, bans_account, unbans, kicks_name, bans_name,
  designates_name, sets_op_grant, sets_persist, set_op_grant, set_persist, step, run,
}

-- What can lift the ban of an account.
abbrev pub Upholds : ℕ → Call → Type 0
Upholds account (unbans by target) = target ≢ account
Upholds account _ = Unit {0}

remove_at-bans : (c : Channel) (pos : Position) → (remove_at c pos).0.bans ≡ c.bans
unfolding remove_at succeed
remove_at-bans c (before, m, after) = ground arith

remove_found-bans : (c : Channel) (o : Option Position) → (remove_found c o).0.bans ≡ c.bans
remove_found-bans c none = refl
remove_found-bans c (some pos) = remove_at-bans c pos

module _ (c : Channel) (a : ℕ) (listed : Set.contains a c.bans ≡ true) where
  abbrev Kept : Channel → Type 0
  Kept c' = Set.contains a c'.bans ≡ true

  join-Kept :
      (account : ℕ) (name : Text) (base_flags : ℕ) (statstring : List ℕ)
      → Kept (join c account name base_flags statstring).0
  unfolding join enter
  join-Kept account name base_flags statstring = ground arith

  removed-Kept : (o : Option Position) → Kept (remove_found c o).0
  removed-Kept o = rw (remove_found-bans c o) listed

  insert-Kept : (b : ℕ) → Set.contains a (Set.insert b c.bans) ≡ true
  insert-Kept b = ground (arith, Set.contains-insert b a c.bans)

  kick_at-Kept : (by : ℕ) (o : Option Position) → Kept (kick_at c by o).0
  unfolding kick_at
  kick_at-Kept by none = listed
  kick_at-Kept by (some (before, m, after)) = ground (arith, remove_at-bans c (before, m, after))

  ban_at-Kept : (by : ℕ) (o : Option Position) → Kept (ban_at c by o).0
  unfolding ban_at
  ban_at-Kept by none = listed
  ban_at-Kept by (some (before, m, after)) = ground (
    arith,
    remove_at-bans (record c { bans = Set.insert m.account c.bans }) (before, m, after),
    insert-Kept m.account,
  )

  designate_at-Kept : (by : ℕ) (o : Option Position) → Kept (designate_at c by o).0
  unfolding designate_at
  designate_at-Kept by none = listed
  designate_at-Kept by (some (before, m, after)) = ground arith

-- A ban holds until it is lifted: no call but an `unban` of the account takes it off the list.
step-banned :
    (c : Channel) (a : ℕ) (e : Call)
    → Upholds a e
    → is_banned c a ≡ true
    → is_banned (step c e) a ≡ true
unfolding step is_banned leave kick ban unban designate kick_by_name ban_by_name designate_by_name
    set_op_grant set_persist
step-banned c a (joins account name flags statstring) u h =
    join-Kept c a h account name flags statstring
step-banned c a (leaves name) u h = removed-Kept c a h (position_by_name c.members name)
step-banned c a (designates by heir) u h = ground arith
step-banned c a (kicks by target) u h =
    ground (arith, removed-Kept c a h (position_by_account c.members target))
step-banned c a (bans_account by target) u h =
    let c' = record c { bans = Set.insert target c.bans } in
    ground
      (arith, removed-Kept c' a (insert-Kept c a h target) (position_by_account c.members target))
step-banned c a (unbans by target) u h = ground (arith, Set.contains-remove target a c.bans)
step-banned c a (kicks_name by target) u h =
    ground (arith, kick_at-Kept c a h by (position_by_name c.members target))
step-banned c a (bans_name by target) u h =
    ground (arith, ban_at-Kept c a h by (position_by_name c.members target))
step-banned c a (designates_name by target) u h =
    ground (arith, designate_at-Kept c a h by (position_by_name c.members target))
step-banned c a (sets_op_grant grant) u h = h
step-banned c a (sets_persist persist) u h = h

run-banned :
    (c : Channel) (a : ℕ) (es : List Call)
    → All (Upholds a) es
    → is_banned c a ≡ true
    → is_banned (run c es) a ≡ true
unfolding run
run-banned c a [] u h = h
run-banned c a (e ∷ es) u h = run-banned (step c e) a es u.1 (step-banned c a e u.0 h)

ban-is_banned :
    (c : Channel) (by target : ℕ) (out : LeaveOutcome)
    → (ban c by target).1 ≡ ok out
    → is_banned (ban c by target).0 target ≡ true
unfolding ban is_banned
ban-is_banned c by target out h =
    let c' = record c { bans = Set.insert target c.bans } in
    ground (
      arith,
      remove_found-bans c' (position_by_account c.members target),
      Set.contains-insert target target c.bans,
    )

-- After a successful ban, and whatever is called afterwards other than an `unban` of the account,
-- every join of the account is refused as banned and changes nothing.
pub ban-join :
    (c : Channel) (by target : ℕ) (out : LeaveOutcome) (es : List Call) (name : Text) (flags : ℕ)
    (statstring : List ℕ)
    → (ban c by target).1 ≡ ok out
    → All (Upholds target) es
    → let c' = run (ban c by target).0 es in join c' target name flags statstring ≡ (c', err banned)
unfolding is_banned join
ban-join c by target out es name flags statstring h u =
    rw (run-banned (ban c by target).0 target es u (ban-is_banned c by target out h), join)

-- A ban removes one session only: when the banned account has a second one, it stays in the
-- channel, banned, and stays an heir if it was one.
pub ban-second_session :
    (c : Channel) (by target : ℕ) (before : List Member) (m : Member) (after : List Member)
    → is_operator c by ≡ true
    → by ≢ target
    → position_by_account c.members target ≡ some (before, m, after)
    → has_account target (before ++ after) ≡ true
    → let c' = (ban c by target).0 in
      (is_banned c' target ≡ true)
      × (has_account target c'.members ≡ true)
      × (Set.contains target c'.heirs ≡ Set.contains target c.heirs)
unfolding ban is_operator is_banned leave_account remove_at
ban-second_session c by target before m after led other found still =
    let ne : (by == target) ≡ false = ground arith in
    let own : m.account ≡ target =
      (==_iff m.account target).0
        (position-split (λ x. x.account == target) c.members before m after found).1 in
    let still' : has_account m.account (before ++ after) ≡ true = rw own still in
    let listed = Set.contains-insert target target c.bans in
    rw (ban, led, ne, found, remove_found, remove_at, still') (ground (arith, listed), still, refl)
