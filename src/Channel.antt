-- ===== src/Channel.antt =====
-- `Channel` (crates/bnetcc-core/src/channel.rs): who is in a channel, who is its operator, and what
-- an operator may do. Names are texts; accounts are numbers; `seq` is a `u64`, which wraps around.
mod State
pub mod Names
pub mod Roster
pub mod Valid
pub mod Authority
pub mod Succession
pub mod Leadership
pub mod Bans
mod Tests
use bnet_command_center.Base.{
  ℕ, ◌+◌, ◌-◌, ◌/◌, ◌%◌, Option, none, some, Bool, true, false, not, ◌&&◌, ◌||◌, List, [], ◌∷◌,
  ◌++◌, ltb, leb, ◌==◌, if◌then◌else◌, Result, ok, err, length, is_empty, is_some, any, all, find,
  retain, u64_mod,
}
use bnet_command_center.Base.Set
use bnet_command_center.Text.{Text, same_text, is_digit, rsplit_once}
pub use bnet_command_center.Channel.State.{
  position_by_account, position_by_name, ChannelClass, Member, JoinDenial, JoinOutcome,
  LeaveOutcome, OpError, OpGrant, Channel, holds, Position, has_account, has_name, local, federated,
  official, full, banned, restricted, already_present, not_operator, not_present,
  cannot_target_self, never, first_arrival, name_match,
}
unfoldable pub use bnet_command_center.Channel.State.{
  grants_first_operator, persists_when_empty, position, base_name, has_operator_flag,
  set_operator_flag, clear_operator_flag,
}

-- `channel_flags::PUBLIC` is 1 and `SYSTEM` is 16.
new_flags : ChannelClass → ℕ
new_flags official = 17
new_flags _ = 1

pub new : List ℕ → Text → ChannelClass → ℕ → Channel
unfolding new_flags grants_first_operator
new name display class max_users = record {
  name = name;
  display = display;
  class = class;
  flags = new_flags class;
  max_users = max_users;
  members = [];
  operator = none;
  heirs = [];
  bans = [];
  seq = 0;
  op_grant = if grants_first_operator class then first_arrival else never;
  persist = false;
}

pub set_op_grant : Channel → OpGrant → Channel
set_op_grant c grant = record c { op_grant = grant }

pub set_persist : Channel → Bool → Channel
set_persist c persist = record c { persist = persist }

pub is_operator : Channel → ℕ → Bool
is_operator c account = holds c.operator account

abbrev bump : ℕ → ℕ
bump seq = (seq + 1) % u64_mod

grants : OpGrant → List Member → Text → Bool
unfolding base_name
grants never members name = false
grants first_arrival members name = is_empty members
grants (name_match op_name) members name = same_text (base_name name) op_name

enter : Channel → ℕ → Text → ℕ → List ℕ → Bool → Channel × Result JoinOutcome JoinDenial
unfolding set_operator_flag clear_operator_flag
enter c account name base_flags statstring granted =
    let flags = if granted then set_operator_flag base_flags else clear_operator_flag base_flags in
    let member : Member = record {
      account = account;
      name = name;
      flags = flags;
      statstring = statstring;
    } in
    (
      record c {
        operator = if granted then some account else c.operator;
        members = c.members ++ member ∷ [];
        seq = bump c.seq;
      },
      ok (record { granted_operator = granted; flags = flags }),
    )

-- `max_users == 0` means unlimited.
pub join : Channel → ℕ → Text → ℕ → List ℕ → Channel × Result JoinOutcome JoinDenial
join c account name base_flags statstring =
    if Set.contains account c.bans
    then (c, err banned)
    else (if has_name name c.members
        then (c, err already_present)
        else (if not (c.max_users == 0) && leb c.max_users (length c.members)
            then (c, err full)
            else (enter c account name base_flags statstring
                (not (is_some c.operator) && grants c.op_grant c.members name))))

abbrev absent : LeaveOutcome
absent = record { new_operator = none; now_empty = false; should_destroy = false }

abbrev flag_first : Option Position → List Member → List Member
flag_first none ms = ms
flag_first (some (before, m, after)) ms =
    before ++ record m { flags = set_operator_flag m.flags } ∷ after

-- The operator's account is gone: the first heir who is present inherits, if there is one.
succeed : Channel → LeaveOutcome → Option ℕ → Channel × LeaveOutcome
unfolding set_operator_flag
succeed c out none = (record c { operator = none }, out)
succeed c out (some heir) = (
  record c {
    operator = some heir;
    members = flag_first (position_by_account c.members heir) c.members;
    heirs = retain (λ x. not (x == heir)) c.heirs;
  },
  record out { new_operator = some heir },
)

pub remove_at : Channel → Position → Channel × LeaveOutcome
unfolding succeed persists_when_empty
remove_at c (before, m, after) =
    let account = m.account in
    let members = before ++ after in
    let account_gone = not (has_account account members) in
    let c' = record c {
      members = members;
      seq = bump c.seq;
      heirs = if account_gone then retain (λ h. not (h == account)) c.heirs else c.heirs;
    } in
    let out : LeaveOutcome = record {
      new_operator = none;
      now_empty = is_empty members;
      should_destroy = is_empty members && (not (persists_when_empty c.class) && not c.persist);
    } in
    if account_gone && holds c.operator account
    then succeed c' out (find (λ h. has_account h members) c'.heirs)
    else (c', out)

abbrev remove_found : Channel → Option Position → Channel × LeaveOutcome
remove_found c none = (c, absent)
remove_found c (some pos) = remove_at c pos

pub leave : Channel → Text → Channel × LeaveOutcome
leave c name = remove_found c (position_by_name c.members name)

leave_account : Channel → ℕ → Channel × LeaveOutcome
leave_account c account = remove_found c (position_by_account c.members account)

-- An operator action: the channel afterwards, and its result or the refusal.
abbrev pub Action : Type 0 → Type 0
Action A = Channel × Result A OpError

abbrev done : {A : Type 0} → Channel × A → Action A
done (c, a) = (c, ok a)

pub designate : Channel → ℕ → ℕ → Action (Unit {0})
unfolding is_operator
designate c by heir =
    if not (is_operator c by)
    then (c, err not_operator)
    else (if by == heir
        then (c, err cannot_target_self)
        else (if not (has_account heir c.members) then (c, err not_present) else (
          record c { heirs = retain (λ h. not (h == heir)) c.heirs ++ heir ∷ []; seq = bump c.seq },
          ok tt,
        )))

pub kick : Channel → ℕ → ℕ → Action LeaveOutcome
unfolding is_operator leave_account
kick c by target =
    if not (is_operator c by)
    then (c, err not_operator)
    else (if by == target
        then (c, err cannot_target_self)
        else (if not (has_account target c.members)
            then (c, err not_present)
            else done (leave_account c target)))

pub ban : Channel → ℕ → ℕ → Action LeaveOutcome
unfolding is_operator leave_account
ban c by target =
    if not (is_operator c by)
    then (c, err not_operator)
    else (if by == target
        then (c, err cannot_target_self)
        else done (leave_account (record c { bans = Set.insert target c.bans }) target))

pub unban : Channel → ℕ → ℕ → Action Bool
unfolding is_operator
unban c by target =
    if not (is_operator c by)
    then (c, err not_operator)
    else (record c { bans = Set.remove target c.bans }, ok (Set.contains target c.bans))

pub is_banned : Channel → ℕ → Bool
is_banned c account = Set.contains account c.bans

-- The actions that name a session go by its position.
kick_at : Channel → ℕ → Option Position → Action LeaveOutcome
kick_at c by none = (c, err not_present)
kick_at c by (some (before, m, after)) =
    if m.account == by then (c, err cannot_target_self) else done (remove_at c (before, m, after))

pub kick_by_name : Channel → ℕ → Text → Action LeaveOutcome
unfolding is_operator kick_at
kick_by_name c by target =
    if not (is_operator c by)
    then (c, err not_operator)
    else kick_at c by (position_by_name c.members target)

ban_at : Channel → ℕ → Option Position → Action (ℕ × LeaveOutcome)
ban_at c by none = (c, err not_present)
ban_at c by (some (before, m, after)) =
    if m.account == by
    then (c, err cannot_target_self)
    else (let (c', out) =
          remove_at (record c { bans = Set.insert m.account c.bans }) (before, m, after) in
        (c', ok (m.account, out)))

pub ban_by_name : Channel → ℕ → Text → Action (ℕ × LeaveOutcome)
unfolding is_operator ban_at
ban_by_name c by target =
    if not (is_operator c by)
    then (c, err not_operator)
    else ban_at c by (position_by_name c.members target)

designate_at : Channel → ℕ → Option Position → Action ℕ
designate_at c by none = (c, err not_present)
designate_at c by (some (before, m, after)) =
    if m.account == by
    then (c, err cannot_target_self)
    else (if Set.contains m.account c.heirs
        then (c, ok m.account)
        else (record c { heirs = c.heirs ++ m.account ∷ []; seq = bump c.seq }, ok m.account))

pub designate_by_name : Channel → ℕ → Text → Action ℕ
unfolding is_operator designate_at
designate_by_name c by target =
    if not (is_operator c by)
    then (c, err not_operator)
    else designate_at c by (position_by_name c.members target)

-- The calls that a channel receives. The node sets the grant and the persistence of a channel when it
-- creates it.
pub data Call : Type 0 where
  joins : ℕ → Text → ℕ → List ℕ → Call
  leaves : Text → Call
  designates kicks bans_account unbans : ℕ → ℕ → Call
  kicks_name bans_name designates_name : ℕ → Text → Call
  sets_op_grant : OpGrant → Call
  sets_persist : Bool → Call

pub step : Channel → Call → Channel
step c (joins account name flags statstring) = (join c account name flags statstring).0
step c (leaves name) = (leave c name).0
step c (designates by heir) = (designate c by heir).0
step c (kicks by target) = (kick c by target).0
step c (bans_account by target) = (ban c by target).0
step c (unbans by target) = (unban c by target).0
step c (kicks_name by target) = (kick_by_name c by target).0
step c (bans_name by target) = (ban_by_name c by target).0
step c (designates_name by target) = (designate_by_name c by target).0
step c (sets_op_grant grant) = set_op_grant c grant
step c (sets_persist persist) = set_persist c persist

pub run : Channel → List Call → Channel
run c [] = c
run c (e ∷ es) = run (step c e) es
