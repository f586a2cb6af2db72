-- ===== src/Channel/State.antt =====
-- The data of a channel (crates/bnetcc-core/src/channel.rs), positions in its roster, and the bits
-- and names of its members.
use bnet_command_center.Base.{
  ℕ, ◌+◌, ◌-◌, ◌/◌, ◌%◌, Option, none, some, Bool, true, false, not, ◌&&◌, List, [], ◌∷◌, ◌==◌,
  if◌then◌else◌, is_empty, any, all,
}
use bnet_command_center.Text.{Text, same_text, is_digit, rsplit_once}

pub data ChannelClass : Type 0 where
  local federated official : ChannelClass

unfoldable pub grants_first_operator : ChannelClass → Bool
grants_first_operator local = true
grants_first_operator federated = true
grants_first_operator official = false

unfoldable pub persists_when_empty : ChannelClass → Bool
persists_when_empty official = true
persists_when_empty _ = false

pub record Member : Type 0 where
  pub account : ℕ
  pub name : Text
  pub flags : ℕ
  pub statstring : List ℕ

pub data JoinDenial : Type 0 where
  full banned restricted already_present : JoinDenial

pub record JoinOutcome : Type 0 where
  pub granted_operator : Bool
  pub flags : ℕ

pub record LeaveOutcome : Type 0 where
  pub new_operator : Option ℕ
  pub now_empty : Bool
  pub should_destroy : Bool

pub data OpError : Type 0 where
  not_operator not_present cannot_target_self : OpError

pub data OpGrant : Type 0 where
  never : OpGrant
  first_arrival : OpGrant
  name_match : Text → OpGrant

pub record Channel : Type 0 where
  pub name : List ℕ
  pub display : Text
  pub class : ChannelClass
  pub flags : ℕ
  pub max_users : ℕ
  pub members : List Member
  pub operator : Option ℕ
  pub heirs : List ℕ
  pub bans : List ℕ
  pub seq : ℕ
  pub op_grant : OpGrant
  pub persist : Bool

abbrev pub holds : Option ℕ → ℕ → Bool
holds none account = false
holds (some a) account = a == account

-- A position in the roster: those before it, the member there, those after it. `members[idx]` is
-- the member, and `members.remove(idx)` leaves the others.
abbrev pub Position : Type 0
Position = List Member × Member × List Member

abbrev later : Member → Option Position → Option Position
later x none = none
later x (some (before, m, after)) = some (x ∷ before, m, after)

-- `members.iter().position(…)`.
unfoldable pub position : (Member → Bool) → List Member → Option Position
position p [] = none
position p (m ∷ ms) = if p m then some ([], m, ms) else later m (position p ms)

abbrev pub has_account : ℕ → List Member → Bool
has_account account = any λ m. m.account == account

abbrev pub has_name : Text → List Member → Bool
has_name name = any λ m. same_text m.name name

abbrev pub position_by_account : List Member → ℕ → Option Position
position_by_account ms account = position (λ m. m.account == account) ms

abbrev pub position_by_name : List Member → Text → Option Position
position_by_name ms name = position (λ m. same_text m.name name) ms

-- `Fish#2` is `Fish`.
abbrev stripped : Text → Option (Text × Text) → Text
stripped name none = name
stripped name (some (base, suffix)) =
    if not (is_empty suffix) && all is_digit suffix then base else name

unfoldable pub base_name : Text → Text
base_name name = stripped name (rsplit_once b'#' name)

-- The bit `user_flags::OPERATOR`, which is 2: whether it is set, `f | 2`, `f & !2`.
unfoldable pub has_operator_flag : ℕ → Bool
has_operator_flag f = f / 2 % 2 == 1

unfoldable pub set_operator_flag : ℕ → ℕ
unfolding has_operator_flag
set_operator_flag f = if has_operator_flag f then f else f + 2

unfoldable pub clear_operator_flag : ℕ → ℕ
unfolding has_operator_flag
clear_operator_flag f = if has_operator_flag f then f - 2 else f
