-- ===== src/Channel/Valid.antt =====
-- The invariant of a channel: who is operator and who can become it are present, the roster keeps
-- its names apart and its capacity, and only the operator's sessions show the operator's flag.
pub mod Removal
pub mod Entry
pub mod Actions
pub mod Steps
use bnet_command_center.Base.{
  ℕ, ◌≤◌, ◌≡◌, ◌≢◌, Option, none, some, Bool, true, false, List, [], length, All,
}
use bnet_command_center.Base.Set
use bnet_command_center.Channel.{Channel, Member, has_account}
use bnet_command_center.Channel.Roster.{Distinct, Shows}

pub record IsValid (c : Channel) : Type 0 where
  pub operator_present : (a : ℕ) → c.operator ≡ some a → has_account a c.members ≡ true
  pub heirs_present : (h : ℕ) → Set.contains h c.heirs ≡ true → has_account h c.members ≡ true
  pub leaderless : c.operator ≡ none → c.heirs ≡ []
  pub not_heir : (a : ℕ) → c.operator ≡ some a → Set.contains a c.heirs ≡ false
  pub capacity : c.max_users ≢ 0 → length c.members ≤ c.max_users
  pub distinct : Distinct c.members
  pub flagged : All (Shows c.operator) c.members
