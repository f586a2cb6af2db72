-- ===== src/Channel/Valid/Steps.antt =====
-- Every call of a channel keeps the invariant, so that it holds after any history.
use bnet_command_center.Base.{ℕ, Bool, refl, List, [], ◌∷◌, arith}
use bnet_command_center.Base.Set
use bnet_command_center.Text.{Text, same_text}
use bnet_command_center.Channel.{
  Channel, ChannelClass, OpGrant, leave, set_op_grant, set_persist, Call, joins, leaves, designates,
  kicks, bans_account, unbans, kicks_name, bans_name, designates_name, sets_op_grant, sets_persist,
  step, run, new,
}
use bnet_command_center.Channel.Valid.{IsValid}
use bnet_command_center.Channel.Valid.Entry.{join-IsValid}
use bnet_command_center.Channel.Valid.Actions.{
  remove_found-IsValid, designate-IsValid, kick-IsValid, ban-IsValid, unban-IsValid,
  kick_by_name-IsValid, ban_by_name-IsValid, designate_by_name-IsValid,
}

-- Neither the grant nor the persistence plays a part in the invariant.
set_op_grant-IsValid : (c : Channel) (grant : OpGrant) → IsValid c → IsValid (set_op_grant c grant)
unfolding set_op_grant
set_op_grant-IsValid c grant v = record {
  operator_present = v.operator_present;
  heirs_present = v.heirs_present;
  leaderless = v.leaderless;
  not_heir = v.not_heir;
  capacity = v.capacity;
  distinct = v.distinct;
  flagged = v.flagged;
}

set_persist-IsValid : (c : Channel) (persist : Bool) → IsValid c → IsValid (set_persist c persist)
unfolding set_persist
set_persist-IsValid c persist v = record {
  operator_present = v.operator_present;
  heirs_present = v.heirs_present;
  leaderless = v.leaderless;
  not_heir = v.not_heir;
  capacity = v.capacity;
  distinct = v.distinct;
  flagged = v.flagged;
}

-- Every call keeps the invariant.
pub step-IsValid : (c : Channel) (e : Call) → IsValid c → IsValid (step c e)
unfolding step leave
step-IsValid c (joins account name flags statstring) v =
    join-IsValid c v account name flags statstring
step-IsValid c (leaves name) v = remove_found-IsValid c (λ m. same_text m.name name) v
step-IsValid c (designates by heir) v = designate-IsValid c v by heir
step-IsValid c (kicks by target) v = kick-IsValid c v by target
step-IsValid c (bans_account by target) v = ban-IsValid c v by target
step-IsValid c (unbans by target) v = unban-IsValid c v by target
step-IsValid c (kicks_name by target) v = kick_by_name-IsValid c v by target
step-IsValid c (bans_name by target) v = ban_by_name-IsValid c v by target
step-IsValid c (designates_name by target) v = designate_by_name-IsValid c v by target
step-IsValid c (sets_op_grant grant) v = set_op_grant-IsValid c grant v
step-IsValid c (sets_persist persist) v = set_persist-IsValid c persist v

pub run-IsValid : (c : Channel) (es : List Call) → IsValid c → IsValid (run c es)
unfolding run
run-IsValid c [] v = v
run-IsValid c (e ∷ es) v = run-IsValid (step c e) es (step-IsValid c e v)

pub new-IsValid :
    (name : List ℕ) (display : Text) (class : ChannelClass) (max_users : ℕ)
    → IsValid (new name display class max_users)
unfolding new Set.contains
new-IsValid name display class max_users = record {
  operator_present = λ a e. cc;
  heirs_present = λ h e. cc;
  leaderless = λ e. refl;
  not_heir = λ a e. refl;
  capacity = λ h. omega arith;
  distinct = tt;
  flagged = tt;
}

-- After any sequence of calls on a new channel, also of those that set its grant of operator and its
-- persistence: the operator and all heirs are present, there are
-- no heirs without an operator and the operator is not one of them, the roster keeps to its
-- capacity and to names that differ by more than case, and no member shows the operator's flag
-- whose account is not the operator.
pub run-new-IsValid :
    (name : List ℕ) (display : Text) (class : ChannelClass) (max_users : ℕ) (es : List Call)
    → IsValid (run (new name display class max_users) es)
run-new-IsValid name display class max_users es =
    run-IsValid (new name display class max_users) es (new-IsValid name display class max_users)
