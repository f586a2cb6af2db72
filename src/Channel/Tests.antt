-- ===== src/Channel/Tests.antt =====
-- A channel of three people.
use bnet_command_center.Base.{
  List, [], ◌∷◌, ◌≡◌, ◌⊎◌, refl, none, some, true, false, ok, err, any, length, arith,
}
use bnet_command_center.Base.Set
use bnet_command_center.Text.{
  codes, to_lower, lowercase, text_eq, same_text, is_whitespace, trim_start, trim, starts_with,
  rsplit_once, is_digit,
}
use bnet_command_center.Channel.{
  local, Member, JoinOutcome, LeaveOutcome, banned, already_present, Channel, new, set_op_grant,
  has_account, has_operator_flag, set_operator_flag, clear_operator_flag, base_name, grants, enter,
  join, position, succeed, remove_at, leave, leave_account, is_operator, designate, kick, ban,
  unban, is_banned, kick_at, kick_by_name, ban_at, ban_by_name, designate_at, designate_by_name,
  sets_op_grant, sets_persist, set_persist, name_match, Call, joins, leaves, designates, unbans,
  step, run, grants_first_operator, new_flags, persists_when_empty,
}
use bnet_command_center.Channel.Bans.{ban-join}
use bnet_command_center.Channel.Leadership.{step-operator}
use bnet_command_center.Channel.Succession.{first, remove_at-succession}
use bnet_command_center.Channel.Valid.{IsValid}
use bnet_command_center.Channel.Valid.Steps.{run-new-IsValid}

program : Unit {0}
unfolding Set.contains Set.insert Set.remove to_lower lowercase text_eq same_text is_whitespace
    trim_start trim starts_with rsplit_once is_digit new set_op_grant set_persist has_operator_flag
    set_operator_flag clear_operator_flag base_name grants enter join position succeed remove_at
    leave leave_account is_operator designate kick ban unban is_banned kick_at kick_by_name ban_at
    ban_by_name designate_at designate_by_name step run grants_first_operator new_flags
    persists_when_empty
program = tt

abbrev talk : Channel
talk = new [] (codes "Talk") local 5

-- Ann is operator, Bob is here twice, and Cid once; Bob is the heir.
abbrev calls : List Call
calls =
    joins 1 (codes "Ann") 0 []
    ∷ joins 2 (codes "Bob") 0 []
    ∷ joins 3 (codes "Cid") 0 []
    ∷ joins 2 (codes "Bob#2") 0 []
    ∷ designates 1 2
    ∷ []

abbrev party : Channel
party = run talk calls

party-IsValid : IsValid party
party-IsValid = run-new-IsValid [] (codes "Talk") local 5 calls

party_state : (party.operator ≡ some 1) × (party.heirs ≡ 2 ∷ []) × (length party.members ≡ 4)
unfolding program
party_state = (refl, refl, refl)

inherited : (leave party (codes "ANN")).0.operator ≡ some 2
unfolding program
inherited = refl

-- A channel whose name grants operator to Fish, in any session and whenever it comes.
abbrev fish_calls : List Call
fish_calls =
    sets_op_grant (name_match (codes "fish"))
    ∷ sets_persist true
    ∷ joins 1 (codes "Ann") 2 []
    ∷ joins 2 (codes "Fish#2") 0 []
    ∷ joins 3 (codes "Fish") 2 []
    ∷ []

-- The second Fish finds an operator.
fish_led : (run talk fish_calls).operator ≡ some 2
unfolding program
fish_led = refl

run-new-IsValid_example : IsValid (run (new [] (codes "Talk") local 5) fish_calls)
run-new-IsValid_example = run-new-IsValid [] (codes "Talk") local 5 fish_calls

party_led : party.operator ≡ some 1
unfolding program
party_led = refl

step-operator_example :
    ((step party (leaves (codes "ann"))).operator ≡ some 1)
    ⊎ (((step party (leaves (codes "ann"))).operator ≡ first party.heirs)
        × (has_account 1 (step party (leaves (codes "ann"))).members ≡ false))
step-operator_example = step-operator party 1 (leaves (codes "ann")) party-IsValid party_led

abbrev ann : Member
ann = record { account = 1; name = codes "Ann"; flags = 2; statstring = [] }

abbrev bob : Member
bob = record { account = 2; name = codes "Bob"; flags = 0; statstring = [] }

abbrev cid : Member
cid = record { account = 3; name = codes "Cid"; flags = 0; statstring = [] }

abbrev bob_2 : Member
bob_2 = record { account = 2; name = codes "Bob#2"; flags = 0; statstring = [] }

remove_at-succession_example :
    let (c', out) = remove_at party ([], ann, bob ∷ cid ∷ bob_2 ∷ []) in
    (c'.operator ≡ first party.heirs) × (out.new_operator ≡ first party.heirs)
remove_at-succession_example =
    remove_at-succession party [] ann (bob ∷ cid ∷ bob_2 ∷ []) party-IsValid roster party_led refl
  where
    roster : party.members ≡ ann ∷ bob ∷ cid ∷ bob_2 ∷ []
    roster = unfold program in refl

cid_plain : is_operator party 3 ≡ false
unfolding program
cid_plain = refl

abbrev plain : JoinOutcome
plain = record { granted_operator = false; flags = 0 }

dan_joins : (join party 4 (codes "Dan") 2 []).1 ≡ ok plain
unfolding program
dan_joins = refl

bob_again : (join party 4 (codes "bob") 0 []).1 ≡ err already_present
unfolding program
bob_again = refl

abbrev quiet : LeaveOutcome
quiet = record { new_operator = none; now_empty = false; should_destroy = false }

cid_banned : (ban party 1 3).1 ≡ ok quiet
unfolding program
cid_banned = refl

ban-join_example :
    let c' = run (ban party 1 3).0 (unbans 1 2 ∷ leaves (codes "Ann") ∷ []) in
    join c' 3 (codes "Cid") 0 [] ≡ (c', err banned)
ban-join_example =
    ban-join party 1 3 quiet (unbans 1 2 ∷ leaves (codes "Ann") ∷ []) (codes "Cid") 0 [] cid_banned
      (λ e. omega (arith, e), (tt, tt))

-- Ann joins a second time, without the flag, and her first session leaves: she is still operator, and
-- nobody shows the flag.
flag_lost :
    let c =
      run talk
        (joins 1 (codes "Ann") 0 [] ∷ joins 1 (codes "Ann#2") 0 [] ∷ leaves (codes "Ann") ∷ []) in
    (c.operator ≡ some 1)
    × (has_account 1 c.members ≡ true)
    × (any (λ x. has_operator_flag x.flags) c.members ≡ false)
unfolding program
flag_lost = (refl, refl, refl)
