-- ===== src/Session/Gate.antt =====
-- Which packets a state lets through (`accepts`), and how that fits the transitions.
use bnet_command_center.Base.{ℕ, suc, ◌≡◌, refl, some, true, false, not, List, [], ◌∷◌, all, arith}
use bnet_command_center.Session.Sid
use bnet_command_center.Session.{
  SessionState, connected, versioning, authenticating, logged_in, chatting, in_channel, closing,
  authenticated, one_of, always_accepted, accepted_in, accepts, version_checks, logons,
  next_on_success,
}

module _ (id : ℕ) where
  one_of_included :
      (xs ys : List ℕ)
      → all (λ x. one_of x ys) xs ≡ true
      → one_of id xs ≡ true
      → one_of id ys ≡ true
  unfolding one_of
  one_of_included [] ys h e = cc
  one_of_included (x ∷ xs) ys h e = ground (arith, one_of_included xs ys)

  one_of_apart :
      (xs ys : List ℕ)
      → all (λ x. not (one_of x ys)) xs ≡ true
      → one_of id xs ≡ true
      → one_of id ys ≡ false
  unfolding one_of
  one_of_apart [] ys h e = cc
  one_of_apart (x ∷ xs) ys h e = ground (arith, one_of_apart xs ys)

-- The place of a state on the way of a session.
abbrev pub rank : SessionState → ℕ
rank connected = 0
rank versioning = 1
rank authenticating = 2
rank logged_in = 3
rank chatting = 4
rank in_channel = 5
rank closing = 0

checks_included : all (λ x. one_of x (accepted_in versioning)) version_checks ≡ true
unfolding one_of
checks_included = refl

logons_included : all (λ x. one_of x (accepted_in authenticating)) logons ≡ true
unfolding one_of
logons_included = refl

enter_included : all (λ x. one_of x (accepted_in logged_in)) (Sid.enterchat ∷ []) ≡ true
unfolding one_of
enter_included = refl

join_included : all (λ x. one_of x (accepted_in chatting)) (Sid.joinchannel ∷ []) ≡ true
unfolding one_of
join_included = refl

-- A packet that moves a session on is accepted in the state that it moves from, and takes the
-- session exactly one place further: no packet skips a stage.
pub next_on_success-accepts :
    (s : SessionState) (id : ℕ) {s' : SessionState}
    → next_on_success s id ≡ some s'
    → (accepts s id ≡ true) × (rank s' ≡ suc (rank s))
unfolding next_on_success accepts
next_on_success-accepts connected id h = ground arith
next_on_success-accepts versioning id h =
    ground (arith, one_of_included id version_checks (accepted_in versioning) checks_included)
next_on_success-accepts authenticating id h =
    ground (arith, one_of_included id logons (accepted_in authenticating) logons_included)
next_on_success-accepts logged_in id h =
    ground (arith, one_of_included id (Sid.enterchat ∷ []) (accepted_in logged_in) enter_included)
next_on_success-accepts chatting id h =
    ground (arith, one_of_included id (Sid.joinchannel ∷ []) (accepted_in chatting) join_included)
next_on_success-accepts in_channel id h = cc
next_on_success-accepts closing id h = cc

-- Packets that act for an account: chat, channels, games, profile writes, friends, realms.
abbrev pub privileged : List ℕ
privileged =
    Sid.enterchat ∷ Sid.joinchannel ∷ Sid.leavechat ∷ Sid.chatcommand ∷ Sid.getchannellist
    ∷ Sid.friendslist ∷ Sid.writeuserdata ∷ Sid.news_info ∷ Sid.getadvlistex ∷ Sid.startadvex3
    ∷ Sid.gameresult ∷ Sid.notifyjoin ∷ Sid.leavegame ∷ Sid.queryrealms2 ∷ Sid.logonrealmex
    ∷ Sid.netgameport ∷ Sid.warcraftgeneral ∷ Sid.getladderdata ∷ Sid.findladderuser ∷ []

before_connected : all (λ x. not (one_of x (accepted_in connected))) privileged ≡ true
unfolding one_of
before_connected = refl

before_versioning : all (λ x. not (one_of x (accepted_in versioning))) privileged ≡ true
unfolding one_of
before_versioning = refl

before_authenticating : all (λ x. not (one_of x (accepted_in authenticating))) privileged ≡ true
unfolding one_of
before_authenticating = refl

apart_always : all (λ x. not (one_of x always_accepted)) privileged ≡ true
unfolding one_of
apart_always = refl

privileged_apart : (id : ℕ) → one_of id privileged ≡ true → one_of id always_accepted ≡ false
privileged_apart id = one_of_apart id privileged always_accepted apart_always

-- No such packet is accepted before the logon, or after the session is closed.
pub accepts-privileged :
    (s : SessionState) (id : ℕ)
    → one_of id privileged ≡ true
    → accepts s id ≡ true
    → authenticated s ≡ true
unfolding accepts authenticated
accepts-privileged connected id p h = ground (
  arith,
  privileged_apart id p,
  one_of_apart id privileged (accepted_in connected) before_connected,
)
accepts-privileged versioning id p h = ground (
  arith,
  privileged_apart id p,
  one_of_apart id privileged (accepted_in versioning) before_versioning,
)
accepts-privileged authenticating id p h = ground (
  arith,
  privileged_apart id p,
  one_of_apart id privileged (accepted_in authenticating) before_authenticating,
)
accepts-privileged logged_in id p h = refl
accepts-privileged chatting id p h = refl
accepts-privileged in_channel id p h = refl
accepts-privileged closing id p h = cc
