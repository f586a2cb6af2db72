-- ===== src/Session.antt =====
-- The BNCS session state machine (crates/bnetcc-core/src/session.rs), and the part of the node's
-- packet loop that consults it (crates/bnetccd/src/session.rs).
mod Sid
pub mod Gate
pub mod Login
pub mod AuthCheck
mod Tests
use bnet_command_center.Base.{
  ℕ, Option, none, some, Bool, true, false, ◌||◌, List, [], ◌∷◌, ◌==◌, if◌then◌else◌, is_some,
}
use Sid

pub data SessionState : Type 0 where
  connected versioning authenticating logged_in chatting in_channel closing : SessionState

pub authenticated : SessionState → Bool
authenticated logged_in = true
authenticated chatting = true
authenticated in_channel = true
authenticated _ = false

pub in_automated_handshake : SessionState → Bool
in_automated_handshake connected = true
in_automated_handshake versioning = true
in_automated_handshake _ = false

-- `matches!` on packet identifiers.
pub one_of : ℕ → List ℕ → Bool
one_of id [] = false
one_of id (x ∷ xs) = id == x || one_of id xs

-- Accepted in every open state.
abbrev always_accepted : List ℕ
always_accepted =
    Sid.null ∷ Sid.ping ∷ Sid.stopadv ∷ Sid.checkad ∷ Sid.clickad ∷ Sid.displayad ∷ Sid.queryadurl
    ∷ Sid.udppingresponse ∷ Sid.clientid ∷ Sid.clientid2 ∷ Sid.localeinfo ∷ Sid.systeminfo ∷ []

abbrev chat_packets : List ℕ
chat_packets =
    Sid.enterchat ∷ Sid.geticondata ∷ Sid.getfiletime ∷ Sid.checkdatafile2 ∷ Sid.joinchannel
    ∷ Sid.leavechat ∷ Sid.chatcommand ∷ Sid.getchannellist ∷ Sid.friendslist ∷ Sid.readuserdata
    ∷ Sid.writeuserdata ∷ Sid.news_info ∷ Sid.getadvlistex ∷ Sid.startadvex3 ∷ Sid.gameresult
    ∷ Sid.notifyjoin ∷ Sid.leavegame ∷ Sid.queryrealms2 ∷ Sid.logonrealmex ∷ Sid.netgameport
    ∷ Sid.warcraftgeneral ∷ Sid.getladderdata ∷ Sid.findladderuser ∷ []

abbrev accepted_in : SessionState → List ℕ
accepted_in connected = Sid.auth_info ∷ Sid.startversioning ∷ []
accepted_in versioning = Sid.auth_check ∷ Sid.reportversion ∷ Sid.cdkey ∷ Sid.cdkey2 ∷ []
accepted_in authenticating =
    Sid.logonresponse ∷ Sid.logonresponse2 ∷ Sid.createaccount ∷ Sid.createaccount2
    ∷ Sid.auth_accountcreate ∷ Sid.auth_accountlogon ∷ Sid.auth_accountlogonproof ∷ Sid.cdkey
    ∷ Sid.cdkey2 ∷ Sid.geticondata ∷ Sid.getfiletime ∷ Sid.readuserdata ∷ []
accepted_in logged_in =
    Sid.enterchat ∷ Sid.geticondata ∷ Sid.getfiletime ∷ Sid.checkdatafile2 ∷ Sid.getchannellist
    ∷ Sid.friendslist ∷ Sid.readuserdata ∷ Sid.writeuserdata ∷ Sid.news_info ∷ Sid.queryrealms2
    ∷ Sid.logonrealmex ∷ Sid.netgameport ∷ Sid.warcraftgeneral ∷ Sid.getladderdata
    ∷ Sid.findladderuser ∷ []
accepted_in chatting = chat_packets
accepted_in in_channel = chat_packets
accepted_in closing = []

abbrev is_closing : SessionState → Bool
is_closing closing = true
is_closing _ = false

pub accepts : SessionState → ℕ → Bool
accepts s id =
    if is_closing s
    then false
    else (if one_of id always_accepted then true else one_of id (accepted_in s))

abbrev pub openers : List ℕ
openers = Sid.auth_info ∷ Sid.startversioning ∷ []

abbrev pub version_checks : List ℕ
version_checks = Sid.auth_check ∷ Sid.reportversion ∷ []

abbrev pub logons : List ℕ
logons = Sid.logonresponse ∷ Sid.logonresponse2 ∷ Sid.auth_accountlogonproof ∷ []

abbrev moves_to : SessionState → Bool → Option SessionState
moves_to s b = if b then some s else none

pub next_on_success : SessionState → ℕ → Option SessionState
next_on_success connected id = moves_to versioning (one_of id openers)
next_on_success versioning id = moves_to authenticating (one_of id version_checks)
next_on_success authenticating id = moves_to logged_in (one_of id logons)
next_on_success logged_in id = moves_to chatting (one_of id (Sid.enterchat ∷ []))
next_on_success chatting id = moves_to in_channel (one_of id (Sid.joinchannel ∷ []))
next_on_success in_channel id = none
next_on_success closing id = none

pub record Deadlines : Type 0 where
  pub handshake_secs : ℕ
  pub idle_secs : ℕ
  pub relogin_cooldown_ms : ℕ

pub default_deadlines : Deadlines
default_deadlines = record { handshake_secs = 30; idle_secs = 1200; relogin_cooldown_ms = 500 }

-- The part of the node's session that the packet loop reads and writes: the account is set by a
-- logon and never taken back.
pub record Session : Type 0 where
  pub state : SessionState
  pub account : Option ℕ

pub new : Session
new = record { state = connected; account = none }

-- What a packet's handler does, as far as the loop sees it: it ends the session, or it goes on and
-- may have set the account.
pub data Handled : Type 0 where
  close : Handled
  continue : Option ℕ → Handled

abbrev set_account : Option ℕ → Option ℕ → Option ℕ
set_account (some a) old = some a
set_account none old = old

abbrev is_logged_in : SessionState → Bool
is_logged_in logged_in = true
is_logged_in _ = false

-- The end of `Session::handle`: a logon advances only if it set the account.
abbrev advance : Session → Option SessionState → Session
advance s none = s
advance s (some next) = advance_to s next (is_logged_in next) (is_some s.account)
  where
    advance_to : Session → SessionState → Bool → Bool → Session
    advance_to s next true false = s
    advance_to s next _ _ = record s { state = next }

abbrev handle : Session → ℕ → Handled → Session
handle s id close = record s { state = closing }
handle s id (continue account) =
    advance (record s { account = set_account account s.account }) (next_on_success s.state id)

-- One frame in the packet loop. A packet that is not accepted is ignored after the logon and ends
-- the session before it.
pub receive : Session → ℕ → Handled → Session
receive s id handled =
    if accepts s.state id
    then handle s id handled
    else (if authenticated s.state then s else record s { state = closing })

pub run : Session → List (ℕ × Handled) → Session
run s [] = s
run s ((id, handled) ∷ frames) = run (receive s id handled) frames
