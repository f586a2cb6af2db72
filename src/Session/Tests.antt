-- ===== src/Session/Tests.antt =====
-- Concrete sessions.
use bnet_command_center.Base.{ℕ, List, [], ◌∷◌, ◌≤◌, ◌≡◌, refl, none, some, true, is_some}
use bnet_command_center.Session.{
  authenticating, chatting, closing, authenticated, one_of, accepts, next_on_success, Session, new,
  Handled, continue, receive, run,
}
use bnet_command_center.Session.Gate.{privileged}
use bnet_command_center.Session.Login.{stage, accepts_after_login}
use bnet_command_center.Session.Sid

program : Unit {0}
unfolding authenticated one_of accepts next_on_success new receive run
program = tt

-- A client that logs on and enters the chat.
abbrev logon : List (ℕ × Handled)
logon =
    (Sid.auth_info, continue none)
    ∷ (Sid.ping, continue none)
    ∷ (Sid.auth_check, continue none)
    ∷ (Sid.logonresponse2, continue (some 42))
    ∷ (Sid.enterchat, continue none)
    ∷ []

logon_state : run new logon ≡ record { state = chatting; account = some 42 }
unfolding program
logon_state = refl

-- A logon that fails leaves the session where it was, and chat before the logon ends it.
abbrev failed : List (ℕ × Handled)
failed =
    (Sid.auth_info, continue none)
    ∷ (Sid.auth_check, continue none)
    ∷ (Sid.logonresponse2, continue none)
    ∷ []

failed_state : (run new failed).state ≡ authenticating
unfolding program
failed_state = refl

too_early : (receive (run new failed) Sid.chatcommand (continue none)).state ≡ closing
unfolding program
too_early = refl

chat_privileged : one_of Sid.chatcommand privileged ≡ true
unfolding program
chat_privileged = refl

chat_accepted : accepts chatting Sid.chatcommand ≡ true
unfolding program
chat_accepted = refl

chat_after : accepts (run new logon).state Sid.chatcommand ≡ true
unfolding program
chat_after = refl

accepts_after_login_example : (is_some (run new logon).account ≡ true) × (3 ≤ stage 0 logon)
accepts_after_login_example = accepts_after_login logon Sid.chatcommand chat_privileged chat_after

abbrev ended : Session
ended = record { state = closing; account = some 42 }
