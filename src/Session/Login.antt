-- ===== src/Session/Login.antt =====
-- What a session has gone through when it is past the logon.
use bnet_command_center.Base.{
  ℕ, zero, suc, ◌≤◌, ◌≡◌, Option, true, List, [], ◌∷◌, if◌then◌else◌, is_some, arith,
}
use bnet_command_center.Session.{
  SessionState, connected, versioning, authenticating, logged_in, chatting, in_channel, closing,
  authenticated, one_of, accepts, openers, version_checks, logons, next_on_success, Session, new,
  Handled, receive, run,
}
use bnet_command_center.Session.Gate.{privileged, accepts-privileged}

-- How far a sequence of packets has come on the way of a logon: an opener, then a version check,
-- then a logon, with any other packets between.
abbrev pub stage_after : ℕ → ℕ → ℕ
stage_after zero id = if one_of id openers then 1 else 0
stage_after (suc zero) id = if one_of id version_checks then 2 else 1
stage_after (suc (suc zero)) id = if one_of id logons then 3 else 2
stage_after (suc (suc (suc n))) id = 3

abbrev pub stage : ℕ → List (ℕ × Handled) → ℕ
stage n [] = n
stage n ((id, _) ∷ frames) = stage (stage_after n id) frames

-- The stage that a state stands for.
abbrev reached : SessionState → ℕ
reached connected = 0
reached versioning = 1
reached authenticating = 2
reached logged_in = 3
reached chatting = 3
reached in_channel = 3
reached closing = 0

-- A state is not ahead of the packets, and past the logon there is an account.
record IsSound (n : ℕ) (s : Session) : Type 0 where
  behind : reached s.state ≤ n
  known : authenticated s.state ≡ true → is_some s.account ≡ true

stage_after-grows : (n id k : ℕ) → k ≤ n → k ≤ 3 → k ≤ stage_after n id
stage_after-grows zero id k h l = ground arith
stage_after-grows (suc zero) id k h l = ground arith
stage_after-grows (suc (suc zero)) id k h l = ground arith
stage_after-grows (suc (suc (suc n))) id k h l = l

stage_after-opener : (n id : ℕ) → one_of id openers ≡ true → 1 ≤ stage_after n id
stage_after-opener zero id e = ground arith
stage_after-opener (suc n) id e = stage_after-grows (suc n) id 1 (omega arith) (omega arith)

stage_after-check : (n id : ℕ) → 1 ≤ n → one_of id version_checks ≡ true → 2 ≤ stage_after n id
stage_after-check zero id h e = absurd (omega arith)
stage_after-check (suc zero) id h e = ground arith
stage_after-check (suc (suc n)) id h e =
    stage_after-grows (suc (suc n)) id 2 (omega arith) (omega arith)

stage_after-logon : (n id : ℕ) → 2 ≤ n → one_of id logons ≡ true → 3 ≤ stage_after n id
stage_after-logon zero id h e = absurd (omega arith)
stage_after-logon (suc zero) id h e = absurd (omega arith)
stage_after-logon (suc (suc zero)) id h e = ground arith
stage_after-logon (suc (suc (suc n))) id h e = omega arith

receive-behind :
    (n id : ℕ) (h : Handled) (state : SessionState) (account : Option ℕ)
    → reached state ≤ n
    → reached (receive (record { state = state; account = account }) id h).state ≤ stage_after n id
unfolding receive authenticated next_on_success
receive-behind n id h connected account b = ground (arith, stage_after-opener n id)
receive-behind n id h versioning account b =
    ground (arith, stage_after-check n id b, stage_after-grows n id 1 b (omega arith))
receive-behind n id h authenticating account b =
    ground (arith, stage_after-logon n id b, stage_after-grows n id 2 b (omega arith))
receive-behind n id h logged_in account b = ground (arith, stage_after-grows n id 3 b (omega arith))
receive-behind n id h chatting account b = ground (arith, stage_after-grows n id 3 b (omega arith))
receive-behind n id h in_channel account b =
    ground (arith, stage_after-grows n id 3 b (omega arith))
receive-behind n id h closing account b = ground arith

receive-known :
    (id : ℕ) (h : Handled) (state : SessionState) (account : Option ℕ)
    → (authenticated state ≡ true → is_some account ≡ true)
    → let s = receive (record { state = state; account = account }) id h in
      authenticated s.state ≡ true → is_some s.account ≡ true
unfolding receive authenticated next_on_success
receive-known id h connected account k a = ground arith
receive-known id h versioning account k a = ground arith
receive-known id h authenticating account k a = ground arith
receive-known id h logged_in account k a = ground arith
receive-known id h chatting account k a = ground arith
receive-known id h in_channel account k a = ground arith
receive-known id h closing account k a = ground arith

run-IsSound :
    (n : ℕ) (s : Session) (frames : List (ℕ × Handled))
    → IsSound n s
    → IsSound (stage n frames) (run s frames)
unfolding run
run-IsSound n s [] v = v
run-IsSound n s ((id, h) ∷ frames) v =
    run-IsSound (stage_after n id) (receive s id h) frames (record {
      behind = receive-behind n id h s.state s.account v.behind;
      known = receive-known id h s.state s.account v.known;
    })

authenticated-reached : (s : SessionState) → authenticated s ≡ true → reached s ≡ 3
unfolding authenticated
authenticated-reached s a = ground arith

-- Whatever a peer sends and whatever the handlers do: if a packet that acts for an account is
-- accepted, then the session has an account, and an opening packet, after it a version check and
-- after that a logon have been received before.
pub accepts_after_login :
    (frames : List (ℕ × Handled)) (id : ℕ)
    → one_of id privileged ≡ true
    → accepts (run new frames).state id ≡ true
    → (is_some (run new frames).account ≡ true) × (3 ≤ stage 0 frames)
unfolding new authenticated
accepts_after_login frames id p h =
    let v = run-IsSound 0 new frames (record { behind = omega arith; known = λ e. cc }) in
    let a = accepts-privileged (run new frames).state id p h in
    (v.known a, omega (arith, authenticated-reached (run new frames).state a, v.behind))

receive-closing :
    (s : Session) (id : ℕ) (h : Handled) → s.state ≡ closing → (receive s id h).state ≡ closing
unfolding receive accepts authenticated
receive-closing s id h e = ground arith

-- A closed session stays closed: no packet is handled any more.
pub run-closing :
    (s : Session) (frames : List (ℕ × Handled)) → s.state ≡ closing → (run s frames).state ≡ closing
unfolding run
run-closing s [] e = e
run-closing s ((id, h) ∷ frames) e = run-closing (receive s id h) frames (receive-closing s id h e)
