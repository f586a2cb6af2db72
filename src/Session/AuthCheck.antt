-- ===== src/Session/AuthCheck.antt =====
-- The handler of SID_AUTH_CHECK (`auth_check` in crates/bnetccd/src/session.rs), with the node's
-- `claim_key` and `release_key` (crates/bnetccd/src/node.rs) over the registry of CD keys. The
-- names of the holders, which only fill the text of a reply, and the log lines are left out.
pub mod Claims
mod Tests
use Prim.Native.Nat.{bit_or}
use bnet_command_center.Base.{
  ℕ, zero, suc, ◌≡◌, ◌≢◌, refl, ◌⊎◌, inl, inr, sym, ◌∙◌, ap, Option, none, some, Bool, true, false,
  ◌||◌, not, List, [], ◌∷◌, ◌++◌, ◌==◌, if◌then◌else◌, arith, ℕ_discrete, Bool-cases,
}
use bnet_command_center.Base.Map
use bnet_command_center.Base.Set
use bnet_command_center.Limits.Keys
use bnet_command_center.Limits.Keys.{KeyRegistry, KeyVerdict}
use bnet_command_center.Session.{
  Session, SessionState, versioning, authenticating, Handled, close, continue, receive,
  next_on_success, accepts, one_of,
}
use bnet_command_center.Session.Sid

-- `auth_check_status`.
abbrev pub passed : ℕ
passed = 0x000

abbrev pub old_version : ℕ
old_version = 0x100

abbrev pub key_in_use : ℕ
key_in_use = 0x201

abbrev pub key_banned : ℕ
key_banned = 0x202

abbrev pub second_key : ℕ
second_key = 0x010

-- `release_key` on each of the keys that this frame has claimed so far.
pub release_all : KeyRegistry → List ℕ → ℕ → KeyRegistry
release_all r [] now = r
release_all r (k ∷ ks) now = release_all (Keys.release r k now) ks now

-- The status for the key at position `i`.
abbrev marked : ℕ → ℕ → ℕ
marked status i = if i == 1 then bit_or status second_key else status

-- What the verdict on one key leads to: the rest of the loop, or the release of the keys claimed
-- before and a refusal.
answered : KeyVerdict → KeyRegistry → ℕ → List ℕ → ℕ → KeyRegistry × ℕ → KeyRegistry × ℕ
unfolding release_all
answered KeyVerdict.ok r now done i rest = rest
answered (KeyVerdict.in_use holder) r now done i rest =
    (release_all r done now, marked key_in_use i)
answered KeyVerdict.banned r now done i rest = (release_all r done now, marked key_banned i)

-- The loop over the keys; `done` are those before position `i`. `claim_key` claims for account 0.
pub claim_keys : KeyRegistry → ℕ → List ℕ → ℕ → List ℕ → KeyRegistry × ℕ
claim_keys r now done i [] = (r, passed)
claim_keys r now done i (k ∷ ks) =
    let (r', verdict) = Keys.claim r k 0 now in
    answered verdict r' now done i (claim_keys r' now (done ++ k ∷ []) (suc i) ks)

-- `send`: the handler goes on, whatever the reply says, if the outbound queue takes the reply.
pub sends : Bool → Handled
sends true = continue none
sends false = close

advances :
    (s : Session)
    → s.state ≡ versioning
    → (receive s Sid.auth_check (sends true)).state ≡ authenticating
unfolding receive accepts one_of next_on_success sends
advances s e = ground arith

-- The session's `claimed_keys` afterwards: the frame's keys if the loop ran through, which no refusal
-- has the status of.
record_claimed : List ℕ → List ℕ → KeyRegistry × ℕ → KeyRegistry × ℕ × List ℕ
record_claimed claimed keys (r, status) = (r, status, if status == passed then keys else claimed)

-- A version is checked only if the client gave one; `allows` is the node's version policy.
module _ {V : Type 0} (allows : V → Bool) (uniqueness : Bool) where
  pub version_allowed : Option V → Bool
  version_allowed none = true
  version_allowed (some v) = allows v

  check_parsed : KeyRegistry → List ℕ → ℕ → Option (List ℕ) → KeyRegistry × ℕ × List ℕ
  unfolding record_claimed
  check_parsed r claimed now none = (r, passed, claimed)
  check_parsed r claimed now (some keys) = record_claimed claimed keys (claim_keys r now [] 0 keys)

  -- The registry afterwards, the status of the reply, and the keys that the session holds, so far
  -- `claimed`. `keys` are the fingerprints of the frame's keys, `none` if it could not be parsed.
  pub auth_check : KeyRegistry → List ℕ → Option V → Option (List ℕ) → ℕ → KeyRegistry × ℕ × List ℕ
  unfolding version_allowed check_parsed
  auth_check r claimed version keys now =
      if not (version_allowed version)
      then (r, old_version, claimed)
      else (if not uniqueness then (r, passed, claimed) else check_parsed r claimed now keys)

  -- The frame in the packet loop: the session, the registry, the status of the reply, and the keys
  -- that the session holds.
  pub receive_auth_check :
      Session
      → KeyRegistry
      → List ℕ
      → Option V
      → Option (List ℕ)
      → ℕ
      → Bool
      → Session × KeyRegistry × ℕ × List ℕ
  receive_auth_check s r claimed version keys now sent =
      let (r', status, claimed') = auth_check r claimed version keys now in
      (receive s Sid.auth_check (sends sent), r', status, claimed')

  -- The version restriction is not enforced: a session that awaits its version check and whose
  -- version the policy does not allow gets the status "old version", claims no key, and moves on to
  -- the logon all the same, if the reply could be queued.
  pub auth_check_old_version :
      (s : Session) (r : KeyRegistry) (claimed : List ℕ) (version : Option V)
      (keys : Option (List ℕ)) (now : ℕ)
      → s.state ≡ versioning
      → version_allowed version ≡ false
      → let (s', r', status, claimed') = receive_auth_check s r claimed version keys now true in
        (status ≡ old_version) × (r' ≡ r) × (claimed' ≡ claimed) × (s'.state ≡ authenticating)
  unfolding receive_auth_check auth_check
  auth_check_old_version s r claimed version keys now e old =
      rw (old, auth_check) (refl, refl, refl, advances s e)

  -- Nor is the rule of one session for each CD key: a session whose first key is held by another
  -- gets the status "key in use", holds no key of the frame, and moves on to the logon all the same.
  pub auth_check_key_in_use :
      (s : Session) (r : KeyRegistry) (claimed : List ℕ) (version : Option V) (k other : ℕ)
      (ks : List ℕ) (now : ℕ)
      → s.state ≡ versioning
      → version_allowed version ≡ true
      → uniqueness ≡ true
      → (Keys.claim r k 0 now).1 ≡ KeyVerdict.in_use other
      → let (s', r', status, claimed') =
          receive_auth_check s r claimed version (some (k ∷ ks)) now true in
        (status ≡ key_in_use) × (claimed' ≡ claimed) × (s'.state ≡ authenticating)
  unfolding receive_auth_check auth_check claim_keys answered record_claimed
  auth_check_key_in_use s r claimed version k other ks now e v u held =
      rw (v, auth_check, u, held, answered) (refl, refl, advances s e)
