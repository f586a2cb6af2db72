-- ===== src/Bridge/Registry.antt =====
-- `BridgeRegistry` (crates/bnetcc-core/src/bridge.rs): the remote users that one bridge presents,
-- by their remote id and by their name in lower case.
pub mod Stable
pub mod Valid
pub mod Allocate
mod Tests
use bnet_command_center.Base.{
  ℕ, zero, suc, ◌+◌, Option, none, some, Bool, true, false, List, [], ◌∷◌, Result, ok, err,
  is_empty, if◌then◌else◌, get_or,
}
use bnet_command_center.Base.Map
use bnet_command_center.Bridge.{BridgeTag, BridgeError, empty_remote_id, derive_name}
use bnet_command_center.Text.{Text, Text-discrete, lowercase, text_eq}

pub record BridgedUser : Type 0 where
  pub account : ℕ
  pub remote_id : Text
  pub name : Text

pub data Upsert : Type 0 where
  added : BridgedUser → Upsert
  renamed : BridgedUser → Text → Upsert
  unchanged : BridgedUser → Upsert

-- `Upsert::user`.
pub user : Upsert → BridgedUser
user (added u) = u
user (renamed u previous) = u
user (unchanged u) = u

pub record BridgeRegistry : Type 0 where
  pub tag : BridgeTag
  pub by_remote : List (Text × BridgedUser)
  pub by_name : List (Text × Text)

pub new : BridgeTag → BridgeRegistry
new tag = record { tag = tag; by_remote = []; by_name = [] }

pub by_remote_id : BridgeRegistry → Text → Option BridgedUser
by_remote_id r id = Map.get Text-discrete id r.by_remote

abbrev remote_of : BridgeRegistry → Option Text → Option BridgedUser
remote_of r none = none
remote_of r (some id) = Map.get Text-discrete id r.by_remote

pub by_name : BridgeRegistry → Text → Option BridgedUser
by_name r name = remote_of r (Map.get Text-discrete (lowercase name) r.by_name)

-- Nobody holds the name, or the user itself does.
abbrev held_by : Text → Option Text → Bool
held_by id none = true
held_by id (some holder) = text_eq holder id

pub is_free : BridgeRegistry → Text → Text → Bool
is_free r id candidate = held_by id (Map.get Text-discrete (lowercase candidate) r.by_name)

-- The loop over the suffixes from `n` on, `left` of them; after the last one the remote id itself
-- gives the name.
try_suffixes : BridgeRegistry → Text → Text → ℕ → ℕ → Text
unfolding is_free
try_suffixes r display id zero n = derive_name r.tag id none
try_suffixes r display id (suc left) n =
    let candidate = derive_name r.tag display (some n) in
    let rest = try_suffixes r display id left (n + 1) in
    if is_free r id candidate then candidate else rest

-- The suffixes are 2 to 99.
pub allocate_name : BridgeRegistry → Text → Text → Text
unfolding is_free try_suffixes
allocate_name r display id =
    let first = derive_name r.tag display none in
    if is_free r id first then first else try_suffixes r display id 98 2

-- The user enters both maps under this name.
abbrev enter : BridgeRegistry → BridgedUser → BridgeRegistry
enter r u = record r {
  by_name = Map.insert Text-discrete (lowercase u.name) u.remote_id r.by_name;
  by_remote = Map.insert Text-discrete u.remote_id u r.by_remote;
}

abbrev forget_name : BridgeRegistry → Text → BridgeRegistry
forget_name r name = record r { by_name = Map.remove Text-discrete (lowercase name) r.by_name }

abbrev upsert_named :
    BridgeRegistry → Text → ℕ → Text → Option BridgedUser → BridgeRegistry × Upsert
upsert_named r id account name none =
    let u : BridgedUser = record { account = account; remote_id = id; name = name } in
    (enter r u, added u)
upsert_named r id account name (some prev) =
    if text_eq prev.name name
    then (r, unchanged prev)
    else (let u : BridgedUser = record { account = prev.account; remote_id = id; name = name } in
        (enter (forget_name r prev.name) u, renamed u prev.name))

abbrev as_ok : BridgeRegistry × Upsert → BridgeRegistry × Result Upsert BridgeError
as_ok (r, u) = (r, ok u)

pub upsert : BridgeRegistry → Text → Text → ℕ → BridgeRegistry × Result Upsert BridgeError
upsert r id display account =
    if is_empty id
    then (r, err empty_remote_id)
    else as_ok (
        upsert_named r id account (allocate_name r display id)
          (Map.get Text-discrete id r.by_remote))

abbrev remove_found :
    BridgeRegistry → Text → Option BridgedUser → BridgeRegistry × Option BridgedUser
remove_found r id none = (r, none)
remove_found r id (some u) = (
  record r {
    by_remote = Map.remove Text-discrete id r.by_remote;
    by_name = Map.remove Text-discrete (lowercase u.name) r.by_name;
  },
  some u,
)

pub remove : BridgeRegistry → Text → BridgeRegistry × Option BridgedUser
remove r id = remove_found r id (Map.get Text-discrete id r.by_remote)

-- What a bridge reports: a user with its display name and the account that a new one gets, or that
-- a user is gone.
pub data Report : Type 0 where
  upserts : Text → Text → ℕ → Report
  removes : Text → Report

pub step : BridgeRegistry → Report → BridgeRegistry
step r (upserts id display account) = (upsert r id display account).0
step r (removes id) = (remove r id).0

pub run : BridgeRegistry → List Report → BridgeRegistry
run r [] = r
run r (e ∷ es) = run (step r e) es
