-- ===== src/Bridge/Registry/Stable.antt =====
-- A remote user keeps its account, whatever it calls itself.
use bnet_command_center.Base.{
  ℕ, ◌≡◌, ◌≢◌, refl, ap, ◌∙◌, Option, none, some, List, [], ◌∷◌, is_empty, All, arith, inl, inr,
  Option-cases, Bool-cases,
}
use bnet_command_center.Base.Map
use bnet_command_center.Bridge.Registry.{
  BridgedUser, BridgeRegistry, by_remote_id, allocate_name, upsert_named, upsert, remove, Report,
  upserts, removes, step, run,
}
use bnet_command_center.Text.{Text, Text-discrete}

-- All but the removal of this user.
abbrev pub Spares : Text → Report → Type 0
Spares id (upserts other display account) = Unit {0}
Spares id (removes other) = other ≢ id

abbrev account_in : Option BridgedUser → Option ℕ
account_in none = none
account_in (some u) = some u.account

-- The account of a remote user, if it is present.
abbrev pub account_of : BridgeRegistry → Text → Option ℕ
account_of r id = account_in (by_remote_id r id)

upsert_named-account :
    (r : BridgeRegistry) (id other : Text) (account fresh : ℕ) (name : Text)
    (o : Option BridgedUser)
    → by_remote_id r other ≡ o
    → account_of r id ≡ some account
    → account_of (upsert_named r other fresh name o).0 id ≡ some account
unfolding by_remote_id
upsert_named-account r id other account fresh name none e h = ground (
  arith,
  Map.get-insert Text-discrete other id (record { account = fresh; remote_id = other; name = name })
      r.by_remote,
)
upsert_named-account r id other account fresh name (some prev) e h = ground (
  arith,
  Map.get-insert Text-discrete other id
      (record { account = prev.account; remote_id = other; name = name }) r.by_remote,
)

upsert-account :
    (r : BridgeRegistry) (id other display : Text) (account fresh : ℕ)
    → account_of r id ≡ some account
    → account_of (upsert r other display fresh).0 id ≡ some account
unfolding upsert by_remote_id
upsert-account r id other display account fresh h = elim (Bool-cases (is_empty other)) [
  | inl e ↦ rw (e, upsert) h
  | inr e ↦
      rw (e, upsert)
        (upsert_named-account r id other account fresh (allocate_name r display other)
          (by_remote_id r other) refl h)
]

remove-account :
    (r : BridgeRegistry) (id other : Text)
    → other ≢ id
    → by_remote_id (remove r other).0 id ≡ by_remote_id r id
unfolding by_remote_id remove
remove-account r id other ne = elim (Option-cases (Map.get Text-discrete other r.by_remote)) [
  | inl e ↦ rw (e, remove) refl
  | inr (u, e) ↦
      rw (e, remove) (ground (arith, ne, Map.get-remove Text-discrete other id r.by_remote))
]

-- Moderation survives renaming: whatever a bridge reports afterwards, a remote user that is present
-- keeps the account that it has, under every display name, until it is removed itself.
pub run-account :
    (r : BridgeRegistry) (es : List Report) (id : Text) (account : ℕ)
    → All (Spares id) es
    → account_of r id ≡ some account
    → account_of (run r es) id ≡ some account
unfolding run step
run-account r [] id account s h = h
run-account r (upserts other display fresh ∷ es) id account s h =
    run-account (upsert r other display fresh).0 es id account s.1
      (upsert-account r id other display account fresh h)
run-account r (removes other ∷ es) id account s h =
    run-account (remove r other).0 es id account s.1
      (ap account_in (remove-account r id other s.0) ∙ h)
