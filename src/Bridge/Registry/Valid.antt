-- ===== src/Bridge/Registry/Valid.antt =====
-- The two maps of a registry agree, so that a user is found by its name as well as by its id.
use bnet_command_center.Base.{
  ℕ, ◌≡◌, ◌≢◌, refl, ap, ◌∙◌, Option, none, some, true, is_empty, ite, arith, inl, inr, Bool-cases,
}
use bnet_command_center.Base.Map
use bnet_command_center.Bridge.{BridgeTag}
use bnet_command_center.Bridge.Registry.{
  BridgedUser, BridgeRegistry, new, by_remote_id, by_name, is_free, allocate_name, enter,
  forget_name, upsert_named, upsert, remove_found, remove,
}
use bnet_command_center.Text.{Text, Text-discrete, lowercase, text_eq, text_eq→eq}

-- Every user is listed under its own id and under its name in lower case, and every listed name is
-- that of a user who is present.
pub record IsValid (r : BridgeRegistry) : Type 0 where
  pub keyed :
      (id : Text) (u : BridgedUser)
      → Map.get Text-discrete id r.by_remote ≡ some u
      → u.remote_id ≡ id
  pub indexed :
      (id : Text) (u : BridgedUser)
      → Map.get Text-discrete id r.by_remote ≡ some u
      → Map.get Text-discrete (lowercase u.name) r.by_name ≡ some id
  pub known :
      (k id : Text)
      → Map.get Text-discrete k r.by_name ≡ some id
      → (u : BridgedUser) × (Map.get Text-discrete id r.by_remote ≡ some u) × (lowercase u.name ≡ k)

-- A name that nobody but the user holds.
Open : BridgeRegistry → Text → Text → Type 0
Open r id name = (j : Text) → Map.get Text-discrete (lowercase name) r.by_name ≡ some j → j ≡ id

is_free-Open : (r : BridgeRegistry) (id name : Text) → is_free r id name ≡ true → Open r id name
unfolding is_free Open
is_free-Open r id name h j e = text_eq→eq j id (ground arith)

module _ (r : BridgeRegistry) (v : IsValid r) (id : Text) (account : ℕ) (name : Text)
    (o : Open r id name) where
  abbrev entered : ℕ → BridgedUser
  entered a = record { account = a; remote_id = id; name = name }

  added-IsValid : Map.get Text-discrete id r.by_remote ≡ none → IsValid (enter r (entered account))
  unfolding Open
  added-IsValid absent = record {
    keyed = λ j u.
        ground
          (arith, v.keyed j u, Map.get-insert Text-discrete id j (entered account) r.by_remote);
    indexed = λ j u. ground (
      arith,
      v.indexed j u,
      o j,
      Map.get-insert Text-discrete id j (entered account) r.by_remote,
      Map.get-insert Text-discrete (lowercase name) (lowercase u.name) id r.by_name,
    );
    known = λ k j h. elim (Text-discrete (lowercase name) k) [
      | yes p ↦ (
        entered account,
        ground (
          arith,
          h,
          Map.get-insert Text-discrete (lowercase name) k id r.by_name,
          Map.get-insert Text-discrete id j (entered account) r.by_remote,
        ),
        p,
      )
      | no p ↦
          let old : Map.get Text-discrete k r.by_name ≡ some j =
            ground (arith, h, p, Map.get-insert Text-discrete (lowercase name) k id r.by_name) in
          let (u, present, same) = v.known k j old in
          (
            u,
            ground (
              arith,
              present,
              absent,
              Map.get-insert Text-discrete id j (entered account) r.by_remote,
            ),
            same,
          )
    ];
  }

  module _ (prev : BridgedUser) (present : Map.get Text-discrete id r.by_remote ≡ some prev) where
    renamed-get :
        (k : Text)
        → Map.get Text-discrete k (enter (forget_name r prev.name) (entered prev.account)).by_name
          ≡ ite
              (Text-discrete (lowercase name) k)
              (some id)
              (ite (Text-discrete (lowercase prev.name) k) none (Map.get Text-discrete k r.by_name))
    renamed-get k =
        Map.get-insert Text-discrete (lowercase name) k id
          (Map.remove Text-discrete (lowercase prev.name) r.by_name)
        ∙ ap (ite (Text-discrete (lowercase name) k) (some id))
            (Map.get-remove Text-discrete (lowercase prev.name) k r.by_name)

    renamed-IsValid : IsValid (enter (forget_name r prev.name) (entered prev.account))
    unfolding Open
    renamed-IsValid = record {
      keyed = λ j u. ground (
        arith,
        v.keyed j u,
        Map.get-insert Text-discrete id j (entered prev.account) r.by_remote,
      );
      indexed = λ j u. ground (
        arith,
        v.indexed j u,
        v.indexed id prev present,
        o j,
        Map.get-insert Text-discrete id j (entered prev.account) r.by_remote,
        renamed-get (lowercase u.name),
      );
      known = λ k j h. elim (Text-discrete (lowercase name) k) [
        | yes p ↦ (
          entered prev.account,
          ground (
            arith,
            h,
            p,
            renamed-get k,
            Map.get-insert Text-discrete id j (entered prev.account) r.by_remote,
          ),
          p,
        )
        | no p ↦
            let old : Map.get Text-discrete k r.by_name ≡ some j =
              ground (arith, h, p, renamed-get k) in
            let other : lowercase prev.name ≢ k = ground (arith, h, p, renamed-get k) in
            let (u, there, same) = v.known k j old in
            (
              u,
              ground (
                arith,
                there,
                other,
                same,
                present,
                Map.get-insert Text-discrete id j (entered prev.account) r.by_remote,
              ),
              same,
            )
      ];
    }

upsert_named-IsValid :
    (r : BridgeRegistry) (id : Text) (account : ℕ) (name : Text) (o : Option BridgedUser)
    → IsValid r
    → Open r id name
    → Map.get Text-discrete id r.by_remote ≡ o
    → IsValid (upsert_named r id account name o).0
upsert_named-IsValid r id account name none v f e = added-IsValid r v id account name f e
upsert_named-IsValid r id account name (some prev) v f e =
    elim (Bool-cases (text_eq prev.name name)) [
      | inl same ↦ rw (same, upsert_named) v
      | inr other ↦ rw (other, upsert_named) (renamed-IsValid r v id account name f prev e)
    ]

-- `upsert` keeps the two maps in agreement, as long as the name that it allocates is held by nobody
-- else.
pub upsert-IsValid :
    (r : BridgeRegistry) (id display : Text) (account : ℕ)
    → IsValid r
    → is_free r id (allocate_name r display id) ≡ true
    → IsValid (upsert r id display account).0
unfolding upsert
upsert-IsValid r id display account v f =
    let name = allocate_name r display id in
    elim (Bool-cases (is_empty id)) [
      | inl e ↦ rw (e, upsert) v
      | inr e ↦
          rw (e, upsert)
            (upsert_named-IsValid r id account name (Map.get Text-discrete id r.by_remote) v
              (is_free-Open r id name f) refl)
    ]

removed-IsValid :
    (r : BridgeRegistry) (id : Text) (o : Option BridgedUser)
    → IsValid r
    → Map.get Text-discrete id r.by_remote ≡ o
    → IsValid (remove_found r id o).0
removed-IsValid r id none v e = v
removed-IsValid r id (some u) v e = record {
  keyed = λ j w. ground (arith, v.keyed j w, Map.get-remove Text-discrete id j r.by_remote);
  indexed = λ j w. ground (
    arith,
    v.indexed j w,
    v.indexed id u e,
    Map.get-remove Text-discrete id j r.by_remote,
    Map.get-remove Text-discrete (lowercase u.name) (lowercase w.name) r.by_name,
  );
  known = λ k j h.
      let old : Map.get Text-discrete k r.by_name ≡ some j =
        ground (arith, h, Map.get-remove Text-discrete (lowercase u.name) k r.by_name) in
      let other : lowercase u.name ≢ k =
        ground (arith, h, Map.get-remove Text-discrete (lowercase u.name) k r.by_name) in
      let (w, there, same) = v.known k j old in
      (
        w,
        ground (arith, there, other, same, e, Map.get-remove Text-discrete id j r.by_remote),
        same,
      );
}

-- `remove` keeps the two maps in agreement.
pub remove-IsValid : (r : BridgeRegistry) (id : Text) → IsValid r → IsValid (remove r id).0
unfolding remove
remove-IsValid r id v = removed-IsValid r id (Map.get Text-discrete id r.by_remote) v refl

pub new-IsValid : (tag : BridgeTag) → IsValid (new tag)
unfolding new Map.get
new-IsValid tag = record { keyed = λ id u e. cc; indexed = λ id u e. cc; known = λ k id e. cc }

-- In a valid registry a user who is present is found by its name, in whatever case it is written.
pub by_name-present :
    (r : BridgeRegistry) (id : Text) (u : BridgedUser) (name : Text)
    → IsValid r
    → by_remote_id r id ≡ some u
    → lowercase name ≡ lowercase u.name
    → by_name r name ≡ some u
unfolding by_name by_remote_id
by_name-present r id u name v present same = rw (same, v.indexed id u present) present
