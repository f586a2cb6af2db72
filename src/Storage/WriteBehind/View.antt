-- ===== src/Storage/WriteBehind/View.antt =====
-- What a caller sees through the buffer, and what each call makes of it.
use bnet_command_center.Base.{
  ℕ, ◌≡◌, refl, sym, ap, ◌∙◌, Option, none, some, List, [], ◌∷◌, ite, ℕ_discrete, Result, ok, err,
  ◌>>=◌, arith,
}
use bnet_command_center.Base.Map
use bnet_command_center.Text.{Text}
use bnet_command_center.Storage.{
  StorageError, AttrMap, Attributes, lookup, extend, overlay, listed, patch, Backend,
}
use bnet_command_center.Storage.Attrs.{or_else, lookup-extend, overlay-lookup}
use bnet_command_center.Storage.WriteBehind.{
  WriteBehind, slot, put_loop, attrs_get, attrs_all, attrs_put, forget, deleted, delete_account,
}
use bnet_command_center.Storage.WriteBehind.Slots.{
  Slots, slot-insert, slot-remove, slot-IsUnique, overlay-or_else, put_loop-slot, patch-lookup,
  listed-or_else, same-ite,
}

module _ {S : Type 0} (B : Backend S) where
  -- The buffered value, or the backend's.
  abbrev pub seen : WriteBehind S → ℕ → Attributes
  seen w id key = or_else (lookup (slot w.dirty id) key) (B.view w.backend id key)

  all-seen :
      (w : WriteBehind S) (id : ℕ) (m : AttrMap) (key : Text) (r : Result AttrMap StorageError)
      → Slots w.dirty
      → B.attrs_all w.backend id ≡ r
      → (r >>= λ out. ok (extend out (slot w.dirty id))) ≡ ok m
      → lookup m key ≡ seen w id key
  all-seen w id m key (ok out) u e h =
      let same : extend out (slot w.dirty id) ≡ m = cc h in
      ap (λ (n : AttrMap). lookup n key) (sym same)
      ∙ lookup-extend (slot w.dirty id) out key
      ∙ overlay-lookup (slot w.dirty id) (lookup out) key (slot-IsUnique id w.dirty u)
      ∙ ap (or_else (lookup (slot w.dirty id) key)) (B.all-view w.backend id out key e)
  all-seen w id m key (err x) u e h = let no : ⊥ = cc h in elim no [ ]

  -- All attributes of an account are read with what is buffered.
  pub attrs_all-seen :
      (w : WriteBehind S) (id : ℕ) (m : AttrMap) (key : Text)
      → Slots w.dirty
      → attrs_all B w id ≡ ok m
      → lookup m key ≡ seen w id key
  unfolding attrs_all
  attrs_all-seen w id m key u h = all-seen w id m key (B.attrs_all w.backend id) u refl h

  put-case :
      (w : WriteBehind S) (id j : ℕ) (attrs : AttrMap) (key : Text) (d : Dec (id ≡ j))
      → or_else
          (lookup (ite d (extend (slot w.dirty id) attrs) (slot w.dirty j)) key)
          (B.view w.backend j key)
        ≡ ite d (overlay attrs (seen w id) key) (seen w j key)
  put-case w id j attrs key (yes e) =
      ap (or_else (lookup (extend (slot w.dirty id) attrs) key))
        (ap (λ (i : ℕ). B.view w.backend i key) (sym e))
      ∙ ap (λ (o : Option Text). or_else o (B.view w.backend id key))
          (lookup-extend attrs (slot w.dirty id) key)
      ∙ overlay-or_else attrs (lookup (slot w.dirty id)) (B.view w.backend id) key
  put-case w id j attrs key (no n) = refl

  pub attrs_put-seen :
      (w : WriteBehind S) (id : ℕ) (attrs : AttrMap) (j : ℕ) (key : Text)
      → seen (attrs_put w id attrs) j key
        ≡ ite (ℕ_discrete id j) (overlay attrs (seen w id) key) (seen w j key)
  unfolding attrs_put overlay
  attrs_put-seen w id [] j key = same-ite (ℕ_discrete id j) (λ (i : ℕ). seen w i key)
  attrs_put-seen w id (a ∷ attrs) j key =
      rw
        (
          slot-insert id j (put_loop (a ∷ attrs) (slot w.dirty id) w.dirty_attrs w.batched_writes).0
              w.dirty,
          put_loop-slot (a ∷ attrs) (slot w.dirty id) w.dirty_attrs w.batched_writes,
        )
        (put-case w id j (a ∷ attrs) key (ℕ_discrete id j))

  gone-case :
      {P : Type 0} (d : Dec P) (m : AttrMap) (key : Text) (below : Option Text)
      → or_else (lookup (ite d [] m) key) (ite d none below)
        ≡ ite d none (or_else (lookup m key) below)
  unfolding lookup Map.get
  gone-case (yes e) m key below = refl
  gone-case (no n) m key below = refl

  forget-backend :
      (w : WriteBehind S) (id : ℕ) (o : Option AttrMap) → (forget w id o).backend ≡ w.backend
  forget-backend w id none = refl
  forget-backend w id (some m) = refl

  slot-forget :
      (w : WriteBehind S) (id j : ℕ) (o : Option AttrMap)
      → Map.get ℕ_discrete id w.dirty ≡ o
      → slot (forget w id o).dirty j ≡ ite (ℕ_discrete id j) [] (slot w.dirty j)
  unfolding slot
  slot-forget w id j none e = ground arith
  slot-forget w id j (some m) e = slot-remove id j w.dirty

  deleted-seen :
      (w w' : WriteBehind S) (id j : ℕ) (key : Text) (r : Result S StorageError)
      → slot w'.dirty j ≡ ite (ℕ_discrete id j) [] (slot w.dirty j)
      → w'.backend ≡ w.backend
      → B.delete_account w'.backend id ≡ r
      → (deleted B w' r).0 ≡ ok tt
      → seen (deleted B w' r).1 j key ≡ ite (ℕ_discrete id j) none (seen w j key)
  deleted-seen w w' id j key (ok s) e same h k =
      rw (e, B.delete-view w'.backend s id j key h, same)
        (gone-case (ℕ_discrete id j) (slot w.dirty j) key (B.view w.backend j key))
  deleted-seen w w' id j key (err x) e same h k = let no : ⊥ = cc k in elim no [ ]

  -- When the backend deletes an account, nothing is seen of it any more, so that no later flush
  -- brings back what was buffered, and every other account is seen as before.
  pub delete_account-seen :
      (w : WriteBehind S) (id j : ℕ) (key : Text)
      → (delete_account B w id).0 ≡ ok tt
      → seen (delete_account B w id).1 j key ≡ ite (ℕ_discrete id j) none (seen w j key)
  unfolding delete_account
  delete_account-seen w id j key h =
      let o = Map.get ℕ_discrete id w.dirty in
      deleted-seen w (forget w id o) id j key (B.delete_account (forget w id o).backend id)
        (slot-forget w id j o refl) (forget-backend w id o) refl h

  get-seen :
      (w : WriteBehind S) (id : ℕ) (keys : List Text) (m : AttrMap) (key : Text)
      (r : Result AttrMap StorageError)
      → B.attrs_get w.backend id keys ≡ r
      → (r >>= λ out. ok (patch keys (slot w.dirty id) out)) ≡ ok m
      → lookup m key ≡ listed keys key (seen w id key)
  get-seen w id keys m key (ok out) e h =
      let pending = slot w.dirty id in
      let same : patch keys pending out ≡ m = cc h in
      ap (λ (n : AttrMap). lookup n key) (sym same)
      ∙ patch-lookup keys pending out key
      ∙ ap (or_else (listed keys key (lookup pending key))) (B.get-view w.backend id keys out key e)
      ∙ listed-or_else keys key (lookup pending key) (B.view w.backend id key)
  get-seen w id keys m key (err x) e h = let no : ⊥ = cc h in elim no [ ]

  -- When the backend answers, a read of some attributes gives for each of the keys that are asked
  -- for the buffered value, or else the backend's, and nothing for any other key.
  pub attrs_get-seen :
      (w : WriteBehind S) (id : ℕ) (keys : List Text) (m : AttrMap) (key : Text)
      → attrs_get B w id keys ≡ ok m
      → lookup m key ≡ listed keys key (seen w id key)
  unfolding attrs_get
  attrs_get-seen w id keys m key h = get-seen w id keys m key (B.attrs_get w.backend id keys) refl h
