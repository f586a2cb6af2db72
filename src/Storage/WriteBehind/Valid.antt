-- ===== src/Storage/WriteBehind/Valid.antt =====
-- The buffer is well formed, and its count of attributes is exact, over every call.
use bnet_command_center.Base.{
  ℕ, ◌+◌, ◌≡◌, refl, Option, none, some, [], ◌∷◌, length, is_empty, Bool-cases, inl, inr,
  ℕ_discrete, Result, ok, err, arith,
}
use bnet_command_center.Base.Map
use bnet_command_center.Text.{Text, Text-discrete}
use bnet_command_center.Storage.{StorageError, AttrMap, lookup, Backend}
use bnet_command_center.Storage.Attrs.{IsUnique, extend-IsUnique}
use bnet_command_center.Storage.WriteBehind.{
  WriteBehind, Dirty, FlushPolicy, new, slot, total, put_loop, one_if_new, attrs_put,
  flush_accounts, synced, flushed, flush_now, is_due, ticked, tick, forget, deleted, delete_account,
}
use bnet_command_center.Storage.WriteBehind.Slots.{
  Slots, slot-IsUnique, insert-Slots, put_loop-slot,
}
use bnet_command_center.Storage.WriteBehind.Loop.{flush_accounts-Valid}

abbrev pub IsValid : {S : Type 0} → WriteBehind S → Type 0
IsValid w = Map.Unique ℕ_discrete w.dirty × Slots w.dirty × (w.dirty_attrs ≡ total w.dirty)

insert-total :
    (id : ℕ) (m : AttrMap) (dirty : Dirty)
    → total (Map.insert ℕ_discrete id m dirty) + length (slot dirty id) ≡ total dirty + length m
unfolding Map.insert Map.get slot total
insert-total id m [] = omega arith
insert-total id m ((j, n) ∷ dirty) = ground (arith, insert-total id m dirty)

length-insert :
    (k v : Text) (m : AttrMap)
    → length (Map.insert Text-discrete k v m) ≡ length m + one_if_new (lookup m k)
unfolding Map.insert Map.get lookup
length-insert k v [] = omega arith
length-insert k v ((j, w) ∷ m) = ground (arith, length-insert k v m)

put_loop-count :
    (attrs m : AttrMap) (count batched : ℕ)
    → (put_loop attrs m count batched).1 + length m
      ≡ count + length (put_loop attrs m count batched).0
unfolding put_loop
put_loop-count [] m count batched = refl
put_loop-count ((k, v) ∷ attrs) m count batched = omega (
  arith,
  put_loop-count attrs (Map.insert Text-discrete k v m) (count + one_if_new (lookup m k)) _,
  length-insert k v m,
)

remove-Slots : (id : ℕ) (dirty : Dirty) → Slots dirty → Slots (Map.remove ℕ_discrete id dirty)
unfolding Map.remove
remove-Slots id [] h = tt
remove-Slots id ((j, m) ∷ dirty) h = ground (arith, remove-Slots id dirty h.1, h.0)

module _ {S : Type 0} where
  pub new-IsValid : (s : S) (policy : FlushPolicy) (now : ℕ) → IsValid (new s policy now)
  unfolding new total
  new-IsValid s policy now = (tt, tt, refl)

  pub attrs_put-IsValid :
      (w : WriteBehind S) (id : ℕ) (attrs : AttrMap) → IsValid w → IsValid (attrs_put w id attrs)
  unfolding attrs_put
  attrs_put-IsValid w id [] v = v
  attrs_put-IsValid w id (a ∷ attrs) v =
      let put = put_loop (a ∷ attrs) (slot w.dirty id) w.dirty_attrs w.batched_writes in
      let unique : IsUnique put.0 =
        rw (put_loop-slot (a ∷ attrs) (slot w.dirty id) w.dirty_attrs w.batched_writes)
          (extend-IsUnique (a ∷ attrs) (slot w.dirty id) (slot-IsUnique id w.dirty v.1)) in
      (
        Map.insert-Unique ℕ_discrete id put.0 w.dirty v.0,
        insert-Slots id put.0 w.dirty unique v.1,
        omega (
          arith,
          insert-total id put.0 w.dirty,
          put_loop-count (a ∷ attrs) (slot w.dirty id) w.dirty_attrs w.batched_writes,
          v.2,
        ),
      )

module _ {S : Type 0} (B : Backend S) where
  synced-IsValid :
      (w : WriteBehind S) (now : ℕ) (r : Result S StorageError)
      → IsValid w
      → IsValid (synced w now r).1
  synced-IsValid w now (ok s) v = v
  synced-IsValid w now (err e) v = v

  flushed-IsValid :
      (w : WriteBehind S) (now : ℕ) (first : Option StorageError)
      → IsValid w
      → IsValid (flushed B w now first).1
  flushed-IsValid w now (some e) v = v
  flushed-IsValid w now none v = synced-IsValid w now (B.flush w.backend) v

  pub flush_now-IsValid : (w : WriteBehind S) (now : ℕ) → IsValid (flush_now B w now).1
  unfolding flush_now
  flush_now-IsValid w now =
      let r = flush_accounts B w.dirty w.backend [] none in
      let (unique, slots) = flush_accounts-Valid B w.dirty w.backend [] none tt tt in
      flushed-IsValid (record w { backend = r.0; dirty = r.1; dirty_attrs = total r.1 }) now r.2
        (unique, slots, refl)

  ticked-IsValid :
      (r : Result (Unit {0}) StorageError × WriteBehind S) → IsValid r.1 → IsValid (ticked r).1
  ticked-IsValid (ok x, w) v = v
  ticked-IsValid (err e, w) v = v

  pub tick-IsValid : (w : WriteBehind S) (now : ℕ) → IsValid w → IsValid (tick B w now).1
  unfolding tick
  tick-IsValid w now v = elim (Bool-cases (is_empty w.dirty)) [
    | inl e ↦ rw e v
    | inr e ↦ elim (Bool-cases (is_due w now)) [
      | inl f ↦ rw (e, f) (ticked-IsValid (flush_now B w now) (flush_now-IsValid w now))
      | inr f ↦ rw (e, f) v
    ]
  ]

  forget-IsValid :
      (w : WriteBehind S) (id : ℕ) (o : Option AttrMap) → IsValid w → IsValid (forget w id o)
  forget-IsValid w id none v = v
  forget-IsValid w id (some m) v =
      (Map.remove-Unique ℕ_discrete id w.dirty v.0, remove-Slots id w.dirty v.1, refl)

  deleted-IsValid :
      (w : WriteBehind S) (r : Result S StorageError) → IsValid w → IsValid (deleted B w r).1
  deleted-IsValid w (ok s) v = v
  deleted-IsValid w (err e) v = v

  pub delete_account-IsValid :
      (w : WriteBehind S) (id : ℕ) → IsValid w → IsValid (delete_account B w id).1
  unfolding delete_account
  delete_account-IsValid w id v =
      deleted-IsValid _ _ (forget-IsValid w id (Map.get ℕ_discrete id w.dirty) v)
