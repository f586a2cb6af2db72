-- ===== src/Storage/WriteBehind/Flush.antt =====
-- A flush and a tick change nothing that a caller sees, and a flush that succeeds leaves nothing in
-- the buffer alone.
use bnet_command_center.Base.{
  ℕ, ◌≡◌, refl, sym, ap, ◌∙◌, Option, none, some, [], is_empty, Bool-cases, inl, inr, ℕ_discrete,
  Result, ok, err,
}
use bnet_command_center.Base.Map
use bnet_command_center.Text.{Text}
use bnet_command_center.Storage.{StorageError, lookup, Backend}
use bnet_command_center.Storage.Attrs.{or_else}
use bnet_command_center.Storage.WriteBehind.{
  WriteBehind, slot, total, flush_accounts, synced, flushed, flush_now, is_due, ticked, tick,
}
use bnet_command_center.Storage.WriteBehind.Slots.{Slots}
use bnet_command_center.Storage.WriteBehind.View.{seen}
use bnet_command_center.Storage.WriteBehind.Loop.{
  AllKnown, nil-Apart, slot-nil, nothing, flush_accounts-over, flush_accounts-none,
}

module _ {S : Type 0} (B : Backend S) where
  sync-seen :
      (w : WriteBehind S) (now : ℕ) (j : ℕ) (key : Text) (r : Result S StorageError)
      → B.flush w.backend ≡ r
      → seen B (synced w now r).1 j key ≡ seen B w j key
  sync-seen w now j key (ok s) e =
      ap (or_else (lookup (slot w.dirty j) key)) (B.flush-view w.backend s j key e)
  sync-seen w now j key (err x) e = refl

  flushed-seen :
      (w : WriteBehind S) (now : ℕ) (first : Option StorageError) (j : ℕ) (key : Text)
      → seen B (flushed B w now first).1 j key ≡ seen B w j key
  flushed-seen w now (some e) j key = refl
  flushed-seen w now none j key = sync-seen w now j key (B.flush w.backend) refl

  pub flush_now-seen :
      (w : WriteBehind S) (now j : ℕ) (key : Text)
      → Map.Unique ℕ_discrete w.dirty
      → Slots w.dirty
      → AllKnown B w.backend w.dirty
      → seen B (flush_now B w now).1 j key ≡ seen B w j key
  unfolding flush_now
  flush_now-seen w now j key u v k =
      let r = flush_accounts B w.dirty w.backend [] none in
      flushed-seen (record w { backend = r.0; dirty = r.1; dirty_attrs = total r.1 }) now r.2 j key
      ∙ flush_accounts-over B w.dirty w.backend [] none j key u v (nil-Apart w.dirty) k
      ∙ ap (or_else (lookup (slot w.dirty j) key)) (rw (slot-nil j, nothing key))

  ticked-seen : (r : Result (Unit {0}) StorageError × WriteBehind S) → (ticked r).1 ≡ r.1
  ticked-seen (ok x, w) = refl
  ticked-seen (err e, w) = refl

  pub tick-seen :
      (w : WriteBehind S) (now j : ℕ) (key : Text)
      → Map.Unique ℕ_discrete w.dirty
      → Slots w.dirty
      → AllKnown B w.backend w.dirty
      → seen B (tick B w now).1 j key ≡ seen B w j key
  unfolding tick
  tick-seen w now j key u v k = elim (Bool-cases (is_empty w.dirty)) [
    | inl e ↦ rw e refl
    | inr e ↦ elim (Bool-cases (is_due w now)) [
      | inl f ↦ rw (e, f, ticked-seen (flush_now B w now)) (flush_now-seen w now j key u v k)
      | inr f ↦ rw (e, f)
    ]
  ]

  synced-dirty :
      (w : WriteBehind S) (now : ℕ) (r : Result S StorageError) → (synced w now r).1.dirty ≡ w.dirty
  synced-dirty w now (ok s) = refl
  synced-dirty w now (err e) = refl

  flushed-ok :
      (w : WriteBehind S) (now : ℕ) (first : Option StorageError)
      → (flushed B w now first).0 ≡ ok tt
      → (first ≡ none) × ((flushed B w now first).1.dirty ≡ w.dirty)
  flushed-ok w now (some e) h = let no : ⊥ = cc h in elim no [ ]
  flushed-ok w now none h = (refl, synced-dirty w now (B.flush w.backend))

  -- A flush that succeeds leaves an empty buffer, and the backend alone holds all that was seen,
  -- for a buffer with one value for each key of the accounts that it lists once and that the
  -- backend knows.
  pub flush_now-durable :
      (w : WriteBehind S) (now j : ℕ) (key : Text)
      → Map.Unique ℕ_discrete w.dirty
      → Slots w.dirty
      → AllKnown B w.backend w.dirty
      → (flush_now B w now).0 ≡ ok tt
      → ((flush_now B w now).1.dirty ≡ [])
        × (B.view (flush_now B w now).1.backend j key ≡ seen B w j key)
  unfolding flush_now
  flush_now-durable w now j key u v k h =
      let r = flush_accounts B w.dirty w.backend [] none in
      let after =
        flushed B (record w { backend = r.0; dirty = r.1; dirty_attrs = total r.1 }) now r.2 in
      let (none_first, same) =
        flushed-ok (record w { backend = r.0; dirty = r.1; dirty_attrs = total r.1 }) now r.2 h in
      let empty : after.1.dirty ≡ [] =
        same ∙ flush_accounts-none B w.dirty w.backend [] none_first in
      let bare : seen B after.1 j key ≡ B.view after.1.backend j key =
        rw (empty, slot-nil j, nothing key) in
      (empty, sym bare ∙ flush_now-seen w now j key u v k)
