-- ===== src/Storage/WriteBehind/Used.antt =====
-- The accounts of a run, which the backend knows throughout.
use bnet_command_center.Base.{
  ℕ, ◌≡◌, refl, Option, none, some, [], ◌∷◌, All, is_empty, Bool-cases, inl, inr, ℕ_discrete,
  get_or, Result, ok, err, arith,
}
use bnet_command_center.Base.Map
use bnet_command_center.Storage.{StorageError, AttrMap, Backend}
use bnet_command_center.Storage.WriteBehind.{
  WriteBehind, Dirty, slot, total, put_back, put_done, put_loop, attrs_put, flush_accounts, synced,
  flushed, flush_now, is_due, ticked, tick,
}
use bnet_command_center.Storage.WriteBehind.Loop.{AllKnown, flush_accounts-Known}

module _ {S : Type 0} (B : Backend S) (Uses : ℕ → Type 0) where
  abbrev pub AllUsed : Dirty → Type 0
  AllUsed dirty = All (λ (entry : ℕ × AttrMap). Uses entry.0) dirty

  abbrev pub KnowsUsed : S → Type 0
  KnowsUsed s = (id : ℕ) → Uses id → B.Known s id

  pub insert-AllUsed :
      (id : ℕ) (m : AttrMap) (dirty : Dirty)
      → Uses id
      → AllUsed dirty
      → AllUsed (Map.insert ℕ_discrete id m dirty)
  unfolding Map.insert
  insert-AllUsed id m [] u h = (u, tt)
  insert-AllUsed id m ((j, n) ∷ dirty) u h = ground (arith, insert-AllUsed id m dirty u h.1, h.0)

  pub used-known : (s : S) (dirty : Dirty) → KnowsUsed s → AllUsed dirty → AllKnown B s dirty
  used-known s [] k h = tt
  used-known s (entry ∷ dirty) k h = (k entry.0 h.0, used-known s dirty k h.1)

  done-AllUsed :
      (id : ℕ) (attrs : AttrMap) (pending : Dirty) (s : S) (dirty : Dirty)
      (first : Option StorageError) (r : Result S StorageError)
      → Uses id
      → AllUsed dirty
      → ((s' : S) (dirty' : Dirty) (first' : Option StorageError)
          → AllUsed dirty'
          → AllUsed (flush_accounts B pending s' dirty' first').1)
      → AllUsed (put_done (flush_accounts B pending) s (put_back dirty id attrs) dirty first r).1
  done-AllUsed id attrs pending s dirty first (ok s') u h go = go s' dirty first h
  done-AllUsed id attrs pending s dirty first (err x) u h go =
      go s (put_back dirty id attrs) (some (get_or first x)) (insert-AllUsed id _ dirty u h)

  flush_accounts-AllUsed :
      (pending : Dirty) (s : S) (dirty : Dirty) (first : Option StorageError)
      → AllUsed pending
      → AllUsed dirty
      → AllUsed (flush_accounts B pending s dirty first).1
  unfolding flush_accounts
  flush_accounts-AllUsed [] s dirty first p h = h
  flush_accounts-AllUsed ((id, attrs) ∷ pending) s dirty first p h =
      done-AllUsed id attrs pending s dirty first (B.attrs_put s id attrs) p.0 h
        (λ s' dirty' first' h'. flush_accounts-AllUsed pending s' dirty' first' p.1 h')

  abbrev pub Kept : WriteBehind S → Type 0
  Kept w = AllUsed w.dirty × KnowsUsed w.backend

  synced-Kept :
      (w : WriteBehind S) (now : ℕ) (r : Result S StorageError)
      → B.flush w.backend ≡ r
      → Kept w
      → Kept (synced w now r).1
  synced-Kept w now (ok s) e k = (k.0, λ id u. B.flush-Known w.backend s id e (k.1 id u))
  synced-Kept w now (err x) e k = k

  flushed-Kept :
      (w : WriteBehind S) (now : ℕ) (first : Option StorageError)
      → Kept w
      → Kept (flushed B w now first).1
  flushed-Kept w now (some e) k = k
  flushed-Kept w now none k = synced-Kept w now (B.flush w.backend) refl k

  pub flush_now-Kept : (w : WriteBehind S) (now : ℕ) → Kept w → Kept (flush_now B w now).1
  unfolding flush_now
  flush_now-Kept w now k =
      let r = flush_accounts B w.dirty w.backend [] none in
      flushed-Kept (record w { backend = r.0; dirty = r.1; dirty_attrs = total r.1 }) now r.2
        (
          flush_accounts-AllUsed w.dirty w.backend [] none k.0 tt,
          λ id u. flush_accounts-Known B w.dirty w.backend [] none id (k.1 id u),
        )

  ticked-Kept : (r : Result (Unit {0}) StorageError × WriteBehind S) → Kept r.1 → Kept (ticked r).1
  ticked-Kept (ok x, w) k = k
  ticked-Kept (err e, w) k = k

  pub tick-Kept : (w : WriteBehind S) (now : ℕ) → Kept w → Kept (tick B w now).1
  unfolding tick
  tick-Kept w now k = elim (Bool-cases (is_empty w.dirty)) [
    | inl e ↦ rw e k
    | inr e ↦ elim (Bool-cases (is_due w now)) [
      | inl f ↦ rw (e, f) (ticked-Kept (flush_now B w now) (flush_now-Kept w now k))
      | inr f ↦ rw (e, f) k
    ]
  ]

  pub attrs_put-Kept :
      (w : WriteBehind S) (id : ℕ) (attrs : AttrMap)
      → Uses id
      → Kept w
      → Kept (attrs_put w id attrs)
  unfolding attrs_put
  attrs_put-Kept w id [] u k = k
  attrs_put-Kept w id (a ∷ attrs) u k = (
    insert-AllUsed id (put_loop (a ∷ attrs) (slot w.dirty id) w.dirty_attrs w.batched_writes).0
        w.dirty u k.0,
    k.1,
  )
