-- ===== src/Storage/WriteBehind/Loop.antt =====
-- The loop of a flush over the dirty accounts: whether the backend takes a batch or refuses it, no
-- write is lost.
use bnet_command_center.Base.{
  ℕ, ◌≡◌, refl, sym, ◌∙◌, Option, none, some, [], ◌∷◌, All, ite, ℕ_discrete, get_or, Result, ok,
  err, arith,
}
use bnet_command_center.Base.Map
use bnet_command_center.Text.{Text}
use bnet_command_center.Storage.{
  StorageError, AttrMap, Attributes, lookup, extend, overlay, Backend,
}
use bnet_command_center.Storage.Attrs.{
  or_else, IsUnique, extend-IsUnique, overlay-lookup, lookup-fresh,
}
use bnet_command_center.Storage.WriteBehind.{Dirty, slot, put_back, put_done, flush_accounts}
use bnet_command_center.Storage.WriteBehind.Slots.{Slots, slot-insert, slot-IsUnique, insert-Slots}

-- The accounts of one buffer have nothing in another.
abbrev pub Apart : Dirty → Dirty → Type 0
Apart pending dirty = All (λ (entry : ℕ × AttrMap). Map.get ℕ_discrete entry.0 dirty ≡ none) pending

insert-Apart :
    (id : ℕ) (m : AttrMap) (pending dirty : Dirty)
    → Map.get ℕ_discrete id pending ≡ none
    → Apart pending dirty
    → Apart pending (Map.insert ℕ_discrete id m dirty)
unfolding Map.get
insert-Apart id m [] dirty absent h = tt
insert-Apart id m ((j, n) ∷ pending) dirty absent h =
    ground
      (arith, Map.get-insert ℕ_discrete id j m dirty, insert-Apart id m pending dirty, h.0, h.1)

pub nil-Apart : (pending : Dirty) → Apart pending []
unfolding Map.get
nil-Apart [] = tt
nil-Apart (entry ∷ pending) = (refl, nil-Apart pending)

slot-none : (id : ℕ) (dirty : Dirty) → Map.get ℕ_discrete id dirty ≡ none → slot dirty id ≡ []
unfolding slot
slot-none id dirty h = rw h

slot-cons :
    (id j : ℕ) (m : AttrMap) (dirty : Dirty)
    → slot ((id, m) ∷ dirty) j ≡ ite (ℕ_discrete id j) m (slot dirty j)
unfolding slot Map.get
slot-cons id j m dirty = ground arith

pub slot-nil : (id : ℕ) → slot [] id ≡ []
unfolding slot Map.get
slot-nil id = refl

pub nothing : (key : Text) → lookup [] key ≡ none
unfolding lookup Map.get
nothing key = refl

module _ {S : Type 0} (B : Backend S) where
  -- What is seen with a buffer over a backend.
  abbrev pub over : Dirty → S → ℕ → Attributes
  over dirty s id key = or_else (lookup (slot dirty id) key) (B.view s id key)

  abbrev pub AllKnown : S → Dirty → Type 0
  AllKnown s dirty = All (λ (entry : ℕ × AttrMap). B.Known s entry.0) dirty

  put-AllKnown :
      (s s' : S) (id : ℕ) (attrs : AttrMap) (dirty : Dirty)
      → B.attrs_put s id attrs ≡ ok s'
      → AllKnown s dirty
      → AllKnown s' dirty
  put-AllKnown s s' id attrs [] e k = tt
  put-AllKnown s s' id attrs (entry ∷ dirty) e k =
      (B.put-Known s s' id attrs entry.0 e k.0, put-AllKnown s s' id attrs dirty e k.1)

  -- A batch that the backend took, before the others.
  taken-case :
      (id j : ℕ) (attrs : AttrMap) (pending dirty : Dirty) (s s' : S) (key : Text)
      (d : Dec (id ≡ j))
      → IsUnique attrs
      → slot pending id ≡ []
      → slot dirty id ≡ []
      → B.view s' j key ≡ ite d (overlay attrs (B.view s id) key) (B.view s j key)
      → or_else (lookup (slot pending j) key) (over dirty s' j key)
        ≡ or_else (lookup (ite d attrs (slot pending j)) key) (over dirty s j key)
  taken-case id j attrs pending dirty s s' key (yes e) u p q h =
      rw (h, sym e, p, q, nothing key, overlay-lookup attrs (B.view s id) key u)
  taken-case id j attrs pending dirty s s' key (no n) u p q h = rw h

  -- A batch that the backend refused.
  refused-case :
      (id j : ℕ) (attrs : AttrMap) (pending dirty : Dirty) (s : S) (key : Text) (d : Dec (id ≡ j))
      → IsUnique attrs
      → slot pending id ≡ []
      → slot dirty id ≡ []
      → slot (put_back dirty id attrs) j ≡ ite d (extend (slot dirty id) attrs) (slot dirty j)
      → or_else (lookup (slot pending j) key) (over (put_back dirty id attrs) s j key)
        ≡ or_else (lookup (ite d attrs (slot pending j)) key) (over dirty s j key)
  refused-case id j attrs pending dirty s key (yes e) u p q h =
      rw (h, sym e, p, q, nothing key, lookup-fresh attrs key u)
  refused-case id j attrs pending dirty s key (no n) u p q h = rw h

  put_done-over :
      (id : ℕ) (attrs : AttrMap) (pending : Dirty) (s : S) (dirty : Dirty)
      (first : Option StorageError) (j : ℕ) (key : Text) (r : Result S StorageError)
      → B.attrs_put s id attrs ≡ r
      → slot pending id ≡ []
      → slot dirty id ≡ []
      → IsUnique attrs
      → B.Known s id
      → ((s' : S)
          → B.attrs_put s id attrs ≡ ok s'
          → over
              (flush_accounts B pending s' dirty first).1
              (flush_accounts B pending s' dirty first).0
              j
              key
            ≡ or_else (lookup (slot pending j) key) (over dirty s' j key))
      → ((e : StorageError)
          → let r = flush_accounts B pending s (put_back dirty id attrs) (some (get_or first e)) in
            over r.1 r.0 j key
            ≡ or_else (lookup (slot pending j) key) (over (put_back dirty id attrs) s j key))
      → let done = put_done (flush_accounts B pending) s (put_back dirty id attrs) dirty first r in
        over done.1 done.0 j key
        ≡ or_else (lookup (ite (ℕ_discrete id j) attrs (slot pending j)) key) (over dirty s j key)
  put_done-over id attrs pending s dirty first j key (ok s') e p q u k taken refused =
      taken s' e
      ∙ taken-case id j attrs pending dirty s s' key (ℕ_discrete id j) u p q
          (B.put-view s s' id attrs j key k e)
  put_done-over id attrs pending s dirty first j key (err x) e p q u k taken refused =
      refused x
      ∙ refused-case id j attrs pending dirty s key (ℕ_discrete id j) u p q
          (slot-insert id j (extend (slot dirty id) attrs) dirty)

  pub flush_accounts-over :
      (pending : Dirty) (s : S) (dirty : Dirty) (first : Option StorageError) (j : ℕ) (key : Text)
      → Map.Unique ℕ_discrete pending
      → Slots pending
      → Apart pending dirty
      → AllKnown s pending
      → over
          (flush_accounts B pending s dirty first).1
          (flush_accounts B pending s dirty first).0
          j
          key
        ≡ or_else (lookup (slot pending j) key) (over dirty s j key)
  unfolding flush_accounts
  flush_accounts-over [] s dirty first j key u v a k = rw (slot-nil j, nothing key)
  flush_accounts-over ((id, attrs) ∷ pending) s dirty first j key u v a k =
      rw (slot-cons id j attrs pending) (
        put_done-over id attrs pending s dirty first j key (B.attrs_put s id attrs) refl
          (slot-none id pending u.0) (slot-none id dirty a.0) v.0 k.0
          (λ s' e.
            flush_accounts-over pending s' dirty first j key u.1 v.1 a.1
              (put-AllKnown s s' id attrs pending e k.1))
          (λ e.
            flush_accounts-over pending s (put_back dirty id attrs) (some (get_or first e)) j key
              u.1 v.1 (insert-Apart id (extend (slot dirty id) attrs) pending dirty u.0 a.1) k.1))

  put_done-some :
      (id : ℕ) (attrs : AttrMap) (pending : Dirty) (s : S) (dirty : Dirty) (e : StorageError)
      (r : Result S StorageError)
      → ((s' : S) (dirty' : Dirty) → (flush_accounts B pending s' dirty' (some e)).2 ≡ some e)
      → (put_done (flush_accounts B pending) s (put_back dirty id attrs) dirty (some e) r).2
        ≡ some e
  put_done-some id attrs pending s dirty e (ok s') h = h s' dirty
  put_done-some id attrs pending s dirty e (err x) h = h s (put_back dirty id attrs)

  -- Once there is an error, it stays.
  flush_accounts-some :
      (pending : Dirty) (s : S) (dirty : Dirty) (e : StorageError)
      → (flush_accounts B pending s dirty (some e)).2 ≡ some e
  unfolding flush_accounts
  flush_accounts-some [] s dirty e = refl
  flush_accounts-some ((id, attrs) ∷ pending) s dirty e =
      put_done-some id attrs pending s dirty e (B.attrs_put s id attrs)
        (λ s' dirty'. flush_accounts-some pending s' dirty' e)

  put_done-none :
      (id : ℕ) (attrs : AttrMap) (pending : Dirty) (s : S) (dirty : Dirty)
      (r : Result S StorageError)
      → (put_done (flush_accounts B pending) s (put_back dirty id attrs) dirty none r).2 ≡ none
      → ((s' : S)
          → (flush_accounts B pending s' dirty none).2 ≡ none
          → (flush_accounts B pending s' dirty none).1 ≡ dirty)
      → (put_done (flush_accounts B pending) s (put_back dirty id attrs) dirty none r).1 ≡ dirty
  put_done-none id attrs pending s dirty (ok s') e h = h s' e
  put_done-none id attrs pending s dirty (err x) e h =
      let kept = flush_accounts-some pending s (put_back dirty id attrs) x in
      let no : ⊥ = cc (kept, e) in elim no [ ]

  -- Without an error nothing is buffered again.
  pub flush_accounts-none :
      (pending : Dirty) (s : S) (dirty : Dirty)
      → (flush_accounts B pending s dirty none).2 ≡ none
      → (flush_accounts B pending s dirty none).1 ≡ dirty
  unfolding flush_accounts
  flush_accounts-none [] s dirty h = refl
  flush_accounts-none ((id, attrs) ∷ pending) s dirty h =
      put_done-none id attrs pending s dirty (B.attrs_put s id attrs) h
        (λ s'. flush_accounts-none pending s' dirty)

  put_done-Valid :
      (id : ℕ) (attrs : AttrMap) (pending : Dirty) (s : S) (dirty : Dirty)
      (first : Option StorageError) (r : Result S StorageError)
      → Map.Unique ℕ_discrete dirty
      → Slots dirty
      → ((s' : S) (dirty' : Dirty) (first' : Option StorageError)
          → Map.Unique ℕ_discrete dirty'
          → Slots dirty'
          → let after = (flush_accounts B pending s' dirty' first').1 in
            Map.Unique ℕ_discrete after × Slots after)
      → let after =
          (put_done (flush_accounts B pending) s (put_back dirty id attrs) dirty first r).1 in
        Map.Unique ℕ_discrete after × Slots after
  put_done-Valid id attrs pending s dirty first (ok s') u v h = h s' dirty first u v
  put_done-Valid id attrs pending s dirty first (err x) u v h =
      h s (put_back dirty id attrs) (some (get_or first x))
        (Map.insert-Unique ℕ_discrete id (extend (slot dirty id) attrs) dirty u)
        (insert-Slots id (extend (slot dirty id) attrs) dirty
          (extend-IsUnique attrs (slot dirty id) (slot-IsUnique id dirty v)) v)

  -- What stands in the buffer after a flush, and how it is counted.
  pub flush_accounts-Valid :
      (pending : Dirty) (s : S) (dirty : Dirty) (first : Option StorageError)
      → Map.Unique ℕ_discrete dirty
      → Slots dirty
      → let dirty' = (flush_accounts B pending s dirty first).1 in
        Map.Unique ℕ_discrete dirty' × Slots dirty'
  unfolding flush_accounts
  flush_accounts-Valid [] s dirty first u v = (u, v)
  flush_accounts-Valid ((id, attrs) ∷ pending) s dirty first u v =
      put_done-Valid id attrs pending s dirty first (B.attrs_put s id attrs) u v
        (λ s' dirty' first'. flush_accounts-Valid pending s' dirty' first')

  put_done-Known :
      (id : ℕ) (attrs : AttrMap) (pending : Dirty) (s : S) (dirty : Dirty)
      (first : Option StorageError) (j : ℕ) (r : Result S StorageError)
      → B.attrs_put s id attrs ≡ r
      → B.Known s j
      → ((s' : S) (dirty' : Dirty) (first' : Option StorageError)
          → B.Known s' j
          → B.Known (flush_accounts B pending s' dirty' first').0 j)
      → B.Known (put_done (flush_accounts B pending) s (put_back dirty id attrs) dirty first r).0 j
  put_done-Known id attrs pending s dirty first j (ok s') e k h =
      h s' dirty first (B.put-Known s s' id attrs j e k)
  put_done-Known id attrs pending s dirty first j (err x) e k h =
      h s (put_back dirty id attrs) (some (get_or first x)) k

  -- The accounts that the backend knows are known after the loop.
  pub flush_accounts-Known :
      (pending : Dirty) (s : S) (dirty : Dirty) (first : Option StorageError) (j : ℕ)
      → B.Known s j
      → B.Known (flush_accounts B pending s dirty first).0 j
  unfolding flush_accounts
  flush_accounts-Known [] s dirty first j k = k
  flush_accounts-Known ((id, attrs) ∷ pending) s dirty first j k =
      put_done-Known id attrs pending s dirty first j (B.attrs_put s id attrs) refl k
        (λ s' dirty' first' k'. flush_accounts-Known pending s' dirty' first' j k')
