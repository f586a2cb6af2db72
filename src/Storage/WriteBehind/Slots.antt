-- ===== src/Storage/WriteBehind/Slots.antt =====
-- The buffers of the accounts, and what is read and written through them.
use bnet_command_center.Base.{
  ℕ, ◌≡◌, refl, sym, ap, ◌∙◌, ◌⊎◌, Option, none, some, Option-cases, List, [], ◌∷◌, All, ite, inl,
  inr, ℕ_discrete, arith,
}
use bnet_command_center.Base.Map
use bnet_command_center.Text.{Text, Text-discrete}
use bnet_command_center.Storage.{
  AttrMap, Attributes, lookup, extend, overlay, listed, patch, patch_one,
}
use bnet_command_center.Storage.Attrs.{or_else, IsUnique, overlay-agrees}
use bnet_command_center.Storage.WriteBehind.{Dirty, slot, put_loop}

-- Each account's buffer has one value for each key.
abbrev pub Slots : Dirty → Type 0
Slots dirty = All (λ (entry : ℕ × AttrMap). IsUnique entry.1) dirty

pub slot-insert :
    (id j : ℕ) (m : AttrMap) (dirty : Dirty)
    → slot (Map.insert ℕ_discrete id m dirty) j ≡ ite (ℕ_discrete id j) m (slot dirty j)
unfolding slot
slot-insert id j m dirty = ground (arith, Map.get-insert ℕ_discrete id j m dirty)

pub slot-remove :
    (id j : ℕ) (dirty : Dirty)
    → slot (Map.remove ℕ_discrete id dirty) j ≡ ite (ℕ_discrete id j) [] (slot dirty j)
unfolding slot
slot-remove id j dirty = ground (arith, Map.get-remove ℕ_discrete id j dirty)

pub slot-IsUnique : (id : ℕ) (dirty : Dirty) → Slots dirty → IsUnique (slot dirty id)
unfolding slot Map.get
slot-IsUnique id [] h = tt
slot-IsUnique id ((j, m) ∷ dirty) h = ground (arith, slot-IsUnique id dirty h.1, h.0)

pub insert-Slots :
    (id : ℕ) (m : AttrMap) (dirty : Dirty)
    → IsUnique m
    → Slots dirty
    → Slots (Map.insert ℕ_discrete id m dirty)
unfolding Map.insert
insert-Slots id m [] u h = (u, tt)
insert-Slots id m ((j, n) ∷ dirty) u h = ground (arith, insert-Slots id m dirty u h.1, h.0)

pub or_else-ite :
    {P : Type 0} {A : Type 0} (d : Dec P) (v : A) (a b : Option A)
    → or_else (ite d (some v) a) b ≡ ite d (some v) (or_else a b)
or_else-ite (yes p) v a b = refl
or_else-ite (no n) v a b = refl

pub overlay-or_else :
    (attrs : AttrMap) (f below : Attributes) (key : Text)
    → or_else (overlay attrs f key) (below key) ≡ overlay attrs (λ j. or_else (f j) (below j)) key
unfolding overlay
overlay-or_else [] f below key = refl
overlay-or_else ((k, v) ∷ attrs) f below key =
    overlay-or_else attrs (λ j. ite (Text-discrete k j) (some v) (f j)) below key
    ∙ overlay-agrees attrs _ _ (λ j. or_else-ite (Text-discrete k j) v (f j) (below j)) key

pub put_loop-slot :
    (attrs m : AttrMap) (count batched : ℕ) → (put_loop attrs m count batched).0 ≡ extend m attrs
unfolding put_loop extend
put_loop-slot [] m count batched = refl
put_loop-slot ((k, v) ∷ attrs) m count batched = put_loop-slot attrs _ _ _

pub listed-cases :
    (keys : List Text) (key : Text) (v : Option Text)
    → (listed keys key v ≡ v) ⊎ (listed keys key v ≡ none)
unfolding listed
listed-cases [] key v = inr refl
listed-cases (k ∷ keys) key v = ground (arith, listed-cases keys key v)

pub patched-lookup :
    (k key : Text) (pending out : AttrMap) (later : Option Text)
    → (later ≡ lookup pending key) ⊎ (later ≡ none)
    → or_else later (lookup (patch_one k (lookup pending k) out) key)
      ≡ or_else (ite (Text-discrete k key) (lookup pending key) later) (lookup out key)
unfolding lookup
patched-lookup k key pending out later h = elim (Option-cases (lookup pending k)) [
  | inl e ↦ rw e (ground (arith, e, h))
  | inr (v, e) ↦ rw e (ground (arith, e, h, Map.get-insert Text-discrete k key v out))
]

pub patch-lookup :
    (keys : List Text) (pending out : AttrMap) (key : Text)
    → lookup (patch keys pending out) key
      ≡ or_else (listed keys key (lookup pending key)) (lookup out key)
unfolding patch listed lookup
patch-lookup [] pending out key = refl
patch-lookup (k ∷ keys) pending out key =
    let rest = patch-lookup keys pending (patch_one k (lookup pending k) out) key in
    rest
    ∙ patched-lookup k key pending out (listed keys key (lookup pending key))
        (listed-cases keys key (lookup pending key))

pub listed-or_else :
    (keys : List Text) (key : Text) (v below : Option Text)
    → or_else (listed keys key v) (listed keys key below) ≡ listed keys key (or_else v below)
unfolding listed
listed-or_else [] key v below = refl
listed-or_else (k ∷ keys) key v below = ground (arith, listed-or_else keys key v below)

pub same-ite : {A : Type 0} {i j : ℕ} (d : Dec (i ≡ j)) (f : ℕ → A) → f j ≡ ite d (f i) (f j)
same-ite (yes e) f = ap f (sym e)
same-ite (no n) f = refl
