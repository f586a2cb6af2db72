-- ===== src/Wire/Fields/Bounds.antt =====
-- Every read stays within the packet's body: the slices of the reader are never out of range.
use bnet_command_center.Base.{
  ℕ, ◌-◌, ◌≤◌, ◌≡◌, refl, subst, ◌∙◌, Option, none, some, inl, inr, List, [], ◌∷◌, length, drop,
  length-drop, ltb, Bool-cases, ok, err, ◌>>=◌, arith,
}
use bnet_command_center.Wire.Reader
use bnet_command_center.Wire.Reader.{Reader, Read, advance}
use bnet_command_center.Wire.Fields.{
  Shape, number, fourcc, bytes, cstr, as_num, as_str, read, read_all,
}

-- The reader that a read leaves: the same bytes, not before where it was, and not past their end.
abbrev pub Within : {A : Type 0} → Reader → Read A → Type 0
Within r (ok (v, r')) = (r'.buf ≡ r.buf) × (r.pos ≤ r'.pos) × (r'.pos ≤ length r'.buf)
Within r (err e) = Unit {0}

bytes-Within : (n : ℕ) (r : Reader) → r.pos ≤ length r.buf → Within r (Reader.bytes n r)
unfolding Reader.bytes Reader.remaining
bytes-Within n r h = elim (Bool-cases (ltb (Reader.remaining r) n)) [
  | inl e ↦ rw e tt
  | inr e ↦ rw e (refl, omega arith, ground arith)
]

cstr_to-Within :
    (limit : ℕ) (r : Reader) (i : Option ℕ)
    → Reader.Below (length r.buf - r.pos) i
    → Within r (Reader.cstr_to limit r i)
cstr_to-Within limit r none h = tt
cstr_to-Within limit r (some i) h = elim (Bool-cases (ltb limit i)) [
  | inl e ↦ rw e tt
  | inr e ↦ rw e (refl, omega arith, omega arith)
]

cstr-Within : (limit : ℕ) (r : Reader) → Within r (Reader.cstr limit r)
unfolding Reader.cstr Reader.unread
cstr-Within limit r = cstr_to-Within limit r _ (
    subst (λ (n : ℕ). Reader.Below n (Reader.position_of 0 (drop r.pos r.buf)))
      (length-drop r.pos r.buf) (Reader.position_of-Below 0 (drop r.pos r.buf)))

-- A read that goes on from where another left the reader.
bind-Within :
    {A B : Type 0} (r : Reader) (x : Read A) (k : A × Reader → Read B)
    → Within r x
    → ((v : A) (r' : Reader) → Within r (ok (v, r')) → Within r (k (v, r')))
    → Within r (x >>= k)
bind-Within r (ok (v, r')) k h go = go v r' h
bind-Within r (err e) k h go = tt

as_num-Within : (r : Reader) (x : Read ℕ) → Within r x → Within r (as_num x)
as_num-Within r (ok (v, r')) h = h
as_num-Within r (err e) h = tt

as_str-Within : (r : Reader) (x : Read (List ℕ)) → Within r x → Within r (as_str x)
as_str-Within r (ok (v, r')) h = h
as_str-Within r (err e) h = tt

read-Within : (s : Shape) (r : Reader) → r.pos ≤ length r.buf → Within r (read s r)
unfolding read Reader.number Reader.fourcc
read-Within (number n) r h =
    as_num-Within r _ (bind-Within r _ _ (bytes-Within n r h) (λ v r' w. w))
read-Within fourcc r h = as_num-Within r _ (bind-Within r _ _ (bytes-Within 4 r h) (λ v r' w. w))
read-Within (bytes n) r h = as_str-Within r _ (bytes-Within n r h)
read-Within (cstr limit) r h = as_str-Within r _ (cstr-Within limit r)

later-Within :
    {A : Type 0} (r r' : Reader) (x : Read A)
    → r'.buf ≡ r.buf
    → r.pos ≤ r'.pos
    → Within r' x
    → Within r x
later-Within r r' (ok (v, r'')) e h w = (w.0 ∙ e, omega arith, w.2)
later-Within r r' (err x) e h w = tt

-- Whatever fields a body is read as, a read that succeeds leaves the same bytes, never moves back,
-- and never moves past their end, from any position within them.
pub read_all-Within :
    (shapes : List Shape) (r : Reader) → r.pos ≤ length r.buf → Within r (read_all shapes r)
unfolding read_all
read_all-Within [] r h = (refl, omega arith, h)
read_all-Within (s ∷ shapes) r h = bind-Within r _ _ (read-Within s r h) (λ v r' w.
    bind-Within r _ _ (later-Within r r' _ w.0 w.1 (read_all-Within shapes r' w.2))
      (λ vs r'' w'. w'))
