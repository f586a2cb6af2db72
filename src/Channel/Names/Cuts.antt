-- ===== src/Channel/Names/Cuts.antt =====
-- Where a channel name can be cut, and what a cut leaves of a trimmed one.
use bnet_command_center.Base.{
  ℕ, zero, suc, ◌-◌, ◌≤◌, ◌<◌, ◌≡◌, refl, ap, sym, ◌∙◌, inl, inr, Option, none, some, Bool, true,
  false, not, ◌&&◌, [], ◌∷◌, ◌++◌, ◌==◌, ltb, is_empty, all, length, arith, Bool-cases,
  Option-cases, is_some,
}
use mathlib.Core.List.{reverse, reverse-append, reverse-reverse, reverse-cons}
use bnet_command_center.Channel.Names.{consed, split_bytes}
use bnet_command_center.Text.{
  Text, to_lower, lowercase, is_whitespace, trim_start, trim, starts_with, utf8_len, byte_len,
  byte_len-append,
}

-- A letter that is ASCII in lower case is one byte.
ascii_byte : (c k : ℕ) → (k == to_lower c) ≡ true → ltb k 128 ≡ true → utf8_len c ≡ 1
unfolding to_lower utf8_len
ascii_byte c k e h = ground arith

consed_some : (c : ℕ) (o : Option (Text × Text)) → is_some (consed c o) ≡ is_some o
consed_some c none = refl
consed_some c (some (s, t)) = refl

split-byte :
    (n a : ℕ) (s : Text)
    → utf8_len a ≡ 1
    → is_some (split_bytes n s) ≡ true
    → is_some (split_bytes (suc n) (a ∷ s)) ≡ true
unfolding split_bytes
split-byte n a s u h =
    let e : suc n - utf8_len a ≡ n = omega (arith, u) in
    ground
      (arith, consed_some a (split_bytes (suc n - utf8_len a) s), ap (λ (k : ℕ). split_bytes k s) e)

split-zero : (s : Text) → is_some (split_bytes 0 s) ≡ true
unfolding split_bytes
split-zero [] = refl
split-zero (c ∷ s) = refl

-- A name that starts, up to case, with an ASCII prefix can be cut anywhere within the prefix.
pub prefix-split :
    (p t : Text) (n : ℕ)
    → all (λ k. ltb k 128) p ≡ true
    → starts_with p (lowercase t) ≡ true
    → n ≤ length p
    → is_some (split_bytes n t) ≡ true
unfolding starts_with lowercase
prefix-split p t zero a h l = split-zero t
prefix-split [] t (suc n) a h l = absurd (omega arith)
prefix-split (k ∷ p) [] (suc n) a h l = cc
prefix-split (k ∷ p) (c ∷ t) (suc n) a h l =
    split-byte n c t (ascii_byte c k (ground arith) (ground arith))
      (prefix-split p t n (ground arith) (ground arith) (omega arith))

abbrev blank : Text → Bool
blank = all is_whitespace

blank-append : (s t : Text) → blank (s ++ t) ≡ (blank s && blank t)
blank-append [] t = refl
blank-append (c ∷ s) t = ground (arith, blank-append s t)

blank-reverse : (s : Text) → blank (reverse s) ≡ blank s
blank-reverse [] = refl
blank-reverse (c ∷ s) =
    rw (reverse-cons c s, blank-append (reverse s) (c ∷ []), blank-reverse s) (ground arith)

-- What is left of a text without its leading white space does not start with white space.
abbrev starts_bare : Text → Bool
starts_bare [] = true
starts_bare (c ∷ s) = not (is_whitespace c)

trim_start-bare : (s : Text) → starts_bare (trim_start s) ≡ true
unfolding trim_start
trim_start-bare [] = refl
trim_start-bare (c ∷ s) = ground (arith, trim_start-bare s)

trim_start-nil : (s : Text) → is_empty (trim_start s) ≡ blank s
unfolding trim_start
trim_start-nil [] = refl
trim_start-nil (c ∷ s) = ground (arith, trim_start-nil s)

is_empty-reverse : (s : Text) → is_empty (reverse s) ≡ true → s ≡ []
is_empty-reverse [] e = refl
is_empty-reverse (c ∷ s) e = absurd (snoc_filled (reverse s) (rw (← (reverse-cons c s)) e))
  where
    snoc_filled : (t : Text) → is_empty (t ++ c ∷ []) ≡ true → ⊥
    snoc_filled [] h = cc
    snoc_filled (x ∷ t) h = cc

-- A bare start that is blank is empty.
bare_blank : (s : Text) → starts_bare s ≡ true → blank s ≡ true → s ≡ []
bare_blank [] b k = refl
bare_blank (c ∷ s) b k = ground arith

-- A text is trimmed away only if it is blank.
trim-blank : (s : Text) → is_empty (trim s) ≡ true → blank s ≡ true
unfolding trim
trim-blank s e =
    let w = trim_start s in
    let inner : is_empty (trim_start (reverse w)) ≡ true =
      rw (is_empty-reverse (trim_start (reverse w)) e) in
    let flat : blank w ≡ true = sym (blank-reverse w) ∙ sym (trim_start-nil (reverse w)) ∙ inner in
    let gone = bare_blank w (trim_start-bare s) flat in sym (trim_start-nil s) ∙ ap is_empty gone

-- A trimmed text has no blank end but the empty one.
trim-end : (s before rest : Text) → trim s ≡ before ++ rest → blank rest ≡ true → rest ≡ []
unfolding trim
trim-end s before rest e b =
    let u = trim_start (reverse (trim_start s)) in
    let turned : u ≡ reverse rest ++ reverse before =
      sym (reverse-reverse u) ∙ ap reverse e ∙ reverse-append before rest in
    is_empty-reverse rest (
      head_bare (reverse rest) (reverse before)
        (ap starts_bare (sym turned) ∙ trim_start-bare (reverse (trim_start s)))
        (blank-reverse rest ∙ b))
  where
    head_bare : (x y : Text) → starts_bare (x ++ y) ≡ true → blank x ≡ true → is_empty x ≡ true
    head_bare [] y h k = refl
    head_bare (c ∷ x) y h k = ground arith

split_bytes-append :
    (n : ℕ) (t h r : Text) → split_bytes n t ≡ some (h, r) → (t ≡ h ++ r) × (byte_len h ≡ n)
unfolding split_bytes byte_len
split_bytes-append n [] h r e = ground arith
split_bytes-append n (c ∷ t) h r e = elim (Option-cases (split_bytes (n - utf8_len c) t)) [
  | inl stuck ↦ ground arith
  | inr ((h', r'), cut) ↦ ground (arith, split_bytes-append (n - utf8_len c) t h' r' cut)
]

-- An ASCII prefix, up to case, is cut off as such.
pub prefix-cut :
    (p t : Text)
    → all (λ k. ltb k 128) p ≡ true
    → starts_with p (lowercase t) ≡ true
    → (h : Text) × (r : Text) × (split_bytes (length p) t ≡ some (h, r)) × (lowercase h ≡ p)
unfolding starts_with lowercase split_bytes
prefix-cut [] [] a h = ([], [], refl, refl)
prefix-cut [] (c ∷ t) a h = ([], c ∷ t, refl, refl)
prefix-cut (k ∷ p) [] a h = cc
prefix-cut (k ∷ p) (c ∷ t) a h =
    let (head, rest, cut, same) = prefix-cut p t (ground arith) (ground arith) in
    let u = ascii_byte c k (ground arith) (ground arith) in
    let e : suc (length p) - utf8_len c ≡ length p = omega (arith, u) in
    (c ∷ head, rest, ground (arith, ap (λ (n : ℕ). split_bytes n t) e), ground arith)

-- A cut whose remainder is not empty leaves a name, in a text that is trimmed.
pub rest_named :
    (s h r : Text) (n : ℕ)
    → split_bytes n (trim s) ≡ some (h, r)
    → n < byte_len (trim s)
    → is_empty (trim r) ≡ false
rest_named s h r n cut longer = elim (Bool-cases (is_empty (trim r))) [
  | inr filled ↦ filled
  | inl gone ↦
      let (split, size) = split_bytes-append n (trim s) h r cut in
      let none_left = trim-end s h r split (trim-blank r gone) in
      absurd
        (omega (arith, ap byte_len split, byte_len-append h r, ap byte_len none_left, byte_len_nil))
]
  where
    byte_len_nil : byte_len [] ≡ 0
    byte_len_nil = unfold byte_len in refl
