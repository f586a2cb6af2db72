-- ===== src/Wire/Line.antt =====
-- The lines of the text gateway (crates/bnetcc-proto/src/line.rs).
use bnet_command_center.Base.{
  ℕ, suc, ◌+◌, ◌-◌, ◌≤◌, ◌<◌, ◌≡◌, refl, sym, Option, none, some, List, [], ◌∷◌, ◌++◌, length,
  length-append, take, take-append, take-length, drop, drop-length, ltb, ◌==◌, ◌&&◌, not, all,
  if◌then◌else◌, Bool, true, false, Bool-cases, inl, inr, ok, err, arith,
}
use mathlib.Core.List.{append_assoc}
use bnet_command_center.Wire.{line_too_long}
use bnet_command_center.Wire.Reader.{position_of, later_index, Below, position_of-Below}
use bnet_command_center.Wire.Buffer.{RecvBuf, as_slice, consume, clear}
use bnet_command_center.Wire.Framing.{
  Verdict, wait, fail, item, Decoded, Framing, Does, Sized, Stands,
}

abbrev pub line_feed : ℕ
line_feed = 10

abbrev pub carriage_return : ℕ
carriage_return = 13

abbrev starts_with : ℕ → List ℕ → Bool
starts_with byte [] = false
starts_with byte (b ∷ bs) = b == byte

-- The end of the line, without its carriage return.
abbrev end_of : List ℕ → ℕ → ℕ
end_of buf idx =
    if ltb 0 idx && starts_with carriage_return (drop (idx - 1) buf) then idx - 1 else idx

abbrev pub line_tests : ℕ → List ℕ → Option ℕ → Verdict (List ℕ)
line_tests max_line buf (some idx) =
    if ltb max_line idx
    then fail (line_too_long max_line)
    else item (take (end_of buf idx) buf) (idx + 1)
line_tests max_line buf none =
    if ltb max_line (length buf) then fail (line_too_long max_line) else wait

unfoldable pub verdict : ℕ → List ℕ → Verdict (List ℕ)
unfolding position_of
verdict max_line buf = line_tests max_line buf (position_of line_feed buf)

abbrev pub settle : Verdict (List ℕ) → RecvBuf → Decoded (List ℕ)
settle wait src = (ok none, src)
settle (fail e) src = (err e, clear src)
settle (item line n) src = (ok (some line), consume src n)

unfoldable pub decode_line : RecvBuf → ℕ → Decoded (List ℕ)
unfolding verdict
decode_line src max_line = settle (verdict max_line (as_slice src)) src

-- The bytes of an encoded line.
abbrev pub wire : List ℕ → List ℕ
wire line = line ++ carriage_return ∷ line_feed ∷ []

unfoldable pub encode_line : List ℕ → List ℕ → List ℕ
encode_line line dst = dst ++ wire line

pub settle-Does : (v : Verdict (List ℕ)) (b : RecvBuf) → Does b v (settle v b)
settle-Does wait b = refl
settle-Does (fail e) b = (clear b, refl)
settle-Does (item line n) b = refl

pub line_tests-Sized :
    (max : ℕ) (buf : List ℕ) (i : Option ℕ)
    → Below (length buf) i
    → Sized (length buf) (line_tests max buf i)
line_tests-Sized max buf none h = elim (Bool-cases (ltb max (length buf))) [
  | inl e ↦ rw e tt
  | inr e ↦ rw e tt
]
line_tests-Sized max buf (some i) h = elim (Bool-cases (ltb max i)) [
  | inl e ↦ rw e tt
  | inr e ↦ rw e (omega arith, omega arith)
]

-- What is found in a part is found in the whole, and what is not lies beyond it.
abbrev pub Extends : ℕ → Option ℕ → Option ℕ → Type 0
Extends there (some i) whole = whole ≡ some i
Extends there none none = Unit {0}
Extends there none (some j) = there ≤ j

later-Extends :
    (there : ℕ) (i j : Option ℕ)
    → Extends there i j
    → Extends (suc there) (later_index i) (later_index j)
later-Extends there (some i) j h = rw h refl
later-Extends there none none h = tt
later-Extends there none (some j) h = omega arith

nothing-Extends : (j : Option ℕ) → Extends 0 none j
nothing-Extends none = tt
nothing-Extends (some j) = omega arith

pub position_of-Extends :
    (byte : ℕ) (xs ys : List ℕ)
    → Extends (length xs) (position_of byte xs) (position_of byte (xs ++ ys))
unfolding position_of
position_of-Extends byte [] ys = nothing-Extends (position_of byte ys)
position_of-Extends byte (x ∷ xs) ys = elim (Bool-cases (x == byte)) [
  | inl e ↦ rw e refl
  | inr e ↦ rw e (later-Extends (length xs) _ _ (position_of-Extends byte xs ys))
]

starts_with-append :
    (byte k : ℕ) (xs ys : List ℕ)
    → k < length xs
    → starts_with byte (drop k (xs ++ ys)) ≡ starts_with byte (drop k xs)
unfolding drop
starts_with-append byte k [] ys h = ground arith
starts_with-append byte k (x ∷ xs) ys h = ground (arith, starts_with-append byte (k - 1) xs ys)

end_of-append :
    (xs ys : List ℕ) (i : ℕ)
    → i < length xs
    → (end_of (xs ++ ys) i ≡ end_of xs i) × (end_of xs i ≤ length xs)
end_of-append xs ys i h =
    ground (arith, starts_with-append carriage_return (i - 1) xs ys (omega arith))

pub line_tests-Stands :
    (max : ℕ) (xs ys : List ℕ) (i j : Option ℕ)
    → Below (length xs) i
    → Extends (length xs) i j
    → Stands (line_tests max xs i) (line_tests max (xs ++ ys) j)
line_tests-Stands max xs ys (some i) j h e =
    let ends = end_of-append xs ys i h in
    rw e (elim (Bool-cases (ltb max i)) [
      | inl f ↦ rw f refl
      | inr f ↦ rw (f, ends.0, take-append (end_of xs i) xs ys ends.1) refl
    ])
line_tests-Stands max xs ys none none h e = elim (Bool-cases (ltb max (length xs))) [
  | inl f ↦
      let longer : ltb max (length (xs ++ ys)) ≡ true = ground (arith, length-append xs ys) in
      rw (f, longer) refl
  | inr f ↦ rw f tt
]
line_tests-Stands max xs ys none (some j) h e = elim (Bool-cases (ltb max (length xs))) [
  | inl f ↦ let beyond : ltb max j ≡ true = ground arith in rw (f, beyond) refl
  | inr f ↦ rw f tt
]

pub verdict-nil : (max : ℕ) → verdict max [] ≡ wait
unfolding verdict position_of
verdict-nil max = let some_room : ltb max 0 ≡ false = ground arith in rw some_room

unfoldable pub framing : ℕ → Framing (List ℕ)
unfolding decode_line verdict position_of
framing max = record {
  decode = λ src. decode_line src max;
  verdict = verdict max;
  verdict-nil = verdict-nil max;
  decode-Does = λ b. settle-Does (verdict max (as_slice b)) b;
  verdict-Sized = λ xs. line_tests-Sized max xs _ (position_of-Below line_feed xs);
  verdict-Stands = λ xs ys.
      line_tests-Stands max xs ys _ _ (position_of-Below line_feed xs)
        (position_of-Extends line_feed xs ys);
}

abbrev pub IsLine : List ℕ → Type 0
IsLine line = all (λ b. not (b == line_feed)) line ≡ true

position_of-wire :
    (line later : List ℕ)
    → IsLine line
    → position_of line_feed (wire line ++ later) ≡ some (length line + 1)
unfolding position_of
position_of-wire [] later h = refl
position_of-wire (b ∷ line) later h = ground (arith, position_of-wire line later (ground arith))

pub verdict-wire :
    (max : ℕ) (line later : List ℕ)
    → IsLine line
    → length line < max
    → (framing max).verdict (wire line ++ later) ≡ item line (length (wire line))
unfolding verdict framing
verdict-wire max line later h k =
    let whole : wire line ++ later ≡ line ++ (carriage_return ∷ line_feed ∷ later) =
      append_assoc line (carriage_return ∷ line_feed ∷ []) later in
    let here : length line + 1 - 1 ≡ length line = omega arith in
    let within : ltb max (length line + 1) ≡ false = ground arith in
    let more : ltb 0 (length line + 1) ≡ true = ground arith in
    let size : length line + 1 + 1 ≡ length (wire line) =
      omega (arith, length-append line (carriage_return ∷ line_feed ∷ [])) in
    rw (
      position_of-wire line later h,
      within,
      more,
      here,
      sym size,
      whole,
      drop-length line (carriage_return ∷ line_feed ∷ later),
      take-length line (carriage_return ∷ line_feed ∷ later),
    )
