-- ===== src/Wire/Fields.antt =====
-- Whole bodies: fields of any shapes, written one after the other, and read back.
pub mod RoundTrip
pub mod Bounds
use bnet_command_center.Base.{
  ℕ, zero, suc, ◌+◌, ◌-◌, ◌≤◌, ◌<◌, ◌≡◌, ◌≢◌, refl, sym, ap, ◌∙◌, Option, none, some, List, [], ◌∷◌,
  ◌++◌, length, length-append, take, drop, length-drop, take-length, drop-length, drop-append,
  drop-drop, ltb, ◌==◌, not, retain, if◌then◌else◌, Bool, true, false, all, Result, ok, err, ◌>>=◌,
  arith,
}
use bnet_command_center.Wire.{ProtoError, truncated, unterminated_string, string_too_long}
use bnet_command_center.Wire.Number.{
  IsByte, bytes_bound, le_bytes, le_value, length-le_bytes, le_value-le_bytes, as_ascii, from_ascii,
  from_ascii-as_ascii,
}
use bnet_command_center.Wire.Reader
use bnet_command_center.Wire.Reader.{Reader, Read, advance}
use bnet_command_center.Wire.Writer
use bnet_command_center.Wire.Writer.{Writer}
use mathlib.Core.List.{reverse, reverse-reverse, append_assoc, append-nil}

-- The shape of a field, as the reader asks for it: a number of so many bytes, a code, so many raw
-- bytes, or a text with its ceiling.
pub data Shape : Type 0 where
  number : ℕ → Shape
  fourcc : Shape
  bytes cstr : ℕ → Shape

pub data Value : Type 0 where
  num : ℕ → Value
  str : List ℕ → Value

-- The values that a shape can carry: a number that fits its bytes, raw bytes of the length, and a
-- text without a NUL that keeps its ceiling.
abbrev pub Fits : Shape → Value → Type 0
Fits (number n) (num v) = v < bytes_bound n
Fits fourcc (num v) = v < bytes_bound 4
Fits (bytes n) (str v) = length v ≡ n
Fits (cstr limit) (str v) = (all (λ b. not (b == 0)) v ≡ true) × (length v ≤ limit)
Fits _ _ = ⊥

abbrev pub AllFit : List Shape → List Value → Type 0
AllFit [] [] = Unit {0}
AllFit (s ∷ shapes) (v ∷ values) = Fits s v × AllFit shapes values
AllFit _ _ = ⊥

unfoldable pub write : Writer → Shape → Value → Writer
unfolding Writer.number Writer.fourcc Writer.bytes Writer.cstr
write w (number n) (num v) = Writer.number n w v
write w fourcc (num v) = Writer.fourcc w v
write w (bytes n) (str v) = Writer.bytes w v
write w (cstr limit) (str v) = Writer.cstr w v
write w _ _ = w

unfoldable pub write_all : Writer → List Shape → List Value → Writer
write_all w [] _ = w
write_all w (s ∷ shapes) [] = w
write_all w (s ∷ shapes) (v ∷ values) = write_all (write w s v) shapes values

abbrev as_num : Read ℕ → Read Value
as_num (ok (v, r)) = ok (num v, r)
as_num (err e) = err e

abbrev as_str : Read (List ℕ) → Read Value
as_str (ok (v, r)) = ok (str v, r)
as_str (err e) = err e

unfoldable pub read : Shape → Reader → Read Value
unfolding Reader.number Reader.fourcc Reader.bytes Reader.cstr
read (number n) r = as_num (Reader.number n r)
read fourcc r = as_num (Reader.fourcc r)
read (bytes n) r = as_str (Reader.bytes n r)
read (cstr limit) r = as_str (Reader.cstr limit r)

unfoldable pub read_all : List Shape → Reader → Read (List Value)
read_all [] r = ok ([], r)
read_all (s ∷ shapes) r = do (v, r') ← read s r; (vs, r'') ← read_all shapes r'; ok (v ∷ vs, r'')
