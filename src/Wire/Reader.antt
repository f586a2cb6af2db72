-- ===== src/Wire/Reader.antt =====
-- `Reader` (crates/bnetcc-proto/src/buf.rs): a cursor over a packet's body. A failed read leaves the
-- reader as it was, so a read gives the new reader with its value, or the error alone.
use bnet_command_center.Base.{
  ℕ, suc, ◌+◌, ◌-◌, ◌<◌, Option, none, some, List, [], ◌∷◌, length, take, drop, ltb, ◌==◌,
  if◌then◌else◌, Bool, Bool-cases, inl, inr, Result, ok, err, ◌>>=◌, arith,
}
use bnet_command_center.Wire.{ProtoError, truncated, unterminated_string, string_too_long}
use bnet_command_center.Wire.Number.{le_value, from_ascii}
use mathlib.Core.List.{reverse}

pub record Reader : Type 0 where
  pub buf : List ℕ
  pub pos : ℕ

abbrev pub Read : Type 0 → Type 0
Read A = Result (A × Reader) ProtoError

unfoldable pub new : List ℕ → Reader
new bytes = record { buf = bytes; pos = 0 }

unfoldable pub remaining : Reader → ℕ
remaining r = length r.buf - r.pos

unfoldable pub is_empty : Reader → Bool
unfolding remaining
is_empty r = remaining r == 0

-- `&self.buf[self.pos..]`.
unfoldable pub unread : Reader → List ℕ
unread r = drop r.pos r.buf

abbrev pub advance : Reader → ℕ → Reader
advance r n = record r { pos = r.pos + n }

-- `Reader::take`, which is also `bytes` and `array`.
unfoldable pub bytes : ℕ → Reader → Read (List ℕ)
unfolding remaining unread
bytes n r =
    if ltb (remaining r) n
    then err (truncated n (remaining r))
    else ok (take n (unread r), advance r n)

-- `u8`, `u16`, `u32` and `u64`, by the number of bytes.
unfoldable pub number : ℕ → Reader → Read ℕ
unfolding bytes
number n r = do (b, r') ← bytes n r; ok (le_value b, r')

unfoldable pub fourcc : Reader → Read ℕ
unfolding bytes
fourcc r = do (b, r') ← bytes 4 r; ok (from_ascii (reverse b), r')

abbrev pub later_index : Option ℕ → Option ℕ
later_index none = none
later_index (some i) = some (suc i)

-- `position(|&b| b == byte)`.
unfoldable pub position_of : ℕ → List ℕ → Option ℕ
position_of byte [] = none
position_of byte (b ∷ bs) =
    let later = later_index (position_of byte bs) in if b == byte then some 0 else later

abbrev pub Below : ℕ → Option ℕ → Type 0
Below n none = Unit {0}
Below n (some i) = i < n

later-Below : (n : ℕ) (i : Option ℕ) → Below n i → Below (suc n) (later_index i)
later-Below n none h = tt
later-Below n (some i) h = omega arith

pub position_of-Below : (byte : ℕ) (bs : List ℕ) → Below (length bs) (position_of byte bs)
unfolding position_of
position_of-Below byte [] = tt
position_of-Below byte (b ∷ bs) = elim (Bool-cases (b == byte)) [
  | inl e ↦ rw e (omega arith)
  | inr e ↦ rw e (later-Below (length bs) (position_of byte bs) (position_of-Below byte bs))
]

abbrev pub cstr_to : ℕ → Reader → Option ℕ → Read (List ℕ)
cstr_to limit r none = err unterminated_string
cstr_to limit r (some end) =
    if ltb limit end
    then err (string_too_long end limit)
    else ok (take end (unread r), advance r (end + 1))

unfoldable pub cstr : ℕ → Reader → Read (List ℕ)
unfolding position_of unread
cstr limit r = cstr_to limit r (position_of 0 (unread r))

unfoldable pub rest : Reader → List ℕ × Reader
unfolding unread
rest r = (unread r, record r { pos = length r.buf })
