-- ===== src/Wire/Bncs.antt =====
-- BNCS framing (crates/bnetcc-proto/src/bncs.rs): `0xFF | id | len:u16le | body`, and the byte that
-- selects a protocol.
use bnet_command_center.Base.{
  ℕ, ◌≤◌, ◌≡◌, refl, Option, none, some, List, [], ◌∷◌, ◌++◌, length, ltb, ◌==◌, ◌||◌, not,
  if◌then◌else◌, Bool-cases, inl, inr, Result, ok, err, arith,
}
use bnet_command_center.Wire.{ProtoError, bad_magic, frame_too_large}
use bnet_command_center.Wire.Number.{le_bytes, le_value, le_value-le_bytes}
use bnet_command_center.Wire.Buffer.{RecvBuf, as_slice}
use bnet_command_center.Wire.Framing.{Verdict, wait, fail, item, Decoded, Framing, Sized, Stands}
use bnet_command_center.Wire.Frame.{
  Frame, wire_len, length_tests, length_tests-Sized, length_tests-Stands, length_tests-front,
  settle, settle-Does,
}

abbrev pub header_len : ℕ
header_len = 4

abbrev pub magic : ℕ
magic = 255

-- The tests of `decode_frame`, in their order, on the unread bytes.
unfoldable pub verdict : ℕ → List ℕ → Verdict Frame
unfolding le_value length_tests
verdict max_frame (first ∷ id ∷ low ∷ high ∷ rest) =
    if not (first == magic)
    then fail (bad_magic first)
    else length_tests header_len max_frame id (le_value (low ∷ high ∷ [])) rest
verdict max_frame _ = wait

unfoldable pub decode_frame : RecvBuf → ℕ → Decoded Frame
unfolding verdict
decode_frame src max_frame = settle (verdict max_frame (as_slice src)) src

abbrev pub wire : Frame → List ℕ
wire f = magic ∷ f.id ∷ le_bytes 2 (wire_len header_len f) ++ f.body

unfoldable pub encode_frame : Frame → List ℕ → Result (List ℕ) ProtoError
encode_frame f dst =
    if ltb 65535 (wire_len header_len f)
    then err (frame_too_large (wire_len header_len f) 65535)
    else ok (dst ++ wire f)

pub verdict-Sized : (max : ℕ) (xs : List ℕ) → Sized (length xs) (verdict max xs)
unfolding verdict
verdict-Sized max [] = tt
verdict-Sized max (a ∷ []) = tt
verdict-Sized max (a ∷ b ∷ []) = tt
verdict-Sized max (a ∷ b ∷ c ∷ []) = tt
verdict-Sized max (first ∷ id ∷ low ∷ high ∷ rest) = elim (Bool-cases (not (first == magic))) [
  | inl e ↦ rw e tt
  | inr e ↦ rw e (length_tests-Sized header_len max id _ (omega arith) rest _ (omega arith))
]

pub verdict-Stands : (max : ℕ) (xs ys : List ℕ) → Stands (verdict max xs) (verdict max (xs ++ ys))
unfolding verdict
verdict-Stands max [] ys = tt
verdict-Stands max (a ∷ []) ys = tt
verdict-Stands max (a ∷ b ∷ []) ys = tt
verdict-Stands max (a ∷ b ∷ c ∷ []) ys = tt
verdict-Stands max (first ∷ id ∷ low ∷ high ∷ rest) ys = elim (Bool-cases (not (first == magic))) [
  | inl e ↦ rw e refl
  | inr e ↦ rw e (length_tests-Stands header_len max id _ (omega arith) rest ys)
]

unfoldable pub framing : ℕ → Framing Frame
unfolding decode_frame verdict
framing max = record {
  decode = λ src. decode_frame src max;
  verdict = verdict max;
  verdict-nil = refl;
  decode-Does = λ b. settle-Does (verdict max (as_slice b)) b;
  verdict-Sized = verdict-Sized max;
  verdict-Stands = verdict-Stands max;
}

-- `ProtocolSelector`.
pub data ProtocolSelector : Type 0 where
  game bnftp chat : ProtocolSelector

pub from_byte : ℕ → Option ProtocolSelector
from_byte b =
    if b == 1
    then some game
    else if b == 2
    then some bnftp
    else if b == 3 || (b == 67) || (b == 99)
    then some chat
    else none

pub verdict-wire :
    (max : ℕ) (f : Frame) (later : List ℕ)
    → wire_len header_len f ≤ max
    → wire_len header_len f ≤ 65535
    → (framing max).verdict (wire f ++ later) ≡ item f (length (wire f))
unfolding verdict le_bytes framing
verdict-wire max f later h k =
    let len : le_value (le_bytes 2 (wire_len header_len f)) ≡ wire_len header_len f =
      le_value-le_bytes 2 (wire_len header_len f) (omega arith) in
    let size : length (wire f) ≡ wire_len header_len f = omega arith in
    rw (len, size) (length_tests-front header_len max f later h)

-- What is encoded fits the length field.
pub encode_frame-fits :
    (f : Frame) (dst out : List ℕ)
    → encode_frame f dst ≡ ok out
    → (wire_len header_len f ≤ 65535) × (out ≡ dst ++ wire f)
unfolding encode_frame
encode_frame-fits f dst out e = ground arith
