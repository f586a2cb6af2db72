-- ===== src/Wire/Number.antt =====
-- Numbers as little-endian bytes (`to_le_bytes`, `from_le_bytes`), and four-character codes
-- (`FourCc` of crates/bnetcc-proto/src/error.rs), which are big-endian.
use bnet_command_center.Base.{
  ℕ, zero, suc, ◌+◌, ◌*◌, ◌/◌, ◌%◌, ◌<◌, ◌≡◌, refl, ap, ◌∙◌, List, [], ◌∷◌, length, All, arith,
}
use mathlib.Core.List.{reverse, reverse-reverse}

abbrev pub IsByte : ℕ → Type 0
IsByte b = b < 256

unfoldable pub le_bytes : ℕ → ℕ → List ℕ
le_bytes zero v = []
le_bytes (suc n) v = v % 256 ∷ le_bytes n (v / 256)

unfoldable pub le_value : List ℕ → ℕ
le_value [] = 0
le_value (b ∷ bs) = b + 256 * le_value bs

-- The values that fit `n` bytes.
abbrev pub bytes_bound : ℕ → ℕ
bytes_bound zero = 1
bytes_bound (suc n) = 256 * bytes_bound n

pub length-le_bytes : (n v : ℕ) → length (le_bytes n v) ≡ n
unfolding le_bytes
length-le_bytes zero v = refl
length-le_bytes (suc n) v = ap suc (length-le_bytes n (v / 256))

pub le_value-le_bytes : (n v : ℕ) → v < bytes_bound n → le_value (le_bytes n v) ≡ v
unfolding le_bytes le_value
le_value-le_bytes zero v h = omega arith
le_value-le_bytes (suc n) v h = omega (arith, le_value-le_bytes n (v / 256) (omega arith))

pub le_value-lt : (bs : List ℕ) → All IsByte bs → le_value bs < bytes_bound (length bs)
unfolding le_value
le_value-lt [] h = omega arith
le_value-lt (b ∷ bs) h = omega (arith, le_value-lt bs h.1)

pub le_bytes-IsByte : (n v : ℕ) → All IsByte (le_bytes n v)
unfolding le_bytes
le_bytes-IsByte zero v = tt
le_bytes-IsByte (suc n) v = (omega arith, le_bytes-IsByte n (v / 256))

-- `as_ascii` is `to_be_bytes` of four bytes, and `from_ascii` is `from_be_bytes`.
unfoldable pub as_ascii : ℕ → List ℕ
unfolding le_bytes
as_ascii code = reverse (le_bytes 4 code)

unfoldable pub from_ascii : List ℕ → ℕ
unfolding le_value
from_ascii bs = le_value (reverse bs)

-- A code that is written in the wire's reversed order is read back.
pub from_ascii-as_ascii : (code : ℕ) → code < bytes_bound 4 → from_ascii (as_ascii code) ≡ code
unfolding from_ascii as_ascii
from_ascii-as_ascii code h =
    ap le_value (reverse-reverse (le_bytes 4 code)) ∙ le_value-le_bytes 4 code h
