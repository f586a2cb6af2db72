-- ===== src/Wire/Writer.antt =====
-- `Writer` (crates/bnetcc-proto/src/buf.rs): the body of a packet under construction.
use bnet_command_center.Base.{ℕ, List, [], ◌∷◌, ◌++◌, not, ◌==◌, retain}
use bnet_command_center.Wire.Number.{le_bytes, as_ascii}
use mathlib.Core.List.{reverse}

pub record Writer : Type 0 where
  pub buf : List ℕ

unfoldable pub new : Writer
new = record { buf = [] }

unfoldable pub bytes : Writer → List ℕ → Writer
bytes w v = record { buf = w.buf ++ v }

-- `u8`, `u16`, `u32` and `u64`, by the number of bytes.
unfoldable pub number : ℕ → Writer → ℕ → Writer
unfolding bytes
number n w v = bytes w (le_bytes n v)

unfoldable pub fourcc : Writer → ℕ → Writer
unfolding bytes
fourcc w v = bytes w (reverse (as_ascii v))

-- Interior NUL bytes are stripped.
unfoldable pub cstr : Writer → List ℕ → Writer
unfolding bytes
cstr w v = bytes (bytes w (retain (λ b. not (b == 0)) v)) (0 ∷ [])

unfoldable pub finish : Writer → List ℕ
finish w = w.buf
