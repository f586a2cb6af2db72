-- ===== src/Wire/Framing.antt =====
-- How a protocol cuts the bytes of a socket into messages: what `decode_frame` of the two framed
-- protocols and `decode_line` of the text gateway have in common, and what their callers rely on.
use bnet_command_center.Base.{
  ℕ, ◌≤◌, ◌<◌, ◌≡◌, Option, none, some, List, [], ◌++◌, length, Result, ok, err,
}
use bnet_command_center.Wire.{ProtoError}
use bnet_command_center.Wire.Buffer.{RecvBuf, as_slice, consume}

-- What the unread bytes amount to: more are needed, they can never be valid, or they begin with a
-- message of so many bytes.
pub data Verdict (A : Type 0) : Type 0 where
  wait : Verdict A
  fail : ProtoError → Verdict A
  item : A → ℕ → Verdict A

-- The result of a decoder, with the buffer that it leaves.
abbrev pub Decoded : Type 0 → Type 0
Decoded A = Result (Option A) ProtoError × RecvBuf

module _ {A : Type 0} where
  -- A decoder does as the verdict says; what a fatal error leaves in the buffer is never read.
  abbrev pub Does : RecvBuf → Verdict A → Decoded A → Type 0
  Does b wait d = d ≡ (ok none, b)
  Does b (fail e) d = (b' : RecvBuf) × (d ≡ (err e, b'))
  Does b (item a n) d = d ≡ (ok (some a), consume b n)

  -- A message has bytes, and they are there.
  abbrev pub Sized : ℕ → Verdict A → Type 0
  Sized there (item a n) = (0 < n) × (n ≤ there)
  Sized there _ = Unit {0}

  -- A verdict stands, whatever arrives later.
  abbrev pub Stands : Verdict A → Verdict A → Type 0
  Stands wait later = Unit {0}
  Stands (fail e) later = later ≡ fail e
  Stands (item a n) later = later ≡ item a n

pub record Framing (A : Type 0) : Type 0 where
  pub decode : RecvBuf → Decoded A
  pub verdict : List ℕ → Verdict A
  pub verdict-nil : verdict [] ≡ wait
  pub decode-Does : (b : RecvBuf) → Does b (verdict (as_slice b)) (decode b)
  pub verdict-Sized : (xs : List ℕ) → Sized (length xs) (verdict xs)
  pub verdict-Stands : (xs ys : List ℕ) → Stands (verdict xs) (verdict (xs ++ ys))
