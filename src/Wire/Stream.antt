-- ===== src/Wire/Stream.antt =====
-- The loop of the callers of a decoder: every complete message of the buffer is taken after each
-- read (`loop { match decode_frame(...) }` of crates/bnetccd/src/session.rs and realm.rs).
pub mod Parse
pub mod Reads
pub mod RoundTrip
pub mod Ends
use bnet_command_center.Base.{
  ℕ, zero, suc, ◌+◌, List, [], ◌∷◌, ◌++◌, Option, none, some, length, Result, ok, err,
}
use bnet_command_center.Wire.{ProtoError}
use bnet_command_center.Wire.Buffer.{RecvBuf, as_slice, receive}
use bnet_command_center.Wire.Framing.{Verdict, wait, fail, item, Decoded, Framing}

-- The messages, and why the loop stopped: it needs more bytes, or the connection is at its end.
pub data Outcome (A B : Type 0) : Type 0 where
  blocked : List A → B → Outcome A B
  closed : List A → ProtoError → Outcome A B
  out_of_fuel : Outcome A B

module _ {A B : Type 0} where
  abbrev pub after : List A → Outcome A B → Outcome A B
  after front (blocked got b) = blocked (front ++ got) b
  after front (closed got e) = closed (front ++ got) e
  after front out_of_fuel = out_of_fuel

abbrev pub unread : {A : Type 0} → Outcome A RecvBuf → Outcome A (List ℕ)
unread (blocked got b) = blocked got (as_slice b)
unread (closed got e) = closed got e
unread out_of_fuel = out_of_fuel

module _ {A : Type 0} (F : Framing A) where
  abbrev pub next : (RecvBuf → Outcome A RecvBuf) → Decoded A → Outcome A RecvBuf
  next rest (ok none, b) = blocked [] b
  next rest (ok (some a), b) = after (a ∷ []) (rest b)
  next rest (err e, b) = closed [] e

  unfoldable pub drain : ℕ → RecvBuf → Outcome A RecvBuf
  drain zero b = out_of_fuel
  drain (suc fuel) b = next (drain fuel) (F.decode b)

  -- A message has a byte at least.
  abbrev pub fuel : List ℕ → ℕ
  fuel bytes = suc (length bytes)

  abbrev pub go_on : (RecvBuf → Outcome A RecvBuf) → Outcome A RecvBuf → Outcome A RecvBuf
  go_on rest (blocked got b) = after got (rest b)
  go_on rest (closed got e) = closed got e
  go_on rest out_of_fuel = out_of_fuel

  -- One read, of a socket that was offered `n` bytes, after another. A read of nothing is the end of
  -- the connection.
  unfoldable pub reads : ℕ → List (List ℕ) → RecvBuf → Outcome A RecvBuf
  unfolding drain
  reads n [] b = blocked [] b
  reads n ([] ∷ chunks) b = blocked [] (receive b n [])
  reads n ((byte ∷ bytes) ∷ chunks) b =
      let b' = receive b n (byte ∷ bytes) in go_on (reads n chunks) (drain (fuel (as_slice b')) b')
