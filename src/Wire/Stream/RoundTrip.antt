-- ===== src/Wire/Stream/RoundTrip.antt =====
-- What a peer encodes is what the loop finds, however the socket cuts it.
use bnet_command_center.Base.{
  ℕ, ◌≤◌, ◌<◌, ◌≡◌, refl, sym, ap, ◌∙◌, List, [], ◌∷◌, ◌++◌, map, length, drop-length, All, concat,
  Result, ok, err, ◌>>=◌,
}
use mathlib.Core.List.{append_assoc, append-nil}
use bnet_command_center.Wire.{ProtoError}
use bnet_command_center.Wire.Buffer.{new}
use bnet_command_center.Wire.Bncs
use bnet_command_center.Wire.Mcp
use bnet_command_center.Wire.Line
use bnet_command_center.Wire.Frame.{Frame, wire_len}
use bnet_command_center.Wire.Framing.{item, Framing}
use bnet_command_center.Wire.Stream.{blocked, unread, reads}
use bnet_command_center.Wire.Stream.Parse.{parse, parse-step}
use bnet_command_center.Wire.Stream.Reads.{reads_from_new-parse, Offered}

-- The messages of a peer, encoded into one buffer.
unfoldable pub encode_all :
    {A : Type 0}
    → (A → List ℕ → Result (List ℕ) ProtoError)
    → List A
    → List ℕ
    → Result (List ℕ) ProtoError
encode_all encode [] dst = ok dst
encode_all encode (a ∷ rest) dst = do dst' ← encode a dst; encode_all encode rest dst'

-- An encoder, which writes what the framing reads.
module _ {A : Type 0} (F : Framing A) (encode : A → List ℕ → Result (List ℕ) ProtoError)
    (wire : A → List ℕ) (Keeps : A → Type 0)
    (encodes : (a : A) (dst out : List ℕ) → encode a dst ≡ ok out → out ≡ dst ++ wire a)
    (front : (a : A) (dst out later : List ℕ)
      → Keeps a
      → encode a dst ≡ ok out
      → F.verdict (wire a ++ later) ≡ item a (length (wire a))) where
  Written : List A → List ℕ → List ℕ → Type 0
  Written messages dst out =
      (out ≡ dst ++ concat (map wire messages))
      × (parse F (concat (map wire messages)) ≡ blocked messages [])

  one-more :
      (a : A) (rest : List A) (dst out : List ℕ) (r : Result (List ℕ) ProtoError)
      → Keeps a
      → encode a dst ≡ r
      → (r >>= encode_all encode rest) ≡ ok out
      → ((dst' : List ℕ) → encode_all encode rest dst' ≡ ok out → Written rest dst' out)
      → Written (a ∷ rest) dst out
  unfolding Written
  one-more a rest dst out (ok dst') keeps e e' h =
      let later = concat (map wire rest) in
      (
        (h dst' e').0
            ∙ ap (λ (xs : List ℕ). xs ++ later) (encodes a dst dst' e)
            ∙ append_assoc dst (wire a) later,
        rw (
          parse-step F (wire a ++ later),
          front a dst dst' later keeps e,
          drop-length (wire a) later,
          (h dst' e').1,
        ),
      )
  one-more a rest dst out (err x) keeps e e' h = let no : ⊥ = cc e' in elim no [ ]

  encode_all-Written :
      (messages : List A) (dst out : List ℕ)
      → All Keeps messages
      → encode_all encode messages dst ≡ ok out
      → Written messages dst out
  unfolding encode_all Written
  encode_all-Written [] dst out h e =
      let same : dst ≡ out = cc e in
      (sym same ∙ sym (append-nil dst), rw (parse-step F [], F.verdict-nil))
  encode_all-Written (a ∷ rest) dst out h e =
      one-more a rest dst out (encode a dst) h.0 refl e
        (λ dst' e'. encode_all-Written rest dst' out h.1 e')

  reads-encode_all :
      (n : ℕ) (chunks : List (List ℕ)) (messages : List A)
      → All (Offered F n) chunks
      → All Keeps messages
      → encode_all encode messages [] ≡ ok (concat chunks)
      → unread (reads F n chunks new) ≡ blocked messages []
  unfolding Written
  reads-encode_all n chunks messages h keeps e =
      let (bytes, found) = encode_all-Written messages [] (concat chunks) keeps e in
      reads_from_new-parse F n chunks h ∙ ap (parse F) bytes ∙ found

-- A frame within the reader's ceiling.
abbrev pub Keeps : ℕ → ℕ → Frame → Type 0
Keeps header max f = wire_len header f ≤ max

-- BNCS frames within the reader's ceiling, encoded without an error and cut into any reads of one
-- to `n` bytes, are found in order, and no byte is left.
pub reads-bncs :
    (max n : ℕ) (chunks : List (List ℕ)) (frames : List Frame)
    → All (Offered (Bncs.framing max) n) chunks
    → All (Keeps Bncs.header_len max) frames
    → encode_all Bncs.encode_frame frames [] ≡ ok (concat chunks)
    → unread (reads (Bncs.framing max) n chunks new) ≡ blocked frames []
reads-bncs max n chunks frames =
    reads-encode_all (Bncs.framing max) Bncs.encode_frame Bncs.wire (Keeps Bncs.header_len max)
      (λ f dst out e. (Bncs.encode_frame-fits f dst out e).1)
      (λ f dst out later keeps e.
        Bncs.verdict-wire max f later keeps (Bncs.encode_frame-fits f dst out e).0)
      n chunks frames

-- Realm frames within the reader's ceiling, encoded without an error and cut into any reads of one
-- to `n` bytes, are found in order, and no byte is left.
pub reads-mcp :
    (max n : ℕ) (chunks : List (List ℕ)) (frames : List Frame)
    → All (Offered (Mcp.framing max) n) chunks
    → All (Keeps Mcp.header_len max) frames
    → encode_all Mcp.encode_frame frames [] ≡ ok (concat chunks)
    → unread (reads (Mcp.framing max) n chunks new) ≡ blocked frames []
reads-mcp max n chunks frames =
    reads-encode_all (Mcp.framing max) Mcp.encode_frame Mcp.wire (Keeps Mcp.header_len max)
      (λ f dst out e. (Mcp.encode_frame-fits f dst out e).1)
      (λ f dst out later keeps e.
        Mcp.verdict-wire max f later keeps (Mcp.encode_frame-fits f dst out e).0)
      n chunks frames

-- A line without a line feed, within the ceiling.
abbrev pub KeepsLine : ℕ → List ℕ → Type 0
KeepsLine max line = Line.IsLine line × (length line < max)
