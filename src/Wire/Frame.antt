-- ===== src/Wire/Frame.antt =====
-- The frames of the two binary protocols (crates/bnetcc-proto/src/bncs.rs and mcp.rs), whose headers
-- differ: the tests of a frame's length, and the buffer after them.
use bnet_command_center.Base.{
  ℕ, ◌+◌, ◌-◌, ◌≤◌, ◌<◌, ◌≡◌, refl, none, some, List, ◌++◌, length, length-append, take,
  take-append, take-length, ltb, if◌then◌else◌, false, Bool-cases, inl, inr, ok, err, arith,
}
use bnet_command_center.Wire.{short_frame, frame_too_large}
use bnet_command_center.Wire.Buffer.{RecvBuf, consume}
use bnet_command_center.Wire.Framing.{Verdict, wait, fail, item, Decoded, Does, Sized, Stands}

pub record Frame : Type 0 where
  pub id : ℕ
  pub body : List ℕ

-- `Frame::wire_len`, for a header of so many bytes.
abbrev pub wire_len : ℕ → Frame → ℕ
wire_len header f = header + length f.body

unfoldable pub length_tests : ℕ → ℕ → ℕ → ℕ → List ℕ → Verdict Frame
length_tests header max_frame id len rest =
    if ltb len header
    then fail (short_frame len header)
    else if ltb max_frame len
    then fail (frame_too_large len max_frame)
    else if ltb (header + length rest) len
    then wait
    else item (record { id = id; body = take (len - header) rest }) len

abbrev pub settle : Verdict Frame → RecvBuf → Decoded Frame
settle wait src = (ok none, src)
settle (fail e) src = (err e, src)
settle (item f len) src = (ok (some f), consume src len)

pub settle-Does : (v : Verdict Frame) (b : RecvBuf) → Does b v (settle v b)
settle-Does wait b = refl
settle-Does (fail e) b = (b, refl)
settle-Does (item f n) b = refl

module _ (header max id len : ℕ) (some_header : 0 < header) where
  pub length_tests-Sized :
      (rest : List ℕ) (there : ℕ)
      → there ≡ header + length rest
      → Sized there (length_tests header max id len rest)
  unfolding length_tests
  length_tests-Sized rest there h = elim (Bool-cases (ltb len header)) [
    | inl e ↦ rw e tt
    | inr e ↦ elim (Bool-cases (ltb max len)) [
      | inl f ↦ rw (e, f) tt
      | inr f ↦ elim (Bool-cases (ltb (header + length rest) len)) [
        | inl g ↦ rw (e, f, g) tt
        | inr g ↦ rw (e, f, g) (ground arith, ground arith)
      ]
    ]
  ]

  pub length_tests-Stands :
      (rest later : List ℕ)
      → Stands
          (length_tests header max id len rest)
          (length_tests header max id len (rest ++ later))
  unfolding length_tests
  length_tests-Stands rest later = elim (Bool-cases (ltb len header)) [
    | inl e ↦ rw e refl
    | inr e ↦ elim (Bool-cases (ltb max len)) [
      | inl f ↦ rw (e, f) refl
      | inr f ↦ elim (Bool-cases (ltb (header + length rest) len)) [
        | inl g ↦ rw (e, f, g) tt
        | inr g ↦
            let there : ltb (header + length (rest ++ later)) len ≡ false =
              ground (arith, length-append rest later) in
            rw (e, f, g, there, take-append (len - header) rest later (ground arith)) refl
      ]
    ]
  ]

-- A frame that keeps the ceiling is found at the front.
pub length_tests-front :
    (header max : ℕ) (f : Frame) (later : List ℕ)
    → wire_len header f ≤ max
    → length_tests header max f.id (wire_len header f) (f.body ++ later)
      ≡ item f (wire_len header f)
unfolding length_tests
length_tests-front header max f later h =
    let long : ltb (wire_len header f) header ≡ false = ground arith in
    let within : ltb max (wire_len header f) ≡ false = ground arith in
    let there : ltb (header + length (f.body ++ later)) (wire_len header f) ≡ false =
      ground (arith, length-append f.body later) in
    let size : header + length f.body - header ≡ length f.body = omega arith in
    rw (long, within, there, size, take-length f.body later)
