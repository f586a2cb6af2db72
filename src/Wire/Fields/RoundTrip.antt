-- ===== src/Wire/Fields/RoundTrip.antt =====
-- What is written is read back, field by field and then for a whole body.
use bnet_command_center.Base.{
  ℕ, ◌+◌, ◌≡◌, refl, sym, ap, ◌∙◌, some, List, [], ◌∷◌, ◌++◌, length, length-append, drop,
  length-drop, take-length, drop-length, drop-drop, drop_zero, ltb, ◌==◌, not, retain, true, false,
  all, ok, arith,
}
use bnet_command_center.Wire.Number.{
  le_bytes, length-le_bytes, le_value-le_bytes, as_ascii, from_ascii-as_ascii,
}
use bnet_command_center.Wire.Reader
use bnet_command_center.Wire.Reader.{Reader, Read, advance}
use bnet_command_center.Wire.Writer
use bnet_command_center.Wire.Writer.{Writer}
use mathlib.Core.List.{reverse, reverse-reverse, append_assoc, append-nil}
use bnet_command_center.Wire.Fields.{
  Shape, Value, number, fourcc, bytes, cstr, num, str, Fits, AllFit, write, write_all, read,
  read_all,
}

-- The bytes of one field.
abbrev encoded : Shape → Value → List ℕ
encoded (number n) (num v) = le_bytes n v
encoded fourcc (num v) = reverse (as_ascii v)
encoded (bytes n) (str v) = v
encoded (cstr limit) (str v) = retain (λ b. not (b == 0)) v ++ 0 ∷ []
encoded _ _ = []

write-encoded : (w : Writer) (s : Shape) (v : Value) → (write w s v).buf ≡ w.buf ++ encoded s v
unfolding write
write-encoded w (number n) (num v) = refl
write-encoded w (number n) (str v) = sym (append-nil w.buf)
write-encoded w fourcc (num v) = refl
write-encoded w fourcc (str v) = sym (append-nil w.buf)
write-encoded w (bytes n) (num v) = sym (append-nil w.buf)
write-encoded w (bytes n) (str v) = refl
write-encoded w (cstr limit) (num v) = sym (append-nil w.buf)
write-encoded w (cstr limit) (str v) = append_assoc w.buf (retain (λ b. not (b == 0)) v) (0 ∷ [])

abbrev encoded_all : List Shape → List Value → List ℕ
encoded_all [] _ = []
encoded_all (s ∷ shapes) [] = []
encoded_all (s ∷ shapes) (v ∷ values) = encoded s v ++ encoded_all shapes values

write_all-encoded :
    (w : Writer) (shapes : List Shape) (values : List Value)
    → (write_all w shapes values).buf ≡ w.buf ++ encoded_all shapes values
unfolding write_all
write_all-encoded w [] [] = sym (append-nil w.buf)
write_all-encoded w [] (v ∷ values) = sym (append-nil w.buf)
write_all-encoded w (s ∷ shapes) [] = sym (append-nil w.buf)
write_all-encoded w (s ∷ shapes) (v ∷ values) =
    write_all-encoded (write w s v) shapes values
    ∙ ap (λ (xs : List ℕ). xs ++ encoded_all shapes values) (write-encoded w s v)
    ∙ append_assoc w.buf (encoded s v) (encoded_all shapes values)

-- What is left to read splits at `n` bytes.
module _ (r : Reader) (front back : List ℕ) (e : Reader.unread r ≡ front ++ back) where
  remaining-length : Reader.remaining r ≡ length front + length back
  unfolding Reader.remaining Reader.unread
  remaining-length = sym (length-drop r.pos r.buf) ∙ ap length e ∙ length-append front back

  unread-advance : Reader.unread (advance r (length front)) ≡ back
  unfolding Reader.unread
  unread-advance =
      sym (drop-drop (length front) r.pos r.buf)
      ∙ ap (drop (length front)) e
      ∙ drop-length front back

  bytes-front : (n : ℕ) → length front ≡ n → Reader.bytes n r ≡ ok (front, advance r n)
  unfolding Reader.bytes
  bytes-front n h =
      let enough : ltb (Reader.remaining r) (length front) ≡ false =
        ground (arith, remaining-length) in
      rw (sym h, enough, e, take-length front back)

retain_of_all : (v : List ℕ) → all (λ b. not (b == 0)) v ≡ true → retain (λ b. not (b == 0)) v ≡ v
retain_of_all [] h = refl
retain_of_all (b ∷ v) h = ground (arith, retain_of_all v (ground arith))

position-front :
    (v back : List ℕ)
    → all (λ b. not (b == 0)) v ≡ true
    → Reader.position_of 0 (v ++ 0 ∷ back) ≡ some (length v)
unfolding Reader.position_of
position-front [] back h = refl
position-front (b ∷ v) back h = ground (arith, position-front v back (ground arith))

read-encoded :
    (s : Shape) (v : Value) (r : Reader) (back : List ℕ)
    → Fits s v
    → Reader.unread r ≡ encoded s v ++ back
    → read s r ≡ ok (v, advance r (length (encoded s v)))
unfolding read Reader.number Reader.fourcc Reader.cstr as_ascii le_bytes
read-encoded (number n) (num v) r back h e = rw (
  bytes-front r (le_bytes n v) back e n (length-le_bytes n v),
  le_value-le_bytes n v h,
  length-le_bytes n v,
)
read-encoded (number n) (str v) r back h e = elim h [ ]
read-encoded fourcc (num v) r back h e =
    let four : length (reverse (as_ascii v)) ≡ 4 =
      ap length (reverse-reverse (le_bytes 4 v)) ∙ length-le_bytes 4 v in
    rw (
      bytes-front r (reverse (as_ascii v)) back e 4 four,
      reverse-reverse (as_ascii v),
      from_ascii-as_ascii v h,
      four,
    )
read-encoded fourcc (str v) r back h e = elim h [ ]
read-encoded (bytes n) (num v) r back h e = elim h [ ]
read-encoded (bytes n) (str v) r back h e = rw (bytes-front r v back e n h, h)
read-encoded (cstr limit) (num v) r back h e = elim h [ ]
read-encoded (cstr limit) (str v) r back h e =
    let whole : Reader.unread r ≡ v ++ 0 ∷ back =
      e
      ∙ ap (λ (xs : List ℕ). (xs ++ 0 ∷ []) ++ back) (retain_of_all v h.0)
      ∙ append_assoc v (0 ∷ []) back in
    let within : ltb limit (length v) ≡ false = ground arith in
    let ends : length (retain (λ b. not (b == 0)) v ++ 0 ∷ []) ≡ length v + 1 =
      length-append _ (0 ∷ []) ∙ ap (λ (xs : List ℕ). length xs + 1) (retain_of_all v h.0) in
    rw (ends, whole, position-front v back h.0, within, whole, take-length v (0 ∷ back))

moved :
    (r : Reader) (values : List Value) {m n : ℕ}
    → m ≡ n
    → ◌≡◌ {A = Read (List Value)}
        (ok (values, record r { pos = m }))
        (ok (values, record r { pos = n }))
moved r values e = ap (λ (k : ℕ). ok (values, record r { pos = k })) e

read_all-encoded :
    (shapes : List Shape) (values : List Value) (r : Reader) (back : List ℕ)
    → AllFit shapes values
    → Reader.unread r ≡ encoded_all shapes values ++ back
    → read_all shapes r ≡ ok (values, advance r (length (encoded_all shapes values)))
unfolding read_all
read_all-encoded [] [] r back h e = moved r [] (omega arith)
read_all-encoded [] (v ∷ values) r back h e = elim h [ ]
read_all-encoded (s ∷ shapes) [] r back h e = elim h [ ]
read_all-encoded (s ∷ shapes) (v ∷ values) r back h e =
    let split : Reader.unread r ≡ encoded s v ++ (encoded_all shapes values ++ back) =
      e ∙ append_assoc (encoded s v) (encoded_all shapes values) back in
    rw
      (
        read-encoded s v r _ h.0 split,
        read_all-encoded shapes values (advance r (length (encoded s v))) back h.1
            (unread-advance r (encoded s v) _ split),
      )
      (moved r (v ∷ values)
        (omega (arith, length-append (encoded s v) (encoded_all shapes values))))

-- A body that is written field by field, each value fitting its field, is read back field by field:
-- the same values, and nothing is left.
pub read_all-write_all :
    (shapes : List Shape) (values : List Value)
    → AllFit shapes values
    → let body = Writer.finish (write_all Writer.new shapes values) in
      read_all shapes (Reader.new body) ≡ ok (values, record { buf = body; pos = length body })
unfolding Reader.new Reader.unread Writer.new Writer.finish
read_all-write_all shapes values h =
    let body = write_all-encoded Writer.new shapes values in
    read_all-encoded shapes values (Reader.new (write_all Writer.new shapes values).buf) [] h
      (drop_zero _ ∙ body ∙ sym (append-nil _))
    ∙ moved (Reader.new _) values (omega (arith, ap length body))
