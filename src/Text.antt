-- ===== src/Text.antt =====
-- Rust's `str`, as the list of its code points, with the functions of the standard library that
-- the program uses on names.
use bnet_command_center.Base.{
  ℕ, ◌+◌, ◌≡◌, refl, ◌↔◌, Option, none, some, Bool, true, false, ◌&&◌, ◌||◌, List, [], ◌∷◌, ◌++◌,
  leb, ltb, ℕ_discrete, ◌==◌, if◌then◌else◌, arith,
}
use mathlib.Core.List.{reverse}
use Prim.Native.Char.{code}
use Prim.Native.String.{String}

abbrev pub Text : Type 0
Text = List ℕ

-- The code points of a literal.
abbrev pub codes : String → Text
codes String.[] = []
codes (String.◌∷◌ c s) = code c ∷ codes s

-- The bytes of a code point in UTF-8, and of a text: what `len` and a slice count.
unfoldable pub utf8_len : ℕ → ℕ
utf8_len c = if ltb c 0x80 then 1 else (if ltb c 0x800 then 2 else (if ltb c 0x10000 then 3 else 4))

unfoldable pub byte_len : Text → ℕ
unfolding utf8_len
byte_len [] = 0
byte_len (c ∷ cs) = utf8_len c + byte_len cs

unfoldable pub to_lower : ℕ → ℕ
to_lower c = if leb b'A' c && leb c b'Z' then c + 32 else c

-- `to_ascii_lowercase`.
unfoldable pub lowercase : Text → Text
unfolding to_lower
lowercase [] = []
lowercase (c ∷ cs) = to_lower c ∷ lowercase cs

unfoldable pub text_eq : Text → Text → Bool
text_eq [] [] = true
text_eq (a ∷ s) (b ∷ t) = a == b && text_eq s t
text_eq _ _ = false

-- `eq_ignore_ascii_case`.
unfoldable pub same_text : Text → Text → Bool
unfolding text_eq lowercase
same_text s t = text_eq (lowercase s) (lowercase t)

-- `char::is_whitespace`: the code points with the Unicode property White_Space.
unfoldable pub is_whitespace : ℕ → Bool
is_whitespace c =
    leb 0x9 c && leb c 0xd
    || c == 0x20
    || c == 0x85
    || c == 0xa0
    || c == 0x1680
    || leb 0x2000 c && leb c 0x200a
    || c == 0x2028
    || c == 0x2029
    || c == 0x202f
    || c == 0x205f
    || c == 0x3000

unfoldable pub trim_start : Text → Text
trim_start [] = []
trim_start (c ∷ cs) = if is_whitespace c then trim_start cs else c ∷ cs

unfoldable pub trim : Text → Text
trim s = reverse (trim_start (reverse (trim_start s)))

unfoldable pub starts_with : Text → Text → Bool
starts_with [] s = true
starts_with (p ∷ ps) [] = false
starts_with (p ∷ ps) (c ∷ cs) = p == c && starts_with ps cs

unfoldable pub is_digit : ℕ → Bool
is_digit c = leb b'0' c && leb c b'9'

-- `rsplit_once`, by the last occurrence of the character.
abbrev pub split_later : Text → ℕ → ℕ → Option (Text × Text) → Option (Text × Text)
split_later cs c at (some (before, after)) = some (c ∷ before, after)
split_later cs c at none = if c == at then some ([], cs) else none

unfoldable pub rsplit_once : ℕ → Text → Option (Text × Text)
rsplit_once at [] = none
rsplit_once at (c ∷ cs) = split_later cs c at (rsplit_once at cs)

pub text_eq_refl : (s : Text) → text_eq s s ≡ true
unfolding text_eq
text_eq_refl [] = refl
text_eq_refl (c ∷ s) = ground (arith, text_eq_refl s)

pub text_eq→eq : (s t : Text) → text_eq s t ≡ true → s ≡ t
unfolding text_eq
text_eq→eq [] [] h = refl
text_eq→eq [] (b ∷ t) h = cc
text_eq→eq (a ∷ s) [] h = cc
text_eq→eq (a ∷ s) (b ∷ t) h = ground (arith, text_eq→eq s t)

-- `eq_ignore_ascii_case` is an equivalence: it compares the texts in lower case.
pub same_text_iff : (s t : Text) → (same_text s t ≡ true) ↔ (lowercase s ≡ lowercase t)
unfolding same_text
same_text_iff s t = (text_eq→eq (lowercase s) (lowercase t), λ e. rw e (text_eq_refl (lowercase t)))

pub same_text_comm : (s t : Text) → same_text s t ≡ same_text t s
same_text_comm s t = ground (arith, same_text_iff s t, same_text_iff t s)

pub same_text_refl : (s : Text) → same_text s s ≡ true
same_text_refl s = (same_text_iff s s).1 refl

-- `split_once`, by the first occurrence of the character.
abbrev split_first : ℕ → ℕ → Text → Option (Text × Text) → Option (Text × Text)
split_first at c cs none = if c == at then some ([], cs) else none
split_first at c cs (some (before, after)) =
    if c == at then some ([], cs) else some (c ∷ before, after)

unfoldable pub split_once : ℕ → Text → Option (Text × Text)
split_once at [] = none
split_once at (c ∷ cs) = split_first at c cs (split_once at cs)

pub byte_len-append : (s t : Text) → byte_len (s ++ t) ≡ byte_len s + byte_len t
unfolding byte_len
byte_len-append [] t = omega arith
byte_len-append (c ∷ s) t = omega (arith, byte_len-append s t)

unfoldable pub Text-discrete : Discrete Text
Text-discrete = hlevel ℕ_discrete
