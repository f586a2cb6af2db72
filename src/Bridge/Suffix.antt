-- ===== src/Bridge/Suffix.antt =====
-- The suffix of a derived name is its number in decimals.
use bnet_command_center.Base.{
  u32_mod, ◌*◌, ℕ, zero, suc, ◌+◌, ◌-◌, ◌/◌, ◌%◌, ◌≤◌, ◌<◌, ◌≡◌, refl, Option, none, some, Bool,
  true, ◌&&◌, [], ◌∷◌, ◌++◌, ltb, length, length-append, all, arith,
}
use bnet_command_center.Bridge.{digits, suffix_text}
use bnet_command_center.Text.{Text}

-- A byte that a client can carry: printable ASCII, and no space.
abbrev pub is_safe : ℕ → Bool
is_safe c = ltb 0x20 c && ltb c 0x7f

pub all-append : (p : ℕ → Bool) (s t : Text) → all p (s ++ t) ≡ (all p s && all p t)
all-append p [] t = refl
all-append p (c ∷ s) t = ground (arith, all-append p s t)

digits-safe : (places n : ℕ) → all is_safe (digits places n) ≡ true
unfolding digits
digits-safe zero n = refl
digits-safe (suc places) n =
    let d : n % 10 < 10 = omega arith in
    ground (
      arith,
      digits-safe places (n / 10),
      all-append is_safe (digits places (n / 10)) ((b'0' + n % 10) ∷ []),
      d,
    )

length-digits-le : (places n : ℕ) → length (digits places n) ≤ places
unfolding digits
length-digits-le zero n = omega arith
length-digits-le (suc places) n = ground (
  arith,
  length-digits-le places (n / 10),
  length-append (digits places (n / 10)) ((b'0' + n % 10) ∷ []),
)

-- The number that decimals stand for, after the number `acc`.
abbrev decimal : ℕ → Text → ℕ
decimal acc [] = acc
decimal acc (c ∷ s) = decimal (10 * acc + (c - b'0')) s

decimal-append : (acc : ℕ) (s t : Text) → decimal acc (s ++ t) ≡ decimal (decimal acc s) t
decimal-append acc [] t = refl
decimal-append acc (c ∷ s) t = decimal-append (10 * acc + (c - b'0')) s t

abbrev ten_power : ℕ → ℕ
ten_power zero = 1
ten_power (suc places) = 10 * ten_power places

-- A number with as many places as it needs is written in full.
decimal-digits : (places n : ℕ) → n < ten_power places → decimal 0 (digits places n) ≡ n
unfolding digits
decimal-digits zero n h = omega arith
decimal-digits (suc places) n h = ground (
  arith,
  decimal-digits places (n / 10) (omega arith),
  decimal-append 0 (digits places (n / 10)) ((b'0' + n % 10) ∷ []),
)

-- Ten places are enough for a `u32`, so that a suffix is its number in full.
suffix-decimal :
    (n : ℕ) → n < u32_mod → (s : Text) × (suffix_text (some n) ≡ b'#' ∷ s) × (decimal 0 s ≡ n)
unfolding suffix_text
suffix-decimal n h = (digits 10 n, refl, decimal-digits 10 n (omega arith))

pub suffix-safe : (suffix : Option ℕ) → all is_safe (suffix_text suffix) ≡ true
unfolding suffix_text
suffix-safe none = refl
suffix-safe (some n) = digits-safe 10 n

pub length-suffix-le : (suffix : Option ℕ) → length (suffix_text suffix) ≤ 11
unfolding suffix_text
length-suffix-le none = omega arith
length-suffix-le (some n) = omega (arith, length-digits-le 10 n)
