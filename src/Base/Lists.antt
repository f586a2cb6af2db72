-- ===== src/Base/Lists.antt =====
-- Lists measured by native numbers, under the library's names, and Boolean searches in them.
use Prim.Native.Nat.{ℕ, suc, ◌+◌, ◌-◌, ◌≤◌, min}
use mathlib.Core.Path.{◌≡◌, refl, ap, ◌∙◌}
use mathlib.Core.Logic.{inl, inr}
use mathlib.Core.Bool.{Bool, true, false, ◌||◌, ◌&&◌}
use mathlib.Core.List.{List, [], ◌∷◌, ◌++◌}
use mathlib.Core.Option.{Option, none, some}
use native.Mathlib.Omega.{arith}
use bnet_command_center.Base.Tests.{if◌then◌else◌, ◌==◌, Bool-cases}

module _ {ℓ} {A : Type ℓ} where
  abbrev pub length : List A → ℕ
  length [] = 0
  length (x ∷ xs) = suc (length xs)

  pub length-append : (xs ys : List A) → length (xs ++ ys) ≡ length xs + length ys
  length-append [] ys = omega arith
  length-append (x ∷ xs) ys = omega (arith, length-append xs ys)

  abbrev pub concat : List (List A) → List A
  concat [] = []
  concat (xs ∷ rest) = xs ++ concat rest

  abbrev pub is_empty : List A → Bool
  is_empty [] = true
  is_empty (x ∷ xs) = false

  abbrev pub any : (A → Bool) → List A → Bool
  any p [] = false
  any p (x ∷ xs) = p x || any p xs

  abbrev pub all : (A → Bool) → List A → Bool
  all p [] = true
  all p (x ∷ xs) = p x && all p xs

  -- `Vec::retain`.
  abbrev pub retain : (A → Bool) → List A → List A
  retain p [] = []
  retain p (x ∷ xs) = if p x then x ∷ retain p xs else retain p xs

  -- `Iterator::find`.
  abbrev pub find : (A → Bool) → List A → Option A
  find p [] = none
  find p (x ∷ xs) = if p x then some x else find p xs

  -- A predicate of every element.
  abbrev pub All {κ} : (A → Type κ) → List A → Type κ
  All P [] = Unit
  All P (x ∷ xs) = P x × All P xs

  -- The first `n` elements, and the others.
  unfoldable pub take : ℕ → List A → List A
  take n [] = []
  take n (x ∷ xs) = let rest = take (n - 1) xs in if n == 0 then [] else x ∷ rest

  unfoldable pub drop : ℕ → List A → List A
  drop n [] = []
  drop n (x ∷ xs) = let rest = drop (n - 1) xs in if n == 0 then x ∷ xs else rest

  pub length-take : (n : ℕ) (xs : List A) → length (take n xs) ≡ min n (length xs)
  unfolding take
  length-take n [] = omega arith
  length-take n (x ∷ xs) = ground (arith, length-take (n - 1) xs)

  pub length-drop : (n : ℕ) (xs : List A) → length (drop n xs) ≡ length xs - n
  unfolding drop
  length-drop n [] = omega arith
  length-drop n (x ∷ xs) = ground (arith, length-drop (n - 1) xs)

  pub take-append-drop : (n : ℕ) (xs : List A) → take n xs ++ drop n xs ≡ xs
  unfolding take drop
  take-append-drop n [] = refl
  take-append-drop n (x ∷ xs) = ground (arith, take-append-drop (n - 1) xs)

  pub take-length : (xs ys : List A) → take (length xs) (xs ++ ys) ≡ xs
  unfolding take
  take-length [] [] = refl
  take-length [] (y ∷ ys) = ground arith
  take-length (x ∷ xs) ys = ground (arith, take-length xs ys)

  pub drop-length : (xs ys : List A) → drop (length xs) (xs ++ ys) ≡ ys
  unfolding drop
  drop-length [] [] = refl
  drop-length [] (y ∷ ys) = ground arith
  drop-length (x ∷ xs) ys = ground (arith, drop-length xs ys)

  pub drop-drop : (m n : ℕ) (xs : List A) → drop m (drop n xs) ≡ drop (n + m) xs
  unfolding drop
  drop-drop m n [] = refl
  drop-drop m n (x ∷ xs) = elim (Bool-cases (n == 0)) [
    | inl e ↦ let same : m ≡ n + m = ground arith in rw e (ap (λ (k : ℕ). drop k (x ∷ xs)) same)
    | inr e ↦
        let longer : (n + m == 0) ≡ false = ground arith in
        let less : n - 1 + m ≡ n + m - 1 = ground arith in
        rw (e, longer) (drop-drop m (n - 1) xs ∙ ap (λ (k : ℕ). drop k xs) less)
  ]

  pub drop_zero : (xs : List A) → drop 0 xs ≡ xs
  unfolding drop
  drop_zero [] = refl
  drop_zero (x ∷ xs) = refl

  pub drop-all : (n : ℕ) (xs : List A) → length xs ≤ n → drop n xs ≡ []
  unfolding drop
  drop-all n [] h = refl
  drop-all n (x ∷ xs) h = ground (arith, drop-all (n - 1) xs)

  pub take-append : (n : ℕ) (xs ys : List A) → n ≤ length xs → take n (xs ++ ys) ≡ take n xs
  unfolding take
  take-append n [] [] h = refl
  take-append n [] (y ∷ ys) h = ground arith
  take-append n (x ∷ xs) ys h = ground (arith, take-append (n - 1) xs ys)

  pub drop-append : (n : ℕ) (xs ys : List A) → n ≤ length xs → drop n (xs ++ ys) ≡ drop n xs ++ ys
  unfolding drop
  drop-append n [] [] h = refl
  drop-append n [] (y ∷ ys) h = ground arith
  drop-append n (x ∷ xs) ys h = ground (arith, drop-append (n - 1) xs ys)
