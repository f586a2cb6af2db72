-- ===== src/Limits/Admission/Counts.antt =====
-- A map of counters as a count of a list: the entries that `increment` and `decrement` keep are
-- exactly the elements of a list with their multiplicities, none of them zero.
use bnet_command_center.Base.{
  ℕ, suc, ◌+◌, ◌-◌, ◌≤◌, ◌<◌, ◌%◌, ◌≡◌, Option, none, some, List, [], ◌∷◌, length, ◌==◌,
  if◌then◌else◌, ite, get_or, arith, u32_mod,
}
use bnet_command_center.Base.Map
use bnet_command_center.Limits.Admission.{increment, decrement}

module _ {K : Type 0} (dec : Discrete K) where
  -- How often `k` stands in the list.
  abbrev pub count : K → List K → ℕ
  count k [] = 0
  count k (x ∷ xs) = ite (dec x k) (suc (count k xs)) (count k xs)

  -- The list without one `k`.
  abbrev pub erase : K → List K → List K
  erase k [] = []
  erase k (x ∷ xs) = ite (dec x k) xs (x ∷ erase k xs)

  -- Present with its count, or absent if that is zero.
  abbrev pub positive : ℕ → Option ℕ
  positive n = if n == 0 then none else some n

  abbrev pub Counts : List (K × ℕ) → List K → Type 0
  Counts m xs = (k : K) → Map.get dec k m ≡ positive (count k xs)

  pub count-le-length : (k : K) (xs : List K) → count k xs ≤ length xs
  count-le-length k [] = omega arith
  count-le-length k (x ∷ xs) = ground (arith, count-le-length k xs)

  pub count-erase :
      (k j : K) (xs : List K) → count j (erase k xs) ≡ ite (dec k j) (count j xs - 1) (count j xs)
  count-erase k j [] = ground arith
  count-erase k j (x ∷ xs) = ground (arith, count-erase k j xs)

  pub length-erase : (k : K) (xs : List K) → 0 < count k xs → length (erase k xs) + 1 ≡ length xs
  length-erase k [] h = absurd (omega arith)
  length-erase k (x ∷ xs) h = ground (arith, length-erase k xs)

  pub get_or-Counts :
      (m : List (K × ℕ)) (xs : List K) (k : K)
      → Counts m xs
      → get_or (Map.get dec k m) 0 ≡ count k xs
  get_or-Counts m xs k c = ground (arith, c k)

  pub increment-Counts :
      (m : List (K × ℕ)) (xs : List K) (k : K)
      → Counts m xs
      → length xs + 1 < u32_mod
      → Counts (increment dec k m) (k ∷ xs)
  unfolding increment
  increment-Counts m xs k c small j = ground (
    arith,
    c j,
    c k,
    count-le-length k xs,
    Map.get-insert dec k j ((get_or (Map.get dec k m) 0 + 1) % u32_mod) m,
  )

  pub decrement-Counts :
      (m : List (K × ℕ)) (xs : List K) (k : K)
      → Counts m xs
      → 0 < count k xs
      → Counts (decrement dec k m) (erase k xs)
  unfolding decrement
  decrement-Counts m xs k c held j =
      let n = count k xs in
      let found : Map.get dec k m ≡ some n = ground (arith, c k) in
      rw (found, decrement)
        (ground (
          arith,
          c j,
          count-erase k j xs,
          Map.get-remove dec k j m,
          Map.get-insert dec k j (n - 1) m,
        ))

  -- With nothing to count no counter is left.
  pub nil_of_Counts : (m : List (K × ℕ)) → Counts m [] → m ≡ []
  nil_of_Counts m c = Map.eq-nil_of_get dec m c
