-- ===== src/Base/Set.antt =====
-- Rust's `BTreeSet` of numbers, and membership tests in lists of numbers.
use bnet_command_center.Base.Lists.{retain}
use bnet_command_center.Base.Tests.{◌==◌, if◌then◌else◌}
use Prim.Native.Nat.{ℕ}
use mathlib.Core.Path.{◌≡◌}
use mathlib.Core.Bool.{Bool, false, not, ◌||◌}
use mathlib.Core.List.{List, [], ◌∷◌}
use native.Mathlib.Omega.{arith}

unfoldable pub contains : ℕ → List ℕ → Bool
contains a [] = false
contains a (x ∷ xs) = x == a || contains a xs

unfoldable pub insert : ℕ → List ℕ → List ℕ
insert a xs = if contains a xs then xs else a ∷ xs

unfoldable pub remove : ℕ → List ℕ → List ℕ
remove a = retain λ x. not (x == a)

pub contains-insert : (a b : ℕ) (xs : List ℕ) → contains b (insert a xs) ≡ (a == b || contains b xs)
unfolding contains insert
contains-insert a b xs = ground arith

pub contains-remove :
    (a b : ℕ) (xs : List ℕ) → contains b (remove a xs) ≡ (if a == b then false else contains b xs)
unfolding contains remove
contains-remove a b [] = ground arith
contains-remove a b (x ∷ xs) = ground (arith, contains-remove a b xs)
