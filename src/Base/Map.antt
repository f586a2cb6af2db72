-- ===== src/Base/Map.antt =====
-- Rust's `HashMap` and `BTreeMap`: association lists over keys with a decided equality. Every
-- operation the program uses is here, with its law for `get`; the order of the entries is never
-- read.
use bnet_command_center.Base.Tests.{if◌then◌else◌}
use mathlib.Core.Path.{◌≡◌, refl}
use mathlib.Core.Bool.{Bool}
use mathlib.Core.Logic.{ite}
use mathlib.Core.List.{List, [], ◌∷◌}
use mathlib.Core.Option.{Option, none, some}
use native.Mathlib.Omega.{arith}

module _ {ℓ} {K V : Type ℓ} (dec : Discrete K) where
  unfoldable pub get : K → List (K × V) → Option V
  get k [] = none
  get k ((j, v) ∷ m) = ite (dec j k) (some v) (get k m)

  unfoldable pub insert : K → V → List (K × V) → List (K × V)
  insert k v [] = (k, v) ∷ []
  insert k v ((j, w) ∷ m) = ite (dec j k) ((k, v) ∷ m) ((j, w) ∷ insert k v m)

  unfoldable pub remove : K → List (K × V) → List (K × V)
  remove k [] = []
  remove k ((j, w) ∷ m) = ite (dec j k) (remove k m) ((j, w) ∷ remove k m)

  pub get-insert :
      (k j : K) (v : V) (m : List (K × V)) → get j (insert k v m) ≡ ite (dec k j) (some v) (get j m)
  unfolding get insert
  get-insert k j v [] = refl
  get-insert k j v ((i, w) ∷ m) = ground (arith, get-insert k j v m)

  pub get-remove : (k j : K) (m : List (K × V)) → get j (remove k m) ≡ ite (dec k j) none (get j m)
  unfolding get remove
  get-remove k j [] = ground arith
  get-remove k j ((i, w) ∷ m) = ground (arith, get-remove k j m)

  pub get-insert_same : (k : K) (v : V) (m : List (K × V)) → get k (insert k v m) ≡ some v
  get-insert_same k v m = ground (arith, get-insert k k v m)

  pub get-insert_other :
      (k j : K) (v : V) (m : List (K × V)) → ¬ (k ≡ j) → get j (insert k v m) ≡ get j m
  get-insert_other k j v m n = ground (arith, get-insert k j v m)

  pub get-remove_same : (k : K) (m : List (K × V)) → get k (remove k m) ≡ none
  get-remove_same k m = ground (arith, get-remove k k m)

  pub get-remove_other : (k j : K) (m : List (K × V)) → ¬ (k ≡ j) → get j (remove k m) ≡ get j m
  get-remove_other k j m n = ground (arith, get-remove k j m)

  -- A map in which nothing is found has no entry.
  pub eq-nil_of_get : (m : List (K × V)) → ((k : K) → get k m ≡ none) → m ≡ []
  unfolding get
  eq-nil_of_get [] h = refl
  eq-nil_of_get ((j, w) ∷ m) h = ground (arith, h j)

  -- No two entries share a key.
  abbrev pub Unique : List (K × V) → Type ℓ
  Unique [] = Unit
  Unique ((j, w) ∷ m) = (get j m ≡ none) × Unique m

  pub insert-Unique : (k : K) (v : V) (m : List (K × V)) → Unique m → Unique (insert k v m)
  unfolding get insert
  insert-Unique k v [] u = (refl, tt)
  insert-Unique k v ((j, w) ∷ m) u = ground (arith, get-insert k j v m, insert-Unique k v m u.1)

  pub remove-Unique : (k : K) (m : List (K × V)) → Unique m → Unique (remove k m)
  unfolding get remove
  remove-Unique k [] u = tt
  remove-Unique k ((j, w) ∷ m) u = ground (arith, get-remove k j m, remove-Unique k m u.1)

  -- `HashMap::retain`, by a test on the values.
  module _ (p : V → Bool) where
    unfoldable pub retain : List (K × V) → List (K × V)
    retain [] = []
    retain ((j, w) ∷ m) = if p w then (j, w) ∷ retain m else retain m

    -- An option's value, if it passes the test.
    abbrev pub only : Option V → Option V
    only none = none
    only (some v) = if p v then some v else none

    pub get-retain : (k : K) (m : List (K × V)) → Unique m → get k (retain m) ≡ only (get k m)
    unfolding get retain
    get-retain k [] u = refl
    get-retain k ((j, w) ∷ m) u = ground (arith, get-retain k m u.1)

    pub retain-Unique : (m : List (K × V)) → Unique m → Unique (retain m)
    unfolding get retain
    retain-Unique [] u = tt
    retain-Unique ((j, w) ∷ m) u = ground (arith, get-retain j m u.1, retain-Unique m u.1)
