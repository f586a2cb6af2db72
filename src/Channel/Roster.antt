-- ===== src/Channel/Roster.antt =====
-- Rosters of a channel: positions in them, the accounts and names in them, the flags shown.
use bnet_command_center.Base.{
  ℕ, ◌+◌, ◌≡◌, refl, ◌∙◌, Option, none, some, Bool, true, false, not, ◌||◌, List, [], ◌∷◌, ◌++◌,
  ◌==◌, if◌then◌else◌, length, any, find, retain, All, arith, inl, inr, Option-cases, Bool-cases,
  length-append, is_some,
}
use bnet_command_center.Base.Set
use bnet_command_center.Text.{Text, same_text, same_text_comm}
use bnet_command_center.Channel.{
  Member, position, has_account, has_name, has_operator_flag, set_operator_flag,
  clear_operator_flag, holds,
}

module _ {ℓ} {A : Type ℓ} (p : A → Bool) where
  pub any-append : (xs ys : List A) → any p (xs ++ ys) ≡ (any p xs || any p ys)
  any-append [] ys = refl
  any-append (x ∷ xs) ys = ground (arith, any-append xs ys)

  -- What `find` finds is in the list and passes; it finds something if anything passes.
  pub find-none : (xs : List A) → find p xs ≡ none → any p xs ≡ false
  find-none [] h = refl
  find-none (x ∷ xs) h = ground (arith, find-none xs)

-- A position splits the roster, at a member that passes the test.
pub position-split :
    (p : Member → Bool) (ms : List Member) (before : List Member) (m : Member) (after : List Member)
    → position p ms ≡ some (before, m, after)
    → (ms ≡ before ++ m ∷ after) × (p m ≡ true)
unfolding position
position-split p [] before m after h = cc
position-split p (x ∷ ms) before m after h = elim (Bool-cases (p x)) [
  | inl e ↦ ground arith
  | inr e ↦ elim (Option-cases (position p ms)) [
    | inl none_left ↦ ground arith
    | inr ((b, n, a), found) ↦ ground (arith, position-split p ms b n a found)
  ]
]

-- There is a position exactly if a member passes.
pub position-is_some : (p : Member → Bool) (ms : List Member) → is_some (position p ms) ≡ any p ms
unfolding position
position-is_some p [] = refl
position-is_some p (x ∷ ms) = ground (arith, position-is_some p ms)

module _ {κ} (P : Member → Type κ) where
  pub All-append : (xs ys : List Member) → All P xs → All P ys → All P (xs ++ ys)
  All-append [] ys p q = q
  All-append (x ∷ xs) ys p q = (p.0, All-append xs ys p.1 q)

  pub All-left : (xs ys : List Member) → All P (xs ++ ys) → All P xs
  All-left [] ys p = tt
  All-left (x ∷ xs) ys p = (p.0, All-left xs ys p.1)

  pub All-right : (xs ys : List Member) → All P (xs ++ ys) → All P ys
  All-right [] ys p = p
  All-right (x ∷ xs) ys p = All-right xs ys p.1

-- No two members have names that differ at most in case.
abbrev pub Distinct : List Member → Type 0
Distinct [] = Unit {0}
Distinct (m ∷ ms) = (has_name m.name ms ≡ false) × Distinct ms

pub has_name-append :
    (n : Text) (xs ys : List Member) → has_name n (xs ++ ys) ≡ (has_name n xs || has_name n ys)
has_name-append n xs ys = any-append (λ m. same_text m.name n) xs ys

pub has_account-append :
    (a : ℕ) (xs ys : List Member)
    → has_account a (xs ++ ys) ≡ (has_account a xs || has_account a ys)
has_account-append a xs ys = any-append (λ m. m.account == a) xs ys

pub Distinct-remove :
    (before : List Member) (m : Member) (after : List Member)
    → Distinct (before ++ m ∷ after)
    → Distinct (before ++ after)
Distinct-remove [] m after d = d.1
Distinct-remove (x ∷ before) m after d = ground (
  arith,
  Distinct-remove before m after d.1,
  has_name-append x.name before (m ∷ after),
  has_name-append x.name before after,
)

pub Distinct-snoc :
    (ms : List Member) (m : Member)
    → has_name m.name ms ≡ false
    → Distinct ms
    → Distinct (ms ++ m ∷ [])
Distinct-snoc [] m h d = (refl, tt)
Distinct-snoc (x ∷ ms) m h d =
    ground
      (arith, Distinct-snoc ms m, has_name-append x.name ms (m ∷ []), same_text_comm m.name x.name)

-- Another member of the same name and account in the same place changes neither.
module _ (before : List Member) (m n : Member) (after : List Member) where
  pub has_account-replace :
      (a : ℕ)
      → n.account ≡ m.account
      → has_account a (before ++ n ∷ after) ≡ has_account a (before ++ m ∷ after)
  has_account-replace a e =
      ground
        (arith, has_account-append a before (n ∷ after), has_account-append a before (m ∷ after))

  pub has_name-replace :
      (t : Text)
      → n.name ≡ m.name
      → has_name t (before ++ n ∷ after) ≡ has_name t (before ++ m ∷ after)
  has_name-replace t e =
      ground (arith, has_name-append t before (n ∷ after), has_name-append t before (m ∷ after))

pub Distinct-replace :
    (before : List Member) (m n : Member) (after : List Member)
    → n.name ≡ m.name
    → Distinct (before ++ m ∷ after)
    → Distinct (before ++ n ∷ after)
Distinct-replace [] m n after e d = ground arith
Distinct-replace (x ∷ before) m n after e d =
    (has_name-replace before m n after x.name e ∙ d.0, Distinct-replace before m n after e d.1)

pub length-split :
    (before : List Member) (m : Member) (after : List Member)
    → length (before ++ m ∷ after) ≡ length (before ++ after) + 1
length-split before m after =
    omega (arith, length-append before (m ∷ after), length-append before after)

pub length-replace :
    (before : List Member) (m n : Member) (after : List Member)
    → length (before ++ n ∷ after) ≡ length (before ++ m ∷ after)
length-replace before m n after =
    omega (arith, length-append before (m ∷ after), length-append before (n ∷ after))

-- A member shows the operator's flag only if its account is this operator.
abbrev pub Shows : Option ℕ → Member → Type 0
Shows operator m = has_operator_flag m.flags ≡ true → holds operator m.account ≡ true

pub set_operator_flag_lem : (f : ℕ) → has_operator_flag (set_operator_flag f) ≡ true
unfolding set_operator_flag
set_operator_flag_lem f = ground arith

pub clear_operator_flag_lem : (f : ℕ) → has_operator_flag (clear_operator_flag f) ≡ false
unfolding clear_operator_flag
clear_operator_flag_lem f = ground arith

-- `Vec::retain` of the accounts other than one.
pub contains-retain :
    (a b : ℕ) (xs : List ℕ)
    → Set.contains b (retain (λ x. not (x == a)) xs) ≡ (if a == b then false else Set.contains b xs)
unfolding Set.contains
contains-retain a b [] = ground arith
contains-retain a b (x ∷ xs) = ground (arith, contains-retain a b xs)

pub contains-snoc :
    (a b : ℕ) (xs : List ℕ) → Set.contains b (xs ++ a ∷ []) ≡ (Set.contains b xs || a == b)
unfolding Set.contains
contains-snoc a b [] = ground arith
contains-snoc a b (x ∷ xs) = ground (arith, contains-snoc a b xs)

-- What `find` finds among numbers passes and is one of them.
pub find-some :
    (p : ℕ → Bool) (xs : List ℕ) (x : ℕ)
    → find p xs ≡ some x
    → (p x ≡ true) × (Set.contains x xs ≡ true)
unfolding Set.contains
find-some p [] x h = cc
find-some p (y ∷ xs) x h = ground (arith, find-some p xs x)

-- If every number in a list passes, then only an empty list has no find.
pub find-nil :
    (p : ℕ → Bool) (xs : List ℕ)
    → ((x : ℕ) → Set.contains x xs ≡ true → p x ≡ true)
    → find p xs ≡ none
    → xs ≡ []
unfolding Set.contains
find-nil p [] h e = refl
find-nil p (y ∷ xs) h e = ground (arith, h y)
