-- ===== src/Ladder/Level.antt =====
-- The level of an amount of experience.
use bnet_command_center.Base.{
  ℕ, ℕ_discrete, Option-cases, zero, suc, ◌+◌, ◌-◌, ◌≤◌, ◌<◌, ◌≡◌, refl, subst, Option, none, some,
  Bool-cases, inl, inr, leb, arith,
}
use bnet_command_center.Ladder.{level_start, find_level, level_for, max_level}

-- The highest level up to `n` whose start is reached.
abbrev Highest : ℕ → ℕ → Option ℕ → Type 0
Highest n xp none = (l : ℕ) → 1 ≤ l → l ≤ n → xp < level_start l
Highest n xp (some level) =
    (1 ≤ level)
    × (level ≤ n)
    × (level_start level ≤ xp)
    × ((l : ℕ) → level < l → l ≤ n → xp < level_start l)

step-Highest :
    (n xp : ℕ) (o : Option ℕ) → xp < level_start (suc n) → Highest n xp o → Highest (suc n) xp o
step-Highest n xp none below h =
    λ l a b. elim (ℕ_discrete l (suc n)) [ yes e ↦ rw e below | no e ↦ h l a (omega arith) ]
step-Highest n xp (some level) below h = (
  h.0,
  omega arith,
  h.2,
  λ l a b. elim (ℕ_discrete l (suc n)) [ yes e ↦ rw e below | no e ↦ h.3 l a (omega arith) ],
)

find_level-Highest : (n xp : ℕ) → Highest n xp (find_level n xp)
unfolding find_level
find_level-Highest zero xp = λ l a b. let no : ⊥ = omega arith in elim no [ ]
find_level-Highest (suc n) xp = elim (Bool-cases (leb (level_start (suc n)) xp)) [
  | inl e ↦
      rw e
        (omega arith, omega arith, ground arith, λ l a b. let no : ⊥ = omega arith in elim no [ ])
  | inr e ↦ rw e (step-Highest n xp (find_level n xp) (ground arith) (find_level-Highest n xp))
]

start-one : level_start 1 ≡ 0
unfolding level_start
start-one = refl

-- The level of any experience is from 1 to 50; its start is reached, and the start of every higher
-- level up to 50 is not.
pub level_for_lem :
    (xp : ℕ)
    → (1 ≤ level_for xp)
      × (level_for xp ≤ 50)
      × (level_start (level_for xp) ≤ xp)
      × ((l : ℕ) → level_for xp < l → l ≤ 50 → xp < level_start l)
unfolding level_for
level_for_lem xp = elim (Option-cases (find_level max_level xp)) [
  | inl e ↦
      let none_reached = subst (Highest max_level xp) e (find_level-Highest max_level xp) in
      let no : ⊥ = omega (arith, none_reached 1 (omega arith) (omega arith), start-one) in
      elim no [ ]
  | inr (level, e) ↦
      rw (e, level_for) (subst (Highest max_level xp) e (find_level-Highest max_level xp))
]

start-lt : (l : ℕ) → 1 ≤ l → l < 50 → level_start l < level_start (suc l)
unfolding level_start
start-lt l a b = ground arith

start-le : (d l : ℕ) → 1 ≤ l → l + d ≤ 50 → level_start l ≤ level_start (l + d)
start-le zero l a b = let same : l + 0 ≡ l = omega arith in rw same (omega arith)
start-le (suc d) l a b =
    let last : l + suc d ≡ suc (l + d) = omega arith in
    rw last
      (omega (arith, start-le d l a (omega arith), start-lt (l + d) (omega arith) (omega arith)))

start-lt_of : (l k : ℕ) → 1 ≤ l → l < k → k ≤ 50 → level_start l < level_start k
start-lt_of l k a b c =
    let up = start-le (k - suc l) (suc l) (omega arith) (omega arith) in
    let there : suc l + (k - suc l) ≡ k = omega arith in
    let far = rw there at up in omega (arith, start-lt l a (omega arith), far)

-- Every level from 1 to 50 is that of the experience at which it starts.
pub level_for-level_start : (l : ℕ) → 1 ≤ l → l ≤ 50 → level_for (level_start l) ≡ l
level_for-level_start l a b =
    let h = level_for_lem (level_start l) in
    let k = level_for (level_start l) in
    let not_below : ¬ (k < l) = λ below. let no : ⊥ = omega (arith, h.3 l below b) in no in
    let not_above : ¬ (l < k) =
      λ above. let no : ⊥ = omega (arith, start-lt_of l k a above h.1, h.2) in no in
    omega (arith, not_below, not_above)
