-- ===== src/Ads/Rotation.antt =====
-- A client is shown every banner that it may be shown, in order, before one is repeated.
use bnet_command_center.Base.{
  ℕ, zero, suc, ◌+◌, ◌-◌, ◌%◌, ◌≤◌, ◌<◌, ◌≡◌, refl, sym, ap, ◌∙◌, Option, none, some, is_some, not,
  Bool, Bool-cases, inl, inr, true, false, List, [], ◌∷◌, ◌++◌, length, length-append, is_empty,
  retain, All, ltb, if◌then◌else◌, u32_mod, arith,
}
use native.Mathlib.Nat.{mod-lt, zero-lt-suc}
use bnet_command_center.Ads.{
  AdBanner, AdRotation, matches, number_from, new, nth, position, is_random_product, candidates,
  following, next,
}

-- What a client is shown that asks `n` times, each time with the banner that it shows.
unfoldable pub shown : AdRotation → ℕ → Option ℕ → ℕ → ℕ → ℕ → List AdBanner
shown r product language previous seed zero = []
shown r product language previous seed (suc n) = elim (next r product language previous seed) [
  | none ↦ []
  | some b ↦ b ∷ shown r product language b.id seed n
]

abbrev Increasing : List AdBanner → Type 0
Increasing [] = Unit {0}
Increasing (b ∷ banners) = All (λ c. b.id < c.id) banners × Increasing banners

abbrev Over : ℕ → List AdBanner → Type 0
Over n banners = All (λ c. n < c.id) banners

retain-Over :
    (p : AdBanner → Bool) (n : ℕ) (banners : List AdBanner)
    → Over n banners
    → Over n (retain p banners)
retain-Over p n [] h = tt
retain-Over p n (b ∷ banners) h = ground (arith, retain-Over p n banners h.1)

retain-Increasing :
    (p : AdBanner → Bool) (banners : List AdBanner)
    → Increasing banners
    → Increasing (retain p banners)
retain-Increasing p [] h = tt
retain-Increasing p (b ∷ banners) h = elim (Bool-cases (p b)) [
  | inl e ↦ rw e (retain-Over p b.id banners h.0, retain-Increasing p banners h.1)
  | inr e ↦ rw e (retain-Increasing p banners h.1)
]

number-Over :
    (n i : ℕ) (banners : List AdBanner)
    → n ≤ i
    → i + length banners < u32_mod
    → Over n (number_from i banners)
unfolding number_from
number-Over n i [] le small = tt
number-Over n i (b ∷ banners) le small =
    (omega arith, number-Over n (i + 1) banners (omega arith) (omega arith))

number-Increasing :
    (i : ℕ) (banners : List AdBanner)
    → i + length banners < u32_mod
    → Increasing (number_from i banners)
unfolding number_from
number-Increasing i [] small = tt
number-Increasing i (b ∷ banners) small =
    let this : (i + 1) % u32_mod ≡ i + 1 = omega arith in
    (
      rw this (number-Over (i + 1) (i + 1) banners (omega arith) (omega arith)),
      number-Increasing (i + 1) banners (omega arith),
    )

Over-split :
    (n : ℕ) (before after : List AdBanner) (b : AdBanner) → Over n (before ++ b ∷ after) → n < b.id
Over-split n [] after b h = h.0
Over-split n (a ∷ before) after b h = Over-split n before after b h.1

position-split :
    (before after : List AdBanner) (b : AdBanner)
    → Increasing (before ++ b ∷ after)
    → position (before ++ b ∷ after) b.id ≡ some (length before)
position-split [] after b h = ground arith
position-split (a ∷ before) after b h =
    ground (arith, Over-split a.id before after b h.0, position-split before after b h.1)

position-absent : (banners : List AdBanner) → Over 0 banners → position banners 0 ≡ none
position-absent [] h = refl
position-absent (b ∷ banners) h = ground (arith, position-absent banners h.1)

nth-split :
    (before after : List AdBanner) (b : AdBanner)
    → nth (before ++ b ∷ after) (length before + 1) ≡ nth after 0
nth-split [] after b = refl
nth-split (a ∷ before) after b = ground (arith, nth-split before after b)

-- A turn of a product without the random pick.
abbrev turn : List AdBanner → ℕ → Option AdBanner
turn cs previous =
    if is_empty cs then none else nth cs (following (length cs) (position cs previous))

next-turn :
    (r : AdRotation) (product : ℕ) (language : Option ℕ) (previous seed : ℕ)
    → is_random_product product ≡ false
    → next r product language previous seed ≡ turn (candidates r product language) previous
unfolding next
next-turn r product language previous seed e = rw e

filled : (before after : List AdBanner) (b : AdBanner) → is_empty (before ++ b ∷ after) ≡ false
filled [] after b = refl
filled (a ∷ before) after b = refl

turn-after :
    (before after : List AdBanner) (b c : AdBanner)
    → Increasing (before ++ b ∷ c ∷ after)
    → turn (before ++ b ∷ c ∷ after) b.id ≡ some c
turn-after before after b c h =
    let at = position-split before (c ∷ after) b h in
    let size = length-append before (b ∷ c ∷ after) in
    let there = nth-split before (c ∷ after) b in
    let more : ltb (length before + 1) (length (before ++ b ∷ c ∷ after)) ≡ true = ground arith in
    rw (filled before (c ∷ after) b, at, more) there

turn-wraps :
    (before : List AdBanner) (b : AdBanner)
    → Increasing (before ++ b ∷ [])
    → turn (before ++ b ∷ []) b.id ≡ nth (before ++ b ∷ []) 0
turn-wraps before b h =
    let at = position-split before [] b h in
    let size = length-append before (b ∷ []) in
    let no_more : ltb (length before + 1) (length (before ++ b ∷ [])) ≡ false = ground arith in
    rw (filled before [] b, at, no_more) refl

turn-starts : (cs : List AdBanner) → Over 0 cs → turn cs 0 ≡ nth cs 0
turn-starts [] h = refl
turn-starts (b ∷ cs) h = rw (position-absent (b ∷ cs) h)

append-step :
    (before after : List AdBanner) (b c : AdBanner)
    → before ++ b ∷ c ∷ after ≡ (before ++ b ∷ []) ++ c ∷ after
append-step [] after b c = refl
append-step (a ∷ before) after b c = ap (λ cs. a ∷ cs) (append-step before after b c)

module _ (r : AdRotation) (product : ℕ) (language : Option ℕ) (seed : ℕ)
    (sequential : is_random_product product ≡ false) (over : Over 0 (candidates r product language))
    (rising : Increasing (candidates r product language)) where
  next-starts : next r product language 0 seed ≡ nth (candidates r product language) 0
  next-starts = next-turn r product language 0 seed sequential ∙ turn-starts _ over

  next-after :
      (before after : List AdBanner) (b c : AdBanner)
      → candidates r product language ≡ before ++ b ∷ c ∷ after
      → next r product language b.id seed ≡ some c
  next-after before after b c e =
      next-turn r product language b.id seed sequential
      ∙ ap (λ cs. turn cs b.id) e
      ∙ turn-after before after b c (rw e at rising)

  next-wraps :
      (before : List AdBanner) (b : AdBanner)
      → candidates r product language ≡ before ++ b ∷ []
      → next r product language b.id seed ≡ next r product language 0 seed
  next-wraps before b e =
      next-turn r product language b.id seed sequential
      ∙ ap (λ cs. turn cs b.id) e
      ∙ turn-wraps before b (rw e at rising)
      ∙ ap (λ cs. nth cs 0) (sym e)
      ∙ sym next-starts

  -- What is shown after a candidate: those after it, and then all of them again.
  shown-rest :
      (after before : List AdBanner) (b : AdBanner) (n : ℕ)
      → candidates r product language ≡ before ++ b ∷ after
      → shown r product language b.id seed (length after + n)
        ≡ after ++ shown r product language 0 seed n
  unfolding shown
  shown-rest [] before b zero e = refl
  shown-rest [] before b (suc n) e =
      let same : 0 + suc n ≡ suc n = omega arith in rw (same, shown, next-wraps before b e) refl
  shown-rest (c ∷ after) before b n e =
      let more : suc (length after) + n ≡ suc (length after + n) = omega arith in
      rw (more, shown, next-after before after b c e)
        (ap (λ cs. c ∷ cs)
          (shown-rest after (before ++ b ∷ []) c n (e ∙ append-step before after b c)))

  shown-all :
      (cs : List AdBanner) (n : ℕ)
      → candidates r product language ≡ cs
      → shown r product language 0 seed (length cs + n) ≡ cs ++ shown r product language 0 seed n
  unfolding shown
  shown-all [] n e = let same : 0 + n ≡ n = omega arith in rw same refl
  shown-all (b ∷ cs) n e =
      let first : next r product language 0 seed ≡ some b = next-starts ∙ ap (λ cs. nth cs 0) e in
      let more : suc (length cs) + n ≡ suc (length cs + n) = omega arith in
      rw (more, shown, first) (ap (λ cs. b ∷ cs) (shown-rest cs [] b n e))

-- Of fewer than 2^32 banners, a client that starts without one, and whose product has no random pick,
-- is shown all that it may be shown, in order and each once, and then the same again from the start.
pub next-rotates :
    (banners : List AdBanner) (product : ℕ) (language : Option ℕ) (seed n : ℕ)
    → length banners < u32_mod
    → is_random_product product ≡ false
    → let r = new banners in
      let cs = candidates r product language in
      shown r product language 0 seed (length cs + n) ≡ cs ++ shown r product language 0 seed n
unfolding new
next-rotates banners product language seed n small sequential =
    let over = number-Over 0 0 banners (omega arith) (omega arith) in
    let rising = number-Increasing 0 banners (omega arith) in
    let p : AdBanner → Bool = λ b. matches b product language in
    shown-all (new banners) product language seed sequential (retain-Over p 0 (new banners) over)
      (retain-Increasing p (new banners) rising) (candidates (new banners) product language) n refl

nth-is_some : (cs : List AdBanner) (i : ℕ) → i < length cs → is_some (nth cs i) ≡ true
nth-is_some [] i h = let no : ⊥ = omega arith in elim no [ ]
nth-is_some (b ∷ cs) i h = ground (arith, nth-is_some cs (i - 1))

following-lt : (n : ℕ) (o : Option ℕ) → 0 < n → following n o < n
following-lt n none h = h
following-lt n (some i) h = ground arith

picked-is_some :
    (random : Bool) (cs : List AdBanner) (previous seed : ℕ)
    → is_some (
        if is_empty cs
        then none
        else if random
        then nth cs (seed % length cs)
        else nth cs (following (length cs) (position cs previous)))
      ≡ not (is_empty cs)
picked-is_some random [] previous seed = refl
picked-is_some true (b ∷ cs) previous seed =
    nth-is_some (b ∷ cs) _ (mod-lt seed (zero-lt-suc (length cs)))
picked-is_some false (b ∷ cs) previous seed =
    nth-is_some (b ∷ cs) _
      (following-lt (suc (length cs)) (position (b ∷ cs) previous) (zero-lt-suc (length cs)))

-- A client is answered exactly when there is a banner that it may be shown, whatever it has sent and
-- whichever way the next one is picked.
pub next-answers :
    (r : AdRotation) (product : ℕ) (language : Option ℕ) (previous seed : ℕ)
    → is_some (next r product language previous seed)
      ≡ not (is_empty (candidates r product language))
unfolding next
next-answers r product language previous seed =
    picked-is_some (is_random_product product) (candidates r product language) previous seed
