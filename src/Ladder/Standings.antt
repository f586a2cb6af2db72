-- ===== src/Ladder/Standings.antt =====
-- Leagues and standings (crates/bnetcc-core/src/ladder.rs). The ratings after a game, which are
-- floats to a power, are not modelled.
use bnet_command_center.Base.{
  ℕ, suc, ◌+◌, ◌%◌, ◌^◌, ◌≤◌, ◌≡◌, refl, sym, ap, ◌∙◌, min, Option, none, some, Bool, Bool-cases,
  inl, inr, true, false, not, ◌&&◌, ◌||◌, List, [], ◌∷◌, length, ◌++◌, length-take, take, drop,
  take-append-drop, retain, All, ltb, ◌==◌, if◌then◌else◌, arith,
}
use bnet_command_center.Text.{Text, same_text}

pub data League : Type 0 where
  normal ladder iron_man : League

pub league_from_code : ℕ → League
league_from_code code = if code == 1 then ladder else if code == 3 then iron_man else normal

pub league_index : League → ℕ
league_index normal = 0
league_index ladder = 1
league_index iron_man = 3

pub data SortMethod : Type 0 where
  by_rating climbers by_wins by_games : SortMethod

pub sort_from_code : ℕ → SortMethod
sort_from_code code =
    if code == 1
    then climbers
    else if code == 2
    then by_wins
    else if code == 3
    then by_games
    else by_rating

pub record LadderRow : Type 0 where
  pub name : Text
  pub wins : ℕ
  pub losses : ℕ
  pub disconnects : ℕ
  pub rating : ℕ
  pub high_rating : ℕ
  pub last_game : ℕ

-- A sum on u32.
abbrev pub games : LadderRow → ℕ
games r = (r.wins + r.losses + r.disconnects) % 2 ^ 32

abbrev pub max_rank : ℕ
max_rank = 500

abbrev pub sort_key : SortMethod → LadderRow → ℕ
sort_key by_rating r = r.rating
sort_key climbers r = r.rating
sort_key by_wins r = r.wins
sort_key by_games r = games r

-- The order of two texts by their code points, which is that of their bytes.
abbrev pub text_lt : Text → Text → Bool
text_lt s [] = false
text_lt [] (b ∷ t) = true
text_lt (a ∷ s) (b ∷ t) = ltb a b || (a == b && text_lt s t)

-- The players with a game.
abbrev pub played : List LadderRow → List LadderRow
played rows = retain (λ r. ltb 0 (games r)) rows

-- How many rows pass a test.
abbrev pub tally : (LadderRow → Bool) → List LadderRow → ℕ
tally p [] = 0
tally p (r ∷ rows) = (if p r then 1 else 0) + tally p rows

-- `to_lowercase` is the Unicode one, which is a parameter.
module _ (to_lowercase : Text → Text) where
  -- The first row comes strictly before the second.
  unfoldable pub precedes : SortMethod → LadderRow → LadderRow → Bool
  precedes sort a b =
      if not (sort_key sort a == sort_key sort b)
      then ltb (sort_key sort b) (sort_key sort a)
      else if not (a.rating == b.rating)
      then ltb b.rating a.rating
      else text_lt (to_lowercase a.name) (to_lowercase b.name)

  -- `sort_by`, which is stable: rows that tie keep their order.
  unfoldable pub insert_row : SortMethod → LadderRow → List LadderRow → List LadderRow
  unfolding precedes
  insert_row sort r [] = r ∷ []
  insert_row sort r (s ∷ rows) =
      let later = insert_row sort r rows in if precedes sort s r then s ∷ later else r ∷ s ∷ rows

  unfoldable pub sort_rows : SortMethod → List LadderRow → List LadderRow
  unfolding insert_row
  sort_rows sort [] = []
  sort_rows sort (r ∷ rows) = insert_row sort r (sort_rows sort rows)

  unfoldable pub standings : List LadderRow → SortMethod → List LadderRow
  unfolding sort_rows take
  standings rows sort = take max_rank (sort_rows sort (played rows))

  -- The keys go down.
  abbrev pub Down : SortMethod → List LadderRow → Type 0
  Down sort [] = Unit {0}
  Down sort (r ∷ rows) = All (λ s. sort_key sort s ≤ sort_key sort r) rows × Down sort rows

  insert-All :
      (P : LadderRow → Type 0) (sort : SortMethod) (r : LadderRow) (rows : List LadderRow)
      → P r
      → All P rows
      → All P (insert_row sort r rows)
  unfolding insert_row
  insert-All P sort r [] p h = (p, tt)
  insert-All P sort r (s ∷ rows) p h = elim (Bool-cases (precedes sort s r)) [
    | inl e ↦ rw e (h.0, insert-All P sort r rows p h.1)
    | inr e ↦ rw e (p, h)
  ]

  All-weaker :
      (sort : SortMethod) (r s : LadderRow) (rows : List LadderRow)
      → sort_key sort s ≤ sort_key sort r
      → All (λ x. sort_key sort x ≤ sort_key sort s) rows
      → All (λ x. sort_key sort x ≤ sort_key sort r) rows
  All-weaker sort r s [] le h = tt
  All-weaker sort r s (x ∷ rows) le h = (omega (arith, h.0), All-weaker sort r s rows le h.1)

  precedes-key :
      (sort : SortMethod) (a b : LadderRow)
      → precedes sort a b ≡ true
      → sort_key sort b ≤ sort_key sort a
  unfolding precedes
  precedes-key sort a b h = ground arith

  follows-key :
      (sort : SortMethod) (a b : LadderRow)
      → precedes sort a b ≡ false
      → sort_key sort a ≤ sort_key sort b
  unfolding precedes
  follows-key sort a b h = ground arith

  insert-Down :
      (sort : SortMethod) (r : LadderRow) (rows : List LadderRow)
      → Down sort rows
      → Down sort (insert_row sort r rows)
  unfolding insert_row
  insert-Down sort r [] h = (tt, tt)
  insert-Down sort r (s ∷ rows) h = elim (Bool-cases (precedes sort s r)) [
    | inl e ↦
        rw e (insert-All _ sort r rows (precedes-key sort s r e) h.0, insert-Down sort r rows h.1)
    | inr e ↦ let le = follows-key sort s r e in rw e ((le, All-weaker sort r s rows le h.0), h)
  ]

  sort-Down : (sort : SortMethod) (rows : List LadderRow) → Down sort (sort_rows sort rows)
  unfolding sort_rows
  sort-Down sort [] = tt
  sort-Down sort (r ∷ rows) = insert-Down sort r (sort_rows sort rows) (sort-Down sort rows)

  insert-tally :
      (p : LadderRow → Bool) (sort : SortMethod) (r : LadderRow) (rows : List LadderRow)
      → tally p (insert_row sort r rows) ≡ tally p (r ∷ rows)
  unfolding insert_row
  insert-tally p sort r [] = refl
  insert-tally p sort r (s ∷ rows) = elim (Bool-cases (precedes sort s r)) [
    | inl e ↦ rw e (omega (arith, insert-tally p sort r rows))
    | inr e ↦ rw e
  ]

  sort-tally :
      (p : LadderRow → Bool) (sort : SortMethod) (rows : List LadderRow)
      → tally p (sort_rows sort rows) ≡ tally p rows
  unfolding sort_rows
  sort-tally p sort [] = refl
  sort-tally p sort (r ∷ rows) =
      omega (arith, insert-tally p sort r (sort_rows sort rows), sort-tally p sort rows)

  length-tally : (rows : List LadderRow) → tally (λ r. true) rows ≡ length rows
  length-tally [] = refl
  length-tally (r ∷ rows) = omega (arith, length-tally rows)

  -- The standings are the first 500, or all, of the players with a game: with the rows that are left
  -- out, of which there are none below 500, they are those players, each as often, in the order of
  -- the key that was asked for.
  pub standings_lem :
      (rows : List LadderRow) (sort : SortMethod)
      → (rest : List LadderRow) × (length (standings rows sort) ≡ min 500 (length (played rows)))
        × Down sort (standings rows sort ++ rest)
        × ((p : LadderRow → Bool) → tally p (standings rows sort ++ rest) ≡ tally p (played rows))
  unfolding standings
  standings_lem rows sort =
      let sorted = sort_rows sort (played rows) in
      let whole = take-append-drop max_rank sorted in
      let size : length sorted ≡ length (played rows) =
        sym (length-tally sorted)
        ∙ sort-tally (λ r. true) sort (played rows)
        ∙ length-tally (played rows) in
      (
        drop max_rank sorted,
        length-take max_rank sorted ∙ ap (min 500) size,
        rw whole (sort-Down sort (played rows)),
        λ p. rw whole (sort-tally p sort (played rows)),
      )

abbrev next_rank : Option ℕ → Option ℕ
next_rank none = none
next_rank (some i) = some (suc i)

-- The place of a name in the standings.
unfoldable pub rank_of : List LadderRow → Text → Option ℕ
unfolding same_text
rank_of [] name = none
rank_of (r ∷ rows) name =
    let later = next_rank (rank_of rows name) in if same_text r.name name then some 0 else later
