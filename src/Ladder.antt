-- ===== src/Ladder.antt =====
-- The WarCraft III ladder (crates/bnetcc-core/src/ladder/war3.rs): levels, experience per game, and
-- the settling of a game from its players' reports.
pub mod Level
pub mod Settle
pub mod Standings
mod Tests
use bnet_command_center.Base.{
  ℕ, zero, suc, ◌+◌, ◌-◌, ◌*◌, ◌/◌, ◌^◌, ◌≤◌, ◌<◌, ◌≡◌, min, Option, none, some, Bool, true, false,
  not, ◌&&◌, List, [], ◌∷◌, map, length, is_empty, any, retain, leb, ltb, ◌==◌, if◌then◌else◌,
}

-- `Outcome` of crates/bnetcc-core/src/ladder.rs.
pub data Outcome : Type 0 where
  win loss draw disconnect : Outcome

abbrev pub max_level : ℕ
max_level = 50

abbrev pub max_difference : ℕ
max_difference = 6

abbrev pub max : ℕ → ℕ → ℕ
max a b = if leb a b then b else a

abbrev first_ten : List ℕ
first_ten = 0 ∷ 100 ∷ 200 ∷ 400 ∷ 600 ∷ 900 ∷ 1200 ∷ 1600 ∷ 2000 ∷ 2500 ∷ []

-- An index into a table, which is in range wherever the code reads one.
abbrev pub entry : {A : Type 0} → A → List A → ℕ → A
entry d [] i = d
entry d (x ∷ xs) i = let rest = entry d xs (i - 1) in if i == 0 then x else rest

unfoldable pub level_start : ℕ → ℕ
level_start level =
    if leb level 1
    then 0
    else if leb level 10
    then entry 0 first_ten (level - 1)
    else 2500 + 500 * (min level max_level - 10)

-- `(1..=n).rev().find(...)`.
unfoldable pub find_level : ℕ → ℕ → Option ℕ
unfolding level_start
find_level zero xp = none
find_level (suc n) xp =
    let rest = find_level n xp in if leb (level_start (suc n)) xp then some (suc n) else rest

unfoldable pub level_for : ℕ → ℕ
unfolding find_level
level_for xp = elim (find_level max_level xp) [ none ↦ 1 | some level ↦ level ]

-- The loss factor in hundredths.
pub loss_factor : ℕ → ℕ
loss_factor level =
    if leb level 1
    then 10
    else if leb level 3
    then 11
    else if leb level 5
    then 25
    else if leb level 7
    then 43
    else if leb level 9
    then 67
    else 100

pub weekly_minimum : ℕ → ℕ
weekly_minimum level =
    if leb level 10
    then 0
    else if leb level 21
    then 1
    else if leb level 30
    then 2
    else if leb level 40
    then 3
    else 4

pub data Chart : Type 0 where
  two three four : Chart

pub for_top_level : ℕ → Chart
for_top_level top = if leb top 25 then two else if leb top 35 then three else four

-- What the higher and the lower player gain by a win and pay for a loss.
pub record Row : Type 0 where
  pub higher_wins : ℕ
  pub higher_loses : ℕ
  pub lower_wins : ℕ
  pub lower_loses : ℕ

abbrev of_row : ℕ → ℕ → ℕ → ℕ → Row
of_row a b c d = record { higher_wins = a; higher_loses = b; lower_wins = c; lower_loses = d }

abbrev two_three : List Row
two_three =
    of_row 100 100 100 100
    ∷ of_row 95 105 140 60
    ∷ of_row 90 110 152 48
    ∷ of_row 85 115 163 37
    ∷ of_row 80 120 172 28
    ∷ of_row 75 125 178 22
    ∷ of_row 70 130 184 16
    ∷ []

abbrev chart_four : List Row
chart_four =
    of_row 100 100 100 100
    ∷ of_row 85 115 115 85
    ∷ of_row 70 130 130 70
    ∷ of_row 55 145 145 55
    ∷ of_row 45 155 155 45
    ∷ of_row 35 165 165 35
    ∷ of_row 25 175 175 25
    ∷ []

pub row : Chart → ℕ → Row
row two difference = entry (of_row 0 0 0 0) two_three (min difference max_difference)
row three difference = entry (of_row 0 0 0 0) two_three (min difference max_difference)
row four difference = entry (of_row 0 0 0 0) chart_four (min difference max_difference)

-- A change of experience, which is an i64 in the code.
pub data Change : Type 0 where
  gain lose : ℕ → Change

-- `(loss * loss_factor(level)).round()`: on the numbers of the charts the product of floats rounds
-- as the exact one does.
abbrev pub scaled : ℕ → ℕ → ℕ
scaled amount hundredths = (amount * hundredths + 50) / 100

pub abs_diff : ℕ → ℕ → ℕ
abs_diff a b = (a - b) + (b - a)

pub xp_change : Chart → ℕ → ℕ → Outcome → Change
unfolding row abs_diff loss_factor
xp_change chart level opponent draw = gain 0
xp_change chart level opponent win =
    let r = row chart (abs_diff level opponent) in
    gain (if ltb opponent level then r.higher_wins else r.lower_wins)
xp_change chart level opponent _ =
    let r = row chart (abs_diff level opponent) in
    lose (scaled (if ltb opponent level then r.higher_loses else r.lower_loses) (loss_factor level))

pub apply : ℕ → Change → ℕ
apply xp (gain n) = min (xp + n) (2 ^ 32 - 1)
apply xp (lose n) = xp - n

abbrev pub sum : List ℕ → ℕ
sum [] = 0
sum (n ∷ ns) = n + sum ns

-- The average, rounded to nearest.
pub team_level : List ℕ → ℕ
team_level levels =
    if is_empty levels then 1 else max ((2 * sum levels + length levels) / (2 * length levels)) 1

pub inactivity_change : Chart → ℕ → ℕ → Change
unfolding weekly_minimum xp_change
inactivity_change chart level games =
    if leb (weekly_minimum level) games
    then gain 0
    else xp_change chart level (max (level - 1) 1) loss

pub record Report : Type 0 where
  pub reporter : ℕ
  pub subject : ℕ
  pub outcome : Outcome

abbrev pub same : Outcome → Outcome → Bool
same win win = true
same loss loss = true
same draw draw = true
same disconnect disconnect = true
same _ _ = false

unfoldable pub count : List Report → Outcome → ℕ
count [] o = 0
count (r ∷ votes) o = (if same r.outcome o then 1 else 0) + count votes o

-- The reports that settle a player: those of others, or its own where nobody else reported it.
unfoldable pub votes_for : List Report → ℕ → List Report
votes_for reports player =
    let about = retain (λ r. r.subject == player) reports in
    let others = retain (λ r. not (r.reporter == player)) about in
    if is_empty others then about else others

-- `max_by` over the outcomes in the order of their rank, where the earlier one wins a tie.
unfoldable pub most : List Report → Outcome → List Outcome → Outcome
unfolding count
most votes best [] = best
most votes best (o ∷ rest) =
    most votes (if ltb (count votes best) (count votes o) then o else best) rest

unfoldable pub settle_votes : List Report → Outcome
unfolding most count
settle_votes votes =
    let o = most votes loss (disconnect ∷ draw ∷ win ∷ []) in
    if ltb 0 (count votes o) then o else disconnect

unfoldable pub settle : List ℕ → List Report → Option (List (ℕ × Outcome))
unfolding votes_for settle_votes
settle players reports =
    let settled = map (λ player. (player, settle_votes (votes_for reports player))) players in
    if any (λ entry. same entry.1 win) settled then some settled else none
