-- ===== src/Ladder/Tests.antt =====
-- Levels and settled games.
use bnet_command_center.Base.{
  ℕ, Bool, min, length, ◌++◌, ◌≡◌, ◌<◌, refl, none, some, List, [], ◌∷◌, arith,
}
use bnet_command_center.Ladder.{
  Outcome, win, loss, draw, disconnect, Report, two, three, lose, level_start, level_for, xp_change,
  team_level, inactivity_change, count, votes_for, most, settle_votes, settle,
}
use bnet_command_center.Ladder.Level.{level_for-level_start}
use bnet_command_center.Ladder.Settle.{settle_votes-win}
use bnet_command_center.Ladder.Standings.{
  LadderRow, by_wins, by_rating, by_games, standings, standings_lem, played, tally, Down, rank_of,
}
use bnet_command_center.Text.{lowercase}

abbrev says : ℕ → ℕ → Outcome → Report
says a b o = record { reporter = a; subject = b; outcome = o }

level_for-level_start_example : level_for (level_start 11) ≡ 11
level_for-level_start_example = level_for-level_start 11 (omega arith) (omega arith)

loss_of_four : xp_change two 4 4 loss ≡ lose 25
unfolding xp_change
loss_of_four = refl

upset : xp_change three 14 12 disconnect ≡ lose 110
unfolding xp_change
upset = refl

rounds_up : team_level (10 ∷ 13 ∷ []) ≡ 12
unfolding team_level
rounds_up = refl

short_week : inactivity_change two 25 1 ≡ lose 105
unfolding inactivity_change
short_week = refl

-- Both players claim the win.
disputed :
    settle (1 ∷ 2 ∷ []) (says 1 1 win ∷ says 1 2 loss ∷ says 2 2 win ∷ says 2 1 loss ∷ []) ≡ none
unfolding settle
disputed = refl

abbrev dodged : List Report
dodged = says 1 1 win ∷ says 1 2 loss ∷ says 2 2 disconnect ∷ says 2 1 win ∷ []

settle_votes-win_example :
    (count (votes_for dodged 1) loss < count (votes_for dodged 1) win)
    × (count (votes_for dodged 1) disconnect < count (votes_for dodged 1) win)
    × (count (votes_for dodged 1) draw < count (votes_for dodged 1) win)
unfolding settle_votes votes_for most count
settle_votes-win_example = settle_votes-win (votes_for dodged 1) refl

abbrev row_of : List ℕ → ℕ → ℕ → ℕ → LadderRow
row_of n w l r = record {
  name = n;
  wins = w;
  losses = l;
  disconnects = 0;
  rating = r;
  high_rating = r;
  last_game = 0;
}

abbrev zed : LadderRow
zed = row_of (90 ∷ []) 10 0 1200

abbrev amy : LadderRow
amy = row_of (97 ∷ []) 3 1 1300

abbrev bob : LadderRow
bob = row_of (66 ∷ []) 20 30 1100

abbrev idle : LadderRow
idle = row_of (73 ∷ []) 0 0 1000

abbrev all_rows : List LadderRow
all_rows = zed ∷ amy ∷ bob ∷ idle ∷ []

sorted_by_wins : standings lowercase all_rows by_wins ≡ bob ∷ zed ∷ amy ∷ []
unfolding standings
sorted_by_wins = refl

ranked_in_any_case : rank_of (standings lowercase all_rows by_rating) (122 ∷ []) ≡ some 1
unfolding standings rank_of
ranked_in_any_case = refl

standings_lem_example :
    (rest : List LadderRow) × (length (standings lowercase all_rows by_games)
      ≡ min 500 (length (played all_rows)))
    × Down lowercase by_games (standings lowercase all_rows by_games ++ rest)
    × ((p : LadderRow → Bool)
        → tally p (standings lowercase all_rows by_games ++ rest) ≡ tally p (played all_rows))
standings_lem_example = standings_lem lowercase all_rows by_games
