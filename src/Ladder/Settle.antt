-- ===== src/Ladder/Settle.antt =====
-- A game is settled by the word of the other players, and against the win in doubt.
use bnet_command_center.Base.{
  ℕ, ◌<◌, ◌≡◌, refl, Bool, true, false, not, ◌&&◌, List, [], ◌∷◌, is_empty, any, retain, ◌==◌,
  arith,
}
use bnet_command_center.Ladder.{
  win, loss, draw, disconnect, Report, count, votes_for, most, settle_votes,
}

-- A player is settled as the winner only by more votes for the win than for any other outcome.
pub settle_votes-win :
    (votes : List Report)
    → settle_votes votes ≡ win
    → (count votes loss < count votes win)
      × (count votes disconnect < count votes win)
      × (count votes draw < count votes win)
unfolding settle_votes most
settle_votes-win votes h = ground arith

-- A report of a player on itself.
abbrev pub own : ℕ → Report → Bool
own player r = (r.subject == player) && (r.reporter == player)

abbrev pub by_others : List Report → ℕ → Bool
by_others reports player = any (λ r. (r.subject == player) && not (r.reporter == player)) reports

others-same :
    (reports : List Report) (player : ℕ)
    → retain
        (λ r. not (r.reporter == player))
        (retain (λ r. r.subject == player) (retain (λ r. not (own player r)) reports))
      ≡ retain (λ r. not (r.reporter == player)) (retain (λ r. r.subject == player) reports)
others-same [] player = refl
others-same (r ∷ reports) player = ground (arith, others-same reports player)

others-filled :
    (reports : List Report) (player : ℕ)
    → by_others reports player ≡ true
    → is_empty
        (retain (λ r. not (r.reporter == player)) (retain (λ r. r.subject == player) reports))
      ≡ false
others-filled [] player h = ground arith
others-filled (r ∷ reports) player h = ground (arith, others-filled reports player)

-- Where another player has reported on it, what a player reports on itself changes nothing.
pub votes_for-own :
    (reports : List Report) (player : ℕ)
    → by_others reports player ≡ true
    → votes_for (retain (λ r. not (own player r)) reports) player ≡ votes_for reports player
unfolding votes_for
votes_for-own reports player h = rw (others-same reports player, others-filled reports player h)
