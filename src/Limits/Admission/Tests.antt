-- ===== src/Limits/Admission/Tests.antt =====
-- Connections of a small node.
use bnet_command_center.Base.{List, [], ◌∷◌, ◌≤◌, ◌<◌, ◌≡◌, ◌≢◌, refl, arith, ℕ_discrete}
use bnet_command_center.Base.Map
use bnet_command_center.Client.{
  ClientClass, gateway, game_pending, game, ClientClass-discrete, IpAddr, v4, IpAddr-discrete,
}
use bnet_command_center.Policy.{ConnLimits}
use bnet_command_center.Limits.Admission.Counts
use bnet_command_center.Limits.Admission.{
  PerIp-discrete, PerAccount-discrete, AdmissionTable, new, set_allowlist, ip_count, account_count,
  class_count, increment, decrement, would_admit, add, remove, admit, reclassify, bind_account,
  release_account, tracked_entries,
}
use bnet_command_center.Limits.Admission.Admit.{
  Refines, new-Refines, refusal, answer, unless_refused, admit-refusal,
}
use bnet_command_center.Limits.Admission.Accounts.{same_account, bind_account-Counts}
use bnet_command_center.Limits.Admission.History.{
  Event, opens, closes, turns, step, run, after, after_all, AllLegal, served, served_class_ceiling,
}

program : Unit {0}
unfolding ℕ_discrete ClientClass-discrete IpAddr-discrete PerIp-discrete PerAccount-discrete Map.get
    Map.insert Map.remove new set_allowlist ip_count account_count class_count increment decrement
    would_admit add remove admit reclassify bind_account release_account tracked_entries refusal
    step run after after_all
program = tt

abbrev limits : ClientClass → ConnLimits
limits gateway = record { per_ip = 1; per_account = 1; global = 3 }
limits _ = record { per_ip = 2; per_account = 1; global = 2 }

abbrev home : IpAddr
home = v4 0x7f000001

abbrev cafe : IpAddr
cafe = v4 0x0a000001

-- The café opens two pending connections, and a third is refused; one of them turns into a game.
abbrev busy : List Event
busy =
    opens game_pending cafe
    ∷ opens game_pending cafe
    ∷ opens game_pending cafe
    ∷ turns cafe game_pending (game 5)
    ∷ opens gateway home
    ∷ opens gateway home
    ∷ []

abbrev closed : List Event
closed =
    opens game_pending cafe
    ∷ turns cafe game_pending (game 5)
    ∷ opens gateway home
    ∷ closes (game 5) cafe
    ∷ closes gateway home
    ∷ []

busy_legal : AllLegal limits (home ∷ []) [] busy
unfolding program
busy_legal =
    (omega arith, (omega arith, (omega arith, (omega arith, (omega arith, (omega arith, tt))))))

busy_counts :
    (class_count (served limits (home ∷ []) busy) (game 5) ≡ 1)
    × (class_count (served limits (home ∷ []) busy) game_pending ≡ 1)
    × (ip_count (served limits (home ∷ []) busy) gateway home ≡ 2)
unfolding program
busy_counts = (refl, refl, refl)

served_class_ceiling_example :
    class_count (served limits (home ∷ []) busy) gateway ≤ (limits gateway).global
served_class_ceiling_example = served_class_ceiling limits (home ∷ []) busy gateway busy_legal

closed_legal : AllLegal limits [] [] closed
unfolding program
closed_legal = (omega arith, (omega arith, (omega arith, (omega arith, (omega arith, tt)))))

all_closed : after_all limits [] [] closed ≡ []
unfolding program
all_closed = refl

admit-refusal_example :
    let o = refusal [] [] gateway home (limits gateway) in
    ((admit new gateway home (limits gateway)).1 ≡ answer o)
    × Refines
        (admit new gateway home (limits gateway)).0
        (unless_refused o ((gateway, home) ∷ []) [])
unfolding new
admit-refusal_example = admit-refusal new [] new-Refines gateway home (limits gateway) (omega arith)

-- One pending connection from the café.
abbrev one : AdmissionTable
one = (admit new game_pending cafe (limits game_pending)).0

one-Refines : Refines one ((game_pending, cafe) ∷ [])
unfolding program
one-Refines =
    (admit-refusal new [] new-Refines game_pending cafe (limits game_pending) (omega arith)).1

one_live : 0 < Counts.count PerIp-discrete (game_pending, cafe) ((game_pending, cafe) ∷ [])
unfolding program
one_live = omega arith

differ : game_pending ≢ game 5
differ e = ground (arith, e)

none_bound : Counts.Counts PerAccount-discrete new.by_account []
unfolding new Map.get
none_bound k = refl

abbrev bound : AdmissionTable
bound = (bind_account new gateway 9 (limits gateway)).0

one_bound : Counts.Counts PerAccount-discrete bound.by_account ((gateway, 9) ∷ [])
unfolding program
one_bound = (bind_account-Counts new [] gateway 9 (limits gateway) none_bound (omega arith)).1

bound_once : 0 < same_account gateway 9 ((gateway, 9) ∷ [])
unfolding program
bound_once = omega arith
