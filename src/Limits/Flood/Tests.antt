-- ===== src/Limits/Flood/Tests.antt =====
-- A gateway's token bucket on concrete times.
use bnet_command_center.Base.{ℕ, List, [], ◌∷◌, ◌+◌, ◌*◌, ◌≤◌, ◌≡◌, refl, length, arith}
use bnet_command_center.Policy.{drop_message, FloodPolicy}
use bnet_command_center.Limits.Flood.{
  allow, exceeded, new, saturating_mul, refill, spend, check, run,
}
use bnet_command_center.Limits.Flood.Rate.{passed, latest, passed-run-le, passed-run_of_Spaced}

program : Unit {0}
unfolding new saturating_mul refill spend check run
program = tt

abbrev policy : FloodPolicy
policy = record { messages_per_10s = 10; burst = 2; penalty = drop_message }

abbrev crowd : List ℕ
crowd = 5000 ∷ 5000 ∷ 5000 ∷ 4000 ∷ 6000 ∷ 6500 ∷ []

crowd_verdicts :
    (run (new policy 5000) crowd).1
    ≡ allow
      ∷ allow
      ∷ exceeded drop_message
      ∷ exceeded drop_message
      ∷ allow
      ∷ exceeded drop_message
      ∷ []
unfolding program
crowd_verdicts = refl

-- After a pause of a minute.
abbrev later_crowd : List ℕ
later_crowd = 66500 ∷ 66500 ∷ 66500 ∷ 67500 ∷ []

passed-run-le_example :
    let t = (run (new policy 5000) crowd).0 in
    10000 * passed (run t later_crowd).1 + policy.messages_per_10s * latest 5000 crowd
    ≤ 10000 * policy.burst + policy.messages_per_10s * latest (latest 5000 crowd) later_crowd
passed-run-le_example = passed-run-le policy 5000 crowd later_crowd

abbrev steady : List ℕ
steady = 1000 ∷ 2000 ∷ 3500 ∷ []

passed-run_of_Spaced_example : passed (run (new policy 0) steady).1 ≡ length steady
passed-run_of_Spaced_example =
    passed-run_of_Spaced policy 0 steady (omega arith) (omega arith)
      (omega arith, (omega arith, (omega arith, tt)))
