-- ===== src/Wire/Stream/Ends.antt =====
-- The loop over a buffer ends: every turn takes at least one byte.
use bnet_command_center.Base.{
  ℕ, zero, suc, ◌<◌, sym, subst, List, [], ◌∷◌, length, length-drop, drop, arith,
}
use bnet_command_center.Wire.Buffer.{RecvBuf, as_slice}
use bnet_command_center.Wire.Framing.{Verdict, wait, fail, item, Framing, Sized}
use bnet_command_center.Wire.Stream.{Outcome, blocked, closed, out_of_fuel, after, unread, drain}
use bnet_command_center.Wire.Stream.Parse.{step, parse_upto}
use bnet_command_center.Wire.Stream.Reads.{drain-parse}

abbrev pub Ended : {A B : Type 0} → Outcome A B → Type 0
Ended out_of_fuel = ⊥
Ended _ = Unit {0}

module _ {A : Type 0} (F : Framing A) where
  after-Ended : (front : List A) (o : Outcome A (List ℕ)) → Ended o → Ended (after front o)
  after-Ended front (blocked got b) h = tt
  after-Ended front (closed got e) h = tt
  after-Ended front out_of_fuel h = h

  step-Ended :
      (rest : List ℕ → Outcome A (List ℕ)) (v : Verdict A) (bytes : List ℕ)
      → Sized (length bytes) v
      → ((less : List ℕ) → length less < length bytes → Ended (rest less))
      → Ended (step F rest v bytes)
  step-Ended rest wait bytes sized h = tt
  step-Ended rest (fail e) bytes sized h = tt
  step-Ended rest (item a n) bytes sized h =
      after-Ended (a ∷ []) _ (h (drop n bytes) (omega (arith, length-drop n bytes, sized)))

  parse_upto-Ended : (k : ℕ) (bytes : List ℕ) → length bytes < k → Ended (parse_upto F k bytes)
  unfolding parse_upto
  parse_upto-Ended zero bytes h = let no : ⊥ = omega arith in no
  parse_upto-Ended (suc k) bytes h =
      step-Ended (parse_upto F k) (F.verdict bytes) bytes (F.verdict-Sized bytes)
        (λ less l. parse_upto-Ended k less (omega arith))

  unread-Ended : (o : Outcome A RecvBuf) → Ended (unread o) → Ended o
  unread-Ended (blocked got b) h = tt
  unread-Ended (closed got e) h = tt
  unread-Ended out_of_fuel h = h

  -- With more fuel than there are unread bytes, the loop over a buffer ends.
  pub drain-Ended : (fuel : ℕ) (b : RecvBuf) → length (as_slice b) < fuel → Ended (drain F fuel b)
  drain-Ended fuel b h =
      unread-Ended (drain F fuel b)
        (subst Ended (sym (drain-parse F fuel b)) (parse_upto-Ended fuel (as_slice b) h))
