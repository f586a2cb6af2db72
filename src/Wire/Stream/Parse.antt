-- ===== src/Wire/Stream/Parse.antt =====
-- The messages of a whole string of bytes, as the specification that the loop is held to.
use bnet_command_center.Base.{
  ℕ, zero, suc, ◌<◌, ◌≡◌, refl, sym, ap, List, [], ◌∷◌, ◌++◌, length, length-drop, drop,
  drop-append, arith,
}
use mathlib.Core.List.{append_assoc}
use bnet_command_center.Wire.Framing.{Verdict, wait, fail, item, Framing, Sized, Stands}
use bnet_command_center.Wire.Stream.{Outcome, blocked, closed, out_of_fuel, after}

module _ {A : Type 0} where
  pub after-nil : {B : Type 0} (o : Outcome A B) → after [] o ≡ o
  after-nil (blocked got b) = refl
  after-nil (closed got e) = refl
  after-nil out_of_fuel = refl

  pub after-after :
      {B : Type 0} (xs ys : List A) (o : Outcome A B) → after (xs ++ ys) o ≡ after xs (after ys o)
  after-after xs ys (blocked got b) = ap (λ (all : List A). blocked all b) (append_assoc xs ys got)
  after-after xs ys (closed got e) = ap (λ (all : List A). closed all e) (append_assoc xs ys got)
  after-after xs ys out_of_fuel = refl

module _ {A : Type 0} (F : Framing A) where
  abbrev pub step : (List ℕ → Outcome A (List ℕ)) → Verdict A → List ℕ → Outcome A (List ℕ)
  step rest wait bytes = blocked [] bytes
  step rest (fail e) bytes = closed [] e
  step rest (item a n) bytes = after (a ∷ []) (rest (drop n bytes))

  unfoldable pub parse_upto : ℕ → List ℕ → Outcome A (List ℕ)
  parse_upto zero bytes = out_of_fuel
  parse_upto (suc k) bytes = step (parse_upto k) (F.verdict bytes) bytes

  unfoldable pub parse : List ℕ → Outcome A (List ℕ)
  unfolding parse_upto
  parse bytes = parse_upto (suc (length bytes)) bytes

  -- Two rests that agree on shorter strings.
  step-agrees :
      (f g : List ℕ → Outcome A (List ℕ)) (v : Verdict A) (bytes : List ℕ)
      → Sized (length bytes) v
      → ((less : List ℕ) → length less < length bytes → f less ≡ g less)
      → step f v bytes ≡ step g v bytes
  step-agrees f g wait bytes sized h = refl
  step-agrees f g (fail e) bytes sized h = refl
  step-agrees f g (item a n) bytes sized h =
      ap (after (a ∷ [])) (h (drop n bytes) (omega (arith, length-drop n bytes, sized)))

  fuel_lem :
      (j k : ℕ) (bytes : List ℕ)
      → length bytes < j
      → length bytes < k
      → parse_upto j bytes ≡ parse_upto k bytes
  unfolding parse_upto
  fuel_lem zero k bytes hj hk = let no : ⊥ = omega arith in elim no [ ]
  fuel_lem (suc j) zero bytes hj hk = let no : ⊥ = omega arith in elim no [ ]
  fuel_lem (suc j) (suc k) bytes hj hk =
      step-agrees (parse_upto j) (parse_upto k) (F.verdict bytes) bytes (F.verdict-Sized bytes)
        (λ less h. fuel_lem j k less (omega arith) (omega arith))

  pub parse-step : (bytes : List ℕ) → parse bytes ≡ step parse (F.verdict bytes) bytes
  unfolding parse parse_upto
  parse-step bytes =
      step-agrees (parse_upto (length bytes)) parse (F.verdict bytes) bytes (F.verdict-Sized bytes)
        (λ less h. fuel_lem (length bytes) (suc (length less)) less h (omega arith))

  -- What more bytes make of an outcome.
  abbrev pub continue : List ℕ → Outcome A (List ℕ) → Outcome A (List ℕ)
  continue later (blocked got rest) = after got (parse (rest ++ later))
  continue later (closed got e) = closed got e
  continue later out_of_fuel = out_of_fuel

  continue-after :
      (later : List ℕ) (a : A) (o : Outcome A (List ℕ))
      → continue later (after (a ∷ []) o) ≡ after (a ∷ []) (continue later o)
  continue-after later a (blocked got rest) = after-after (a ∷ []) got (parse (rest ++ later))
  continue-after later a (closed got e) = refl
  continue-after later a out_of_fuel = refl

  append-step :
      (v : Verdict A) (xs ys : List ℕ)
      → Sized (length xs) v
      → Stands v (F.verdict (xs ++ ys))
      → F.verdict xs ≡ v
      → ((less : List ℕ) → length less < length xs → parse (less ++ ys) ≡ continue ys (parse less))
      → parse (xs ++ ys) ≡ continue ys (parse xs)
  append-step wait xs ys sized stands ev h =
      rw (parse-step xs, ev) (sym (after-nil (parse (xs ++ ys))))
  append-step (fail e) xs ys sized stands ev h =
      rw (parse-step xs, parse-step (xs ++ ys), ev, stands)
  append-step (item a n) xs ys sized stands ev h =
      let less = h (drop n xs) (omega (arith, length-drop n xs)) in
      rw (parse-step xs, parse-step (xs ++ ys), ev, stands, drop-append n xs ys sized.1, less)
        (sym (continue-after ys a (parse (drop n xs))))

  append_upto : (k : ℕ) (xs ys : List ℕ) → length xs < k → parse (xs ++ ys) ≡ continue ys (parse xs)
  append_upto zero xs ys h = let no : ⊥ = omega arith in elim no [ ]
  append_upto (suc k) xs ys h =
      append-step (F.verdict xs) xs ys (F.verdict-Sized xs) (F.verdict-Stands xs ys) refl
        (λ less l. append_upto k less ys (omega arith))

  pub parse-append : (xs ys : List ℕ) → parse (xs ++ ys) ≡ continue ys (parse xs)
  parse-append xs ys = append_upto (suc (length xs)) xs ys (omega arith)
