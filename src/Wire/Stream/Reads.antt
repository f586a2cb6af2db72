-- ===== src/Wire/Stream/Reads.antt =====
-- However the bytes are cut into reads, the loop finds the messages of the whole string.
use bnet_command_center.Base.{
  ℕ, zero, suc, ◌≤◌, ◌<◌, ◌≡◌, refl, sym, ap, ◌∙◌, List, [], ◌∷◌, ◌++◌, length, drop, concat, inl,
  All, arith,
}
use mathlib.Core.List.{append_assoc, append-nil}
use bnet_command_center.Wire.Buffer.{
  RecvBuf, new, as_slice, consume, receive, as_slice-consume, as_slice-receive,
}
use bnet_command_center.Wire.Buffer.Queue.{IsCompact, consume-IsCompact, receive-IsCompact}
use bnet_command_center.Wire.Framing.{Verdict, wait, fail, item, Decoded, Does, Framing}
use bnet_command_center.Wire.Stream.{
  Outcome, blocked, closed, out_of_fuel, after, unread, next, drain, fuel, go_on, reads,
}
use bnet_command_center.Wire.Stream.Parse.{
  step, parse_upto, parse, parse-step, parse-append, continue,
}

module _ {A : Type 0} (F : Framing A) where
  unread-after :
      (front : List A) (o : Outcome A RecvBuf) → unread (after front o) ≡ after front (unread o)
  unread-after front (blocked got b) = refl
  unread-after front (closed got e) = refl
  unread-after front out_of_fuel = refl

  next-step :
      (k : ℕ) (v : Verdict A) (b : RecvBuf) (d : Decoded A)
      → Does b v d
      → ((b' : RecvBuf) → unread (drain F k b') ≡ parse_upto F k (as_slice b'))
      → unread (next F (drain F k) d) ≡ step F (parse_upto F k) v (as_slice b)
  next-step k wait b d does h = rw does
  next-step k (fail e) b d (b', does) h = rw does
  next-step k (item a n) b d does h = rw does (
      unread-after (a ∷ []) (drain F k (consume b n))
      ∙ ap (after (a ∷ [])) (h (consume b n) ∙ ap (parse_upto F k) (as_slice-consume b n)))

  pub drain-parse : (k : ℕ) (b : RecvBuf) → unread (drain F k b) ≡ parse_upto F k (as_slice b)
  unfolding drain parse_upto
  drain-parse zero b = refl
  drain-parse (suc k) b =
      next-step k (F.verdict (as_slice b)) b (F.decode b) (F.decode-Does b) (drain-parse k)

  drained : (b : RecvBuf) → unread (drain F (fuel F (as_slice b)) b) ≡ parse F (as_slice b)
  unfolding parse
  drained b = drain-parse (fuel F (as_slice b)) b

  -- A buffer between two reads.
  abbrev pub IsIdle : RecvBuf → Type 0
  IsIdle b = IsCompact b × (F.verdict (as_slice b) ≡ wait)

  abbrev Leaves : Outcome A RecvBuf → Type 0
  Leaves (blocked got b) = IsIdle b
  Leaves _ = Unit {0}

  after-Leaves : (front : List A) (o : Outcome A RecvBuf) → Leaves o → Leaves (after front o)
  after-Leaves front (blocked got b) h = h
  after-Leaves front (closed got e) h = tt
  after-Leaves front out_of_fuel h = tt

  next-Leaves :
      (k : ℕ) (v : Verdict A) (b : RecvBuf) (d : Decoded A)
      → Does b v d
      → IsCompact b
      → F.verdict (as_slice b) ≡ v
      → ((b' : RecvBuf) → IsCompact b' → Leaves (drain F k b'))
      → Leaves (next F (drain F k) d)
  next-Leaves k wait b d does c e h = rw does (c, e)
  next-Leaves k (fail x) b d (b', does) c e h = rw does tt
  next-Leaves k (item a n) b d does c e h =
      rw does (after-Leaves (a ∷ []) _ (h (consume b n) (consume-IsCompact b n)))

  drain-Leaves : (k : ℕ) (b : RecvBuf) → IsCompact b → Leaves (drain F k b)
  unfolding drain
  drain-Leaves zero b c = tt
  drain-Leaves (suc k) b c =
      next-Leaves k (F.verdict (as_slice b)) b (F.decode b) (F.decode-Does b) c refl
        (drain-Leaves k)

  module _ (n : ℕ) where
    abbrev pub Offered : List ℕ → Type 0
    Offered chunk = (0 < length chunk) × (length chunk ≤ n)

    go_on-continue :
        (chunks : List (List ℕ)) (o : Outcome A RecvBuf)
        → Leaves o
        → ((b : RecvBuf)
            → IsIdle b
            → unread (reads F n chunks b) ≡ parse F (as_slice b ++ concat chunks))
        → unread (go_on F (reads F n chunks) o) ≡ continue F (concat chunks) (unread o)
    go_on-continue chunks (blocked got b) idle h =
        unread-after got (reads F n chunks b) ∙ ap (after got) (h b idle)
    go_on-continue chunks (closed got e) idle h = refl
    go_on-continue chunks out_of_fuel idle h = refl

    reads-parse :
        (chunks : List (List ℕ)) (b : RecvBuf)
        → All Offered chunks
        → IsIdle b
        → unread (reads F n chunks b) ≡ parse F (as_slice b ++ concat chunks)
    unfolding reads
    reads-parse [] b h idle = rw (append-nil (as_slice b), parse-step F (as_slice b), idle.1)
    reads-parse ([] ∷ chunks) b h idle = let no : ⊥ = omega (arith, h.0) in elim no [ ]
    reads-parse ((byte ∷ bytes) ∷ chunks) b h idle =
        let chunk = byte ∷ bytes in
        let b' = receive b n chunk in
        let compact = receive-IsCompact b n chunk h.0.1 idle.0 in
        let got = as_slice-receive b n chunk idle.0.0 h.0.1 in
        go_on-continue chunks _ (drain-Leaves (fuel F (as_slice b')) b' compact)
          (λ b'' i. reads-parse chunks b'' h.1 i)
        ∙ ap (continue F (concat chunks)) (drained b')
        ∙ sym (parse-append F (as_slice b') (concat chunks))
        ∙ ap (λ (xs : List ℕ). parse F (xs ++ concat chunks)) got
        ∙ ap (parse F) (append_assoc (as_slice b) chunk (concat chunks))

    -- However a string of bytes is cut into reads of one to `n` bytes, the loop over a new buffer
    -- finds the same messages and stops as it would on the whole string at once: with the same bytes
    -- left, or with the same error.
    pub reads_from_new-parse :
        (chunks : List (List ℕ))
        → All Offered chunks
        → unread (reads F n chunks new) ≡ parse F (concat chunks)
    unfolding new as_slice drop
    reads_from_new-parse chunks h =
        reads-parse chunks new h ((omega arith, inl (omega arith)), F.verdict-nil)
