-- ===== src/Storage/WriteBehind/Run.antt =====
-- Any run of writes, flushes and ticks, over a backend that may refuse any of its batches.
use bnet_command_center.Base.{ℕ, ◌≡◌, refl, sym, ap, ◌∙◌, List, [], ◌∷◌, All, ite, ℕ_discrete}
use bnet_command_center.Text.{Text}
use bnet_command_center.Storage.{AttrMap, Attributes, overlay, Backend}
use bnet_command_center.Storage.Attrs.{overlay-agrees}
use bnet_command_center.Storage.WriteBehind.{WriteBehind, attrs_put, flush_now, tick}
use bnet_command_center.Storage.WriteBehind.View.{seen, attrs_put-seen}
use bnet_command_center.Storage.WriteBehind.Flush.{flush_now-seen, tick-seen}
use bnet_command_center.Storage.WriteBehind.Used.{
  Kept, used-known, attrs_put-Kept, flush_now-Kept, tick-Kept,
}
use bnet_command_center.Storage.WriteBehind.Valid.{
  IsValid, attrs_put-IsValid, flush_now-IsValid, tick-IsValid,
}

pub data Call : Type 0 where
  put : ℕ → AttrMap → Call
  flushes_at : ℕ → Call
  ticks_at : ℕ → Call

-- What the writes of a run make of the attributes of an account.
abbrev pub written : List Call → ℕ → Attributes → Attributes
written [] id below = below
written (put j attrs ∷ calls) id below =
    written calls id (λ key. ite (ℕ_discrete j id) (overlay attrs below key) (below key))
written (flushes_at now ∷ calls) id below = written calls id below
written (ticks_at now ∷ calls) id below = written calls id below

written-agrees :
    (calls : List Call) (id : ℕ) (f g : Attributes)
    → ((key : Text) → f key ≡ g key)
    → (key : Text) → written calls id f key ≡ written calls id g key
written-agrees [] id f g h key = h key
written-agrees (put j attrs ∷ calls) id f g h key =
    written-agrees calls id _ _ (λ k. rw (overlay-agrees attrs f g h k, h k)) key
written-agrees (flushes_at now ∷ calls) id f g h key = written-agrees calls id f g h key
written-agrees (ticks_at now ∷ calls) id f g h key = written-agrees calls id f g h key

move-ite :
    {A : Type 0} {i j : ℕ} (d : Dec (i ≡ j)) (f : ℕ → A) (other : A)
    → ite d (f i) other ≡ ite d (f j) other
move-ite (yes e) f other = ap f e
move-ite (no n) f other = refl

module _ {S : Type 0} (B : Backend S) where
  abbrev pub apply : Call → WriteBehind S → WriteBehind S
  apply (put id attrs) w = attrs_put w id attrs
  apply (flushes_at now) w = (flush_now B w now).1
  apply (ticks_at now) w = (tick B w now).1

  unfoldable pub run : List Call → WriteBehind S → WriteBehind S
  run [] w = w
  run (call ∷ calls) w = run calls (apply call w)

  module _ (Uses : ℕ → Type 0) where
    -- The accounts that a call writes.
    abbrev pub Puts : Call → Type 0
    Puts (put id attrs) = Uses id
    Puts (flushes_at now) = Unit {0}
    Puts (ticks_at now) = Unit {0}

    -- What holds between the calls of a run.
    abbrev pub IsReady : WriteBehind S → Type 0
    IsReady w = IsValid w × Kept B Uses w

    apply-IsReady :
        (call : Call) (w : WriteBehind S) → Puts call → IsReady w → IsReady (apply call w)
    apply-IsReady (put id attrs) w p h =
        (attrs_put-IsValid w id attrs h.0, attrs_put-Kept B Uses w id attrs p h.1)
    apply-IsReady (flushes_at now) w p h =
        (flush_now-IsValid B w now, flush_now-Kept B Uses w now h.1)
    apply-IsReady (ticks_at now) w p h = (tick-IsValid B w now h.0, tick-Kept B Uses w now h.1)

    apply-seen :
        (call : Call) (w : WriteBehind S) (id : ℕ) (key : Text)
        → IsReady w
        → seen B (apply call w) id key ≡ written (call ∷ []) id (seen B w id) key
    apply-seen (put j attrs) w id key h =
        attrs_put-seen B w j attrs id key
        ∙ move-ite (ℕ_discrete j id) (λ (i : ℕ). overlay attrs (seen B w i) key) (seen B w id key)
    apply-seen (flushes_at now) w id key h =
        flush_now-seen B w now id key h.0.0 h.0.1 (used-known B Uses w.backend w.dirty h.1.1 h.1.0)
    apply-seen (ticks_at now) w id key h =
        tick-seen B w now id key h.0.0 h.0.1 (used-known B Uses w.backend w.dirty h.1.1 h.1.0)

    written-cons :
        (call : Call) (calls : List Call) (id : ℕ) (below : Attributes)
        → written (call ∷ calls) id below ≡ written calls id (written (call ∷ []) id below)
    written-cons (put j attrs) calls id below = refl
    written-cons (flushes_at now) calls id below = refl
    written-cons (ticks_at now) calls id below = refl

    -- After any run of writes, flushes and ticks of a well-formed layer, what a caller sees of an
    -- account is what the writes, in order, make of what was seen before, whether the backend takes
    -- a batch or refuses it. The backend knows the accounts that are written.
    pub run-seen :
        (calls : List Call) (w : WriteBehind S) (id : ℕ) (key : Text)
        → All Puts calls
        → IsReady w
        → seen B (run calls w) id key ≡ written calls id (seen B w id) key
    unfolding run
    run-seen [] w id key p h = refl
    run-seen (call ∷ calls) w id key p h =
        run-seen calls (apply call w) id key p.1 (apply-IsReady call w p.0 h)
        ∙ written-agrees calls id _ _ (λ k. apply-seen call w id k h) key
        ∙ sym (ap (λ (f : Attributes). f key) (written-cons call calls id (seen B w id)))
