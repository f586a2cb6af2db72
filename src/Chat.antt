-- ===== src/Chat.antt =====
-- Chat text and channel names on the wire (crates/bnetcc-proto/src/chat.rs), as lists of bytes.
mod Tests
use bnet_command_center.Base.{
  take, length-take, ℕ, suc, ◌-◌, ◌≤◌, ◌≡◌, refl, ◌∙◌, ap, Bool, true, false, not, ◌&&◌, List, [],
  ◌∷◌, ltb, leb, ◌==◌, if◌then◌else◌, is_empty, length, all, retain, arith,
}
use bnet_command_center.Text.{to_lower, lowercase}

abbrev pub chat_text_max : ℕ
chat_text_max = 224

abbrev pub channel_name_max : ℕ
channel_name_max = 31

pub is_printable : ℕ → Bool
is_printable b = leb 0x20 b && not (b == 0x7f)

pub sanitize_chat_text : List ℕ → List ℕ
unfolding is_printable take
sanitize_chat_text input = take (chat_text_max - 1) (retain is_printable input)

-- The loop of `normalize_channel_name`, with `last_space`.
pub collapse : Bool → List ℕ → List ℕ
unfolding is_printable to_lower
collapse last_space [] = []
collapse last_space (b ∷ bs) =
    let c = to_lower b in
    let after_space = collapse true bs in
    let after_letter = collapse false bs in
    let skipped = collapse last_space bs in
    if not (is_printable b)
    then skipped
    else (if c == b' '
        then (if last_space then after_space else c ∷ after_space)
        else c ∷ after_letter)

-- `while out.last() == Some(&b' ') { out.pop(); }`.
pub pop_spaces : List ℕ → List ℕ
pop_spaces [] = []
pop_spaces (b ∷ bs) =
    let rest = pop_spaces bs in if is_empty rest && b == b' ' then [] else b ∷ rest

pub normalize_channel_name : List ℕ → List ℕ
unfolding collapse pop_spaces take
normalize_channel_name name = take channel_name_max (pop_spaces (collapse true name))

-- Printable, not a capital letter, and no space at the start or after a space.
abbrev pub neat : Bool → List ℕ → Bool
neat last_space [] = true
neat last_space (b ∷ bs) =
    leb 0x20 b
    && (not (b == 0x7f)
        && (not (leb b'A' b && leb b b'Z')
            && (not (last_space && b == b' ') && neat (b == b' ') bs)))

collapse-neat : (last : Bool) (s : List ℕ) → neat last (collapse last s) ≡ true
unfolding collapse
collapse-neat last [] = refl
collapse-neat true (b ∷ s) = ground (arith, collapse-neat true s, collapse-neat false s)
collapse-neat false (b ∷ s) = ground (arith, collapse-neat true s, collapse-neat false s)

pop_spaces-neat : (last : Bool) (s : List ℕ) → neat last s ≡ true → neat last (pop_spaces s) ≡ true
unfolding pop_spaces
pop_spaces-neat last [] h = refl
pop_spaces-neat last (b ∷ s) h = ground (arith, pop_spaces-neat (b == b' ') s (ground arith))

take-neat : (n : ℕ) (last : Bool) (s : List ℕ) → neat last s ≡ true → neat last (take n s) ≡ true
unfolding take
take-neat n last [] h = refl
take-neat n last (b ∷ s) h = ground (arith, take-neat (n - 1) (b == b' ') s (ground arith))

collapse-lowercase : (last : Bool) (s : List ℕ) → collapse last (lowercase s) ≡ collapse last s
unfolding collapse lowercase
collapse-lowercase last [] = refl
collapse-lowercase last (b ∷ s) =
    ground (arith, collapse-lowercase last s, collapse-lowercase true s, collapse-lowercase false s)

-- Names that differ in case only name one channel; a normalised name is at most 31 bytes of printable
-- characters without capitals, and has no space at its start or after another space.
pub normalize_channel_name_lem :
    (name : List ℕ)
    → (normalize_channel_name (lowercase name) ≡ normalize_channel_name name)
      × (length (normalize_channel_name name) ≤ channel_name_max)
      × (neat true (normalize_channel_name name) ≡ true)
unfolding normalize_channel_name
normalize_channel_name_lem name = (
  ap (λ (s : List ℕ). take channel_name_max (pop_spaces s)) (collapse-lowercase true name),
  omega (arith, length-take channel_name_max (pop_spaces (collapse true name))),
  take-neat channel_name_max true (pop_spaces (collapse true name))
      (pop_spaces-neat true (collapse true name) (collapse-neat true name)),
)
