-- ===== src/Bridge/Derived.antt =====
-- What is promised of the name that a remote user gets (`derive_name`).
use bnet_command_center.Base.{
  length-take, take, ℕ, ◌+◌, ◌-◌, ◌≤◌, ◌<◌, ◌≡◌, refl, ◌∙◌, Option, none, some, Bool, true, false,
  ◌&&◌, [], ◌∷◌, ◌++◌, ◌==◌, if◌then◌else◌, ok, length, length-append, is_empty, any, all, retain,
  arith,
}
use bnet_command_center.Bridge.{
  separator, max_name, max_tag, BridgeTag, is_alphanumeric, new_tag, prefix_len, is_bridged_name,
  name_is_reserved_for_bridges, is_carried, sanitize_remote_name, suffix_text, derive_name,
}
use bnet_command_center.Text.{Text, byte_len, utf8_len, split_once, is_digit}
use bnet_command_center.Bridge.Suffix.{is_safe, all-append, suffix-safe, length-suffix-le}

byte_len-safe : (s : Text) → all is_safe s ≡ true → byte_len s ≡ length s
unfolding byte_len utf8_len
byte_len-safe [] h = refl
byte_len-safe (c ∷ s) h = ground (arith, byte_len-safe s (ground arith))

alphanumeric_safe : (s : Text) → all is_alphanumeric s ≡ true → all is_safe s ≡ true
unfolding is_alphanumeric is_digit
alphanumeric_safe [] h = refl
alphanumeric_safe (c ∷ s) h = ground (arith, alphanumeric_safe s (ground arith))

retain-safe : (s : Text) → all is_safe (retain is_carried s) ≡ true
unfolding is_carried is_alphanumeric is_digit
retain-safe [] = refl
retain-safe (c ∷ s) = ground (arith, retain-safe s)

sanitize-safe : (s : Text) → all is_safe (sanitize_remote_name s) ≡ true
unfolding sanitize_remote_name
sanitize-safe s = ground (arith, retain-safe s)

sanitize-filled : (s : Text) → is_empty (sanitize_remote_name s) ≡ false
unfolding sanitize_remote_name
sanitize-filled s = ground arith

take-all : (p : ℕ → Bool) (n : ℕ) (s : Text) → all p s ≡ true → all p (take n s) ≡ true
unfolding take
take-all p n [] h = refl
take-all p n (c ∷ s) h = ground (arith, take-all p (n - 1) s (ground arith))

take-filled : (n : ℕ) (s : Text) → 0 < n → is_empty s ≡ false → is_empty (take n s) ≡ false
unfolding take
take-filled n [] h e = cc
take-filled n (c ∷ s) h e = ground arith

-- What a tag that `BridgeTag::new` gives looks like.
pub record IsTag (tag : BridgeTag) : Type 0 where
  pub letters : all is_alphanumeric tag.as_str ≡ true
  pub short : byte_len tag.as_str ≤ max_tag
  pub again : new_tag tag.as_str ≡ ok tag

new_tag-as_str : (raw : Text) (tag : BridgeTag) → new_tag raw ≡ ok tag → raw ≡ tag.as_str
unfolding new_tag
new_tag-as_str raw tag h = ground arith

pub new_tag-IsTag : (raw : Text) (tag : BridgeTag) → new_tag raw ≡ ok tag → IsTag tag
unfolding new_tag
new_tag-IsTag raw tag h =
    let again = rw (new_tag-as_str raw tag h) at h in
    record { letters = ground arith; short = ground arith; again = again }

is_safe-separator : (c : ℕ) → is_alphanumeric c ≡ true → (c == separator) ≡ false
unfolding is_alphanumeric is_digit
is_safe-separator c h = ground arith

split_once-tag :
    (tag rest : Text)
    → all is_alphanumeric tag ≡ true
    → split_once separator (tag ++ separator ∷ rest) ≡ some (tag, rest)
unfolding split_once
split_once-tag [] rest h = ground arith
split_once-tag (c ∷ tag) rest h =
    ground (arith, split_once-tag tag rest (ground arith), is_safe-separator c (ground arith))

-- What a suffix leaves for the stem, and what stands after the separator in a derived name.
abbrev pub budget : BridgeTag → Option ℕ → ℕ
budget tag suffix = (max_name - prefix_len tag) - length (suffix_text suffix)

abbrev pub remainder : BridgeTag → Text → Option ℕ → Text
remainder tag display suffix =
    take (budget tag suffix) (sanitize_remote_name display) ++ suffix_text suffix

joined :
    (a t u : Text)
    → (if is_empty t then a ++ separator ∷ u else a ++ separator ∷ (t ++ u))
      ≡ a ++ separator ∷ (t ++ u)
joined a [] u = refl
joined a (c ∷ t) u = refl

pub derive_name-remainder :
    (tag : BridgeTag) (display : Text) (suffix : Option ℕ)
    → derive_name tag display suffix ≡ tag.as_str ++ separator ∷ remainder tag display suffix
unfolding derive_name
derive_name-remainder tag display suffix =
    joined tag.as_str (take (budget tag suffix) (sanitize_remote_name display)) (suffix_text suffix)

is_empty-append : (s t : Text) → is_empty (s ++ t) ≡ (is_empty s && is_empty t)
is_empty-append [] t = refl
is_empty-append (c ∷ s) t = refl

remainder-filled :
    (tag : BridgeTag) (display : Text) (suffix : Option ℕ)
    → IsTag tag
    → is_empty (remainder tag display suffix) ≡ false
unfolding suffix_text prefix_len
remainder-filled tag display none v =
    let room : 0 < budget tag none = omega (arith, v.short) in
    let stem = take (budget tag none) (sanitize_remote_name display) in
    ground (
      arith,
      is_empty-append stem [],
      take-filled (budget tag none) (sanitize_remote_name display) room (sanitize-filled display),
    )
remainder-filled tag display (some n) v =
    let stem = take (budget tag (some n)) (sanitize_remote_name display) in
    ground (arith, is_empty-append stem (suffix_text (some n)))

module _ (tag : BridgeTag) (v : IsTag tag) (display : Text) (suffix : Option ℕ) where
  remainder-length : length (remainder tag display suffix) + prefix_len tag ≤ max_name
  unfolding prefix_len
  remainder-length = omega (
    arith,
    length-append (take (budget tag suffix) (sanitize_remote_name display)) (suffix_text suffix),
    length-take (budget tag suffix) (sanitize_remote_name display),
    length-suffix-le suffix,
    v.short,
  )

  remainder-safe : all is_safe (remainder tag display suffix) ≡ true
  remainder-safe =
      all-append is_safe (take (budget tag suffix) (sanitize_remote_name display))
        (suffix_text suffix)
      ∙ ground (
        arith,
        take-all is_safe (budget tag suffix) (sanitize_remote_name display) (sanitize-safe display),
        suffix-safe suffix,
      )

-- The name of a remote user, whatever the remote display name holds: it fits the length of a
-- Battle.net name, and every character is printable ASCII and no space. The tag is one that
-- `BridgeTag::new` gives, and the suffix is any number or none.
pub derive_name-fits :
    (raw : Text) (tag : BridgeTag) (display : Text) (suffix : Option ℕ)
    → new_tag raw ≡ ok tag
    → (byte_len (derive_name tag display suffix) ≤ max_name)
      × (all is_safe (derive_name tag display suffix) ≡ true)
unfolding prefix_len
derive_name-fits raw tag display suffix h =
    let v = new_tag-IsTag raw tag h in
    let rest = remainder tag display suffix in
    let letters = alphanumeric_safe tag.as_str v.letters in
    let safe : all is_safe (tag.as_str ++ separator ∷ rest) ≡ true =
      all-append is_safe tag.as_str (separator ∷ rest)
      ∙ ground (arith, letters, remainder-safe tag v display suffix) in
    rw (derive_name-remainder tag display suffix) (
      omega (
        arith,
        byte_len-safe (tag.as_str ++ separator ∷ rest) safe,
        length-append tag.as_str (separator ∷ rest),
        byte_len-safe tag.as_str letters,
        remainder-length tag v display suffix,
      ),
      safe,
    )

-- A derived name is recognised as bridged and leads back to its tag, so that it is reserved.
pub is_bridged_name-derive_name :
    (raw : Text) (tag : BridgeTag) (display : Text) (suffix : Option ℕ)
    → new_tag raw ≡ ok tag
    → (is_bridged_name (derive_name tag display suffix) ≡ some tag)
      × (name_is_reserved_for_bridges (derive_name tag display suffix) ≡ true)
unfolding is_bridged_name name_is_reserved_for_bridges
is_bridged_name-derive_name raw tag display suffix h =
    let v = new_tag-IsTag raw tag h in
    let rest = remainder tag display suffix in
    rw (derive_name-remainder tag display suffix) (
      rw (split_once-tag tag.as_str rest v.letters, remainder-filled tag display suffix v, v.again)
          refl,
      any-after tag.as_str rest,
    )
  where
    any-after : (s rest : Text) → any (λ c. c == separator) (s ++ separator ∷ rest) ≡ true
    any-after [] rest = ground arith
    any-after (c ∷ s) rest = ground (arith, any-after s rest)
