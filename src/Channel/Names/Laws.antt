-- ===== src/Channel/Names/Laws.antt =====
-- What the channel-name conventions guarantee.
use bnet_command_center.Base.{
  ℕ, ◌≤◌, ◌≡◌, refl, ap, sym, ◌∙◌, inl, inr, Option, none, some, Bool, true, false, ltb, all,
  length, arith, Bool-cases, is_some,
}
use bnet_command_center.Channel.Names.{
  classify_lower, classify_name, split_bytes, Named, panics, unnamed, named, after_prefix,
  try_prefix, designated_op_name, op_grant_for_name,
}
use bnet_command_center.Text.{
  Text, to_lower, lowercase, trim, starts_with, same_text_iff, codes, utf8_len, byte_len,
}
use bnet_command_center.Channel.Names.Cuts.{prefix-split, prefix-cut, rest_named}

abbrev is_panic : Named → Bool
is_panic panics = true
is_panic _ = false

after_prefix-safe :
    (p : Text) (o : Option (Text × Text)) (otherwise : Named)
    → is_some o ≡ true
    → is_panic otherwise ≡ false
    → is_panic (after_prefix p o otherwise) ≡ false
after_prefix-safe p none otherwise h k = cc
after_prefix-safe p (some (a, b)) otherwise h k = ground arith

try_prefix-safe :
    (p t : Text) (otherwise : Named)
    → is_some (split_bytes (byte_len p) t) ≡ true
    → is_panic otherwise ≡ false
    → is_panic (try_prefix p t otherwise) ≡ false
unfolding try_prefix
try_prefix-safe p t otherwise h k =
    ground (arith, after_prefix-safe p (split_bytes (byte_len p) t) otherwise h k)

-- A prefix that the name starts with and does not end with is found.
try_prefix-named :
    (p s : Text) (otherwise : Named)
    → all (λ k. ltb k 128) p ≡ true
    → lowercase p ≡ p
    → byte_len p ≡ length p
    → starts_with p (lowercase (trim s)) ≡ true
    → ltb (byte_len p) (byte_len (trim s)) ≡ true
    → (r : Text) × (try_prefix p (trim s) otherwise ≡ named r)
unfolding try_prefix
try_prefix-named p s otherwise a low size h longer =
    let (head, rest, cut, same) = prefix-cut p (trim s) a h in
    let cut' = rw (← size) at cut in
    let filled = rest_named s head rest (byte_len p) cut' (ground arith) in
    let agrees = (same_text_iff head p).1 (same ∙ sym low) in (trim rest, ground arith)

designated-op :
    (s : Text)
    → starts_with (codes "op ") (lowercase (trim s)) ≡ true
    → is_panic (designated_op_name s) ≡ false
unfolding designated_op_name byte_len utf8_len lowercase to_lower
designated-op s h =
    let t = trim s in
    let otherwise = try_prefix (codes "clan ") t unnamed in
    elim (Bool-cases (ltb 3 (byte_len t))) [
      | inl longer ↦
          let (r, e) = try_prefix-named (codes "op ") s otherwise refl refl refl h longer in
          ap is_panic e
      | inr short ↦ unfold try_prefix in ground arith
    ]

designated-clan :
    (s : Text)
    → starts_with (codes "clan ") (lowercase (trim s)) ≡ true
    → is_panic (designated_op_name s) ≡ false
unfolding designated_op_name byte_len utf8_len
designated-clan s h =
    let t = trim s in
    let cut = λ (n : ℕ) (l : n ≤ 5). prefix-split (codes "clan ") t n refl h l in
    try_prefix-safe (codes "op ") t (try_prefix (codes "clan ") t unnamed) (cut 3 (omega arith))
      (try_prefix-safe (codes "clan ") t unnamed (cut 5 (omega arith)) refl)

-- `op_grant_for_name` never panics: whatever the name of the channel, the slices of
-- `designated_op_name` end between two characters, also in a name with characters of several bytes.
pub op_grant_for_name-total :
    (display : Text) (auto_op_private : Bool)
    → is_some (op_grant_for_name display auto_op_private) ≡ true
unfolding op_grant_for_name classify_name classify_lower
op_grant_for_name-total display auto_op_private =
    ground (arith, designated-op display, designated-clan display)
