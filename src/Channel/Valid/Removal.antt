-- ===== src/Channel/Valid/Removal.antt =====
-- Removing a member keeps the invariant (`remove_at`).
use bnet_command_center.Base.{
  ℕ, ◌≤◌, ◌≡◌, ◌≢◌, refl, sym, ap, ◌∙◌, none, some, true, false, not, ◌||◌, List, [], ◌∷◌, ◌++◌,
  ◌==◌, length, find, retain, All, arith, inl, inr, Option-cases, Bool-cases,
}
use bnet_command_center.Base.Set
use bnet_command_center.Channel.{
  Channel, Member, flag_first, position_by_account, has_account, set_operator_flag, holds, succeed,
  remove_at,
}
use bnet_command_center.Channel.Valid.{IsValid}
use bnet_command_center.Channel.Roster.{
  position-split, All-append, All-left, All-right, Distinct, Distinct-remove, Distinct-replace,
  has_account-append, has_account-replace, length-split, length-replace, Shows, contains-retain,
  find-some, find-nil,
}

-- Flagging the first session of an account changes no account, no name and no length, and the flag
-- is shown by that account and by whoever showed it.
pub flag_first-has_account :
    (ms : List Member) (h a : ℕ)
    → has_account a (flag_first (position_by_account ms h) ms) ≡ has_account a ms
flag_first-has_account ms h a = elim (Option-cases (position_by_account ms h)) [
  | inl e ↦ rw (e, flag_first)
  | inr ((before, m, after), e) ↦
      let (split, _) = position-split (λ m. m.account == h) ms before m after e in
      rw (e, flag_first)
        (has_account-replace before m (record m { flags = set_operator_flag m.flags }) after a refl
          ∙ ap (has_account a) (sym split))
]

flag_first-length :
    (ms : List Member) (h : ℕ) → length (flag_first (position_by_account ms h) ms) ≡ length ms
flag_first-length ms h = elim (Option-cases (position_by_account ms h)) [
  | inl e ↦ rw (e, flag_first)
  | inr ((before, m, after), e) ↦
      let (split, _) = position-split (λ m. m.account == h) ms before m after e in
      rw (e, flag_first)
        (length-replace before m (record m { flags = set_operator_flag m.flags }) after
          ∙ ap length (sym split))
]

flag_first-Distinct :
    (ms : List Member) (h : ℕ) → Distinct ms → Distinct (flag_first (position_by_account ms h) ms)
flag_first-Distinct ms h d = elim (Option-cases (position_by_account ms h)) [
  | inl e ↦ rw (e, flag_first) d
  | inr ((before, m, after), e) ↦
      let (split, _) = position-split (λ m. m.account == h) ms before m after e in
      rw (e, flag_first)
        (Distinct-replace before m (record m { flags = set_operator_flag m.flags }) after refl
          (rw split at d))
]

-- Where nobody may show the flag, only the operator does, whoever that is.
pub weaken-Shows : (h : ℕ) (xs : List Member) → All (Shows none) xs → All (Shows (some h)) xs
weaken-Shows h [] p = tt
weaken-Shows h (x ∷ xs) p = (λ f. absurd (ground arith), weaken-Shows h xs p.1)

-- If nobody shows the flag, then afterwards only the flagged account does.
flag_first-Shows :
    (ms : List Member) (h : ℕ)
    → All (Shows none) ms
    → All (Shows (some h)) (flag_first (position_by_account ms h) ms)
flag_first-Shows ms h s = elim (Option-cases (position_by_account ms h)) [
  | inl e ↦ rw (e, flag_first) (weaken-Shows h ms s)
  | inr ((before, m, after), e) ↦
      let (split, hit) = position-split (λ m. m.account == h) ms before m after e in
      let s' : All (Shows none) (before ++ m ∷ after) = rw split at s in
      rw (e, flag_first)
        (All-append (Shows (some h)) before (record m { flags = set_operator_flag m.flags } ∷ after)
          (weaken-Shows h before (All-left (Shows none) before (m ∷ after) s'))
          (
            λ _. ground arith,
            weaken-Shows h after (All-right (Shows none) before (m ∷ after) s').1,
          ))
]

-- With the operator's account gone nobody shows the flag.
gone-Shows :
    (ms : List Member) (a : ℕ)
    → has_account a ms ≡ false
    → All (Shows (some a)) ms
    → All (Shows none) ms
gone-Shows [] a e s = tt
gone-Shows (m ∷ ms) a e s = (λ f. ground arith, gone-Shows ms a (ground arith) s.1)

pub has_account-split :
    (before : List Member) (m : Member) (after : List Member) (a : ℕ)
    → has_account a (before ++ m ∷ after) ≡ (m.account == a || has_account a (before ++ after))
has_account-split before m after a =
    ground (arith, has_account-append a before (m ∷ after), has_account-append a before after)

module _ (c : Channel) (before : List Member) (m : Member) (after : List Member)
    (roster : c.members ≡ before ++ m ∷ after) (v : IsValid c) where
  present : (a : ℕ) → has_account a c.members ≡ (m.account == a || has_account a (before ++ after))
  present a = ap (has_account a) roster ∙ has_account-split before m after a

  rest-capacity : c.max_users ≢ 0 → length (before ++ after) ≤ c.max_users
  rest-capacity h = omega (arith, v.capacity h, ap length roster, length-split before m after)

  rest-Distinct : Distinct (before ++ after)
  rest-Distinct = Distinct-remove before m after (rw roster at v.distinct)

  rest-Shows : All (Shows c.operator) (before ++ after)
  rest-Shows =
      let s : All (Shows c.operator) (before ++ m ∷ after) = rw roster at v.flagged in
      All-append (Shows c.operator) before after (All-left (Shows c.operator) before (m ∷ after) s)
        (All-right (Shows c.operator) before (m ∷ after) s).1

  -- The heirs who are left when the account is gone are present.
  heirs_left : List ℕ
  heirs_left = retain (λ h. not (h == m.account)) c.heirs

  heirs_left-present :
      (h : ℕ) → Set.contains h heirs_left ≡ true → has_account h (before ++ after) ≡ true
  unfolding heirs_left
  heirs_left-present h e =
      ground (arith, contains-retain m.account h c.heirs, v.heirs_present h, present h)

  -- The account has another session.
  stays-IsValid :
      has_account m.account (before ++ after) ≡ true → IsValid (remove_at c (before, m, after)).0
  unfolding remove_at
  stays-IsValid still =
      rw (still, remove_at)
        (record {
          operator_present = λ a e. ground (arith, v.operator_present a e, present a);
          heirs_present = λ h e. ground (arith, v.heirs_present h e, present h);
          leaderless = v.leaderless;
          not_heir = v.not_heir;
          capacity = rest-capacity;
          distinct = rest-Distinct;
          flagged = rest-Shows;
        })

  -- The account is gone and was not operator.
  goes-IsValid :
      has_account m.account (before ++ after) ≡ false
      → holds c.operator m.account ≡ false
      → IsValid (remove_at c (before, m, after)).0
  unfolding remove_at heirs_left
  goes-IsValid gone other =
      rw (gone, other, remove_at)
        (record {
          operator_present = λ a e. ground (arith, v.operator_present a e, present a);
          heirs_present = heirs_left-present;
          leaderless = λ e. rw (v.leaderless e);
          not_heir = λ a e. ground (arith, contains-retain m.account a c.heirs, v.not_heir a e);
          capacity = rest-capacity;
          distinct = rest-Distinct;
          flagged = rest-Shows;
        })

  operator_is : holds c.operator m.account ≡ true → c.operator ≡ some m.account
  operator_is e = ground arith

  nobody-Shows :
      has_account m.account (before ++ after) ≡ false
      → holds c.operator m.account ≡ true
      → All (Shows none) (before ++ after)
  nobody-Shows gone led =
      gone-Shows (before ++ after) m.account gone (rw (operator_is led) at rest-Shows)

  -- The operator's account is gone and no heir is left.
  vacated-IsValid :
      has_account m.account (before ++ after) ≡ false
      → holds c.operator m.account ≡ true
      → find (λ h. has_account h (before ++ after)) heirs_left ≡ none
      → IsValid (remove_at c (before, m, after)).0
  unfolding remove_at heirs_left
  vacated-IsValid gone led unled =
      rw (gone, led, remove_at, unled, succeed, gone)
        (record {
          operator_present = λ a e. cc;
          heirs_present = heirs_left-present;
          leaderless = λ e.
              find-nil (λ h. has_account h (before ++ after)) heirs_left heirs_left-present unled;
          not_heir = λ a e. cc;
          capacity = rest-capacity;
          distinct = rest-Distinct;
          flagged = nobody-Shows gone led;
        })

  -- The operator's account is gone and this heir inherits.
  inherited-IsValid :
      (h : ℕ)
      → has_account m.account (before ++ after) ≡ false
      → holds c.operator m.account ≡ true
      → find (λ h. has_account h (before ++ after)) heirs_left ≡ some h
      → IsValid (remove_at c (before, m, after)).0
  unfolding remove_at heirs_left
  inherited-IsValid h gone led heir =
      let ms = before ++ after in
      let (here, _) = find-some (λ h. has_account h ms) heirs_left h heir in
      rw (gone, led, remove_at, heir, succeed)
        (record {
          operator_present = λ a e. flag_first-has_account ms h a ∙ ground arith;
          heirs_present = λ k e.
              flag_first-has_account ms h k
              ∙ ground (arith, contains-retain h k heirs_left, heirs_left-present k);
          leaderless = λ e. cc;
          not_heir = λ a e. ground (arith, contains-retain h a heirs_left);
          capacity = λ k. rw (flag_first-length ms h) (rest-capacity k);
          distinct = flag_first-Distinct ms h rest-Distinct;
          flagged = flag_first-Shows ms h (nobody-Shows gone led);
        })

  pub remove_at-IsValid : IsValid (remove_at c (before, m, after)).0
  unfolding heirs_left
  remove_at-IsValid = elim (Bool-cases (has_account m.account (before ++ after))) [
    | inl still ↦ stays-IsValid still
    | inr gone ↦ elim (Bool-cases (holds c.operator m.account)) [
      | inr other ↦ goes-IsValid gone other
      | inl led ↦ elim (Option-cases (find (λ h. has_account h (before ++ after)) heirs_left)) [
        | inl unled ↦ vacated-IsValid gone led unled
        | inr (h, heir) ↦ inherited-IsValid h gone led heir
      ]
    ]
  ]
