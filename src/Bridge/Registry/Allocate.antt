-- ===== src/Bridge/Registry/Allocate.antt =====
-- The name that a reported user gets, and what `upsert` does with it.
use bnet_command_center.Base.{
  ℕ, ℕ_discrete, zero, suc, ◌+◌, ◌≤◌, ◌<◌, ◌≡◌, ◌≢◌, ◌⊎◌, refl, sym, subst, ap, ◌∙◌, Option, none,
  some, true, false, ite, if_pos, if◌then◌else◌, is_empty, Result, ok, arith, inl, inr, Bool-cases,
}
use bnet_command_center.Base.Map
use bnet_command_center.Bridge.{BridgeError, derive_name}
use bnet_command_center.Bridge.Registry.{
  BridgedUser, BridgeRegistry, Upsert, added, renamed, unchanged, by_remote_id, by_name, as_ok,
  upsert_named, is_free, try_suffixes, allocate_name, upsert,
}
use bnet_command_center.Text.{Text, Text-discrete, text_eq, text_eq_refl, text_eq→eq}
use bnet_command_center.Bridge.Registry.Valid.{IsValid, upsert-IsValid, by_name-present}

-- The suffix of a free name, with no free one before it from `n` on.
abbrev Suffix : BridgeRegistry → Text → Text → ℕ → ℕ → Text → Type 0
Suffix r id display n bound name =
    (k : ℕ) × (n ≤ k)
    × (k < bound)
    × (name ≡ derive_name r.tag display (some k))
    × (is_free r id name ≡ true)
    × ((m : ℕ) → n ≤ m → m < k → is_free r id (derive_name r.tag display (some m)) ≡ false)

-- The loop finds the first free suffix if it passes one.
try_suffixes-Suffix :
    (r : BridgeRegistry) (display id : Text) (left n m : ℕ)
    → n ≤ m
    → m < n + left
    → is_free r id (derive_name r.tag display (some m)) ≡ true
    → Suffix r id display n (n + left) (try_suffixes r display id left n)
unfolding try_suffixes
try_suffixes-Suffix r display id zero n m l h f = absurd (omega arith)
try_suffixes-Suffix r display id (suc left) n m l h f =
    elim (Bool-cases (is_free r id (derive_name r.tag display (some n)))) [
      | inl free ↦
          rw (free, try_suffixes)
            (n, omega arith, omega arith, refl, free, λ j a b. absurd (omega arith))
      | inr taken ↦
          let ne : n ≢ m = λ e.
            ground (arith, ap (λ (k : ℕ). is_free r id (derive_name r.tag display (some k))) e) in
          let ih =
            try_suffixes-Suffix r display id left (n + 1) m (omega (arith, ne)) (omega arith) f in
          rw (taken, try_suffixes)
            (
              ih.0,
              omega (arith, ih.1),
              omega (arith, ih.2),
              ih.3,
              ih.4,
              λ j a b. elim (ℕ_discrete n j) [
                | yes e ↦
                    ap (λ (k : ℕ). is_free r id (derive_name r.tag display (some k))) (sym e)
                    ∙ taken
                | no e ↦ ih.5 j (omega (arith, e)) b
              ],
            )
    ]

-- The name of a user: the one derived from its display name if that is free, and else the one with
-- the first free suffix.
abbrev pub IsFirstFree : BridgeRegistry → Text → Text → Text → Type 0
IsFirstFree r id display name =
    let plain = derive_name r.tag display none in
    ((is_free r id plain ≡ true) × (name ≡ plain))
    ⊎ ((is_free r id plain ≡ false) × Suffix r id display 2 100 name)

allocate_name-IsFirstFree :
    (r : BridgeRegistry) (id display : Text) (suffix : ℕ)
    → 2 ≤ suffix
    → suffix ≤ 99
    → is_free r id (derive_name r.tag display (some suffix)) ≡ true
    → IsFirstFree r id display (allocate_name r display id)
unfolding allocate_name
allocate_name-IsFirstFree r id display suffix low high f =
    elim (Bool-cases (is_free r id (derive_name r.tag display none))) [
      | inl free ↦
          let e : allocate_name r display id ≡ derive_name r.tag display none =
            rw (allocate_name, free) refl in
          inl (free, e)
      | inr taken ↦
          let e : try_suffixes r display id 98 2 ≡ allocate_name r display id =
            rw (allocate_name, taken) refl in
          inr (
            taken,
            subst (Suffix r id display 2 100) e
                (try_suffixes-Suffix r display id 98 2 suffix low (omega arith) f),
          )
    ]

free_of_IsFirstFree :
    (r : BridgeRegistry) (id display name : Text)
    → IsFirstFree r id display name
    → is_free r id name ≡ true
free_of_IsFirstFree r id display name (inl (free, e)) = ap (is_free r id) e ∙ free
free_of_IsFirstFree r id display name (inr (taken, (k, a, b, e, free, before))) = free

-- What is reported of a user, by what was known of it.
abbrev pub outcome : Option BridgedUser → BridgedUser → Upsert
outcome none u = added u
outcome (some prev) u = if text_eq prev.name u.name then unchanged u else renamed u prev.name

abbrev pub account_or : Option BridgedUser → ℕ → ℕ
account_or none account = account
account_or (some prev) account = prev.account

-- The user stands in the registry under its id, and nobody else has changed.
abbrev pub Entered :
    BridgeRegistry → Text → ℕ → BridgedUser → BridgeRegistry × Result Upsert BridgeError → Type 0
Entered r id account u (r', result) =
    (u.remote_id ≡ id)
    × (u.account ≡ account_or (by_remote_id r id) account)
    × (result ≡ ok (outcome (by_remote_id r id) u))
    × ((j : Text) → by_remote_id r' j ≡ ite (Text-discrete id j) (some u) (by_remote_id r j))

get-same :
    (r : BridgeRegistry) (id : Text) (u : BridgedUser) (j : Text)
    → by_remote_id r id ≡ some u
    → by_remote_id r j ≡ ite (Text-discrete id j) (some u) (by_remote_id r j)
get-same r id u j e = elim (Text-discrete id j) [
  | yes same ↦ let h = ap (by_remote_id r) (sym same) ∙ e in ground (arith, h)
  | no apart ↦ ground (arith, apart)
]

upsert_named-Entered :
    (r : BridgeRegistry) (id : Text) (account : ℕ) (name : Text) (o : Option BridgedUser)
    → IsValid r
    → by_remote_id r id ≡ o
    → (u : BridgedUser) × (u.name ≡ name)
      × Entered r id account u (as_ok (upsert_named r id account name o))
unfolding by_remote_id
upsert_named-Entered r id account name none v e =
    let u : BridgedUser = record { account = account; remote_id = id; name = name } in
    rw e (u, refl, (refl, refl, refl, λ j. Map.get-insert Text-discrete id j u r.by_remote))
upsert_named-Entered r id account name (some prev) v e =
    let u : BridgedUser = record { account = prev.account; remote_id = id; name = name } in
    elim (Bool-cases (text_eq prev.name name)) [
      | inl same ↦
          let own = text_eq→eq prev.name name same in
          rw (same, e)
            (
              prev,
              own,
              (
                v.keyed id prev e,
                refl,
                rw (text_eq_refl prev.name) refl,
                λ j. get-same r id prev j e,
              ),
            )
      | inr other ↦
          rw (other, e)
            (
              u,
              refl,
              (refl, refl, rw other refl, λ j. Map.get-insert Text-discrete id j u r.by_remote),
            )
    ]

-- A user with an id whom a bridge reports to a valid registry gets the name derived from its display
-- name if nobody else holds that, and else the one with the first free suffix, if one of the suffixes
-- 2 to 99 is free. It keeps its account, or a new one gets the account that is given; it stands in the
-- registry under its id and is found by that name, and every other user is as before; the result says
-- whether it is new, renamed from the name it had, or unchanged; and the two maps stay in agreement.
pub upsert-suffix :
    (r : BridgeRegistry) (id display : Text) (account suffix : ℕ)
    → IsValid r
    → is_empty id ≡ false
    → 2 ≤ suffix
    → suffix ≤ 99
    → is_free r id (derive_name r.tag display (some suffix)) ≡ true
    → (u : BridgedUser) × IsFirstFree r id display u.name
      × Entered r id account u (upsert r id display account)
      × (by_name (upsert r id display account).0 u.name ≡ some u)
      × IsValid (upsert r id display account).0
unfolding upsert by_remote_id
upsert-suffix r id display account suffix v filled low high f =
    let name = allocate_name r display id in
    let first = allocate_name-IsFirstFree r id display suffix low high f in
    let valid =
      upsert-IsValid r id display account v (free_of_IsFirstFree r id display name first) in
    let (u, named, there) = upsert_named-Entered r id account name (by_remote_id r id) v refl in
    let run : upsert r id display account
        ≡ as_ok (upsert_named r id account name (by_remote_id r id)) =
      rw (upsert, filled) refl in
    let entered : Entered r id account u (upsert r id display account) =
      subst (Entered r id account u) (sym run) there in
    let listed : by_remote_id (upsert r id display account).0 id ≡ some u =
      entered.3 id ∙ if_pos (Text-discrete id id) refl (some u) (by_remote_id r id) in
    (
      u,
      subst (IsFirstFree r id display) (sym named) first,
      entered,
      by_name-present (upsert r id display account).0 id u u.name valid listed refl,
      valid,
    )
