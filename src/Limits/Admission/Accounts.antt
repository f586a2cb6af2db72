-- ===== src/Limits/Admission/Accounts.antt =====
-- Account bindings (`bind_account`, `release_account`).
use bnet_command_center.Base.{
  ℕ, ◌+◌, ◌<◌, ◌≡◌, refl, true, false, List, ◌∷◌, length, leb, if◌then◌else◌, u32_mod, inl, inr,
  Bool-cases, ok, err,
}
use bnet_command_center.Client.{ClientClass}
use bnet_command_center.Policy.{ConnLimits}
use bnet_command_center.Limits.Admission.Counts
use bnet_command_center.Limits.Admission.{
  per_account, PerAccount-discrete, AdmissionTable, account_count, bind_account, release_account,
}

-- The live bindings of one class and account.
abbrev pub same_account : ClientClass → ℕ → List (ClientClass × ℕ) → ℕ
same_account class account = Counts.count PerAccount-discrete (class, account)

account_count-Counts :
    (t : AdmissionTable) (bound : List (ClientClass × ℕ)) (class : ClientClass) (account : ℕ)
    → Counts.Counts PerAccount-discrete t.by_account bound
    → account_count t class account ≡ same_account class account bound
unfolding account_count
account_count-Counts t bound class account c =
    Counts.get_or-Counts PerAccount-discrete t.by_account bound (class, account) c

-- A table that counts the live bindings refuses a further one exactly when the account holds as
-- many of the class as the limits allow, and then changes nothing; otherwise it counts one more.
-- Neither touches the counts by address or class.
pub bind_account-Counts :
    (t : AdmissionTable) (bound : List (ClientClass × ℕ)) (class : ClientClass) (account : ℕ)
    (limits : ConnLimits)
    → Counts.Counts PerAccount-discrete t.by_account bound
    → length bound + 1 < u32_mod
    → let full = leb limits.per_account (same_account class account bound) in
      let (t', result) = bind_account t class account limits in
      (result ≡ (if full then err (per_account limits.per_account) else ok tt))
      × Counts.Counts PerAccount-discrete t'.by_account
          (if full then bound else (class, account) ∷ bound)
      × (t'.by_ip ≡ t.by_ip)
      × (t'.by_class ≡ t.by_class)
      × (t'.total ≡ t.total)
unfolding bind_account
bind_account-Counts t bound class account limits c h =
    let n = same_account class account bound in
    let e = account_count-Counts t bound class account c in
    elim (Bool-cases (leb limits.per_account n)) [
      | inl full ↦
          let full' : leb limits.per_account (account_count t class account) ≡ true = rw (e) full in
          rw (full, full', bind_account) (refl, c, refl, refl, refl)
      | inr free ↦
          let free' : leb limits.per_account (account_count t class account) ≡ false =
            rw (e) free in
          rw (free, free', bind_account)
            (
              refl,
              Counts.increment-Counts PerAccount-discrete t.by_account bound (class, account) c h,
              refl,
              refl,
              refl,
            )
    ]

-- Releasing a live binding counts one less, and nothing else changes.
pub release_account-Counts :
    (t : AdmissionTable) (bound : List (ClientClass × ℕ)) (class : ClientClass) (account : ℕ)
    → Counts.Counts PerAccount-discrete t.by_account bound
    → 0 < same_account class account bound
    → Counts.Counts PerAccount-discrete
        (release_account t class account).by_account
        (Counts.erase PerAccount-discrete (class, account) bound)
unfolding release_account
release_account-Counts t bound class account c h =
    Counts.decrement-Counts PerAccount-discrete t.by_account bound (class, account) c h
