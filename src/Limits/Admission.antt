-- ===== src/Limits/Admission.antt =====
-- `AdmissionTable` (crates/bnetcc-core/src/limits.rs): the live connections of a node, counted by
-- class and address, by class and account, and by class. The counters are `u32`, which wrap
-- around when they are added to.
pub mod Counts
pub mod Admit
pub mod History
pub mod Accounts
mod Tests
use bnet_command_center.Base.{
  ℕ, ◌+◌, ◌-◌, ◌%◌, Option, none, some, Bool, true, false, not, ◌&&◌, ◌||◌, List, [], ◌∷◌, length,
  leb, ◌==◌, if◌then◌else◌, ite, get_or, is_some, Result, ok, err, ℕ_discrete, u32_mod,
}
use bnet_command_center.Base.Map
use bnet_command_center.Client.{ClientClass, ClientClass-discrete, IpAddr, IpAddr-discrete}
use bnet_command_center.Policy.{ConnLimits}

pub data Rejection : Type 0 where
  per_ip per_account global : ℕ → Rejection

pub PerIp-discrete : Discrete (ClientClass × IpAddr)
PerIp-discrete = hlevel (ClientClass-discrete, IpAddr-discrete)

pub PerAccount-discrete : Discrete (ClientClass × ℕ)
PerAccount-discrete = hlevel (ClientClass-discrete, ℕ_discrete)

pub record AdmissionTable : Type 0 where
  pub by_ip : List ((ClientClass × IpAddr) × ℕ)
  pub by_account : List ((ClientClass × ℕ) × ℕ)
  pub by_class : List (ClientClass × ℕ)
  pub total : ℕ
  pub allowlist : List IpAddr

pub new : AdmissionTable
new = record { by_ip = []; by_account = []; by_class = []; total = 0; allowlist = [] }

pub set_allowlist : AdmissionTable → List IpAddr → AdmissionTable
set_allowlist t ips = record t { allowlist = ips }

pub ip_count : AdmissionTable → ClientClass → IpAddr → ℕ
ip_count t class ip = get_or (Map.get PerIp-discrete (class, ip) t.by_ip) 0

pub account_count : AdmissionTable → ClientClass → ℕ → ℕ
account_count t class account = get_or (Map.get PerAccount-discrete (class, account) t.by_account) 0

pub class_count : AdmissionTable → ClientClass → ℕ
class_count t class = get_or (Map.get ClientClass-discrete class t.by_class) 0

-- `*map.entry(key).or_insert(0) += 1`.
pub increment : {K : Type 0} → Discrete K → K → List (K × ℕ) → List (K × ℕ)
increment dec k m = Map.insert dec k ((get_or (Map.get dec k m) 0 + 1) % u32_mod) m

-- A counter that reaches zero is dropped; an absent one stays absent. `n - 1` is `saturating_sub`.
decrement_found : {K : Type 0} → Discrete K → K → List (K × ℕ) → Option ℕ → List (K × ℕ)
decrement_found dec k m none = m
decrement_found dec k m (some n) =
    if n - 1 == 0 then Map.remove dec k m else Map.insert dec k (n - 1) m

pub decrement : {K : Type 0} → Discrete K → K → List (K × ℕ) → List (K × ℕ)
unfolding decrement_found
decrement dec k m = decrement_found dec k m (Map.get dec k m)

abbrev pub listed : IpAddr → List IpAddr → Bool
listed ip [] = false
listed ip (x ∷ xs) = ite (IpAddr-discrete x ip) true (listed ip xs)

pub would_admit : AdmissionTable → ClientClass → IpAddr → ConnLimits → Result (Unit {0}) Rejection
would_admit t class ip limits =
    if leb limits.global (class_count t class)
    then err (global limits.global)
    else (if not (listed ip t.allowlist) && leb limits.per_ip (ip_count t class ip)
        then err (per_ip limits.per_ip)
        else ok tt)

pub add : AdmissionTable → ClientClass → IpAddr → AdmissionTable
add t class ip = record t {
  by_ip = increment PerIp-discrete (class, ip) t.by_ip;
  by_class = increment ClientClass-discrete class t.by_class;
  total = (t.total + 1) % u32_mod;
}

-- `remove`, which is also the whole of `release`.
pub remove : AdmissionTable → ClientClass → IpAddr → AdmissionTable
remove t class ip = record t {
  by_ip = decrement PerIp-discrete (class, ip) t.by_ip;
  by_class = decrement ClientClass-discrete class t.by_class;
  total = t.total - 1;
}

abbrev pub release : AdmissionTable → ClientClass → IpAddr → AdmissionTable
release = remove

-- The table afterwards, and the result: a refusal leaves the table alone.
abbrev admitted :
    AdmissionTable
    → AdmissionTable
    → Result (Unit {0}) Rejection
    → AdmissionTable × Result (Unit {0}) Rejection
admitted t t' (ok _) = (t', ok tt)
admitted t t' (err e) = (t, err e)

pub admit :
    AdmissionTable
    → ClientClass
    → IpAddr
    → ConnLimits
    → AdmissionTable × Result (Unit {0}) Rejection
admit t class ip limits = admitted t (add t class ip) (would_admit t class ip limits)

pub reclassify :
    AdmissionTable
    → IpAddr
    → ClientClass
    → ClientClass
    → ConnLimits
    → AdmissionTable × Result (Unit {0}) Rejection
reclassify t ip from to limits =
    ite (ClientClass-discrete from to) (t, ok tt)
      (admitted t (add (remove t from ip) to ip) (would_admit t to ip limits))

pub bind_account :
    AdmissionTable → ClientClass → ℕ → ConnLimits → AdmissionTable × Result (Unit {0}) Rejection
bind_account t class account limits =
    if leb limits.per_account (account_count t class account)
    then (t, err (per_account limits.per_account))
    else (
      record t { by_account = increment PerAccount-discrete (class, account) t.by_account },
      ok tt,
    )

pub release_account : AdmissionTable → ClientClass → ℕ → AdmissionTable
release_account t class account = record t {
  by_account = decrement PerAccount-discrete (class, account) t.by_account;
}

pub tracked_entries : AdmissionTable → ℕ
tracked_entries t = length t.by_ip
