-- ===== src/Limits/Admission/Admit.antt =====
-- The table refines the list of live connections: what `admit`, `release` and `reclassify` answer
-- and leave behind is told by that list.
use bnet_command_center.Base.{
  ℕ, suc, ◌+◌, ◌≤◌, ◌<◌, ◌≡◌, ◌≢◌, refl, ap, sym, ◌∙◌, Option, none, some, not, ◌&&◌, List, [], ◌∷◌,
  length, leb, if◌then◌else◌, if_pos, if_neg, arith, u32_mod, Result, ok, err, map,
}
use bnet_command_center.Base.Map
use bnet_command_center.Client.{ClientClass, ClientClass-discrete, IpAddr}
use bnet_command_center.Policy.{ConnLimits}
use bnet_command_center.Limits.Admission.Counts
use bnet_command_center.Limits.Admission.{
  Rejection, per_ip, global, PerIp-discrete, AdmissionTable, new, ip_count, class_count, listed,
  would_admit, add, remove, admit, reclassify, admitted,
}

abbrev pub Conn : Type 0
Conn = ClientClass × IpAddr

abbrev pub classes : List Conn → List ClientClass
classes = map λ c. c.0

-- The live connections of one class and address, and of one class.
abbrev pub same_conn : ClientClass → IpAddr → List Conn → ℕ
same_conn class ip = Counts.count PerIp-discrete (class, ip)

abbrev pub same_class : ClientClass → List Conn → ℕ
same_class class conns = Counts.count ClientClass-discrete class (classes conns)

abbrev pub close : Conn → List Conn → List Conn
close = Counts.erase PerIp-discrete

-- The table counts exactly these connections.
pub record Refines (t : AdmissionTable) (conns : List Conn) : Type 0 where
  pub ips : Counts.Counts PerIp-discrete t.by_ip conns
  pub kinds : Counts.Counts ClientClass-discrete t.by_class (classes conns)
  pub live : t.total ≡ length conns
  pub small : length conns < u32_mod

length-classes : (conns : List Conn) → length (classes conns) ≡ length conns
length-classes [] = refl
length-classes (c ∷ conns) = ap suc (length-classes conns)

pub same_conn-le : (c : Conn) (conns : List Conn) → same_conn c.0 c.1 conns ≤ same_class c.0 conns
same_conn-le c [] = omega arith
same_conn-le c (x ∷ conns) = ground (arith, same_conn-le c conns)

same_class-close :
    (c : Conn) (conns : List Conn) (class : ClientClass)
    → 0 < same_conn c.0 c.1 conns
    → same_class class (close c conns)
      ≡ Counts.count ClientClass-discrete class
          (Counts.erase ClientClass-discrete c.0 (classes conns))
same_class-close c [] class h = absurd (omega arith)
same_class-close c (x ∷ conns) class h = ground (
  arith,
  same_class-close c conns class,
  Counts.count-erase ClientClass-discrete c.0 class (classes conns),
  same_conn-le c conns,
)

pub same_class-close-le :
    (c : Conn) (conns : List Conn) (class : ClientClass)
    → 0 < same_conn c.0 c.1 conns
    → same_class class (close c conns) ≤ same_class class conns
same_class-close-le c conns class h = ground (
  arith,
  same_class-close c conns class h,
  Counts.count-erase ClientClass-discrete c.0 class (classes conns),
)

pub new-Refines : Refines new []
unfolding new Map.get
new-Refines = record { ips = λ k. refl; kinds = λ k. refl; live = refl; small = omega arith }

module _ (t : AdmissionTable) (conns : List Conn) (r : Refines t conns) where
  pub ip_count-Refines :
      (class : ClientClass) (ip : IpAddr) → ip_count t class ip ≡ same_conn class ip conns
  unfolding ip_count
  ip_count-Refines class ip = Counts.get_or-Counts PerIp-discrete t.by_ip conns (class, ip) r.ips

  pub class_count-Refines : (class : ClientClass) → class_count t class ≡ same_class class conns
  unfolding class_count
  class_count-Refines class =
      Counts.get_or-Counts ClientClass-discrete t.by_class (classes conns) class r.kinds

  pub add-Refines :
      (class : ClientClass) (ip : IpAddr)
      → length conns + 1 < u32_mod
      → Refines (add t class ip) ((class, ip) ∷ conns)
  unfolding add
  add-Refines class ip h = record {
    ips = Counts.increment-Counts PerIp-discrete t.by_ip conns (class, ip) r.ips h;
    kinds =
        Counts.increment-Counts ClientClass-discrete t.by_class (classes conns) class r.kinds
          (omega (arith, length-classes conns));
    live = omega (arith, r.live);
    small = omega arith;
  }

  -- Releasing a live connection takes it off the list, and changes no other count.
  pub remove-Refines :
      (class : ClientClass) (ip : IpAddr)
      → 0 < same_conn class ip conns
      → Refines (remove t class ip) (close (class, ip) conns)
  unfolding remove
  remove-Refines class ip h = record {
    ips = Counts.decrement-Counts PerIp-discrete t.by_ip conns (class, ip) r.ips h;
    kinds = λ k.
        Counts.decrement-Counts ClientClass-discrete t.by_class (classes conns) class r.kinds
          (omega (arith, same_conn-le (class, ip) conns)) k
        ∙ ap (Counts.positive ClientClass-discrete) (sym (same_class-close (class, ip) conns k h));
    live = omega (arith, r.live, Counts.length-erase PerIp-discrete (class, ip) conns h);
    small = omega (arith, r.small, Counts.length-erase PerIp-discrete (class, ip) conns h);
  }

-- Why a connection is refused, told by the live connections: the ceiling of its class first, and
-- then that of its address, unless the address is on the allowlist.
unfoldable pub refusal :
    List IpAddr → List Conn → ClientClass → IpAddr → ConnLimits → Option Rejection
refusal allow conns class ip limits =
    if leb limits.global (same_class class conns)
    then some (global limits.global)
    else (if not (listed ip allow) && leb limits.per_ip (same_conn class ip conns)
        then some (per_ip limits.per_ip)
        else none)

abbrev pub answer : Option Rejection → Result (Unit {0}) Rejection
answer none = ok tt
answer (some e) = err e

module _ (t : AdmissionTable) (conns : List Conn) (r : Refines t conns) where
  pub would_admit-refusal :
      (class : ClientClass) (ip : IpAddr) (limits : ConnLimits)
      → would_admit t class ip limits ≡ answer (refusal t.allowlist conns class ip limits)
  unfolding would_admit refusal
  would_admit-refusal class ip limits =
      ground (arith, class_count-Refines t conns r class, ip_count-Refines t conns r class ip)

-- The list of live connections after a call with this refusal, and the table and answer.
abbrev pub unless_refused : Option Rejection → List Conn → List Conn → List Conn
unless_refused none conns' conns = conns'
unless_refused (some e) conns' conns = conns

admitted-answer :
    (t t' : AdmissionTable) (conns conns' : List Conn) (o : Option Rejection)
    → Refines t conns
    → (o ≡ none → Refines t' conns')
    → ((admitted t t' (answer o)).1 ≡ answer o)
      × Refines (admitted t t' (answer o)).0 (unless_refused o conns' conns)
admitted-answer t t' conns conns' none r r' = (refl, r' refl)
admitted-answer t t' conns conns' (some e) r r' = (refl, r)

pub reclassify_eq :
    (t : AdmissionTable) (ip : IpAddr) (from to : ClientClass) (limits : ConnLimits)
    → from ≡ to
    → reclassify t ip from to limits ≡ (t, ok tt)
unfolding reclassify
reclassify_eq t ip from to limits same = if_pos (ClientClass-discrete from to) same _ _

reclassify_ne :
    (t : AdmissionTable) (ip : IpAddr) (from to : ClientClass) (limits : ConnLimits)
    → from ≢ to
    → reclassify t ip from to limits
      ≡ admitted t (add (remove t from ip) to ip) (would_admit t to ip limits)
unfolding reclassify
reclassify_ne t ip from to limits other = if_neg (ClientClass-discrete from to) other _ _

module _ (t : AdmissionTable) (conns : List Conn) (r : Refines t conns) where
  -- A table that counts the live connections answers an `admit` with the refusal that these and the
  -- allowlist call for (the ceiling of the class first, then that of the address); afterwards it
  -- counts the same connections after a refusal, and one more otherwise, if less than 2^32 - 1
  -- connections were live.
  pub admit-refusal :
      (class : ClientClass) (ip : IpAddr) (limits : ConnLimits)
      → length conns + 1 < u32_mod
      → let o = refusal t.allowlist conns class ip limits in
        ((admit t class ip limits).1 ≡ answer o)
        × Refines (admit t class ip limits).0 (unless_refused o ((class, ip) ∷ conns) conns)
  unfolding admit
  admit-refusal class ip limits h = rw (would_admit-refusal t conns r class ip limits) (
      admitted-answer t (add t class ip) conns ((class, ip) ∷ conns)
        (refusal t.allowlist conns class ip limits) r (λ _. add-Refines t conns r class ip h))

  -- `reclassify` of a live connection to another class is decided by the limits of that class; a
  -- refusal leaves the connection counted in its old class, and otherwise it has moved.
  pub reclassify-refusal :
      (ip : IpAddr) (from to : ClientClass) (limits : ConnLimits)
      → from ≢ to
      → 0 < same_conn from ip conns
      → let o = refusal t.allowlist conns to ip limits in
        ((reclassify t ip from to limits).1 ≡ answer o)
        × Refines
            (reclassify t ip from to limits).0
            (unless_refused o ((to, ip) ∷ close (from, ip) conns) conns)
  reclassify-refusal ip from to limits other h =
      let live = Counts.length-erase PerIp-discrete (from, ip) conns h in
      rw (reclassify_ne t ip from to limits other, would_admit-refusal t conns r to ip limits)
        (admitted-answer t (add (remove t from ip) to ip) conns ((to, ip) ∷ close (from, ip) conns)
          (refusal t.allowlist conns to ip limits) r
          (λ _.
            add-Refines (remove t from ip) (close (from, ip) conns)
              (remove-Refines t conns r from ip h) to ip (omega (arith, r.small, live))))
