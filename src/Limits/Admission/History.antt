-- ===== src/Limits/Admission/History.antt =====
-- Whole histories of an admission table: its ceilings hold, and nothing is left when every
-- connection is closed.
use bnet_command_center.Base.{
  ◌+◌, ◌≤◌, ◌<◌, ◌≡◌, refl, ap, ◌∙◌, subst, false, List, [], ◌∷◌, length, ite, if_pos, if_neg,
  arith, u32_mod,
}
use bnet_command_center.Client.{ClientClass, ClientClass-discrete, IpAddr}
use bnet_command_center.Policy.{ConnLimits}
use bnet_command_center.Limits.Admission.Counts
use bnet_command_center.Limits.Admission.Admit.{
  Conn, same_conn, same_class, close, Refines, new-Refines, remove-Refines, refusal, unless_refused,
  admit-refusal, reclassify-refusal, reclassify_eq, same_class-close-le, ip_count-Refines,
  class_count-Refines,
}
use bnet_command_center.Limits.Admission.{
  PerIp-discrete, AdmissionTable, new, set_allowlist, ip_count, class_count, listed, add, remove,
  admit, reclassify, tracked_entries,
}

-- What happens to the connections of a node.
pub data Event : Type 0 where
  opens : ClientClass → IpAddr → Event
  closes : ClientClass → IpAddr → Event
  turns : IpAddr → ClientClass → ClientClass → Event

module _ (limits : ClientClass → ConnLimits) (allow : List IpAddr) where
  unfoldable pub step : AdmissionTable → Event → AdmissionTable
  step t (opens class ip) = (admit t class ip (limits class)).0
  step t (closes class ip) = remove t class ip
  step t (turns ip from to) = (reclassify t ip from to (limits to)).0

  unfoldable pub run : AdmissionTable → List Event → AdmissionTable
  run t [] = t
  run t (e ∷ es) = run (step t e) es

  -- The live connections after an event.
  unfoldable pub after : List Conn → Event → List Conn
  after conns (opens class ip) =
      unless_refused (refusal allow conns class ip (limits class)) ((class, ip) ∷ conns) conns
  after conns (closes class ip) = close (class, ip) conns
  after conns (turns ip from to) = ite (ClientClass-discrete from to) conns (
      unless_refused (refusal allow conns to ip (limits to)) ((to, ip) ∷ close (from, ip) conns)
        conns)

  unfoldable pub after_all : List Conn → List Event → List Conn
  after_all conns [] = conns
  after_all conns (e ∷ es) = after_all (after conns e) es

  -- Only a live connection is closed or turned, and the number of connections fits a `u32`.
  abbrev pub IsLegal : List Conn → Event → Type 0
  IsLegal conns (opens class ip) = length conns + 1 < u32_mod
  IsLegal conns (closes class ip) = 0 < same_conn class ip conns
  IsLegal conns (turns ip from to) = 0 < same_conn from ip conns

  abbrev pub AllLegal : List Conn → List Event → Type 0
  AllLegal conns [] = Unit {0}
  AllLegal conns (e ∷ es) = IsLegal conns e × AllLegal (after conns e) es

  allowlist-step : (t : AdmissionTable) (e : Event) → (step t e).allowlist ≡ t.allowlist
  unfolding step admit reclassify add remove
  allowlist-step t (opens class ip) = ground arith
  allowlist-step t (closes class ip) = refl
  allowlist-step t (turns ip from to) = ground arith

  step-Refines :
      (t : AdmissionTable) (conns : List Conn) (e : Event)
      → Refines t conns
      → t.allowlist ≡ allow
      → IsLegal conns e
      → Refines (step t e) (after conns e)
  unfolding step after
  step-Refines t conns (opens class ip) r a h =
      subst
        (λ xs.
          Refines (admit t class ip (limits class)).0
            (unless_refused (refusal xs conns class ip (limits class)) ((class, ip) ∷ conns) conns))
        a (admit-refusal t conns r class ip (limits class) h).1
  step-Refines t conns (closes class ip) r a h = remove-Refines t conns r class ip h
  step-Refines t conns (turns ip from to) r a h = elim (ClientClass-discrete from to) [
    | yes p ↦
        rw
          (
            step,
            reclassify_eq t ip from to (limits to) p,
            after,
            if_pos (ClientClass-discrete from to) p,
          )
          r
    | no p ↦ rw (if_neg (ClientClass-discrete from to) p) (
        subst
          (λ xs. Refines (reclassify t ip from to (limits to)).0 (
            unless_refused (refusal xs conns to ip (limits to)) ((to, ip) ∷ close (from, ip) conns)
              conns))
          a (reclassify-refusal t conns r ip from to (limits to) p h).1)
  ]

  -- No class has more live connections than its ceiling, and no address that is not on the
  -- allowlist more of a class than that class allows.
  Capped : List Conn → Type 0
  Capped conns =
      ((class : ClientClass) → same_class class conns ≤ (limits class).global)
      × ((class : ClientClass) (ip : IpAddr)
          → listed ip allow ≡ false
          → same_conn class ip conns ≤ (limits class).per_ip)

  close-Capped :
      (c : Conn) (conns : List Conn)
      → 0 < same_conn c.0 c.1 conns
      → Capped conns
      → Capped (close c conns)
  unfolding Capped
  close-Capped c conns h (k, i) = (
    λ class. omega (arith, k class, same_class-close-le c conns class h),
    λ class ip l.
        ground (arith, i class ip l, Counts.count-erase PerIp-discrete c (class, ip) conns),
  )

  open-Capped :
      (class : ClientClass) (ip : IpAddr) (conns conns' : List Conn)
      → same_class class conns' ≤ same_class class conns
      → same_conn class ip conns' ≤ same_conn class ip conns
      → Capped conns
      → Capped conns'
      → Capped (
          unless_refused (refusal allow conns class ip (limits class)) ((class, ip) ∷ conns') conns)
  unfolding Capped refusal
  open-Capped class ip conns conns' hk hi c c' =
      (λ k. ground (arith, c.0 k, c'.0 k), λ k j l. ground (arith, c.1 k j l, c'.1 k j l))

  step-Capped :
      (conns : List Conn) (e : Event) → IsLegal conns e → Capped conns → Capped (after conns e)
  unfolding after
  step-Capped conns (opens class ip) h c =
      open-Capped class ip conns conns (omega arith) (omega arith) c c
  step-Capped conns (closes class ip) h c = close-Capped (class, ip) conns h c
  step-Capped conns (turns ip from to) h c = elim (ClientClass-discrete from to) [
    | yes p ↦ rw (after, if_pos (ClientClass-discrete from to) p) c
    | no p ↦ rw (if_neg (ClientClass-discrete from to) p) (
        open-Capped to ip conns (close (from, ip) conns) (same_class-close-le (from, ip) conns to h)
          (ground (arith, Counts.count-erase PerIp-discrete (from, ip) (to, ip) conns)) c
          (close-Capped (from, ip) conns h c))
  ]

  run-Refines :
      (t : AdmissionTable) (conns : List Conn) (es : List Event)
      → Refines t conns
      → t.allowlist ≡ allow
      → Capped conns
      → AllLegal conns es
      → Refines (run t es) (after_all conns es) × Capped (after_all conns es)
  unfolding run after_all
  run-Refines t conns [] r a c h = (r, c)
  run-Refines t conns (e ∷ es) r a c h =
      run-Refines (step t e) (after conns e) es (step-Refines t conns e r a h.0)
        (allowlist-step t e ∙ a) (step-Capped conns e h.0 c) h.1

  -- A new table with this allowlist, after these events.
  abbrev pub served : List Event → AdmissionTable
  served es = run (set_allowlist new allow) es

  served-Refines :
      (es : List Event)
      → AllLegal [] es
      → Refines (served es) (after_all [] es) × Capped (after_all [] es)
  unfolding set_allowlist new Capped
  served-Refines es h =
      run-Refines (set_allowlist new allow) [] es
        (record {
          ips = new-Refines.ips;
          kinds = new-Refines.kinds;
          live = refl;
          small = omega arith;
        })
        refl (λ k. omega arith, λ k i l. omega arith) h

  -- Whatever the order in which connections open, close and change class under fixed limits, from
  -- a new table on, no class counts more connections than its ceiling. Only live connections are
  -- closed or turned, and fewer than 2^32 are live.
  pub served_class_ceiling :
      (es : List Event) (class : ClientClass)
      → AllLegal [] es
      → class_count (served es) class ≤ (limits class).global
  unfolding Capped
  served_class_ceiling es class h =
      let (r, (k, i)) = served-Refines es h in
      rw (class_count-Refines (served es) (after_all [] es) r class) (k class)

  -- In such a history no address counts more connections of a class than the class allows for one
  -- address, unless the address is on the allowlist.
  pub served_ip_ceiling :
      (es : List Event) (class : ClientClass) (ip : IpAddr)
      → AllLegal [] es
      → listed ip allow ≡ false
      → ip_count (served es) class ip ≤ (limits class).per_ip
  unfolding Capped
  served_ip_ceiling es class ip h l =
      let (r, (k, i)) = served-Refines es h in
      rw (ip_count-Refines (served es) (after_all [] es) r class ip) (i class ip l)

  -- Once every connection of such a history is closed, the table is as it was: no address and no
  -- class is tracked any more, and the total is zero.
  pub served_all_closed :
      (es : List Event)
      → AllLegal [] es
      → after_all [] es ≡ []
      → (tracked_entries (served es) ≡ 0) × ((served es).by_class ≡ []) × ((served es).total ≡ 0)
  unfolding tracked_entries
  served_all_closed es h e =
      let r : Refines (served es) [] = rw e at ((served-Refines es h).0) in
      (
        ap length (Counts.nil_of_Counts PerIp-discrete (served es).by_ip r.ips),
        Counts.nil_of_Counts ClientClass-discrete (served es).by_class r.kinds,
        r.live,
      )
