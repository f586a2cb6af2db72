-- ===== src/Storage/Schema/Longest.antt =====
-- The rule in force for a key is the one set last for its longest governing prefix.
use bnet_command_center.Base.{
  ℕ, ◌≤◌, ◌<◌, ◌≡◌, ◌⊎◌, inl, inr, refl, sym, ap, subst, ◌∙◌, Option, none, some, Bool-cases, true,
  not, List, [], ◌∷◌, ◌++◌, All, retain, ltb, ite, arith,
}
use bnet_command_center.Base.Map
use bnet_command_center.Text.{Text, Text-discrete, byte_len, text_eq, text_eq_refl, text_eq→eq}
use bnet_command_center.Storage.Schema.{
  Acl, AttrSchema, new_key, empty_schema, insert_rule, sort_rules, set, governs, first_rule, acl_of,
}

abbrev pub Rules : Type 0
Rules = List (Text × Acl)

-- The rule of a prefix itself.
abbrev pub rule_of : Rules → Text → Option Acl
rule_of rules p = Map.get Text-discrete p rules

-- Every prefix is as long as those after it.
abbrev Sorted : Rules → Type 0
Sorted [] = Unit {0}
Sorted (r ∷ rules) = All (λ s. byte_len s.0 ≤ byte_len r.0) rules × Sorted rules

insert-All :
    (n : ℕ) (r : Text × Acl) (rules : Rules)
    → byte_len r.0 ≤ n
    → All (λ s. byte_len s.0 ≤ n) rules
    → All (λ s. byte_len s.0 ≤ n) (insert_rule r rules)
unfolding insert_rule
insert-All n r [] le h = (le, tt)
insert-All n r (s ∷ rules) le h = elim (Bool-cases (ltb (byte_len r.0) (byte_len s.0))) [
  | inl e ↦ rw e (h.0, insert-All n r rules le h.1)
  | inr e ↦ rw e (le, h)
]

All-weaker :
    (n m : ℕ) (rules : Rules)
    → n ≤ m
    → All (λ s. byte_len s.0 ≤ n) rules
    → All (λ s. byte_len s.0 ≤ m) rules
All-weaker n m [] le h = tt
All-weaker n m (s ∷ rules) le h = (omega (arith, h.0), All-weaker n m rules le h.1)

insert-Sorted : (r : Text × Acl) (rules : Rules) → Sorted rules → Sorted (insert_rule r rules)
unfolding insert_rule
insert-Sorted r [] h = (tt, tt)
insert-Sorted r (s ∷ rules) h = elim (Bool-cases (ltb (byte_len r.0) (byte_len s.0))) [
  | inl e ↦ rw e (insert-All (byte_len s.0) r rules (ground arith) h.0, insert-Sorted r rules h.1)
  | inr e ↦
      let le : byte_len s.0 ≤ byte_len r.0 = ground arith in
      rw e ((le, All-weaker (byte_len s.0) (byte_len r.0) rules le h.0), h)
]

sort-Sorted : (rules : Rules) → Sorted (sort_rules rules)
unfolding sort_rules
sort-Sorted [] = tt
sort-Sorted (r ∷ rules) = insert-Sorted r (sort_rules rules) (sort-Sorted rules)

rule_of-insert :
    (p : Text) (r : Text × Acl) (rules : Rules)
    → rule_of (insert_rule r rules) p ≡ rule_of (r ∷ rules) p
unfolding insert_rule Map.get
rule_of-insert p r [] = refl
rule_of-insert p r (s ∷ rules) = elim (Bool-cases (ltb (byte_len r.0) (byte_len s.0))) [
  | inl e ↦
      let apart : ¬ (r.0 ≡ s.0) = λ same.
        let shorter : byte_len r.0 < byte_len s.0 = ground arith in
        let no : ⊥ = omega (arith, ap byte_len same, shorter) in no in
      rw e (ground (arith, rule_of-insert p r rules))
  | inr e ↦ rw e
]

rule_of-sort : (p : Text) (rules : Rules) → rule_of (sort_rules rules) p ≡ rule_of rules p
unfolding sort_rules Map.get
rule_of-sort p [] = refl
rule_of-sort p (r ∷ rules) =
    rule_of-insert p r (sort_rules rules) ∙ ground (arith, rule_of-sort p rules)

rule_of-replaced :
    (p key : Text) (acl : Acl) (rules : Rules)
    → rule_of (retain (λ r. not (text_eq r.0 key)) rules ++ (key, acl) ∷ []) p
      ≡ ite (Text-discrete key p) (some acl) (rule_of rules p)
unfolding Map.get
rule_of-replaced p key acl [] = refl
rule_of-replaced p key acl (r ∷ rules) =
    ground (arith, rule_of-replaced p key acl rules, text_eq→eq r.0 key, text_eq_refl key)

pub rule_of-set :
    (p prefix : Text) (acl : Acl) (s : AttrSchema)
    → rule_of (set prefix acl s).rules p
      ≡ ite (Text-discrete (new_key prefix) p) (some acl) (rule_of s.rules p)
unfolding set
rule_of-set p prefix acl s = rule_of-sort p _ ∙ rule_of-replaced p (new_key prefix) acl s.rules

-- The access `a` is that of the longest prefix with a rule that governs the key, or the fallback
-- where there is none.
abbrev pub InForce : (Text → Option Acl) → Acl → Text → Acl → Type 0
InForce rule fallback key a =
    ((p : Text) × (governs p key ≡ true)
      × (rule p ≡ some a)
      × ((q : Text) (b : Acl) → governs q key ≡ true → rule q ≡ some b → byte_len q ≤ byte_len p))
    ⊎ ((a ≡ fallback) × ((q : Text) → governs q key ≡ true → rule q ≡ none))

-- A prefix with a rule is among the rules.
rule_of-le :
    (n : ℕ) (q : Text) (b : Acl) (rules : Rules)
    → All (λ s. byte_len s.0 ≤ n) rules
    → rule_of rules q ≡ some b
    → byte_len q ≤ n
unfolding Map.get
rule_of-le n q b [] h e = ground arith
rule_of-le n q b (s ∷ rules) h e = elim (Text-discrete s.0 q) [
  | yes same ↦ let size = ap byte_len same in omega (arith, size, h.0)
  | no apart ↦ rule_of-le n q b rules h.1 (ground arith)
]

first_rule-InForce :
    (rules : Rules) (fallback : Acl) (key : Text)
    → Sorted rules
    → InForce (rule_of rules) fallback key (first_rule rules fallback key)
unfolding first_rule Map.get
first_rule-InForce [] fallback key h = inr (refl, λ q g. refl)
first_rule-InForce (r ∷ rules) fallback key h = elim (Bool-cases (governs r.0 key)) [
  | inl e ↦ rw e (
      inl (
        r.0,
        e,
        ground arith,
        λ q b g found. rule_of-le (byte_len r.0) q b (r ∷ rules) (omega arith, h.0) found,
      ))
  | inr e ↦ rw e (elim (first_rule-InForce rules fallback key h.1) [
    | inl (p, g, found, longest) ↦
        inl (p, g, ground arith, λ q b gq fq. longest q b gq (ground arith))
    | inr (same, without) ↦ inr (same, λ q g. ground (arith, without q g))
  ])
]

-- The schema after calls of `set`, and what they say of a prefix.
unfoldable pub set_all : Rules → AttrSchema → AttrSchema
set_all [] s = s
set_all ((prefix, acl) ∷ sets) s = set_all sets (set prefix acl s)

abbrev pub last_set : Rules → (Text → Option Acl) → Text → Option Acl
last_set [] before p = before p
last_set ((prefix, acl) ∷ sets) before p =
    last_set sets (λ q. ite (Text-discrete (new_key prefix) q) (some acl) (before q)) p

last_set-agrees :
    (sets : Rules) (f g : Text → Option Acl)
    → ((p : Text) → f p ≡ g p)
    → (p : Text) → last_set sets f p ≡ last_set sets g p
last_set-agrees [] f g h p = h p
last_set-agrees ((prefix, acl) ∷ sets) f g h p = last_set-agrees sets _ _ (λ q. rw (h q)) p

rule_of-set_all :
    (sets : Rules) (s : AttrSchema) (p : Text)
    → rule_of (set_all sets s).rules p ≡ last_set sets (rule_of s.rules) p
unfolding set_all
rule_of-set_all [] s p = refl
rule_of-set_all ((prefix, acl) ∷ sets) s p =
    rule_of-set_all sets (set prefix acl s) p
    ∙ last_set-agrees sets _ _ (λ q. rule_of-set q prefix acl s) p

set_all-Sorted : (sets : Rules) (s : AttrSchema) → Sorted s.rules → Sorted (set_all sets s).rules
unfolding set_all set
set_all-Sorted [] s h = h
set_all-Sorted ((prefix, acl) ∷ sets) s h = set_all-Sorted sets (set prefix acl s) (
    sort-Sorted
      (retain (λ r. not (text_eq r.0 (new_key prefix))) s.rules ++ (new_key prefix, acl) ∷ []))

fallback-set_all : (sets : Rules) (s : AttrSchema) → (set_all sets s).fallback ≡ s.fallback
unfolding set_all set
fallback-set_all [] s = refl
fallback-set_all ((prefix, acl) ∷ sets) s = fallback-set_all sets (set prefix acl s)

InForce-agrees :
    (f g : Text → Option Acl) (fallback : Acl) (key : Text) (a : Acl)
    → ((p : Text) → f p ≡ g p)
    → InForce f fallback key a
    → InForce g fallback key a
InForce-agrees f g fallback key a same (inl (p, gov, found, longest)) =
    inl (p, gov, sym (same p) ∙ found, λ q b gq fq. longest q b gq (same q ∙ fq))
InForce-agrees f g fallback key a same (inr (e, without)) =
    inr (e, λ q gq. sym (same q) ∙ without q gq)

-- After any calls of `set` on an empty schema, the access to a key is the one that was set last for
-- the longest prefix that governs the key and has been set, or the fallback where none has.
pub acl_of-set_all :
    (sets : Rules) (fallback : Acl) (key : Text)
    → InForce
        (last_set sets (λ p. none))
        fallback
        key
        (acl_of (set_all sets (empty_schema fallback)) key)
unfolding acl_of empty_schema Map.get
acl_of-set_all sets fallback key =
    let s = set_all sets (empty_schema fallback) in
    InForce-agrees (rule_of s.rules) (last_set sets (λ p. none)) fallback key _
      (λ p. rule_of-set_all sets (empty_schema fallback) p)
      (subst (λ f. InForce (rule_of s.rules) f key (first_rule s.rules s.fallback key))
        (fallback-set_all sets (empty_schema fallback))
        (first_rule-InForce s.rules s.fallback key
          (set_all-Sorted sets (empty_schema fallback) tt)))
