-- ===== src/Session/AuthCheck/Claims.antt =====
-- The keys of a SID_AUTH_CHECK frame are claimed all or none (`auth_check`).
use bnet_command_center.Base.{
  ℕ, suc, ◌≡◌, ◌≢◌, refl, Option, none, some, true, false, ◌||◌, List, [], ◌∷◌, ◌++◌, ◌==◌,
  if◌then◌else◌, arith, ℕ_discrete,
}
use bnet_command_center.Base.Map
use bnet_command_center.Base.Set
use bnet_command_center.Limits.Keys
use bnet_command_center.Limits.Keys.{KeyRegistry, KeyVerdict}
use bnet_command_center.Session.AuthCheck.{
  passed, key_in_use, key_banned, marked, release_all, answered, claim_keys,
}

-- The holder of a key.
abbrev pub holder : KeyRegistry → ℕ → Option ℕ
holder r k = Map.get ℕ_discrete k r.active

-- `r` differs from `r₀` at most in that it holds keys of the list, which were free.
Borrowed : KeyRegistry → KeyRegistry → List ℕ → Type 0
Borrowed r₀ r ks =
    (j : ℕ)
    → (Set.contains j ks ≡ false → holder r j ≡ holder r₀ j)
      × (Set.contains j ks ≡ true → holder r₀ j ≡ none)

release_step :
    (r : KeyRegistry) (k now j : ℕ)
    → holder (Keys.release r k now) j ≡ (if k == j then none else holder r j)
unfolding Keys.release
release_step r k now j = ground (arith, Map.get-remove ℕ_discrete k j r.active)

release_all-Borrowed :
    (r₀ r : KeyRegistry) (ks : List ℕ) (now : ℕ)
    → Borrowed r₀ r ks
    → (j : ℕ) → holder (release_all r ks now) j ≡ holder r₀ j
unfolding release_all Borrowed Set.contains
release_all-Borrowed r₀ r [] now b j = (b j).0 refl
release_all-Borrowed r₀ r (k ∷ ks) now b j =
    release_all-Borrowed r₀ (Keys.release r k now) ks now
      (λ i. ground (arith, b i, release_step r k now i)) j

module _ (r : KeyRegistry) (k now : ℕ) where
  claim_ok :
      (Keys.claim r k 0 now).1 ≡ KeyVerdict.ok
      → (holder r k ≡ none)
        × ((j : ℕ) → holder (Keys.claim r k 0 now).0 j ≡ (if k == j then some 0 else holder r j))
  unfolding Keys.claim
  claim_ok e = (ground arith, λ j. ground (arith, Map.get-insert ℕ_discrete k j 0 r.active))

  claim_refused :
      (Keys.claim r k 0 now).1 ≢ KeyVerdict.ok
      → (j : ℕ) → holder (Keys.claim r k 0 now).0 j ≡ holder r j
  unfolding Keys.claim
  claim_refused e j = ground arith

contains-snoc :
    (j k : ℕ) (done : List ℕ) → Set.contains j (done ++ k ∷ []) ≡ (Set.contains j done || k == j)
unfolding Set.contains
contains-snoc j k [] = ground arith
contains-snoc j k (x ∷ done) = ground (arith, contains-snoc j k done)

-- `r` is `r₀` with the keys of the list, which were free, held for account 0.
Took : KeyRegistry → KeyRegistry → List ℕ → Type 0
Took r₀ r done =
    (j : ℕ)
    → (holder r j ≡ (if Set.contains j done then some 0 else holder r₀ j))
      × (Set.contains j done ≡ true → holder r₀ j ≡ none)

module _ (r₀ : KeyRegistry) (now : ℕ) where
  Took-claim :
      (r : KeyRegistry) (k : ℕ) (done : List ℕ)
      → Took r₀ r done
      → (Keys.claim r k 0 now).1 ≡ KeyVerdict.ok
      → Took r₀ (Keys.claim r k 0 now).0 (done ++ k ∷ [])
  unfolding Took
  Took-claim r k done t e j =
      let (free, held) = claim_ok r k now e in
      ground (arith, free, held j, t j, t k, contains-snoc j k done)

  Took-refused :
      (r : KeyRegistry) (k : ℕ) (done : List ℕ)
      → Took r₀ r done
      → (Keys.claim r k 0 now).1 ≢ KeyVerdict.ok
      → (j : ℕ) → holder (release_all (Keys.claim r k 0 now).0 done now) j ≡ holder r₀ j
  unfolding Took Borrowed
  Took-refused r k done t e =
      release_all-Borrowed r₀ (Keys.claim r k 0 now).0 done now
        (λ j. ground (arith, claim_refused r k now e j, t j))

  marked-ne-passed : (i : ℕ) → (marked key_in_use i ≢ passed) × (marked key_banned i ≢ passed)
  marked-ne-passed i = ground arith

  -- Both ends of the loop.
  Ends : KeyRegistry × ℕ → List ℕ → List ℕ → Type 0
  Ends (r, status) done ks =
      (status ≢ passed → (j : ℕ) → holder r j ≡ holder r₀ j)
      × (status ≡ passed
          → (j : ℕ) → (Set.contains j done || Set.contains j ks) ≡ true
          → (holder r j ≡ some 0) × (holder r₀ j ≡ none))

  answered-Ends :
      (r : KeyRegistry) (k : ℕ) (done : List ℕ) (i : ℕ) (ks : List ℕ) (v : KeyVerdict)
      → Took r₀ r done
      → (Keys.claim r k 0 now).1 ≡ v
      → (rest : KeyRegistry × ℕ)
      → ((Keys.claim r k 0 now).1 ≡ KeyVerdict.ok → Ends rest (done ++ k ∷ []) ks)
      → Ends (answered v (Keys.claim r k 0 now).0 now done i rest) done (k ∷ ks)
  unfolding answered Ends Set.contains
  answered-Ends r k done i ks KeyVerdict.ok t e rest h =
      ((h e).0, λ p j c. (h e).1 p j (ground (arith, contains-snoc j k done)))
  answered-Ends r k done i ks (KeyVerdict.in_use a) t e rest h =
      (λ _. Took-refused r k done t (λ o. cc), λ p. absurd ((marked-ne-passed i).0 p))
  answered-Ends r k done i ks KeyVerdict.banned t e rest h =
      (λ _. Took-refused r k done t (λ o. cc), λ p. absurd ((marked-ne-passed i).1 p))

  claim_keys-Ends :
      (r : KeyRegistry) (done : List ℕ) (i : ℕ) (ks : List ℕ)
      → Took r₀ r done
      → Ends (claim_keys r now done i ks) done ks
  unfolding claim_keys
  claim_keys-Ends r done i [] t = claim_keys-nil r done t
    where
      claim_keys-nil : (r : KeyRegistry) (done : List ℕ) → Took r₀ r done → Ends (r, passed) done []
      claim_keys-nil r done t =
          unfold Ends Took Set.contains in (λ n. absurd (n refl), λ e j h. ground (arith, t j))
  claim_keys-Ends r done i (k ∷ ks) t =
      let r' = (Keys.claim r k 0 now).0 in
      let more = claim_keys-Ends r' (done ++ k ∷ []) (suc i) ks in
      answered-Ends r k done i ks (Keys.claim r k 0 now).1 t refl
        (claim_keys r' now (done ++ k ∷ []) (suc i) ks) (λ e. more (Took-claim r k done t e))

Took-nil : (r : KeyRegistry) → Took r r []
unfolding Took Set.contains
Took-nil r j = (refl, λ e. cc)

-- When a frame's keys are refused, because one of them is banned or held, every key has the holder
-- that it had before the frame: what was claimed on the way is released again, and cools.
pub claim_keys-refused :
    (r : KeyRegistry) (now : ℕ) (keys : List ℕ) (j : ℕ)
    → (claim_keys r now [] 0 keys).1 ≢ passed
    → holder (claim_keys r now [] 0 keys).0 j ≡ holder r j
unfolding Ends
claim_keys-refused r now keys j n = (claim_keys-Ends r now r [] 0 keys (Took-nil r)).0 n j

-- When a frame passes, each of its keys was free and is now held by the session, which claims for
-- account 0.
pub claim_keys-passed :
    (r : KeyRegistry) (now : ℕ) (keys : List ℕ) (j : ℕ)
    → (claim_keys r now [] 0 keys).1 ≡ passed
    → Set.contains j keys ≡ true
    → (holder (claim_keys r now [] 0 keys).0 j ≡ some 0) × (holder r j ≡ none)
unfolding Ends Set.contains
claim_keys-passed r now keys j p c = (claim_keys-Ends r now r [] 0 keys (Took-nil r)).1 p j c
