-- ===== src/Base/Assoc.antt =====
-- Maps from numbers (`std::unordered_map<uint64_t, …>`) as association lists. The order of the
-- list is the order in which the program's loops over the map visit it.
use Prim.Native.Nat.{ℕ, suc, ◌<◌, ◌≤◌}
use mathlib.Core.Path.{◌≡◌, refl}
use mathlib.Core.Logic.{◌≢◌, ◌⊎◌, inl, inr}
use native.Mathlib.Decide.{ℕ_discrete}
use mathlib.Core.List.{List, [], ◌∷◌}
use mathlib.Core.Bool.{true, false}
use mathlib.Core.Option.{Option, none, some}
use native.Mathlib.Omega.{arith}
use better_ncm.Base.Lists.{length}
use better_ncm.Base.Tests.{◌==◌, if◌then◌else◌}

module _ {ℓ} {V : Type ℓ} where
  -- `map.find(k)`
  unfoldable pub lookup : ℕ → List (ℕ × V) → Option V
  lookup k [] = none
  lookup k ((j, v) ∷ m) = if j == k then some v else lookup k m

  -- `map.erase(k)`
  unfoldable pub erase : ℕ → List (ℕ × V) → List (ℕ × V)
  erase k [] = []
  erase k ((j, v) ∷ m) = let rest = erase k m in if j == k then rest else (j, v) ∷ rest

  -- `map[k] = v`
  unfoldable pub insert : ℕ → V → List (ℕ × V) → List (ℕ × V)
  insert k v m = (k, v) ∷ erase k m

  pub lookup-erase :
      (k j : ℕ) (m : List (ℕ × V)) → lookup j (erase k m) ≡ (if k == j then none else lookup j m)
  unfolding lookup erase
  lookup-erase k j [] = ground arith
  lookup-erase k j ((i, v) ∷ m) = ground (arith, lookup-erase k j m)

  pub lookup-insert :
      (k j : ℕ) (v : V) (m : List (ℕ × V))
      → lookup j (insert k v m) ≡ (if k == j then some v else lookup j m)
  unfolding lookup insert
  lookup-insert k j v m = ground (arith, lookup-erase k j m)

  -- No entry has the key `k`.
  abbrev pub IsFresh : ℕ → List (ℕ × V) → Type 0
  IsFresh k [] = Unit {0}
  IsFresh k ((j, v) ∷ m) = (j ≢ k) × IsFresh k m

  -- Every key is below `n`.
  abbrev pub Below : ℕ → List (ℕ × V) → Type 0
  Below n [] = Unit {0}
  Below n ((j, v) ∷ m) = (j < n) × Below n m

  -- No key occurs twice.
  abbrev pub IsUnique : List (ℕ × V) → Type 0
  IsUnique [] = Unit {0}
  IsUnique ((j, v) ∷ m) = IsFresh j m × IsUnique m

  pub erase_fresh : (k : ℕ) (m : List (ℕ × V)) → IsFresh k m → erase k m ≡ m
  unfolding erase
  erase_fresh k [] h = refl
  erase_fresh k ((j, v) ∷ m) h = ground (arith, erase_fresh k m h.1)

  pub lookup_fresh : (k : ℕ) (m : List (ℕ × V)) → IsFresh k m → lookup k m ≡ none
  unfolding lookup
  lookup_fresh k [] h = refl
  lookup_fresh k ((j, v) ∷ m) h = ground (arith, lookup_fresh k m h.1)

  pub IsFresh-of_lookup : (k : ℕ) (m : List (ℕ × V)) → lookup k m ≡ none → IsFresh k m
  unfolding lookup
  IsFresh-of_lookup k [] h = tt
  IsFresh-of_lookup k ((j, v) ∷ m) h = ground (arith, IsFresh-of_lookup k m)

  pub IsFresh-of_Below : (k n : ℕ) (m : List (ℕ × V)) → n ≤ k → Below n m → IsFresh k m
  IsFresh-of_Below k n [] h b = tt
  IsFresh-of_Below k n ((j, v) ∷ m) h b = (omega arith, IsFresh-of_Below k n m h b.1)

  pub Below-le : (n k : ℕ) (m : List (ℕ × V)) → n ≤ k → Below n m → Below k m
  Below-le n k [] h b = tt
  Below-le n k ((j, v) ∷ m) h b = (omega arith, Below-le n k m h b.1)

  pub erase-Below : (k n : ℕ) (m : List (ℕ × V)) → Below n m → Below n (erase k m)
  unfolding erase
  erase-Below k n [] b = tt
  erase-Below k n ((j, v) ∷ m) b = ground (arith, erase-Below k n m b.1)

  pub erase-IsFresh : (k i : ℕ) (m : List (ℕ × V)) → IsFresh i m → IsFresh i (erase k m)
  unfolding erase
  erase-IsFresh k i [] b = tt
  erase-IsFresh k i ((j, v) ∷ m) b = ground (arith, erase-IsFresh k i m b.1)

  pub erase-IsFresh_self : (k : ℕ) (m : List (ℕ × V)) → IsFresh k (erase k m)
  unfolding erase
  erase-IsFresh_self k [] = tt
  erase-IsFresh_self k ((j, v) ∷ m) = ground (arith, erase-IsFresh_self k m)

  pub erase-IsUnique : (k : ℕ) (m : List (ℕ × V)) → IsUnique m → IsUnique (erase k m)
  unfolding erase
  erase-IsUnique k [] u = tt
  erase-IsUnique k ((j, v) ∷ m) u = ground (arith, erase-IsUnique k m u.1, erase-IsFresh k j m u.0)

  -- What a lookup finds: the first entry, or one behind it.
  pub lookup-cons :
      (k j : ℕ) (v w : V) (m : List (ℕ × V))
      → lookup k ((j, v) ∷ m) ≡ some w
      → ((j ≡ k) × (v ≡ w)) ⊎ ((j ≢ k) × (lookup k m ≡ some w))
  unfolding lookup
  lookup-cons k j v w m h = elim (ℕ_discrete j k) [
    | yes e ↦ inl (e, ground arith)
    | no e ↦ inr (e, ground arith)
  ]

  -- What a lookup after an insertion or an erasure finds.
  pub lookup-insert_cases :
      (k j : ℕ) (v w : V) (m : List (ℕ × V))
      → lookup j (insert k v m) ≡ some w
      → ((j ≡ k) × (v ≡ w)) ⊎ ((j ≢ k) × (lookup j m ≡ some w))
  lookup-insert_cases k j v w m h = elim (ℕ_discrete j k) [
    | yes e ↦ inl (e, ground (arith, lookup-insert k j v m))
    | no e ↦ inr (e, ground (arith, lookup-insert k j v m))
  ]

  pub lookup-insert_self : (k : ℕ) (v : V) (m : List (ℕ × V)) → lookup k (insert k v m) ≡ some v
  lookup-insert_self k v m = ground (arith, lookup-insert k k v m)

  pub lookup-insert_ne :
      (k j : ℕ) (v : V) (m : List (ℕ × V)) → j ≢ k → lookup j (insert k v m) ≡ lookup j m
  lookup-insert_ne k j v m h = ground (arith, lookup-insert k j v m)

  pub lookup-erase_cases :
      (k j : ℕ) (w : V) (m : List (ℕ × V))
      → lookup j (erase k m) ≡ some w
      → (j ≢ k) × (lookup j m ≡ some w)
  lookup-erase_cases k j w m h =
      ((λ e. ground (arith, lookup-erase k j m)), ground (arith, lookup-erase k j m))

  pub lookup-erase_ne : (k j : ℕ) (m : List (ℕ × V)) → j ≢ k → lookup j (erase k m) ≡ lookup j m
  lookup-erase_ne k j m h = ground (arith, lookup-erase k j m)

  pub erase-insert :
      (k : ℕ) (v : V) (m : List (ℕ × V)) → lookup k m ≡ none → erase k (insert k v m) ≡ m
  unfolding insert erase
  erase-insert k v m h =
      let gone : erase k m ≡ m = erase_fresh k m (IsFresh-of_lookup k m h) in
      let same : (k == k) ≡ true = ground arith in rw (same, gone, gone)

  -- The number of entries after an erasure
  pub length-erase :
      (k : ℕ) (v : V) (m : List (ℕ × V))
      → IsUnique m
      → lookup k m ≡ some v
      → suc (length (erase k m)) ≡ length m
  unfolding lookup erase
  length-erase k v [] u h = absurd (ground arith)
  length-erase k v ((j, w) ∷ m) u h = elim (ℕ_discrete j k) [
    | yes e ↦
        let gone : erase k m ≡ m = erase_fresh k m (rw (← e) u.0) in
        let hit : (j == k) ≡ true = ground arith in rw (hit, gone) refl
    | no e ↦
        let miss : (j == k) ≡ false = ground arith in
        let rest = length-erase k v m u.1 (ground arith) in rw miss (omega (arith, rest))
  ]
