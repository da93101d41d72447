-- ===== src/Patches.antt =====
-- What the tables of patched places (hooks, software breakpoints) say of memory: a table entry has
-- an address and the bytes that stood there. Shared by the interceptor and the breakpoints.
use better_ncm.Base.{
  ℕ, ◌+◌, ◌-◌, ◌≤◌, ◌≡◌, refl, fun_ext, ◌⊎◌, inl, inr, true, Option, none, some, List, [], ◌∷◌,
  arith, ◌==◌, if◌then◌else◌, length, get_or, Bool-cases, lookup, erase, IsUnique, erase_fresh,
}
use better_ncm.Memory.{Memory, write_bytes, write_bytes_at, within}

abbrev pub or_else : Option ℕ → ℕ → ℕ
or_else none d = d
or_else (some b) d = b

module _ {V : Type 0} (address : V → ℕ) (original : V → List ℕ) (size : ℕ) where
  -- Memory after every patch is taken back, in the order of the table.
  unfoldable pub restore_all : List (ℕ × V) → Memory → Memory
  restore_all [] mem = mem
  restore_all ((k, e) ∷ l) mem = restore_all l (write_bytes mem (address e) (original e))

  -- The saved byte of address `x`, if a patch covers it.
  pub saved_at : List (ℕ × V) → ℕ → Option ℕ
  saved_at [] x = none
  saved_at ((k, e) ∷ l) x =
      if within (address e) size x
      then some (get_or (original e) (x - address e) 0)
      else saved_at l x

  -- No patch of the table shares a byte with the `size` bytes at `a`.
  abbrev pub IsClear : ℕ → List (ℕ × V) → Type 0
  IsClear a [] = Unit {0}
  IsClear a ((k, e) ∷ l) = ((address e + size ≤ a) ⊎ (a + size ≤ address e)) × IsClear a l

  -- No two patches share a byte.
  abbrev pub IsApart : List (ℕ × V) → Type 0
  IsApart [] = Unit {0}
  IsApart ((k, e) ∷ l) = IsClear (address e) l × IsApart l

  abbrev pub IsSized : List (ℕ × V) → Type 0
  IsSized [] = Unit {0}
  IsSized ((k, e) ∷ l) = (length (original e) ≡ size) × IsSized l

  pub lookup-IsSized :
      (i : ℕ) (l : List (ℕ × V)) (e : V)
      → IsSized l
      → lookup i l ≡ some e
      → length (original e) ≡ size
  unfolding lookup
  lookup-IsSized i [] e z h = cc
  lookup-IsSized i ((k, d) ∷ l) e z h = ground (arith, lookup-IsSized i l e z.1)

  saved_clear :
      (a : ℕ) (l : List (ℕ × V)) (x : ℕ)
      → IsClear a l
      → within a size x ≡ true
      → saved_at l x ≡ none
  unfolding saved_at
  saved_clear a [] x c h = refl
  saved_clear a ((k, e) ∷ l) x c h = ground (arith, saved_clear a l x c.1 h)

  restore_all_at :
      (l : List (ℕ × V)) (mem : Memory) (x : ℕ)
      → IsApart l
      → IsSized l
      → restore_all l mem x ≡ or_else (saved_at l x) (mem x)
  unfolding restore_all saved_at
  restore_all_at [] mem x a z = refl
  restore_all_at ((k, e) ∷ l) mem x a z = ground (
    arith,
    restore_all_at l (write_bytes mem (address e) (original e)) x a.1 z.1,
    write_bytes_at mem (address e) (original e) x,
    saved_clear (address e) l x a.0,
  )

  pub erase-IsClear : (i a : ℕ) (l : List (ℕ × V)) → IsClear a l → IsClear a (erase i l)
  unfolding erase
  erase-IsClear i a [] c = tt
  erase-IsClear i a ((k, e) ∷ l) c = ground (arith, erase-IsClear i a l c.1)

  pub erase-IsApart : (i : ℕ) (l : List (ℕ × V)) → IsApart l → IsApart (erase i l)
  unfolding erase
  erase-IsApart i [] a = tt
  erase-IsApart i ((k, e) ∷ l) a =
      ground (arith, erase-IsApart i l a.1, erase-IsClear i (address e) l a.0)

  pub erase-IsSized : (i : ℕ) (l : List (ℕ × V)) → IsSized l → IsSized (erase i l)
  unfolding erase
  erase-IsSized i [] z = tt
  erase-IsSized i ((k, e) ∷ l) z = ground (arith, erase-IsSized i l z.1)

  -- An entry that is looked up is clear of the rest.
  clear_of_lookup :
      (i a : ℕ) (l : List (ℕ × V)) (e : V)
      → IsClear a l
      → lookup i l ≡ some e
      → (address e + size ≤ a) ⊎ (a + size ≤ address e)
  unfolding lookup
  clear_of_lookup i a [] e c h = cc
  clear_of_lookup i a ((k, d) ∷ l) e c h = ground (arith, clear_of_lookup i a l e c.1)

  saved_at-erase :
      (i : ℕ) (l : List (ℕ × V)) (e : V) (x : ℕ)
      → IsUnique l
      → IsApart l
      → lookup i l ≡ some e
      → saved_at l x ≡ (
          if within (address e) size x
          then some (get_or (original e) (x - address e) 0)
          else saved_at (erase i l) x)
  unfolding saved_at lookup erase
  saved_at-erase i [] e x u a h = cc
  saved_at-erase i ((k, d) ∷ l) e x u a h = elim (Bool-cases (k == i)) [
    | inl hit ↦
        let same : k ≡ i = ground arith in
        let gone : erase i l ≡ l = erase_fresh i l (rw same at u.0) in ground (arith, gone)
    | inr miss ↦
        ground (arith, miss, saved_at-erase i l e x u.1 a.1, clear_of_lookup i (address d) l e a.0)
  ]

  lookup-IsClear :
      (i : ℕ) (l : List (ℕ × V)) (e : V)
      → IsUnique l
      → IsApart l
      → lookup i l ≡ some e
      → IsClear (address e) (erase i l)
  unfolding lookup erase
  lookup-IsClear i [] e u a h = tt
  lookup-IsClear i ((k, d) ∷ l) e u a h = elim (Bool-cases (k == i)) [
    | inl hit ↦
        let same : k ≡ i = ground arith in
        let gone : erase i l ≡ l = erase_fresh i l (rw same at u.0) in
        let entry : d ≡ e = ground arith in rw (hit, gone, ← entry) a.0
    | inr miss ↦
        let rest : lookup i l ≡ some e = ground (arith, miss) in
        rw miss (
          elim (clear_of_lookup i (address d) l e a.0 rest) [ inl p ↦ inr p | inr p ↦ inl p ],
          lookup-IsClear i l e u.1 a.1 rest,
        )
  ]

  -- Taking one patch back and dropping its entry does not change what all patches taken back leave.
  pub restore_all-erase :
      (i : ℕ) (l : List (ℕ × V)) (e : V) (mem : Memory)
      → IsUnique l
      → IsApart l
      → IsSized l
      → length (original e) ≡ size
      → lookup i l ≡ some e
      → restore_all (erase i l) (write_bytes mem (address e) (original e)) ≡ restore_all l mem
  restore_all-erase i l e mem u a z n h = fun_ext λ x. ground (
    arith,
    restore_all_at (erase i l) (write_bytes mem (address e) (original e)) x (erase-IsApart i l a)
        (erase-IsSized i l z),
    restore_all_at l mem x a z,
    saved_at-erase i l e x u a h,
    write_bytes_at mem (address e) (original e) x,
    saved_clear (address e) (erase i l) x (lookup-IsClear i l e u a h),
  )
