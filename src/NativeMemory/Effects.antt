-- ===== src/NativeMemory/Effects.antt =====
-- Protection strings, guarded reads, patches and copies.
use mathlib.Core.Path.{subst}
use better_ncm.Base.{
  ℕ, zero, suc, ◌+◌, ◌<◌, ◌≤◌, ◌≡◌, ◌↔◌, ◌⊎◌, inl, inr, refl, ap, ok, thrown, none, some, Bool,
  true, false, Bool-cases, List, [], arith, length,
}
use better_ncm.Memory.{
  Memory, write_bytes, read_bytes, write-read_undo, write_bytes_at, length-read_bytes,
  read-write_bytes,
}
use better_ncm.Base.Int.{ℤ, pos, negsuc}
use better_ncm.Signals.{Dispositions, safe_read_handler}
use better_ncm.NativeMemory.{
  contains, prot_string_to_flags, flags_to_prot_string, begin_safe_read, end_safe_read, copy_range,
  ReadError, or_empty, safe_read_memory, patch_code, copy_memory, read_memory,
}

-- The string that is printed for a protection is read as the protection.
pub prot_string_to_flags-flags_to_prot_string :
    (flags : ℕ) → flags < 8 → prot_string_to_flags (flags_to_prot_string flags) ≡ flags
unfolding prot_string_to_flags flags_to_prot_string contains
prot_string_to_flags-flags_to_prot_string zero h = refl
prot_string_to_flags-flags_to_prot_string (suc zero) h = refl
prot_string_to_flags-flags_to_prot_string (suc (suc zero)) h = refl
prot_string_to_flags-flags_to_prot_string (suc (suc (suc zero))) h = refl
prot_string_to_flags-flags_to_prot_string (suc (suc (suc (suc zero)))) h = refl
prot_string_to_flags-flags_to_prot_string (suc (suc (suc (suc (suc zero))))) h = refl
prot_string_to_flags-flags_to_prot_string (suc (suc (suc (suc (suc (suc zero)))))) h = refl
prot_string_to_flags-flags_to_prot_string (suc (suc (suc (suc (suc (suc (suc zero))))))) h = refl
prot_string_to_flags-flags_to_prot_string (suc (suc (suc (suc (suc (suc (suc (suc n)))))))) h =
    absurd (omega arith)

-- The copy gives all bytes where all can be read, and ends at the first that cannot.
pub Copies : Memory → (ℕ → Bool) → ℕ → ℕ → List ℕ → Type 0
Copies mem readable address size bytes =
    (((k : ℕ) → k < size → readable (address + k) ≡ true) × (bytes ≡ read_memory mem address size))
    ⊎ ((k : ℕ) × (k < size) × (readable (address + k) ≡ false) × (bytes ≡ []))

copy_range-cases :
    (mem : Memory) (readable : ℕ → Bool) (address size : ℕ)
    → (((k : ℕ) → k < size → readable (address + k) ≡ true)
        × (copy_range mem readable address size ≡ some (read_bytes mem address size)))
      ⊎ ((k : ℕ) × (k < size)
          × (readable (address + k) ≡ false)
          × (copy_range mem readable address size ≡ none))
unfolding copy_range read_bytes
copy_range-cases mem readable address zero = inl ((λ k h. absurd (omega arith)), refl)
copy_range-cases mem readable address (suc size) =
    let here : address + 0 ≡ address = omega arith in
    let shift : (k : ℕ) → suc address + k ≡ address + suc k = λ k. omega arith in
    elim (Bool-cases (readable address)) [
      | inr off ↦ inr (0, omega arith, rw here off, rw off refl)
      | inl on ↦ elim (copy_range-cases mem readable (suc address) size) [
        | inr (k, lt, off, q) ↦ inr (suc k, omega arith, rw (← shift k) off, rw (on, q) refl)
        | inl (all, q) ↦ inl (from_first on all, rw (on, q) refl)
      ]
    ]
  where
    from_first :
        readable address ≡ true
        → ((k : ℕ) → k < size → readable (suc address + k) ≡ true)
        → (k : ℕ) → k < suc size
        → readable (address + k) ≡ true
    from_first on all zero h = let here : address + 0 ≡ address = omega arith in rw here on
    from_first on all (suc k) h =
        let shift : suc address + k ≡ address + suc k = omega arith in
        rw (← shift) (all k (omega arith))

-- The size is negative, or there is no memory for so many bytes.
pub Fails : (ℕ → Bool) → ℤ → Type 0
Fails allocates (pos size) = allocates size ≡ false
Fails allocates (negsuc n) = Unit {0}

-- The actions behind a read that returns, and behind one that throws
pub record PutsBack (old new : Dispositions) : Type 0 where
  pub segv : new.segv ≡ old.segv
  pub trap : new.trap ≡ old.trap
  pub ill : new.ill ≡ old.ill
  pub bus : (new.bus ≡ old.bus) ↔ (old.segv ≡ old.bus)

pub record LeavesGuard (old new : Dispositions) : Type 0 where
  pub segv : new.segv ≡ safe_read_handler
  pub bus : new.bus ≡ safe_read_handler
  pub trap : new.trap ≡ old.trap
  pub ill : new.ill ≡ old.ill

-- A guarded read that returns gives all the bytes where each of them can be read, and none where
-- one cannot; it puts back the actions of SIGSEGV, SIGTRAP and SIGILL, and that of SIGBUS exactly
-- where SIGSEGV and SIGBUS had the same action. It throws only where the size is negative or there
-- is no memory for the bytes, and then the actions of SIGSEGV and SIGBUS stay those of the read.
pub safe_read_memory_lem :
    (mem : Memory) (readable allocates : ℕ → Bool) (address : ℕ) (size : ℤ) (old : Dispositions)
    → let (result, new) = safe_read_memory mem readable allocates address size old in
      ((n : ℕ) × (bytes : List ℕ) × (size ≡ pos n)
        × (result ≡ ok bytes)
        × Copies mem readable address n bytes
        × PutsBack old new)
      ⊎ ((e : ReadError) × (result ≡ thrown e) × Fails allocates size × LeavesGuard old new)
unfolding safe_read_memory begin_safe_read end_safe_read read_memory or_empty Copies Fails
safe_read_memory_lem mem readable allocates address (negsuc n) old =
    inr (_, refl, tt, record { segv = refl; bus = refl; trap = refl; ill = refl })
safe_read_memory_lem mem readable allocates address (pos n) old = elim (Bool-cases (allocates n)) [
  | inr off ↦
      rw off (inr (_, refl, refl, record { segv = refl; bus = refl; trap = refl; ill = refl }))
  | inl on ↦
      let back : PutsBack old (end_safe_read old (begin_safe_read old)) = record {
        segv = refl;
        trap = refl;
        ill = refl;
        bus = ((λ h. h), (λ h. h));
      } in
      rw on (inl (n, _, refl, refl, copied n, back))
]
  where
    copied : (n : ℕ) → Copies mem readable address n (or_empty (copy_range mem readable address n))
    copied n = elim (copy_range-cases mem readable address n) [
      | inl (all, q) ↦ inl (all, ap or_empty q)
      | inr (k, lt, off, q) ↦ inr (k, lt, off, ap or_empty q)
    ]

-- Patching the bytes that stood there before a patch takes the patch back.
pub patch_code-read_memory :
    (mem : Memory) (address : ℕ) (bytes : List ℕ)
    → patch_code (patch_code mem address bytes) address (read_memory mem address (length bytes))
      ≡ mem
unfolding patch_code read_memory
patch_code-read_memory mem address bytes = write-read_undo mem address bytes

read_bytes_same :
    (m n : Memory) (a size : ℕ)
    → ((x : ℕ) → a ≤ x → x < a + size → m x ≡ n x)
    → read_bytes m a size ≡ read_bytes n a size
unfolding read_bytes
read_bytes_same m n a zero h = refl
read_bytes_same m n a (suc size) h =
    let head = h a (omega arith) (omega arith) in
    let rest = read_bytes_same m n (suc a) size (λ x l u. h x (omega arith) (omega arith)) in
    rw (head, rest)

-- A copy to a range that the source does not overlap: the target reads as the source did, and the source
-- is as it was.
pub copy_memory-read_memory :
    (mem : Memory) (dst src size : ℕ)
    → (dst + size ≤ src) ⊎ (src + size ≤ dst)
    → (read_memory (copy_memory mem dst src size) dst size ≡ read_memory mem src size)
      × (read_memory (copy_memory mem dst src size) src size ≡ read_memory mem src size)
unfolding copy_memory read_memory
copy_memory-read_memory mem dst src size apart =
    let bytes = read_bytes mem src size in
    (
      subst (λ n. read_bytes (write_bytes mem dst bytes) dst n ≡ bytes)
          (length-read_bytes mem src size) (read-write_bytes mem dst bytes),
      read_bytes_same (write_bytes mem dst bytes) mem src size λ x l u.
          ground (arith, write_bytes_at mem dst bytes x, length-read_bytes mem src size, apart),
    )
