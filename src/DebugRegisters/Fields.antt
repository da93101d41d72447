-- ===== src/DebugRegisters/Fields.antt =====
-- The fields of the debug registers slot by slot.
use better_ncm.Base.{
  ℕ, zero, suc, ◌+◌, ◌*◌, ◌/◌, ◌%◌, ◌^◌, ◌<◌, ◌≡◌, refl, arith, ◌==◌, if◌then◌else◌,
}
use better_ncm.Base.Int.{ℤ, pos, negsuc}
use better_ncm.PerfEvents.{HwBpType, execute, write, read_write}
use better_ncm.DebugRegisters.{
  DebugState, set_bit, put_bits, put_address, type_val, len_val, set_debug_reg,
}

-- The address of a slot
unfoldable pub address_in : ℕ → DebugState → ℕ
address_in zero d = d.dr0
address_in (suc zero) d = d.dr1
address_in (suc (suc zero)) d = d.dr2
address_in (suc (suc (suc n))) d = d.dr3

-- In DR7: the bit that enables a slot, its type and its length
abbrev pub enable_field : ℕ → ℕ → ℕ
enable_field j x = x / 2 ^ (j * 2) % 2

abbrev pub type_field : ℕ → ℕ → ℕ
type_field j x = x / 2 ^ (16 + j * 4) % 4

abbrev pub len_field : ℕ → ℕ → ℕ
len_field j x = x / 2 ^ (18 + j * 4) % 4

-- What holds of the four slots
pub each_slot {ℓ} : (P : ℕ → Type ℓ) → P 0 → P 1 → P 2 → P 3 → (s : ℕ) → s < 4 → P s
each_slot P a b c d zero h = a
each_slot P a b c d (suc zero) h = b
each_slot P a b c d (suc (suc zero)) h = c
each_slot P a b c d (suc (suc (suc zero))) h = d
each_slot P a b c d (suc (suc (suc (suc n)))) h = absurd (omega arith)

-- What DR7 is after a slot is set
set_dr7 : ℕ → ℕ → ℕ → ℕ → ℕ
set_dr7 s t l x = put_bits (18 + s * 4) l (put_bits (16 + s * 4) t (set_bit (s * 2) x))

Sets : ℕ → ℕ → ℕ → ℕ → ℕ → Type 0
Sets x t l s j =
    (enable_field j (set_dr7 s t l x) ≡ (if s == j then 1 else enable_field j x))
    × (type_field j (set_dr7 s t l x) ≡ (if s == j then t else type_field j x))
    × (len_field j (set_dr7 s t l x) ≡ (if s == j then l else len_field j x))

set_dr7_0 : (x t l : ℕ) → t < 4 → l < 4 → (j : ℕ) → j < 4 → Sets x t l 0 j
unfolding Sets set_dr7
set_dr7_0 x t l ht hl =
    each_slot (Sets x t l 0) (omega arith, omega arith, omega arith)
      (omega arith, omega arith, omega arith) (omega arith, omega arith, omega arith)
      (omega arith, omega arith, omega arith)

set_dr7_1 : (x t l : ℕ) → t < 4 → l < 4 → (j : ℕ) → j < 4 → Sets x t l 1 j
unfolding Sets set_dr7
set_dr7_1 x t l ht hl =
    each_slot (Sets x t l 1) (omega arith, omega arith, omega arith)
      (omega arith, omega arith, omega arith) (omega arith, omega arith, omega arith)
      (omega arith, omega arith, omega arith)

set_dr7_2 : (x t l : ℕ) → t < 4 → l < 4 → (j : ℕ) → j < 4 → Sets x t l 2 j
unfolding Sets set_dr7
set_dr7_2 x t l ht hl =
    each_slot (Sets x t l 2) (omega arith, omega arith, omega arith)
      (omega arith, omega arith, omega arith) (omega arith, omega arith, omega arith)
      (omega arith, omega arith, omega arith)

set_dr7_3 : (x t l : ℕ) → t < 4 → l < 4 → (j : ℕ) → j < 4 → Sets x t l 3 j
unfolding Sets set_dr7
set_dr7_3 x t l ht hl =
    each_slot (Sets x t l 3) (omega arith, omega arith, omega arith)
      (omega arith, omega arith, omega arith) (omega arith, omega arith, omega arith)
      (omega arith, omega arith, omega arith)

-- What a call for slot `s` leaves of slot `j`
pub record IsPut (s addr : ℕ) (type : HwBpType) (bp_size : ℤ) (d e : DebugState) (j : ℕ)
    : Type 0 where
  pub address : address_in j e ≡ (if s == j then addr else address_in j d)
  pub enabled : enable_field j e.dr7 ≡ (if s == j then 1 else enable_field j d.dr7)
  pub type_bits : type_field j e.dr7 ≡ (if s == j then type_val type else type_field j d.dr7)
  pub len_bits : len_field j e.dr7 ≡ (if s == j then len_val bp_size else len_field j d.dr7)

type_val-lt : (type : HwBpType) → type_val type < 4
unfolding type_val
type_val-lt execute = omega arith
type_val-lt write = omega arith
type_val-lt read_write = omega arith

len_val-lt : (bp_size : ℤ) → len_val bp_size < 4
unfolding len_val
len_val-lt (pos n) = ground arith
len_val-lt (negsuc n) = omega arith

module _ (addr : ℕ) (type : HwBpType) (bp_size : ℤ) (d : DebugState) where
  set_address :
      (s : ℕ)
      → s < 4
      → (j : ℕ) → j < 4
      → address_in j (set_debug_reg s addr type bp_size d)
        ≡ (if s == j then addr else address_in j d)
  unfolding set_debug_reg put_address address_in
  set_address =
      let is_at = λ (s j : ℕ).
        address_in j (set_debug_reg s addr type bp_size d)
        ≡ (if s == j then addr else address_in j d) in
      each_slot (λ s. (j : ℕ) → j < 4 → is_at s j) (each_slot (is_at 0) refl refl refl refl)
        (each_slot (is_at 1) refl refl refl refl) (each_slot (is_at 2) refl refl refl refl)
        (each_slot (is_at 3) refl refl refl refl)

  set_control :
      (s : ℕ)
      → s < 4
      → (set_debug_reg s addr type bp_size d).dr7
        ≡ set_dr7 s (type_val type) (len_val bp_size) d.dr7
  unfolding set_debug_reg put_address set_dr7
  set_control =
      each_slot
        (λ s.
          (set_debug_reg s addr type bp_size d).dr7
          ≡ set_dr7 s (type_val type) (len_val bp_size) d.dr7)
        refl refl refl refl

  set_bits : (s : ℕ) → s < 4 → (j : ℕ) → j < 4 → Sets d.dr7 (type_val type) (len_val bp_size) s j
  set_bits =
      let t = type_val type in
      let l = len_val bp_size in
      let ht = type_val-lt type in
      let hl = len_val-lt bp_size in
      each_slot (λ s. (j : ℕ) → j < 4 → Sets d.dr7 t l s j) (set_dr7_0 d.dr7 t l ht hl)
        (set_dr7_1 d.dr7 t l ht hl) (set_dr7_2 d.dr7 t l ht hl) (set_dr7_3 d.dr7 t l ht hl)

  -- Setting one of the four slots gives it its address, the enabling bit, the type and the length
  -- in DR7, and leaves those of the other three as they were.
  pub set_debug_reg-IsPut :
      (s j : ℕ)
      → s < 4
      → j < 4
      → IsPut s addr type bp_size d (set_debug_reg s addr type bp_size d) j
  unfolding Sets
  set_debug_reg-IsPut s j hs hj =
      let q = set_control s hs in
      let h = set_bits s hs j hj in
      record {
        address = set_address s hs j hj;
        enabled = rw q h.0;
        type_bits = rw q h.1;
        len_bits = rw q h.2;
      }
