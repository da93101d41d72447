-- ===== src/DebugRegisters/Slots.antt =====
-- The search for a free slot.
use better_ncm.Base.{
  ℕ, ◌<◌, ◌≡◌, true, false, none, some, Bool-cases, inl, inr, ◌⊎◌, arith, ◌==◌, if◌then◌else◌,
}
use better_ncm.DebugRegisters.{is_used, find_free_slot, set_bit, clear_bit}
use better_ncm.DebugRegisters.Fields.{each_slot}

-- A slot that is found is free; taking it changes no other slot, and freeing it again undoes that.
pub record IsFreeSlot (used s : ℕ) : Type 0 where
  pub below : s < 4
  pub free : is_used used s ≡ false
  pub freed : clear_bit s (set_bit s used) ≡ used
  pub others :
      (j : ℕ) → j < 4 → is_used (set_bit s used) j ≡ (if s == j then true else is_used used j)

IsFreeSlot-0 : (used : ℕ) → is_used used 0 ≡ false → IsFreeSlot used 0
IsFreeSlot-0 used h = record {
  below = omega arith;
  free = h;
  freed = ground arith;
  others = each_slot _ (ground arith) (ground arith) (ground arith) (ground arith);
}

IsFreeSlot-1 : (used : ℕ) → is_used used 1 ≡ false → IsFreeSlot used 1
IsFreeSlot-1 used h = record {
  below = omega arith;
  free = h;
  freed = ground arith;
  others = each_slot _ (ground arith) (ground arith) (ground arith) (ground arith);
}

IsFreeSlot-2 : (used : ℕ) → is_used used 2 ≡ false → IsFreeSlot used 2
IsFreeSlot-2 used h = record {
  below = omega arith;
  free = h;
  freed = ground arith;
  others = each_slot _ (ground arith) (ground arith) (ground arith) (ground arith);
}

IsFreeSlot-3 : (used : ℕ) → is_used used 3 ≡ false → IsFreeSlot used 3
IsFreeSlot-3 used h = record {
  below = omega arith;
  free = h;
  freed = ground arith;
  others = each_slot _ (ground arith) (ground arith) (ground arith) (ground arith);
}

pub find_free_slot-IsFreeSlot :
    (used : ℕ)
    → ((find_free_slot used ≡ none) × ((j : ℕ) → j < 4 → is_used used j ≡ true))
      ⊎ ((s : ℕ) × (find_free_slot used ≡ some s) × IsFreeSlot used s)
unfolding find_free_slot
find_free_slot-IsFreeSlot used = elim (Bool-cases (is_used used 0)) [
  | inr a ↦ inr (0, ground arith, IsFreeSlot-0 used a)
  | inl a ↦ elim (Bool-cases (is_used used 1)) [
    | inr b ↦ inr (1, ground arith, IsFreeSlot-1 used b)
    | inl b ↦ elim (Bool-cases (is_used used 2)) [
      | inr c ↦ inr (2, ground arith, IsFreeSlot-2 used c)
      | inl c ↦ elim (Bool-cases (is_used used 3)) [
        | inr d ↦ inr (3, ground arith, IsFreeSlot-3 used d)
        | inl d ↦ inl (ground arith, each_slot _ a b c d)
      ]
    ]
  ]
]
