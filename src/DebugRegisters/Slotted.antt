-- ===== src/DebugRegisters/Slotted.antt =====
-- The slots of the registered breakpoints.
use better_ncm.Base.{
  inl, inr, ℕ, suc, ◌+◌, ◌/◌, ◌%◌, ◌<◌, ◌≡◌, ◌≢◌, refl, sym, ap, ◌∙◌, true, false, ℕ_discrete, some,
  List, [], ◌∷◌, arith, length, lookup, lookup-cons, erase, erase_fresh, IsFresh, IsUnique, ◌==◌,
  if◌then◌else◌,
}
use mathlib.Core.Path.{subst}
use better_ncm.Relocator.{Machine}
use better_ncm.DebugRegisters.{DebugState, is_used, set_bit, clear_bit, clear_debug_reg}
use better_ncm.DebugRegisters.Breakpoints.{clear_entry, remove_loop}
use better_ncm.DebugRegisters.Slots.{IsFreeSlot}
use better_ncm.DebugRegisters.Fields.{each_slot}
use better_ncm.DebugRegisters.Hits.{SlotEntry}

-- The number of used slots
abbrev pub used_count : ℕ → ℕ
used_count used = used % 2 + used / 2 % 2 + used / 4 % 2 + used / 8 % 2

-- Each entry has a slot that is used and no other entry's, and no other slot is used.
pub Slotted : List (ℕ × SlotEntry) → ℕ → Type 0
Slotted [] used = used_count used ≡ 0
Slotted ((id, e) ∷ rest) used =
    (s : ℕ) × (e.slot ≡ some s)
    × (s < 4)
    × (is_used used s ≡ true)
    × Slotted rest (clear_bit s used)

-- Freeing slot `s`
pub record Frees (used s : ℕ) : Type 0 where
  pub one_fewer : is_used used s ≡ true → suc (used_count (clear_bit s used)) ≡ used_count used
  pub freed : is_used (clear_bit s used) s ≡ false
  pub others : (j : ℕ) → j < 4 → j ≢ s → is_used (clear_bit s used) j ≡ is_used used j
  pub commutes : (j : ℕ) → j < 4 → clear_bit j (clear_bit s used) ≡ clear_bit s (clear_bit j used)

clear_bit-Frees : (used s : ℕ) → s < 4 → Frees used s
clear_bit-Frees used =
    each_slot (Frees used)
      (record {
        one_fewer = λ h. ground arith;
        freed = ground arith;
        others =
            each_slot _ (λ n. ground arith) (λ n. ground arith) (λ n. ground arith)
              (λ n. ground arith);
        commutes = each_slot _ refl (omega arith) (omega arith) (omega arith);
      })
      (record {
        one_fewer = λ h. ground arith;
        freed = ground arith;
        others =
            each_slot _ (λ n. ground arith) (λ n. ground arith) (λ n. ground arith)
              (λ n. ground arith);
        commutes = each_slot _ (omega arith) refl (omega arith) (omega arith);
      })
      (record {
        one_fewer = λ h. ground arith;
        freed = ground arith;
        others =
            each_slot _ (λ n. ground arith) (λ n. ground arith) (λ n. ground arith)
              (λ n. ground arith);
        commutes = each_slot _ (omega arith) (omega arith) refl (omega arith);
      })
      (record {
        one_fewer = λ h. ground arith;
        freed = ground arith;
        others =
            each_slot _ (λ n. ground arith) (λ n. ground arith) (λ n. ground arith)
              (λ n. ground arith);
        commutes = each_slot _ (omega arith) (omega arith) (omega arith) refl;
      })

-- A found entry has one of the used slots.
abbrev pub HasSlot : ℕ → SlotEntry → Type 0
HasSlot used e = (s : ℕ) × (e.slot ≡ some s) × (s < 4) × (is_used used s ≡ true)

still_used :
    (used s j : ℕ)
    → s < 4
    → j < 4
    → is_used (clear_bit s used) j ≡ true
    → (j ≢ s) × (is_used used j ≡ true)
still_used used s j hs hj h = elim (ℕ_discrete j s) [
  | yes e ↦
      absurd (ground (arith, (clear_bit-Frees used s hs).freed, ap (is_used (clear_bit s used)) e))
  | no ne ↦ (ne, sym ((clear_bit-Frees used s hs).others j hj ne) ∙ h)
]

pub Slotted-slot :
    (xs : List (ℕ × SlotEntry)) (used id : ℕ) (e : SlotEntry)
    → Slotted xs used
    → lookup id xs ≡ some e
    → HasSlot used e
unfolding Slotted lookup
Slotted-slot [] used id e v h = absurd (ground arith)
Slotted-slot ((i, x) ∷ rest) used id e (s, at, lt, on, v) h = elim (lookup-cons id i x e rest h) [
  | inl (q, is) ↦ (s, ap (λ (y : SlotEntry). y.slot) (sym is) ∙ at, lt, on)
  | inr (q, later) ↦
      let (j, at', lt', on') = Slotted-slot rest (clear_bit s used) id e v later in
      (j, at', lt', (still_used used s j lt lt' on').1)
]

-- The slot of an entry behind the first differs from the first's.
pub Slotted-differ :
    (rest : List (ℕ × SlotEntry)) (used id j s : ℕ) (e : SlotEntry)
    → j < 4
    → Slotted rest (clear_bit j used)
    → lookup id rest ≡ some e
    → e.slot ≡ some s
    → (s < 4) × (s ≢ j)
Slotted-differ rest used id j s e lt v h k =
    let (l, at, lt', on) = Slotted-slot rest (clear_bit j used) id e v h in
    let slot : some l ≡ some s = sym at ∙ k in
    let ls : l ≡ s = ground arith in
    let ne : l ≢ j = (still_used used j l lt lt' on).0 in (omega arith, λ z. ne (ls ∙ z))

-- Freeing the slot of an entry that is erased
pub Slotted-erase :
    (xs : List (ℕ × SlotEntry)) (used id s : ℕ) (e : SlotEntry)
    → Slotted xs used
    → IsUnique xs
    → lookup id xs ≡ some e
    → e.slot ≡ some s
    → Slotted (erase id xs) (clear_bit s used)
unfolding Slotted lookup erase
Slotted-erase [] used id s e v u h k = absurd (ground arith)
Slotted-erase ((i, x) ∷ rest) used id s e (j, at, lt, on, v) u h k =
    elim (lookup-cons id i x e rest h) [
      | inl (q, is) ↦
          let same : (i == id) ≡ true = ground arith in
          let slot : some j ≡ some s = sym at ∙ ap (λ (y : SlotEntry). y.slot) is ∙ k in
          let slots : j ≡ s = ground arith in
          let fresh : IsFresh id rest = subst (λ z. IsFresh z rest) q u.0 in
          rw (same, erase_fresh id rest fresh)
            (subst (λ z. Slotted rest (clear_bit z used)) slots v)
      | inr (q, later) ↦
          let differ : (i == id) ≡ false = ground arith in
          let (lt', ne) = Slotted-differ rest used id j s e lt v later k in
          let f = clear_bit-Frees used s lt' in
          rw differ (
            j,
            at,
            lt,
            f.others j lt (λ z. ne (sym z)) ∙ on,
            subst (Slotted (erase id rest)) (sym (f.commutes j lt))
                (Slotted-erase rest (clear_bit j used) id s e v u.1 later k),
          )
    ]

-- As many slots are used as there are entries.
pub Slotted-count :
    (xs : List (ℕ × SlotEntry)) (used : ℕ) → Slotted xs used → used_count used ≡ length xs
unfolding Slotted
Slotted-count [] used v = v
Slotted-count ((i, x) ∷ rest) used (s, at, lt, on, v) =
    sym ((clear_bit-Frees used s lt).one_fewer on)
    ∙ ap suc (Slotted-count rest (clear_bit s used) v)

pub Slotted-empty : Slotted [] 0
unfolding Slotted
Slotted-empty = refl

-- Taking a free slot for an entry that is added
pub Slotted-cons :
    (xs : List (ℕ × SlotEntry)) (used id s : ℕ) (e : SlotEntry)
    → Slotted xs used
    → IsFreeSlot used s
    → e.slot ≡ some s
    → Slotted ((id, e) ∷ xs) (set_bit s used)
unfolding Slotted
Slotted-cons xs used id s e v free at =
    let here = free.others s free.below in
    let same : (s == s) ≡ true = ground arith in
    (
      s,
      at,
      free.below,
      here ∙ ap (λ b. if b then true else is_used used s) same,
      subst (Slotted xs) (sym free.freed) v,
    )

-- What the loop of `removeAll` leaves
pub Slotted-remove_loop :
    (xs : List (ℕ × SlotEntry)) (m : Machine) (d : DebugState) (used : ℕ)
    → Slotted xs used
    → Slotted [] (remove_loop xs m (d, used)).1.1
unfolding Slotted remove_loop clear_entry clear_debug_reg
Slotted-remove_loop [] m d used v = v
Slotted-remove_loop ((i, x) ∷ rest) m d used (s, at, lt, on, v) =
    rw at (Slotted-remove_loop rest _ _ (clear_bit s used) v)

pub Slotted-head :
    (xs : List (ℕ × SlotEntry)) (used id : ℕ) (e : SlotEntry)
    → Slotted ((id, e) ∷ xs) used
    → (s : ℕ) × (e.slot ≡ some s)
      × (s < 4)
      × (is_used used s ≡ true)
      × Slotted xs (clear_bit s used)
unfolding Slotted
Slotted-head xs used id e v = v
