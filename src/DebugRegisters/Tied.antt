-- ===== src/DebugRegisters/Tied.antt =====
-- Slots, breakpoints and the two maps correspond, through every call.
use better_ncm.Base.{
  ◌%◌, ℕ, suc, ◌+◌, ◌^◌, ◌<◌, ◌≡◌, ◌≢◌, refl, sym, ◌∙◌, ap, true, false, none, some, List, [], ◌∷◌,
  arith, length, lookup, lookup-cons, insert, erase, erase_fresh, IsFresh, IsFresh-of_lookup,
  IsFresh-of_Below, Below, Below-le, erase-Below, IsUnique, erase-IsUnique, Option-cases,
  Outcome-cases, inl, inr, ◌==◌,
}
use mathlib.Core.Path.{subst}
use better_ncm.Hex.{parse_hex_addr}
use better_ncm.Relocator.{Machine}
use better_ncm.HardwareBreakpoint.{platform_max_breakpoints}
use better_ncm.DebugRegisters.{clear_debug_reg, find_free_slot}
use better_ncm.DebugRegisters.Slots.{IsFreeSlot, find_free_slot-IsFreeSlot}
use better_ncm.DebugRegisters.Hits.{SlotEntry}
use better_ncm.DebugRegisters.Slotted.{
  Slotted, Slotted-slot, Slotted-erase, Slotted-cons, Slotted-remove_loop, Slotted-count,
}
use better_ncm.DebugRegisters.Breakpoints.{
  State, install_hw_handlers, ensure_hw_handler_installed, maybe_remove_hw_handler, register,
  clear_entry, remove_id, remove, remove_all,
}

-- The breakpoints by address
unfoldable pub addresses : List (ℕ × SlotEntry) → List (ℕ × SlotEntry)
addresses [] = []
addresses ((id, e) ∷ rest) = (e.address, e) ∷ addresses rest

other_address :
    (xs : List (ℕ × SlotEntry)) (id a : ℕ) (e : SlotEntry)
    → IsFresh a (addresses xs)
    → lookup id xs ≡ some e
    → e.address ≢ a
unfolding addresses lookup
other_address [] id a e f h = absurd (ground arith)
other_address ((i, x) ∷ rest) id a e f h = elim (lookup-cons id i x e rest h) [
  | inl (q, is) ↦ subst (λ (y : SlotEntry). y.address ≢ a) is f.0
  | inr (q, later) ↦ other_address rest id a e f.1 later
]

-- Erasing a breakpoint from both maps
erase-addresses :
    (xs : List (ℕ × SlotEntry)) (id : ℕ) (e : SlotEntry)
    → IsUnique xs
    → IsUnique (addresses xs)
    → lookup id xs ≡ some e
    → erase e.address (addresses xs) ≡ addresses (erase id xs)
unfolding addresses lookup erase
erase-addresses [] id e u w h = absurd (ground arith)
erase-addresses ((i, x) ∷ rest) id e u w h = elim (lookup-cons id i x e rest h) [
  | inl (q, is) ↦
      let same : (i == id) ≡ true = ground arith in
      let at : x.address ≡ e.address = ap (λ (y : SlotEntry). y.address) is in
      let there : (x.address == e.address) ≡ true = ground arith in
      rw (same, there)
        (erase_fresh e.address (addresses rest) (subst (λ z. IsFresh z (addresses rest)) at w.0)
          ∙ ap addresses (sym (erase_fresh id rest (subst (λ z. IsFresh z rest) q u.0))))
  | inr (q, later) ↦
      let differ : (i == id) ≡ false = ground arith in
      let far = other_address rest id x.address e w.0 later in
      let there : (x.address == e.address) ≡ false = ground arith in
      rw (differ, there) (ap (λ r. (x.address, x) ∷ r) (erase-addresses rest id e u.1 w.1 later))
]

length-addresses : (xs : List (ℕ × SlotEntry)) → length (addresses xs) ≡ length xs
unfolding addresses
length-addresses [] = refl
length-addresses ((i, x) ∷ rest) = ap suc (length-addresses rest)

-- The two maps hold the same breakpoints in the same order, each with a slot of its own, and no other
-- slot is used.
pub record IsTied (s : State) : Type 0 where
  pub slotted : Slotted s.by_id s.used_slots
  pub same_entries : s.by_address ≡ addresses s.by_id
  pub unique_ids : IsUnique s.by_id
  pub unique_addresses : IsUnique s.by_address
  pub old_ids : Below s.next_hw_id s.by_id

-- All but the machine, the registry and the address of the next entry is as it was.
pub record Unchanged (s t : State) : Type 0 where
  pub by_id : t.by_id ≡ s.by_id
  pub by_address : t.by_address ≡ s.by_address
  pub next_hw_id : t.next_hw_id ≡ s.next_hw_id
  pub used_slots : t.used_slots ≡ s.used_slots
  pub registers : t.registers ≡ s.registers

pub Unchanged-IsTied : (s t : State) → Unchanged s t → IsTied s → IsTied t
Unchanged-IsTied s t c v = record {
  slotted = rw (c.by_id, c.used_slots) v.slotted;
  same_entries = rw (c.by_id, c.by_address) v.same_entries;
  unique_ids = rw c.by_id v.unique_ids;
  unique_addresses = rw c.by_address v.unique_addresses;
  old_ids = rw (c.by_id, c.next_hw_id) v.old_ids;
}

pub ensure-Unchanged :
    (callback : ℕ) (s : State) → Unchanged s (ensure_hw_handler_installed callback s)
unfolding ensure_hw_handler_installed install_hw_handlers
ensure-Unchanged callback s = record {
  by_id = ground arith;
  by_address = ground arith;
  next_hw_id = ground arith;
  used_slots = ground arith;
  registers = ground arith;
}

pub maybe-Unchanged : (s : State) → Unchanged s (maybe_remove_hw_handler s)
unfolding maybe_remove_hw_handler
maybe-Unchanged s = record {
  by_id = ground arith;
  by_address = ground arith;
  next_hw_id = ground arith;
  used_slots = ground arith;
  registers = ground arith;
}

pub register-IsTied :
    (thread slot : ℕ) (s : State) (m : Machine) (new : SlotEntry)
    → IsTied s
    → IsFreeSlot s.used_slots slot
    → new.slot ≡ some slot
    → lookup new.address s.by_address ≡ none
    → s.next_hw_id + 1 < 2 ^ 64
    → IsTied (register thread slot s m new)
unfolding register insert addresses
register-IsTied thread slot s m new v free at clear small =
    let fresh : IsFresh s.next_hw_id s.by_id =
      IsFresh-of_Below s.next_hw_id s.next_hw_id s.by_id (omega arith) v.old_ids in
    let fresh' : IsFresh new.address s.by_address =
      IsFresh-of_lookup new.address s.by_address clear in
    let ids : erase s.next_hw_id s.by_id ≡ s.by_id = erase_fresh s.next_hw_id s.by_id fresh in
    let gone : erase new.address s.by_address ≡ s.by_address =
      erase_fresh new.address s.by_address fresh' in
    record {
      slotted = rw ids (Slotted-cons s.by_id s.used_slots s.next_hw_id slot new v.slotted free at);
      same_entries = rw (ids, gone) (ap (λ r. (new.address, new) ∷ r) v.same_entries);
      unique_ids = rw ids (fresh, v.unique_ids);
      unique_addresses = rw gone (fresh', v.unique_addresses);
      old_ids = rw ids (
        omega arith,
        Below-le s.next_hw_id ((s.next_hw_id + 1) % 2 ^ 64) s.by_id (omega arith) v.old_ids,
      );
    }

remove_id-IsTied : (thread id : ℕ) (s : State) → IsTied s → IsTied (remove_id thread id s)
unfolding remove_id clear_entry clear_debug_reg
remove_id-IsTied thread id s v = elim (Option-cases (lookup id s.by_id)) [
  | inl q ↦ rw (q, remove_id) v
  | inr (e, q) ↦
      let (slot, at, lt, on) = Slotted-slot s.by_id s.used_slots id e v.slotted q in
      let fewer =
        erase-addresses s.by_id id e v.unique_ids (subst IsUnique v.same_entries v.unique_addresses)
          q in
      rw (q, remove_id, at)
        (Unchanged-IsTied _ _ (maybe-Unchanged _) (record {
          slotted = Slotted-erase s.by_id s.used_slots id slot e v.slotted v.unique_ids q at;
          same_entries = ap (erase e.address) v.same_entries ∙ fewer;
          unique_ids = erase-IsUnique id s.by_id v.unique_ids;
          unique_addresses = erase-IsUnique e.address s.by_address v.unique_addresses;
          old_ids = erase-Below id s.next_hw_id s.by_id v.old_ids;
        }))
]

pub remove-IsTied :
    (thread : ℕ) (text : List ℕ) (s : State) → IsTied s → IsTied (remove thread text s).1
unfolding remove
remove-IsTied thread text s v = elim (Outcome-cases (parse_hex_addr text)) [
  | inl (id, q) ↦ rw (q, remove) (remove_id-IsTied thread id s v)
  | inr (e, q) ↦ rw (q, remove) v
]

pub remove_all-IsTied : (thread : ℕ) (s : State) → IsTied s → IsTied (remove_all thread s)
unfolding remove_all addresses
remove_all-IsTied thread s v = Unchanged-IsTied _ _ (maybe-Unchanged _) (record {
  slotted = Slotted-remove_loop s.by_id s.machine (s.registers thread) s.used_slots v.slotted;
  same_entries = refl;
  unique_ids = tt;
  unique_addresses = tt;
  old_ids = tt;
})

-- Below the limit a slot is free.
pub slot_free :
    (s : State)
    → IsTied s
    → length s.by_address < platform_max_breakpoints
    → (slot : ℕ) × (find_free_slot s.used_slots ≡ some slot) × IsFreeSlot s.used_slots slot
slot_free s v room = elim (find_free_slot-IsFreeSlot s.used_slots) [
  | inr found ↦ found
  | inl (q, all) ↦
      let count = Slotted-count s.by_id s.used_slots v.slotted in
      let entries = ap length v.same_entries ∙ length-addresses s.by_id in
      let a = all 0 (omega arith) in
      let b = all 1 (omega arith) in
      let c = all 2 (omega arith) in let d = all 3 (omega arith) in absurd (ground arith)
]
