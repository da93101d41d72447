-- ===== src/DebugRegisters/Undo.antt =====
-- Taking back a breakpoint on the thread that set it, and on another.
use better_ncm.Base.{
  ℕ, ◌^◌, ◌<◌, ◌≡◌, refl, sym, ◌∙◌, ap, true, Bool-cases, none, some, List, arith, ok, lookup,
  lookup-insert_self, erase-insert, lookup_fresh, erase, IsFresh-of_Below, inl, inr, ◌==◌,
  if◌then◌else◌,
}
use mathlib.Core.Path.{subst}
use better_ncm.Base.Int.{ℤ}
use better_ncm.Hex.{to_hex_addr}
use better_ncm.Hex.RoundTrip.{parse_hex_addr-to_hex_addr}
use better_ncm.Callbacks.{Callback}
use better_ncm.Relocator.Code.{Host}
use better_ncm.Relocator.{Machine}
use better_ncm.DebugRegisters.{DebugState, set_bit, put_address, set_debug_reg, clear_debug_reg}
use better_ncm.DebugRegisters.Fields.{each_slot, enable_field, set_debug_reg-IsPut}
use better_ncm.DebugRegisters.Slots.{IsFreeSlot}
use better_ncm.DebugRegisters.Hits.{SlotEntry}
use better_ncm.DebugRegisters.Breakpoints.{
  State, put_registers, register, release_entry, maybe_remove_hw_handler, set, clear_entry,
  remove_id, remove,
}
use better_ncm.DebugRegisters.Tied.{IsTied, maybe-Unchanged}
use better_ncm.DebugRegisters.Limit.{set-Sets}

clear_debug_reg-enable :
    (d : DebugState) (used s : ℕ) → s < 4 → enable_field s (clear_debug_reg s (d, used)).0.dr7 ≡ 0
unfolding clear_debug_reg put_address
clear_debug_reg-enable d used =
    each_slot (λ s. enable_field s (clear_debug_reg s (d, used)).0.dr7 ≡ 0) (omega arith)
      (omega arith) (omega arith) (omega arith)

set_debug_reg-enable :
    (d : DebugState) (e : SlotEntry) (s : ℕ)
    → s < 4
    → enable_field s (set_debug_reg s e.address e.type e.size d).dr7 ≡ 1
set_debug_reg-enable d e s lt =
    let same : (s == s) ≡ true = ground arith in
    (set_debug_reg-IsPut e.address e.type e.size d s s lt lt).enabled
    ∙ ap (λ b. if b then 1 else enable_field s d.dr7) same

-- What `remove` on the thread `other` leaves of a breakpoint that `set` made on `thread`
pub record IsUndone (thread other slot : ℕ) (s v : State) : Type 0 where
  pub by_id : v.by_id ≡ s.by_id
  pub by_address : v.by_address ≡ s.by_address
  pub used_slots : v.used_slots ≡ s.used_slots
  pub enabled : enable_field slot (v.registers thread).dr7 ≡ (if thread == other then 0 else 1)

left_enabled :
    (thread other slot used : ℕ) (d : DebugState) (regs : ℕ → DebugState)
    → slot < 4
    → enable_field slot d.dr7 ≡ 1
    → let set_regs = put_registers thread d regs in
      enable_field slot
        (put_registers other (clear_debug_reg slot (set_regs other, used)).0 set_regs thread).dr7
      ≡ (if thread == other then 0 else 1)
unfolding put_registers
left_enabled thread other slot used d regs lt on = elim (Bool-cases (thread == other)) [
  | inl same ↦ rw same (clear_debug_reg-enable _ used slot lt)
  | inr differ ↦ let self : (thread == thread) ≡ true = ground arith in rw (differ, self) on
]

-- `remove` of a registered breakpoint, up to the last step
abbrev without : ℕ → ℕ → ℕ → SlotEntry → State → State
without other id slot e s =
    let regs = clear_debug_reg slot (s.registers other, s.used_slots) in
    record s {
      machine = release_entry s.machine e;
      registers = put_registers other regs.0 s.registers;
      used_slots = regs.1;
      by_id = erase id s.by_id;
      by_address = erase e.address s.by_address;
    }

remove_id-without :
    (other id slot : ℕ) (e : SlotEntry) (s : State)
    → lookup id s.by_id ≡ some e
    → e.slot ≡ some slot
    → remove_id other id s ≡ maybe_remove_hw_handler (without other id slot e s)
unfolding remove_id clear_entry
remove_id-without other id slot e s found at = rw (found, remove_id, at) refl

remove_id-IsUndone :
    (thread other slot : ℕ) (s : State) (m : Machine) (e : SlotEntry)
    → IsFreeSlot s.used_slots slot
    → e.slot ≡ some slot
    → lookup s.next_hw_id s.by_id ≡ none
    → lookup e.address s.by_address ≡ none
    → IsUndone thread other slot s (remove_id other s.next_hw_id (register thread slot s m e))
unfolding register clear_debug_reg
remove_id-IsUndone thread other slot s m e free at fresh clear =
    let t = register thread slot s m e in
    let d = set_debug_reg slot e.address e.type e.size (s.registers thread) in
    let on = set_debug_reg-enable (s.registers thread) e slot free.below in
    let c = maybe-Unchanged (without other s.next_hw_id slot e t) in
    subst (IsUndone thread other slot s)
      (sym (
        remove_id-without other s.next_hw_id slot e t (lookup-insert_self s.next_hw_id e s.by_id)
          at))
      (record {
        by_id = c.by_id ∙ erase-insert s.next_hw_id e s.by_id fresh;
        by_address = c.by_address ∙ erase-insert e.address e s.by_address clear;
        used_slots = c.used_slots ∙ free.freed;
        enabled =
            ap (λ (r : ℕ → DebugState). enable_field slot (r thread).dr7) c.registers
            ∙ left_enabled thread other slot (set_bit slot s.used_slots) d s.registers free.below
                on;
      })

parsed_id :
    (other id : ℕ) (s : State)
    → id < 2 ^ 64
    → remove other (to_hex_addr id) s ≡ (ok tt, remove_id other id s)
unfolding remove
parsed_id other id s small = rw (parse_hex_addr-to_hex_addr id small, remove) refl

module _ (host : Host) (callback dispatch_fn : ℕ) where
  -- Where `set` succeeds, `remove` with the id that it returned, on the same or another thread,
  -- leaves both maps and the used slots as they were before `set`. In the registers of the thread
  -- that called `set`, the breakpoint is disabled if `remove` runs on this thread, and still
  -- enabled if not. Before, the maps held the same breakpoints in the same order, with old ids,
  -- each with a slot of its own, and no other slot was in use; the next id is below 2^64.
  pub remove-set_thread :
      (s : State) (thread other address : ℕ) (type_str : List ℕ) (size : ℤ) (on_hit : Callback)
      (text : List ℕ) (t : State)
      → IsTied s
      → s.next_hw_id < 2 ^ 64
      → set host callback dispatch_fn thread address type_str size on_hit s ≡ (ok text, t)
      → (slot : ℕ) × IsFreeSlot s.used_slots slot
        × IsUndone thread other slot s (remove other text t).1
  remove-set_thread s thread other address type_str size on_hit text t v small h =
      elim (set-Sets host callback dispatch_fn thread s v address size on_hit type_str) [
        | inl (e, u, c, ne, q) ↦ absurd (ground (arith, q))
        | inr (slot, m, e, u, c, free, at, there, clear, q) ↦
            let here : text ≡ to_hex_addr u.next_hw_id = ground (arith, q) in
            let state : t ≡ register thread slot u m e = ground (arith, q) in
            let id : u.next_hw_id < 2 ^ 64 = rw c.next_hw_id small in
            let fresh : lookup u.next_hw_id u.by_id ≡ none = lookup_fresh u.next_hw_id u.by_id (
              IsFresh-of_Below u.next_hw_id s.next_hw_id u.by_id (omega (arith, c.next_hw_id))
                (rw c.by_id v.old_ids)) in
            let free' : IsFreeSlot u.used_slots slot =
              subst (λ k. IsFreeSlot k slot) (sym c.used_slots) free in
            let clear' : lookup e.address u.by_address ≡ none =
              ap (lookup e.address) c.by_address ∙ ap (λ a. lookup a s.by_address) there ∙ clear in
            let r = remove_id-IsUndone thread other slot u m e free' at fresh clear' in
            let call : remove other text t
                ≡ (ok tt, remove_id other u.next_hw_id (register thread slot u m e)) =
              ap (λ x. remove other x t) here
              ∙ ap (remove other (to_hex_addr u.next_hw_id)) state
              ∙ parsed_id other u.next_hw_id (register thread slot u m e) id in
            (
              slot,
              free,
              rw call (record {
                by_id = r.by_id ∙ c.by_id;
                by_address = r.by_address ∙ c.by_address;
                used_slots = r.used_slots ∙ c.used_slots;
                enabled = r.enabled;
              }),
            )
      ]
