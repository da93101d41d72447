-- ===== src/DebugRegisters/Delivery.antt =====
-- The breakpoint that a hit reaches, after any calls.
use better_ncm.Base.{
  ℕ, ◌<◌, ◌≡◌, refl, sym, ◌∙◌, ap, true, false, none, some, List, [], ◌∷◌, arith, lookup,
  lookup-cons, inl, inr, ◌==◌,
}
use better_ncm.Hex.{to_hex_addr}
use better_ncm.Relocator.Code.{Host}
use better_ncm.Exceptions.{Context}
use better_ncm.DebugRegisters.{is_used, clear_bit}
use better_ncm.DebugRegisters.Fields.{each_slot}
use better_ncm.DebugRegisters.Hits.{
  SlotEntry, in_slot, first_in_slot, slot_loop, jump_target, hit_entry, answer, call_on_hit,
  debug_handler,
}
use better_ncm.DebugRegisters.Slotted.{Slotted, Slotted-slot, Slotted-differ, Slotted-head}
use better_ncm.DebugRegisters.Breakpoints.{State}
use better_ncm.DebugRegisters.Tied.{IsTied, addresses}
use better_ncm.DebugRegisters.Limit.{Steps, Steps-IsTied}

in_slot-some : (e : SlotEntry) (s j : ℕ) → e.slot ≡ some j → in_slot s e ≡ (j == s)
unfolding in_slot
in_slot-some e s j at = rw at refl

-- The search by slot finds the breakpoint of the slot.
first_in_slot-addresses :
    (xs : List (ℕ × SlotEntry)) (used id s : ℕ) (e : SlotEntry)
    → Slotted xs used
    → lookup id xs ≡ some e
    → e.slot ≡ some s
    → first_in_slot s (addresses xs) ≡ some e
unfolding first_in_slot addresses lookup
first_in_slot-addresses [] used id s e v h k = absurd (ground arith)
first_in_slot-addresses ((i, x) ∷ rest) used id s e v h k =
    let (j, at, lt, on, later) = Slotted-head rest used i x v in
    elim (lookup-cons id i x e rest h) [
      | inl (q, is) ↦
          let slot : x.slot ≡ some s = ap (λ (y : SlotEntry). y.slot) is ∙ k in
          let here : in_slot s x ≡ true = in_slot-some x s s slot ∙ ground arith in
          rw here (ap some is)
      | inr (q, found) ↦
          let (lt', ne) = Slotted-differ rest used id j s e lt later found k in
          let off : in_slot s x ≡ false = in_slot-some x s j at ∙ ground arith in
          rw off (first_in_slot-addresses rest (clear_bit j used) id s e later found k)
    ]

-- DR6 says that slot `s` is hit and no other.
abbrev pub IsHitAt : ℕ → ℕ → Type 0
IsHitAt dr6 s = (j : ℕ) → j < 4 → is_used dr6 j ≡ (s == j)

slot_loop-first :
    (dr6 : ℕ) (entries : List (ℕ × SlotEntry)) (e : SlotEntry) (s : ℕ)
    → s < 4
    → IsHitAt dr6 s
    → first_in_slot s entries ≡ some e
    → slot_loop 4 0 dr6 entries ≡ some e
unfolding slot_loop
slot_loop-first dr6 entries e =
    each_slot
      (λ s. IsHitAt dr6 s → first_in_slot s entries ≡ some e → slot_loop 4 0 dr6 entries ≡ some e)
      (λ h f. rw (h 0 (omega arith), f) refl)
      (λ h f. rw (h 0 (omega arith), h 1 (omega arith), f) refl)
      (λ h f. rw (h 0 (omega arith), h 1 (omega arith), h 2 (omega arith), f) refl)
      (λ h f.
        rw (h 0 (omega arith), h 1 (omega arith), h 2 (omega arith), h 3 (omega arith), f) refl)

module _ (host : Host) (callback dispatch_fn : ℕ) where
  -- After any calls of `set`, `remove` and `removeAll`, on any threads and failing ones included, a
  -- trap for which DR6 names the slot of a registered breakpoint and no other is handled by one
  -- call of this breakpoint's callback, if it has one, with the program counter, where before the
  -- maps held the same breakpoints in the same order, with old ids, each with a slot of its own,
  -- and no other slot was in use. No call of `set` finds the next id at its limit, and no `execute`
  -- breakpoint with a trampoline is at the program counter.
  pub debug_handler-Steps :
      (s t : State) (id slot dr6 : ℕ) (e : SlotEntry) (ctx : Context)
      → Steps host callback dispatch_fn s t
      → IsTied s
      → lookup id t.by_id ≡ some e
      → e.slot ≡ some slot
      → IsHitAt dr6 slot
      → jump_target t.by_address ctx ≡ none
      → debug_handler (some dr6) t.by_address ctx
        ≡ (true, ctx, call_on_hit e.on_hit (to_hex_addr ctx.pc))
  unfolding debug_handler answer hit_entry
  debug_handler-Steps s t id slot dr6 e ctx p v found at hit stays =
      let w = Steps-IsTied host callback dispatch_fn s t p v in
      let (j, at', lt, on) = Slotted-slot t.by_id t.used_slots id e w.slotted found in
      let slots : some j ≡ some slot = sym at' ∙ at in
      let below : slot < 4 = ground arith in
      let first : first_in_slot slot t.by_address ≡ some e =
        ap (first_in_slot slot) w.same_entries
        ∙ first_in_slot-addresses t.by_id t.used_slots id slot e w.slotted found at in
      rw (stays, slot_loop-first dr6 t.by_address e slot below hit first) refl
