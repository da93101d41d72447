-- ===== src/DebugRegisters/Limit.antt =====
-- Whatever calls were made, a call of `set` below the limit finds a free slot.
use better_ncm.Base.{
  sym, ℕ, ◌+◌, ◌^◌, ◌<◌, ◌≡◌, ◌≢◌, refl, ◌∙◌, ap, none, some, List, arith, length, leb, lookup,
  Option-cases, Bool-cases, Outcome, ok, thrown, inl, inr, ◌⊎◌,
}
use mathlib.Core.Path.{subst}
use better_ncm.Base.Int.{ℤ}
use better_ncm.Hex.{to_hex_addr}
use better_ncm.Callbacks.{Callback}
use better_ncm.Relocator.Code.{Host}
use better_ncm.Relocator.{Machine, CodeError, build_trampoline, build_relocated_code}
use better_ncm.PerfEvents.{HwBpType, parse_type, is_execute}
use better_ncm.HardwareBreakpoint.{HwError, no_free_slot, platform_max_breakpoints}
use better_ncm.DebugRegisters.{find_free_slot}
use better_ncm.DebugRegisters.Slots.{IsFreeSlot}
use better_ncm.DebugRegisters.Hits.{SlotEntry}
use better_ncm.DebugRegisters.Breakpoints.{
  State, ensure_hw_handler_installed, register, new_entry, set_found, set_armed, set_built,
  set_relocated, set_installed, set_typed, set, remove, remove_all,
}
use better_ncm.DebugRegisters.Tied.{
  IsTied, Unchanged, Unchanged-IsTied, ensure-Unchanged, register-IsTied, remove-IsTied,
  remove_all-IsTied, slot_free,
}

-- A call throws, but never for want of a slot, and changes no more than the machine and the
-- registry, or it takes a free slot for a breakpoint at the address.
abbrev pub Sets : ℕ → State → ℕ → Outcome HwError (List ℕ) × State → Type 0
Sets thread s address r =
    ((e : HwError) × (t : State) × Unchanged s t × (e ≢ no_free_slot) × (r ≡ (thrown e, t)))
    ⊎ ((slot : ℕ) × (m : Machine) × (e : SlotEntry) × (u : State) × Unchanged s u
        × IsFreeSlot s.used_slots slot
        × (e.slot ≡ some slot)
        × (e.address ≡ address)
        × (lookup address s.by_address ≡ none)
        × (r ≡ (ok (to_hex_addr u.next_hw_id), register thread slot u m e)))

same : (s : State) (m : Machine) (p : ℕ) → Unchanged s (record s { machine = m; next_ptr = p })
same s m p = record {
  by_id = refl;
  by_address = refl;
  next_hw_id = refl;
  used_slots = refl;
  registers = refl;
}

module _ (host : Host) (dispatch_fn thread : ℕ) (s : State) (slot : ℕ)
    (found : find_free_slot s.used_slots ≡ some slot) (free : IsFreeSlot s.used_slots slot) where
  set_armed-Sets :
      (m : Machine) (e : SlotEntry)
      → lookup e.address s.by_address ≡ none
      → Sets thread s e.address (set_armed thread s m e)
  unfolding set_armed set_found
  set_armed-Sets m e clear = rw found (
      inr (
        slot,
        m,
        record e { slot = some slot },
        s,
        same s s.machine s.next_ptr,
        free,
        refl,
        refl,
        clear,
        refl,
      ))

  set_built-Sets :
      (e : SlotEntry) (o : Outcome CodeError ℕ) (m : Machine)
      → lookup e.address s.by_address ≡ none
      → Sets thread s e.address (set_built host thread s e (o, m))
  unfolding set_built
  set_built-Sets e (thrown x) m clear = inl (_, _, same s _ _, (λ q. ground arith), refl)
  set_built-Sets e (ok t) m clear = set_armed-Sets m (record e { trampoline_code = t }) clear

  set_relocated-Sets :
      (e : SlotEntry) (o : Outcome CodeError (ℕ × ℕ)) (m : Machine)
      → lookup e.address s.by_address ≡ none
      → Sets thread s e.address (set_relocated host dispatch_fn thread s e (o, m))
  unfolding set_relocated
  set_relocated-Sets e (thrown x) m clear = inl (_, _, same s m _, (λ q. ground arith), refl)
  set_relocated-Sets e (ok (code, n)) m clear =
      let r = build_trampoline host m dispatch_fn 0 s.next_ptr code in
      set_built-Sets (record e { relocated_code = code }) r.0 r.1 clear

  set_installed-Sets :
      (e : SlotEntry)
      → lookup e.address s.by_address ≡ none
      → Sets thread s e.address (set_installed host dispatch_fn thread s e)
  unfolding set_installed
  set_installed-Sets e clear = elim (Bool-cases (is_execute e.type)) [
    | inr watch ↦ rw (watch, set_installed) (set_armed-Sets s.machine e clear)
    | inl exec ↦
        let r = build_relocated_code host s.machine e.address 1 in
        rw (exec, set_installed) (set_relocated-Sets e r.0 r.1 clear)
  ]

Unchanged-trans : (s t u : State) → Unchanged s t → Unchanged t u → Unchanged s u
Unchanged-trans s t u a b = record {
  by_id = b.by_id ∙ a.by_id;
  by_address = b.by_address ∙ a.by_address;
  next_hw_id = b.next_hw_id ∙ a.next_hw_id;
  used_slots = b.used_slots ∙ a.used_slots;
  registers = b.registers ∙ a.registers;
}

Sets-after :
    (thread : ℕ) (s t : State) (address : ℕ) (r : Outcome HwError (List ℕ) × State)
    → Unchanged s t
    → Sets thread t address r
    → Sets thread s address r
Sets-after thread s t address r c (inl (e, u, d, ne, q)) =
    inl (e, u, Unchanged-trans s t u c d, ne, q)
Sets-after thread s t address r c (inr (slot, m, e, u, d, free, at, there, clear, q)) = inr (
  slot,
  m,
  e,
  u,
  Unchanged-trans s t u c d,
  subst (λ k. IsFreeSlot k slot) c.used_slots free,
  at,
  there,
  ap (lookup address) (sym c.by_address) ∙ clear,
  q,
)

module _ (host : Host) (callback dispatch_fn thread : ℕ) (s : State) (v : IsTied s) (address : ℕ)
    (size : ℤ) (on_hit : Callback) where
  set_typed-Sets :
      (type : HwBpType)
      → Sets thread s address
          (set_typed host callback dispatch_fn thread address type size on_hit s)
  unfolding set_typed
  set_typed-Sets type = elim (Option-cases (lookup address s.by_address)) [
    | inr (e, q) ↦ rw (q, set_typed) (inl (_, s, same s _ _, (λ q. ground arith), refl))
    | inl clear ↦ elim (Bool-cases (leb platform_max_breakpoints (length s.by_address))) [
      | inl full ↦ rw (clear, set_typed, full) (inl (_, s, same s _ _, (λ q. ground arith), refl))
      | inr room ↦
          let u = ensure_hw_handler_installed callback s in
          let kept = ensure-Unchanged callback s in
          let (slot, found, free) = slot_free u (Unchanged-IsTied s u kept v) (
            let small : length s.by_address < platform_max_breakpoints = ground arith in
            rw kept.by_address small) in
          let call : set_typed host callback dispatch_fn thread address type size on_hit s
              ≡ set_installed host dispatch_fn thread u (new_entry address type size on_hit) =
            rw (clear, set_typed, room) refl in
          rw call (
            Sets-after thread s u address _ kept (
              set_installed-Sets host dispatch_fn thread u slot found free
                (new_entry address type size on_hit) (ap (lookup address) kept.by_address ∙ clear)))
    ]
  ]

  pub set-Sets :
      (type_str : List ℕ)
      → Sets thread s address (set host callback dispatch_fn thread address type_str size on_hit s)
  unfolding set
  set-Sets type_str = elim (Option-cases (parse_type type_str)) [
    | inl q ↦ rw (q, set) (inl (_, s, same s _ _, (λ q. ground arith), refl))
    | inr (type, q) ↦ rw (q, set) (set_typed-Sets type)
  ]

  set-IsTied :
      (type_str : List ℕ)
      → s.next_hw_id + 1 < 2 ^ 64
      → IsTied (set host callback dispatch_fn thread address type_str size on_hit s).1
  set-IsTied type_str small = elim (set-Sets type_str) [
    | inl (e, t, c, ne, q) ↦ rw q (Unchanged-IsTied s t c v)
    | inr (slot, m, e, u, c, free, at, there, clear, q) ↦ rw q (
        register-IsTied thread slot u m e (Unchanged-IsTied s u c v)
          (subst (λ k. IsFreeSlot k slot) (sym c.used_slots) free) at
          (ap (lookup e.address) c.by_address ∙ ap (λ a. lookup a s.by_address) there ∙ clear)
          (rw c.next_hw_id small))
  ]

module _ (host : Host) (callback dispatch_fn : ℕ) where
  -- One call, on any thread. The id does not wrap round.
  pub data Step : State → State → Type 0 where
    step_set :
        (s : State) (thread address : ℕ) (type_str : List ℕ) (size : ℤ) (on_hit : Callback)
        → s.next_hw_id + 1 < 2 ^ 64
        → Step s (set host callback dispatch_fn thread address type_str size on_hit s).1
    step_remove : (s : State) (thread : ℕ) (text : List ℕ) → Step s (remove thread text s).1
    step_remove_all : (s : State) (thread : ℕ) → Step s (remove_all thread s)

  pub data Steps : State → State → Type 0 where
    no_step : (s : State) → Steps s s
    one_more : (s t u : State) → Steps s t → Step t u → Steps s u

  Step-IsTied : (s t : State) → Step s t → IsTied s → IsTied t
  Step-IsTied s t (step_set _ thread address type_str size on_hit small) v =
      set-IsTied host callback dispatch_fn thread s v address size on_hit type_str small
  Step-IsTied s t (step_remove _ thread text) v = remove-IsTied thread text s v
  Step-IsTied s t (step_remove_all _ thread) v = remove_all-IsTied thread s v

  pub Steps-IsTied : (s t : State) → Steps s t → IsTied s → IsTied t
  Steps-IsTied s t (no_step _) v = v
  Steps-IsTied s t (one_more _ m _ before last) v = Step-IsTied m t last (Steps-IsTied s m before v)

  -- After any calls of `set`, `remove` and `removeAll`, on any threads and failing ones included, a
  -- call of `set` does not throw for want of a free slot, where before the maps held the same
  -- breakpoints in the same order, with old ids, each with a slot of its own, and no other slot was
  -- in use. No earlier call of `set` finds the next id at its limit.
  pub Steps-slots :
      (s t : State) (thread address : ℕ) (type_str : List ℕ) (size : ℤ) (on_hit : Callback)
      → Steps s t
      → IsTied s
      → (set host callback dispatch_fn thread address type_str size on_hit t).0
        ≢ thrown no_free_slot
  Steps-slots s t thread address type_str size on_hit p v =
      elim (set-Sets host callback dispatch_fn thread t (Steps-IsTied s t p v) address size on_hit
        type_str) [
          | inl (e, u, c, ne, q) ↦ λ h. ground (arith, q)
          | inr (slot, m, e, u, c, free, at, there, clear, q) ↦ λ h. ground (arith, q)
        ]
