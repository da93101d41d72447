-- ===== src/HardwareBreakpoint/Undo.antt =====
-- What a call of `set` leaves, at a hit and after `remove`.
use mathlib.Core.Path.{subst⁻¹}
use better_ncm.Base.{
  ℕ, ◌^◌, ◌<◌, ◌≡◌, refl, sym, ◌∙◌, ap, true, false, Option, none, some, List, arith, ◌==◌, ok,
  lookup, insert, erase-insert, lookup-insert_self, inl, inr, ◌⊎◌,
}
use better_ncm.Base.Int.{ℤ}
use better_ncm.Hex.{to_hex_addr}
use better_ncm.Callbacks.{Callback}
use better_ncm.Relocator.Code.{Host, Allocates}
use better_ncm.Relocator.{Machine, trampoline_code}
use better_ncm.PerfEvents.{HwBpType, parse_type, is_execute, Events, Kernel}
use better_ncm.Exceptions.{Context, set_pc}
use better_ncm.HardwareBreakpoint.{
  HwEntry, State, register, set, hw_sigtrap_handler, remove_id, remove,
}
use better_ncm.HardwareBreakpoint.Outcomes.{
  ensure-next_ptr, maybe-Unchanged, parsed_id, set-Outcomes,
}
use better_ncm.HardwareBreakpoint.Effects.{Opens, Adds}

module _ (host : Host) (laws : Allocates host) (kernel : Kernel) (opens : Opens kernel)
    (callback dispatch_fn : ℕ) where
  remove_id-register :
      (u : State) (address : ℕ) (type : HwBpType) (m : Machine) (events : Events) (e : HwEntry)
      → lookup u.next_hw_id u.by_id ≡ none
      → lookup address u.by_address ≡ none
      → Adds dispatch_fn u address type m events e
      → let t = remove_id u.next_hw_id (register u m events e) in
        (t.by_id ≡ u.by_id)
        × (t.by_address ≡ u.by_address)
        × (t.machine ≡ u.machine)
        × (t.events ≡ u.events)
  unfolding remove_id register
  remove_id-register u address type m events e fresh free new =
      let gone = maybe-Unchanged _ in
      rw (lookup-insert_self u.next_hw_id e u.by_id, remove_id)
        (
          gone.by_id ∙ erase-insert u.next_hw_id e u.by_id fresh,
          gone.by_address
              ∙ erase-insert e.address e u.by_address
                  (ap (λ a. lookup a u.by_address) new.at ∙ free),
          gone.machine ∙ new.released,
          gone.events ∙ new.closed,
        )

  -- `remove` with the id that `set` returned undoes the call: it returns, and both maps, memory,
  -- the live blocks and the open events are as they were. The next id is free and below 2^64, the
  -- JIT runtime gives addresses that are neither null nor in use, and the kernel gives file
  -- descriptors that are not open.
  pub remove-set_undoes :
      (s : State) (address : ℕ) (type_str : List ℕ) (size : ℤ) (on_hit : Callback) (text : List ℕ)
      (t : State)
      → lookup s.next_hw_id s.by_id ≡ none
      → s.next_hw_id < 2 ^ 64
      → set host kernel callback dispatch_fn address type_str size on_hit s ≡ (ok text, t)
      → let (r, v) = remove text t in
        (r ≡ ok tt)
        × (v.by_id ≡ s.by_id)
        × (v.by_address ≡ s.by_address)
        × (v.machine ≡ s.machine)
        × (v.events ≡ s.events)
  remove-set_undoes s address type_str size on_hit text t fresh small h =
      elim (set-Outcomes host laws kernel opens callback dispatch_fn s address type_str size
        on_hit) [
          | inl (e, u, c, q) ↦ absurd (ground (arith, q))
          | inr (type, m, events, e, u, _, c, made, free, room, new, q) ↦
              let here : text ≡ to_hex_addr u.next_hw_id = ground (arith, q) in
              let there : t ≡ register u m events e = ground (arith, q) in
              let small' : u.next_hw_id < 2 ^ 64 = omega (arith, small, c.next_hw_id) in
              let call : remove text t ≡ (ok tt, remove_id u.next_hw_id (register u m events e)) =
                ap (λ (x : List ℕ). remove x t) here
                ∙ ap (λ (x : State). remove (to_hex_addr u.next_hw_id) x) there
                ∙ parsed_id u.next_hw_id (register u m events e) small' in
              let fresh' : lookup u.next_hw_id u.by_id ≡ none = rw (c.next_hw_id, c.by_id) fresh in
              let free' : lookup address u.by_address ≡ none = rw c.by_address free in
              let (ids, addresses, machine, opened) =
                remove_id-register u address type m events e fresh' free' new in
              rw call (
                refl,
                ids ∙ c.by_id,
                addresses ∙ c.by_address,
                machine ∙ c.machine,
                opened ∙ c.events,
              )
        ]

  -- What a hit of the breakpoint at `address` does
  abbrev pub IsHit : State → ℕ → Option HwBpType → Context → State → Type 0
  IsHit s address o ctx t =
      (e : HwEntry) × (e.address ≡ address)
      × (o ≡ some e.type)
      × (((is_execute e.type ≡ true)
            × (lookup e.trampoline_code t.machine.blocks
                ≡ some (trampoline_code dispatch_fn 0 s.next_ptr e.relocated_code))
            × (hw_sigtrap_handler t ctx ≡ (true, set_pc e.trampoline_code ctx)))
          ⊎ ((is_execute e.type ≡ false) × (hw_sigtrap_handler t ctx ≡ (false, ctx))))

  register-IsHit :
      (s u : State) (address : ℕ) (o : Option HwBpType) (type : HwBpType) (m : Machine)
      (events : Events) (e : HwEntry) (ctx : Context)
      → ctx.pc ≡ address
      → o ≡ some type
      → u.next_ptr ≡ s.next_ptr
      → Adds dispatch_fn u address type m events e
      → IsHit s address o ctx (register u m events e)
  unfolding register hw_sigtrap_handler
  register-IsHit s u address o type m events e ctx at parsed ptr new = (
    e,
    new.at,
    parsed ∙ ap some (sym new.same_type),
    elim new.code [
      | inl (watch, none_there) ↦ inr (watch, rw (found, watch, hw_sigtrap_handler) refl)
      | inr (exec, nz, jump) ↦
          let code : (e.trampoline_code == 0) ≡ false = ground arith in
          inl (
            exec,
            jump ∙ ap (λ p. some (trampoline_code dispatch_fn 0 p e.relocated_code)) ptr,
            rw (found, exec, code, hw_sigtrap_handler) refl,
          )
    ],
  )
    where
      found : lookup ctx.pc (insert e.address e u.by_address) ≡ some e
      found =
          ap (λ k. lookup k (insert e.address e u.by_address)) (at ∙ sym new.at)
          ∙ lookup-insert_self e.address e u.by_address

  -- Where `set` succeeds, a trap at the address is handled for the type `execute`, and resumes at a
  -- trampoline with the code that calls the dispatch function for the new entry and jumps to the
  -- relocated code; for the other types the handler refuses the trap. The JIT runtime gives
  -- addresses that are neither null nor in use, and the kernel gives file descriptors that are not
  -- open.
  pub hw_sigtrap_handler-set :
      (s : State) (address : ℕ) (type_str : List ℕ) (size : ℤ) (on_hit : Callback) (text : List ℕ)
      (t : State) (ctx : Context)
      → ctx.pc ≡ address
      → set host kernel callback dispatch_fn address type_str size on_hit s ≡ (ok text, t)
      → IsHit s address (parse_type type_str) ctx t
  hw_sigtrap_handler-set s address type_str size on_hit text t ctx at h =
      elim (set-Outcomes host laws kernel opens callback dispatch_fn s address type_str size
        on_hit) [
          | inl (e, u, c, q) ↦ absurd (ground (arith, q))
          | inr (type, m, events, e, u, parsed, c, made, free, room, new, q) ↦
              let there : t ≡ register u m events e = ground (arith, q) in
              subst⁻¹ (IsHit s address (parse_type type_str) ctx) there (
                register-IsHit s u address _ type m events e ctx at parsed
                  (ap (λ (x : State). x.next_ptr) made ∙ ensure-next_ptr callback s) new)
        ]
