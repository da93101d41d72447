-- ===== src/Breakpoint/Set.antt =====
-- What a call of `set` leaves, in memory and at a hit.
use mathlib.Core.Path.{subst⁻¹}
use better_ncm.Base.{
  ℕ, ◌+◌, ◌-◌, ◌%◌, ◌^◌, ◌<◌, ◌≡◌, refl, ◌∙◌, ap, true, none, some, List, arith, Outcome, ok,
  thrown, lookup, insert, lookup-insert_self, Option-cases, inl, inr, ◌⊎◌,
}
use better_ncm.Hex.{to_hex_addr}
use better_ncm.Callbacks.{Callback}
use better_ncm.Relocator.Code.{Host, Allocates}
use better_ncm.Relocator.{Machine, trampoline_code}
use better_ncm.Relocator.Effects.{Protects}
use better_ncm.Breakpoint.{
  BreakpointEntry, State, BreakpointError, ensure_handler_installed, register, set, sigtrap_handler,
}
use better_ncm.Breakpoint.Effects.{
  unpatched, Traps, Unchanged, IsTable, ensure-Unchanged, Unchanged-IsTable, Unchanged-unpatched,
  register-unpatched, set_installed-Sets,
}
use better_ncm.Exceptions.{Context, set_pc}

ensure-next_ptr :
    (callback : ℕ) (s : State) → (ensure_handler_installed callback s).next_ptr ≡ s.next_ptr
unfolding ensure_handler_installed
ensure-next_ptr callback s = ground arith

module _ (host : Host) (laws : Allocates host) (protects : Protects host) where
  module _ (callback dispatch_fn : ℕ) where
    -- A call of `set` throws and changes neither the maps nor the machine, or adds a breakpoint.
    abbrev pub Outcomes : State → ℕ → Outcome BreakpointError (List ℕ) × State → Type 0
    Outcomes s address r =
        ((e : BreakpointError) × (t : State) × Unchanged s t × (r ≡ (thrown e, t)))
        ⊎ ((m : Machine) × (e : BreakpointEntry) × (u : State) × Unchanged s u
            × (u.next_ptr ≡ s.next_ptr)
            × Traps dispatch_fn u address m e
            × (r ≡ (ok (to_hex_addr u.next_bp_id), register u m e)))

    pub set-Outcomes :
        (s : State) (address : ℕ) (on_hit : Callback)
        → Outcomes s address (set host callback dispatch_fn address on_hit s)
    unfolding set
    set-Outcomes s address on_hit = elim (Option-cases (lookup address s.by_address)) [
      | inr (_, e) ↦
          rw (e, set)
            (inl (
              _,
              s,
              record { by_id = refl; by_address = refl; next_bp_id = refl; machine = refl },
              refl,
            ))
      | inl free ↦
          let u = ensure_handler_installed callback s in
          let same = ensure-Unchanged callback s in
          let free' : lookup address u.by_address ≡ none =
            ap (λ l. lookup address l) same.by_address ∙ free in
          elim (set_installed-Sets host laws protects u dispatch_fn address on_hit free') [
            | inl (e, t, c, q) ↦
                rw (free, set, q)
                  (inl (
                    e,
                    t,
                    record {
                      by_id = c.by_id ∙ same.by_id;
                      by_address = c.by_address ∙ same.by_address;
                      next_bp_id = c.next_bp_id ∙ same.next_bp_id;
                      machine = c.machine ∙ same.machine;
                    },
                    refl,
                  ))
            | inr (m, e, new, q) ↦
                rw (free, set, q) (inr (m, e, u, same, ensure-next_ptr callback s, new, refl))
          ]
    ]

    -- `set`, whether it returns or throws, leaves what memory is without breakpoints as it was. The
    -- ids of the table differ and are below the counter, the JIT runtime gives addresses that are
    -- neither null nor in use, and every `mprotect` succeeds.
    pub set-unpatched :
        (s : State) (address : ℕ) (on_hit : Callback)
        → IsTable s
        → unpatched (set host callback dispatch_fn address on_hit s).1 ≡ unpatched s
    set-unpatched s address on_hit v = elim (set-Outcomes s address on_hit) [
      | inl (e, t, same, q) ↦ rw q (Unchanged-unpatched s t same)
      | inr (m, e, u, same, ptr, new, q) ↦ rw q (
          register-unpatched dispatch_fn u address m e (Unchanged-IsTable s u same v) new
          ∙ Unchanged-unpatched s u same)
    ]

    -- The breakpoint at `address` has a trampoline, and its hit resumes there.
    abbrev pub IsTrap : State → ℕ → Context → State → Type 0
    IsTrap s address ctx t =
        (e : BreakpointEntry) × (e.address ≡ address)
        × (lookup e.trampoline_code t.machine.blocks
            ≡ some (trampoline_code dispatch_fn 0 s.next_ptr e.relocated_code))
        × (sigtrap_handler t ctx ≡ (true, set_pc e.trampoline_code ctx))

    register-IsTrap :
        (s u : State) (address : ℕ) (m : Machine) (e : BreakpointEntry) (ctx : Context)
        → address + 1 < 2 ^ 64
        → ctx.pc ≡ address + 1
        → u.next_ptr ≡ s.next_ptr
        → Traps dispatch_fn u address m e
        → IsTrap s address ctx (register u m e)
    unfolding register sigtrap_handler
    register-IsTrap s u address m e ctx small at ptr new = (
      e,
      new.at,
      new.jump ∙ ap (λ p. some (trampoline_code dispatch_fn 0 p e.relocated_code)) ptr,
      hit,
    )
      where
        found : lookup ((ctx.pc + 2 ^ 64 - 1) % 2 ^ 64) (insert e.address e u.by_address) ≡ some e
        found =
            ap (λ k. lookup k (insert e.address e u.by_address)) (omega (arith, at, new.at, small))
            ∙ lookup-insert_self e.address e u.by_address

        hit : sigtrap_handler (register u m e) ctx ≡ (true, set_pc e.trampoline_code ctx)
        hit = rw (found, sigtrap_handler) refl

    -- Where `set` succeeds, a hit of the breakpoint (the program counter one behind its address,
    -- below 2^64) is handled and resumes at a trampoline with the code that calls the dispatch
    -- function for the new entry and jumps to the relocated code. The JIT runtime gives addresses
    -- that are neither null nor in use, and every `mprotect` succeeds.
    pub sigtrap_handler-set :
        (s : State) (address : ℕ) (on_hit : Callback) (text : List ℕ) (t : State) (ctx : Context)
        → address + 1 < 2 ^ 64
        → ctx.pc ≡ address + 1
        → set host callback dispatch_fn address on_hit s ≡ (ok text, t)
        → IsTrap s address ctx t
    sigtrap_handler-set s address on_hit text t ctx small at h =
        elim (set-Outcomes s address on_hit) [
          | inl (e, u, same, q) ↦ absurd (ground (arith, q))
          | inr (m, e, u, same, ptr, new, q) ↦
              let there : t ≡ register u m e = ground (arith, q) in
              subst⁻¹ (IsTrap s address ctx) there
                (register-IsTrap s u address m e ctx small at ptr new)
        ]
