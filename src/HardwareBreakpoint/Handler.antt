-- ===== src/HardwareBreakpoint/Handler.antt =====
-- The handlers of hardware breakpoints in the exception registry.
use better_ncm.Base.{
  ℕ, ◌+◌, ◌^◌, ◌<◌, ◌≡◌, refl, ap, ◌∙◌, true, false, none, List, [], ◌∷◌, ◌++◌, arith, Outcome, ok,
  lookup, insert, erase, erase-insert, lookup-insert_self, inl, inr, if◌then◌else◌,
}
use better_ncm.Base.Int.{ℤ}
use better_ncm.Hex.{to_hex_addr}
use better_ncm.Callbacks.{Callback}
use better_ncm.Relocator.Code.{Host, Allocates}
use better_ncm.Relocator.{Machine}
use better_ncm.Exceptions.{
  breakpoint, single_step, HandlerEntry, Registry, unregister_handler, ref_disable,
}
use better_ncm.Exceptions.Dispatch.{HasOldIds}
use better_ncm.Exceptions.Pairs.{ref_first}
use better_ncm.PerfEvents.{Events, Kernel}
use better_ncm.HardwareBreakpoint.{
  HwEntry, HwError, State, install_hw_handlers, ensure_hw_handler_installed, is_empty,
  maybe_remove_hw_handler, register, set, remove_id, remove,
}
use better_ncm.HardwareBreakpoint.Effects.{Opens}
use better_ncm.HardwareBreakpoint.Outcomes.{set-Outcomes, parsed_id}

-- The single-step handler that is left over
abbrev pub leftover : ℕ → Registry → HandlerEntry
leftover callback r = record { id = r.next_id + 1; type = single_step; callback = callback }

installed :
    (callback : ℕ) (s : State)
    → s.hw_handler_installed ≡ false
    → ensure_hw_handler_installed callback s ≡ install_hw_handlers callback s
unfolding ensure_hw_handler_installed
installed callback s off = ap (λ b. if b then s else install_hw_handlers callback s) off

maybe_removed :
    (s : State)
    → s.hw_handler_installed ≡ true
    → is_empty s.by_address ≡ true
    → (maybe_remove_hw_handler s).registry
      ≡ ref_disable (unregister_handler s.hw_handler_id s.registry)
unfolding maybe_remove_hw_handler
maybe_removed s on empty = ground arith

remove_id-leftover :
    (callback : ℕ) (s : State) (m : Machine) (events : Events) (e : HwEntry)
    → s.by_address ≡ []
    → HasOldIds s.registry
    → s.registry.next_id + 1 < 2 ^ 64
    → (remove_id s.next_hw_id
        (register (install_hw_handlers callback s) m events e)).registry.handlers
      ≡ s.registry.handlers ++ leftover callback s.registry ∷ []
unfolding remove_id register install_hw_handlers is_empty lookup
remove_id-leftover callback s m events e empty old small =
    let free : lookup e.address s.by_address ≡ none = ap (lookup e.address) empty in
    let none_left : is_empty (erase e.address (insert e.address e s.by_address)) ≡ true =
      ap is_empty (erase-insert e.address e s.by_address free ∙ empty) in
    rw (lookup-insert_self s.next_hw_id e s.by_id, remove_id)
      (ap (λ (r : Registry). r.handlers) (maybe_removed _ refl none_left)
        ∙ ref_first breakpoint single_step callback s.registry old small)

module _ (host : Host) (laws : Allocates host) (kernel : Kernel) (opens : Opens kernel)
    (callback dispatch_fn : ℕ) where
  -- After the first `set` and the `remove` of its id, the single-step handler that `set` registered
  -- is still in the exception registry, behind the handlers that were there. No handler was
  -- installed and no breakpoint set before, the ids of the registry are below its counter, and the
  -- ids do not wrap round; the JIT runtime gives addresses that are neither null nor in use, and
  -- the kernel gives file descriptors that are not open.
  pub remove-set-leftover :
      (s : State) (address : ℕ) (type_str : List ℕ) (size : ℤ) (on_hit : Callback) (text : List ℕ)
      (t : State)
      → s.hw_handler_installed ≡ false
      → s.by_address ≡ []
      → s.next_hw_id < 2 ^ 64
      → HasOldIds s.registry
      → s.registry.next_id + 1 < 2 ^ 64
      → set host kernel callback dispatch_fn address type_str size on_hit s ≡ (ok text, t)
      → (remove text t).1.registry.handlers
        ≡ s.registry.handlers ++ leftover callback s.registry ∷ []
  remove-set-leftover s address type_str size on_hit text t off empty small old small' h =
      elim (set-Outcomes host laws kernel opens callback dispatch_fn s address type_str size
        on_hit) [
          | inl (e, u, c, q) ↦ absurd (ground (arith, q))
          | inr (type, m, events, e, u, parsed, c, made, free, room, new, q) ↦
              let installs : ensure_hw_handler_installed callback s
                  ≡ install_hw_handlers callback s =
                installed callback s off in
              let here : text ≡ to_hex_addr u.next_hw_id = ground (arith, q) in
              let id : text ≡ to_hex_addr s.next_hw_id = here ∙ ap to_hex_addr c.next_hw_id in
              let there : t ≡ register u m events e = ground (arith, q) in
              let state : t ≡ register (install_hw_handlers callback s) m events e =
                there ∙ ap (λ x. register x m events e) (made ∙ installs) in
              let call : remove text t ≡ (
                ok tt,
                remove_id s.next_hw_id (register (install_hw_handlers callback s) m events e),
              ) =
                ap (λ (x : List ℕ). remove x t) id
                ∙ ap (λ (x : State). remove (to_hex_addr s.next_hw_id) x) state
                ∙ parsed_id s.next_hw_id (register (install_hw_handlers callback s) m events e)
                    small in
              ap (λ (r : Outcome HwError (Unit {0}) × State). r.1.registry.handlers) call
              ∙ remove_id-leftover callback s m events e empty old small'
        ]
