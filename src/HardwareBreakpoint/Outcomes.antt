-- ===== src/HardwareBreakpoint/Outcomes.antt =====
-- What a call of `set` returns and leaves, on every branch.
use better_ncm.Base.{
  ℕ, ◌^◌, ◌<◌, ◌≡◌, refl, ◌∙◌, Option, none, some, List, arith, leb, Bool-cases, Outcome, ok,
  thrown, lookup, length, Option-cases, inl, inr, ◌⊎◌,
}
use better_ncm.Base.Int.{ℤ}
use better_ncm.Hex.{to_hex_addr}
use better_ncm.Hex.RoundTrip.{parse_hex_addr-to_hex_addr}
use better_ncm.Callbacks.{Callback}
use better_ncm.Relocator.Code.{Host, Allocates}
use better_ncm.Relocator.{Machine}
use better_ncm.PerfEvents.{HwBpType, parse_type, Events, Kernel}
use better_ncm.HardwareBreakpoint.{
  HwEntry, State, HwError, platform_max_breakpoints, install_hw_handlers,
  ensure_hw_handler_installed, maybe_remove_hw_handler, register, set_typed, set, remove_id, remove,
}
use better_ncm.HardwareBreakpoint.Effects.{Opens, Unchanged, Adds, set_installed-Sets}

same : (s : State) → Unchanged s s
same s = record {
  by_id = refl;
  by_address = refl;
  next_hw_id = refl;
  machine = refl;
  events = refl;
}

-- `ensureHwHandlerInstalled` and `maybeRemoveHwHandler` change the registry only.
ensure-Unchanged : (callback : ℕ) (s : State) → Unchanged s (ensure_hw_handler_installed callback s)
unfolding ensure_hw_handler_installed install_hw_handlers
ensure-Unchanged callback s = record {
  by_id = ground arith;
  by_address = ground arith;
  next_hw_id = ground arith;
  machine = ground arith;
  events = ground arith;
}

pub ensure-next_ptr :
    (callback : ℕ) (s : State) → (ensure_hw_handler_installed callback s).next_ptr ≡ s.next_ptr
unfolding ensure_hw_handler_installed install_hw_handlers
ensure-next_ptr callback s = ground arith

pub maybe-Unchanged : (s : State) → Unchanged s (maybe_remove_hw_handler s)
unfolding maybe_remove_hw_handler
maybe-Unchanged s = record {
  by_id = ground arith;
  by_address = ground arith;
  next_hw_id = ground arith;
  machine = ground arith;
  events = ground arith;
}

Unchanged-trans : (s t u : State) → Unchanged s t → Unchanged t u → Unchanged s u
Unchanged-trans s t u a b = record {
  by_id = b.by_id ∙ a.by_id;
  by_address = b.by_address ∙ a.by_address;
  next_hw_id = b.next_hw_id ∙ a.next_hw_id;
  machine = b.machine ∙ a.machine;
  events = b.events ∙ a.events;
}

pub parsed_id :
    (id : ℕ) (u : State) → id < 2 ^ 64 → remove (to_hex_addr id) u ≡ (ok tt, remove_id id u)
unfolding remove
parsed_id id u small = rw (parse_hex_addr-to_hex_addr id small, remove) refl

module _ (host : Host) (laws : Allocates host) (kernel : Kernel) (opens : Opens kernel)
    (callback dispatch_fn : ℕ) where
  -- A call throws and changes no more than the registry, or adds a breakpoint at a free address.
  abbrev pub Outcomes : State → ℕ → Option HwBpType → Outcome HwError (List ℕ) × State → Type 0
  Outcomes s address o r =
      ((e : HwError) × (t : State) × Unchanged s t × (r ≡ (thrown e, t)))
      ⊎ ((type : HwBpType) × (m : Machine) × (events : Events) × (e : HwEntry) × (u : State) × (o
            ≡ some type)
          × Unchanged s u
          × (u ≡ ensure_hw_handler_installed callback s)
          × (lookup address s.by_address ≡ none)
          × (length s.by_address < platform_max_breakpoints)
          × Adds dispatch_fn u address type m events e
          × (r ≡ (ok (to_hex_addr u.next_hw_id), register u m events e)))

  set_typed-Outcomes :
      (s : State) (address : ℕ) (type : HwBpType) (size : ℤ) (on_hit : Callback)
      → Outcomes s address
          (some type)
          (set_typed host kernel callback dispatch_fn address type size on_hit s)
  unfolding set_typed
  set_typed-Outcomes s address type size on_hit =
      elim (Option-cases (lookup address s.by_address)) [
        | inr (e, q) ↦ rw (q, set_typed) (inl (_, s, same s, refl))
        | inl free ↦ elim (Bool-cases (leb platform_max_breakpoints (length s.by_address))) [
          | inl full ↦ rw (free, set_typed, full) (inl (_, s, same s, refl))
          | inr room ↦
              let u = ensure_hw_handler_installed callback s in
              let kept = ensure-Unchanged callback s in
              let small : length s.by_address < platform_max_breakpoints = ground arith in
              elim (set_installed-Sets host laws kernel opens dispatch_fn u address type size
                on_hit) [
                  | inl (e, t, c, q) ↦
                      rw (free, set_typed, room, q) (inl (e, t, Unchanged-trans s u t kept c, refl))
                  | inr (m, events, e, new, q) ↦
                      rw (free, set_typed, room, q)
                        (inr (type, m, events, e, u, refl, kept, refl, refl, small, new, refl))
                ]
        ]
      ]

  pub set-Outcomes :
      (s : State) (address : ℕ) (type_str : List ℕ) (size : ℤ) (on_hit : Callback)
      → Outcomes s address
          (parse_type type_str)
          (set host kernel callback dispatch_fn address type_str size on_hit s)
  unfolding set
  set-Outcomes s address type_str size on_hit = elim (Option-cases (parse_type type_str)) [
    | inl q ↦ rw (q, set) (inl (_, s, same s, refl))
    | inr (type, q) ↦ rw (q, set) (set_typed-Outcomes s address type size on_hit)
  ]
