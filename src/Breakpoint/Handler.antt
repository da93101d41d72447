-- ===== src/Breakpoint/Handler.antt =====
-- While a breakpoint is set, its handler is in the exception registry.
use mathlib.Core.Path.{subst⁻¹}
use better_ncm.Base.{
  ℕ, ◌≡◌, refl, ap, ◌∙◌, true, false, Bool-cases, Option-cases, inl, inr, List, [], ◌∷◌, ◌++◌,
  arith, Outcome, ok, thrown, if◌then◌else◌, lookup, erase,
}
use better_ncm.Hex.{NumberError, parse_hex_addr}
use better_ncm.Callbacks.{Callback}
use better_ncm.Relocator.Code.{Host}
use better_ncm.Relocator.{Machine, CodeError}
use better_ncm.Exceptions.{
  breakpoint, HandlerEntry, register_handler, unregister_handler, ref_enable, ref_disable,
}
use better_ncm.Breakpoint.{
  BreakpointEntry, State, BreakpointError, ensure_handler_installed, is_empty, maybe_remove_handler,
  register, keep, set_patched, set_built, set_relocated, set_installed, set, remove_restored,
  remove_id, remove, remove_all_done, remove_all,
}

-- `breakpointSigtrapHandler`, number `callback`, is registered for breakpoints with this id.
pub record IsRegistered (callback id : ℕ) (handlers : List HandlerEntry) : Type 0 where
  pub before : List HandlerEntry
  pub after : List HandlerEntry
  pub place :
      handlers ≡ before ++ record { id = id; type = breakpoint; callback = callback } ∷ after

-- The flag says that the handler is registered, and it is set while there is a breakpoint.
pub record IsArmed (callback : ℕ) (s : State) : Type 0 where
  pub registered :
      s.handler_installed ≡ true → IsRegistered callback s.sigtrap_handler_id s.registry.handlers
  pub while_set : is_empty s.by_address ≡ false → s.handler_installed ≡ true

module _ (callback : ℕ) where
  -- The handler is registered and flagged.
  abbrev pub IsOn : State → Type 0
  IsOn s =
      (s.handler_installed ≡ true) × IsRegistered callback s.sigtrap_handler_id s.registry.handlers

  IsOn-IsArmed : (s : State) → IsOn s → IsArmed callback s
  IsOn-IsArmed s on = record { registered = λ h. on.1; while_set = λ h. on.0 }

  ensure-IsOn : (s : State) → IsArmed callback s → IsOn (ensure_handler_installed callback s)
  unfolding ensure_handler_installed register_handler
  ensure-IsOn s v = elim (Bool-cases s.handler_installed) [
    | inl on ↦
        let (id, registry) = register_handler breakpoint callback (ref_enable s.registry) in
        let installed = record s {
          registry = registry;
          sigtrap_handler_id = id;
          handler_installed = true;
        } in
        let same : ensure_handler_installed callback s ≡ s =
          ap (λ b. if b then s else installed) on in
        subst⁻¹ IsOn same (on, v.registered on)
    | inr off ↦
        rw (off, ensure_handler_installed)
          (refl, record { before = (ref_enable s.registry).handlers; after = []; place = refl })
  ]

  maybe-IsArmed : (s : State) → IsArmed callback s → IsArmed callback (maybe_remove_handler s)
  unfolding maybe_remove_handler is_empty
  maybe-IsArmed s v = record {
    registered = λ h. elim (Bool-cases s.handler_installed) [
      | inl on ↦ elim (Bool-cases (is_empty s.by_address)) [
        | inl empty ↦ absurd (ground arith)
        | inr some_left ↦
            let same : maybe_remove_handler s ≡ s = still s on some_left in
            subst⁻¹ (λ t. IsRegistered callback t.sigtrap_handler_id t.registry.handlers) same
              (v.registered on)
      ]
      | inr off ↦ absurd (ground arith)
    ];
    while_set = λ h. ground (arith, v.while_set);
  }
    where
      still :
          (s : State)
          → s.handler_installed ≡ true
          → is_empty s.by_address ≡ false
          → maybe_remove_handler s ≡ s
      still s on left =
          let removed = record s {
            registry = ref_disable (unregister_handler s.sigtrap_handler_id s.registry);
            sigtrap_handler_id = 0;
            handler_installed = false;
          } in
          ap (λ b. if b then if is_empty s.by_address then removed else s else s) on
          ∙ ap (λ b. if b then removed else s) left

  module _ (host : Host) where
    patched-IsArmed :
        (s : State) (entry : BreakpointEntry) (r : Outcome CodeError (Unit {0}) × Machine)
        → IsOn s
        → IsArmed callback (set_patched host s entry r).1
    unfolding set_patched register
    patched-IsArmed s entry (thrown e, m) on = IsOn-IsArmed (keep s m) on
    patched-IsArmed s entry (ok _, m) on = IsOn-IsArmed (register s m entry) on

    built-IsArmed :
        (s : State) (address : ℕ) (on_hit : Callback) (p : ℕ × ℕ)
        (r : Outcome CodeError ℕ × Machine)
        → IsOn s
        → IsArmed callback (set_built host s address on_hit p r).1
    unfolding set_built
    built-IsArmed s address on_hit (code, consumed) (thrown e, m) on = IsOn-IsArmed (keep s _) on
    built-IsArmed s address on_hit (code, consumed) (ok trampoline, m) on = patched-IsArmed s _ _ on

    relocated-IsArmed :
        (dispatch_fn : ℕ) (s : State) (address : ℕ) (on_hit : Callback)
        (r : Outcome CodeError (ℕ × ℕ) × Machine)
        → IsOn s
        → IsArmed callback (set_relocated host dispatch_fn s address on_hit r).1
    unfolding set_relocated
    relocated-IsArmed dispatch_fn s address on_hit (thrown e, m) on = IsOn-IsArmed (keep s m) on
    relocated-IsArmed dispatch_fn s address on_hit (ok (code, consumed), m) on =
        built-IsArmed s address on_hit (code, consumed) _ on

    -- `set` keeps the handler armed, also where it throws.
    pub set-IsArmed :
        (dispatch_fn address : ℕ) (on_hit : Callback) (s : State)
        → IsArmed callback s
        → IsArmed callback (set host callback dispatch_fn address on_hit s).1
    unfolding set set_installed
    set-IsArmed dispatch_fn address on_hit s v = elim (Option-cases (lookup address s.by_address)) [
      | inr (_, e) ↦ rw (e, set) v
      | inl free ↦
          rw (free, set)
            (relocated-IsArmed dispatch_fn (ensure_handler_installed callback s) address on_hit _
              (ensure-IsOn s v))
    ]

    restored-IsArmed :
        (s : State) (id : ℕ) (entry : BreakpointEntry) (r : Outcome CodeError (Unit {0}) × Machine)
        → IsArmed callback s
        → IsArmed callback (remove_restored host s id entry r).1
    unfolding remove_restored is_empty erase
    restored-IsArmed s id entry (thrown e, m) v = record {
      registered = v.registered;
      while_set = v.while_set;
    }
    restored-IsArmed s id entry (ok _, m) v = maybe-IsArmed _ (record {
      registered = v.registered;
      while_set = λ h. v.while_set (left s.by_address entry.address h);
    })
      where
        left :
            (l : List (ℕ × BreakpointEntry)) (k : ℕ)
            → is_empty (erase k l) ≡ false
            → is_empty l ≡ false
        left [] k h = h
        left (x ∷ l) k h = refl

    remove_id-IsArmed :
        (id : ℕ) (s : State) → IsArmed callback s → IsArmed callback (remove_id host id s).1
    unfolding remove_id
    remove_id-IsArmed id s v = elim (Option-cases (lookup id s.by_id)) [
      | inl e ↦ rw (e, remove_id) v
      | inr (entry, e) ↦ rw (e, remove_id) (restored-IsArmed s id entry _ v)
    ]

    -- `remove` keeps the handler armed, for every text it is given.
    pub remove-IsArmed :
        (text : List ℕ) (s : State) → IsArmed callback s → IsArmed callback (remove host text s).1
    unfolding remove
    remove-IsArmed text s v = go (parse_hex_addr text) refl
      where
        go :
            (r : Outcome NumberError ℕ)
            → parse_hex_addr text ≡ r
            → IsArmed callback (remove host text s).1
        go (thrown e) p = rw (p, remove) v
        go (ok id) p = rw (p, remove) (remove_id-IsArmed id s v)

    done-IsArmed :
        (s : State) (r : Outcome BreakpointError (Unit {0}) × Machine × List ℕ)
        → IsArmed callback s
        → IsArmed callback (remove_all_done host s r).1
    unfolding remove_all_done is_empty
    done-IsArmed s (thrown e, m, gone) v = record {
      registered = v.registered;
      while_set = v.while_set;
    }
    done-IsArmed s (ok _, m, gone) v =
        maybe-IsArmed _
          (record { registered = v.registered; while_set = λ h. absurd (ground arith) })

    -- `removeAll` keeps the handler armed, also where it throws.
    pub remove_all-IsArmed :
        (s : State) → IsArmed callback s → IsArmed callback (remove_all host s).1
    unfolding remove_all
    remove_all-IsArmed s v = done-IsArmed s _ v

    -- A call of the module.
    pub data Step : State → State → Type 0 where
      step_set :
          (dispatch_fn address : ℕ) (on_hit : Callback) (s : State)
          → Step s (set host callback dispatch_fn address on_hit s).1
      step_remove : (text : List ℕ) (s : State) → Step s (remove host text s).1
      step_remove_all : (s : State) → Step s (remove_all host s).1

    pub data Steps : State → State → Type 0 where
      no_step : (s : State) → Steps s s
      one_more : (s t u : State) → Steps s t → Step t u → Steps s u

    Step-IsArmed : (s t : State) → Step s t → IsArmed callback s → IsArmed callback t
    Step-IsArmed s t (step_set dispatch_fn address on_hit _) v =
        set-IsArmed dispatch_fn address on_hit s v
    Step-IsArmed s t (step_remove text _) v = remove-IsArmed text s v
    Step-IsArmed s t (step_remove_all _) v = remove_all-IsArmed s v

    -- After any calls of `set`, `remove` and `removeAll`, failing ones included, the SIGTRAP
    -- handler is registered whenever the flag says so, and the flag is set while there is a
    -- breakpoint, if it was so before.
    pub Steps-IsArmed : (s t : State) → Steps s t → IsArmed callback s → IsArmed callback t
    Steps-IsArmed s t (no_step _) v = v
    Steps-IsArmed s t (one_more _ m _ before last) v =
        Step-IsArmed m t last (Steps-IsArmed s m before v)
