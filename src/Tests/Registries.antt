-- ===== src/Tests/Registries.antt =====
-- The exception registry and the dispose callbacks on concrete states.
use better_ncm.Base.{ℕ, ◌≡◌, ◌⊎◌, refl, true, false, List, [], ◌∷◌, arith, ltb, if◌then◌else◌}
use better_ncm.Base.Int.{pos}
use better_ncm.Callbacks.{CallResult, returned, threw_unknown}
use better_ncm.Signals.{default_action, Dispositions, all_global}
use better_ncm.Exceptions.{
  breakpoint, single_step, execute_access, Context, HandlerEntry, Registry, Handlers, dispatch_loop,
  enable, disable, is_positive,
}
use better_ncm.Exceptions.Dispatch.{Refused, TakenBy, dispatch_loop-TakenBy}
use better_ncm.Exceptions.Lifecycle.{IsSound, enable-disable_in_use}
use better_ncm.ScriptLifecycle.{Lifecycle, on_dispose}

abbrev defaults : Dispositions
defaults = record {
  segv = default_action;
  bus = default_action;
  trap = default_action;
  ill = default_action;
}

abbrev two_handlers : List HandlerEntry
two_handlers =
    record { id = 1; type = single_step; callback = 3 }
    ∷ record { id = 2; type = breakpoint; callback = 4 }
    ∷ []

abbrev fresh_registry : Registry
fresh_registry = record {
  handlers = two_handlers;
  next_id = 3;
  js_callbacks = [];
  next_js_id = 0x10000;
  enabled = false;
  ref_count = pos 0;
  current = defaults;
  saved = defaults;
}

-- Enabled, with one sub-system
abbrev in_use : Registry
in_use = record fresh_registry { enabled = true; ref_count = pos 1; current = all_global }

fresh_registry-IsSound : IsSound fresh_registry
fresh_registry-IsSound = record {
  on = λ h. absurd (ground arith);
  off = λ h. record {
    segv = λ e. absurd (ground arith);
    bus = λ e. absurd (ground arith);
    trap = λ e. absurd (ground arith);
    ill = λ e. absurd (ground arith);
  };
  foreign = record {
    segv = λ e. absurd (ground arith);
    bus = λ e. absurd (ground arith);
    trap = λ e. absurd (ground arith);
    ill = λ e. absurd (ground arith);
  };
}

in_use-IsSound : IsSound in_use
in_use-IsSound = record {
  on = λ h. refl;
  off = λ h. absurd (ground arith);
  foreign = fresh_registry-IsSound.foreign;
}

-- Function 4 takes every exception.
abbrev run : Handlers
run f ctx = (if ltb f 4 then false else true, record ctx { pc = 100 })

abbrev trap_context : Context
trap_context = record {
  type = breakpoint;
  fault_address = 65;
  access_type = execute_access;
  pc = 65;
  flags = 0;
}

dispatch_loop-TakenBy_example :
    let r = dispatch_loop run two_handlers trap_context in
    ((r.0 ≡ false) × Refused run two_handlers trap_context r.1)
    ⊎ ((r.0 ≡ true) × TakenBy run two_handlers trap_context r.1)
dispatch_loop-TakenBy_example = dispatch_loop-TakenBy run two_handlers trap_context

no_reference : is_positive fresh_registry.ref_count ≡ false
unfolding is_positive
no_reference = refl

one_reference : is_positive in_use.ref_count ≡ true
unfolding is_positive
one_reference = refl

enable-disable_in_use_example : (enable (disable in_use)).saved ≡ all_global
enable-disable_in_use_example = enable-disable_in_use in_use in_use-IsSound refl one_reference

-- Function 5 throws, and function 6 registers another callback.
abbrev runs : ℕ → Lifecycle → CallResult × Lifecycle
runs f s = if ltb f 6 then (threw_unknown, s) else (returned, (on_dispose 7 s).1)

abbrev two_callbacks : Lifecycle
two_callbacks = record { next_id = 3; callbacks = (1, 5) ∷ (2, 6) ∷ [] }
