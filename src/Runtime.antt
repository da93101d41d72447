-- ===== src/Runtime.antt =====
-- src/core/script.cc: the script engine and the subsystems that it cleans up. The engine (breeze-js
-- and QuickJS) is a parameter.
pub mod Cleanup
pub mod Overlap
pub mod Released
use better_ncm.Base.{ℕ, Bool, Option, none, some, List, Outcome, ok, thrown}
use better_ncm.Callbacks.{CallResult, Event}
use better_ncm.Relocator.Code.{Host}
use better_ncm.Relocator.{Machine}
use better_ncm.Exceptions.{Registry, disable, remove_all_callbacks}
use better_ncm.AccessMonitor
use better_ncm.AccessMonitor.{AccessCall}
use better_ncm.HardwareBreakpoint
use better_ncm.Breakpoint
use better_ncm.Breakpoint.{BreakpointError}
use better_ncm.Interceptor
use better_ncm.Interceptor.{HookError}
use better_ncm.ScriptLifecycle.{Lifecycle, call_loop, remove_all_dispose_callbacks}

-- The globals of the process. The machine and the exception registry are shared: the copies in the
-- states of the subsystems are set at each call.
pub record Subsystems : Type 0 where
  pub machine : Machine
  pub registry : Registry
  pub monitor : AccessMonitor.State
  pub hardware : HardwareBreakpoint.State
  pub software : Breakpoint.State
  pub interceptor : Interceptor.State
  pub lifecycle : Lifecycle

-- What a subsystem throws
pub data CleanupError : Type 0 where
  software_error : BreakpointError → CleanupError
  interceptor_error : HookError → CleanupError

-- The calls of `cleanup`
unfoldable pub clean_monitor : Subsystems → Option (List AccessCall × Subsystems)
clean_monitor s = elim (AccessMonitor.disable_all (record s.monitor { registry = s.registry })) [
  | none ↦ none
  | some (calls, t) ↦ some (calls, record s { registry = t.registry; monitor = t })
]

unfoldable pub clean_hardware : Subsystems → Subsystems
clean_hardware s =
    let t =
      HardwareBreakpoint.remove_all
        (record s.hardware { machine = s.machine; registry = s.registry }) in
    record s { machine = t.machine; registry = t.registry; hardware = t }

unfoldable pub clean_exceptions : Subsystems → Subsystems
clean_exceptions s = record s { registry = disable (remove_all_callbacks s.registry) }

module _ (host : Host) where
  unfoldable pub clean_software : Subsystems → Outcome BreakpointError (Unit {0}) × Subsystems
  clean_software s =
      let (result, t) =
        Breakpoint.remove_all host
          (record s.software { machine = s.machine; registry = s.registry }) in
      (result, record s { machine = t.machine; registry = t.registry; software = t })

  unfoldable pub clean_interceptor : Subsystems → Outcome HookError (Unit {0}) × Subsystems
  clean_interceptor s =
      let (result, t) =
        Interceptor.detach_all host (record s.interceptor { machine = s.machine }) in
      (result, record s { machine = t.machine; interceptor = t })

  -- `cleanup`, from the end of `detachAll` on and from that of `removeAll` on: an exception leaves it
  unfoldable pub after_interceptor :
      Outcome HookError (Unit {0}) × Subsystems → Outcome CleanupError (Unit {0}) × Subsystems
  after_interceptor (thrown e, s) = (thrown (interceptor_error e), s)
  after_interceptor (ok _, s) = (ok tt, clean_exceptions s)

  unfoldable pub after_software :
      Outcome BreakpointError (Unit {0}) × Subsystems → Outcome CleanupError (Unit {0}) × Subsystems
  after_software (thrown e, s) = (thrown (software_error e), s)
  after_software (ok _, s) = after_interceptor (clean_interceptor s)

  -- `cleanup`, with the calls of `onAccess` that the first step makes; `none` if `drainPending`
  -- would need more fuel.
  unfoldable pub cleanup :
      Subsystems → Option (List AccessCall × Outcome CleanupError (Unit {0}) × Subsystems)
  cleanup s = elim (clean_monitor s) [
    | none ↦ none
    | some (calls, t) ↦
        let (result, u) = after_software (clean_software (clean_hardware t)) in
        some (calls, result, u)
  ]

-- `_callDisposeCallbacks`, whose callbacks may change every subsystem
unfoldable pub call_dispose :
    (ℕ → Subsystems → CallResult × Subsystems) → Subsystems → List Event × Subsystems
call_dispose run s =
    let (events, t) = call_loop run s.lifecycle.callbacks s in
    (events, record t { lifecycle = remove_all_dispose_callbacks t.lifecycle })

-- The engine: `stop_event_loop_in_time`, `reset_runtime` with the bindings, and `eval_string` of a
-- text under a name, which gives an error's text or a value.
pub record Engine (J V : Type 0) : Type 0 where
  pub stop_event_loop : J → J
  pub reset_runtime : J → J
  pub eval_string : List ℕ → List ℕ → J → Outcome (List ℕ) V × J

module _ {J V : Type 0} (engine : Engine J V) where
  -- `eval_script`
  unfoldable pub eval_script : List ℕ → List ℕ → J → Outcome (List ℕ) V × J
  eval_script script filename js = engine.eval_string script filename js

  -- `reset`, from the end of `cleanup` on. An error of the prelude is printed only.
  unfoldable pub reset_engine :
      List ℕ
      → List ℕ
      → J
      → Outcome CleanupError (Unit {0})
      → Outcome CleanupError (Option (List ℕ)) × J
  reset_engine index_js name js (thrown e) = (thrown e, js)
  reset_engine index_js name js (ok _) =
      let (result, js') = engine.eval_string index_js name (engine.reset_runtime js) in
      (elim result [ ok v ↦ ok none | thrown e ↦ ok (some e) ], js')

  -- What `reset` leaves: the calls of dispose callbacks and of `onAccess`, what it throws or prints,
  -- and the new states.
  pub record Reset : Type 0 where
    pub events : List Event
    pub calls : List AccessCall
    pub result : Outcome CleanupError (Option (List ℕ))
    pub subsystems : Subsystems
    pub js : J

  unfoldable pub reset :
      Host
      → (ℕ → Subsystems → CallResult × Subsystems)
      → List ℕ
      → List ℕ
      → Subsystems
      → J
      → Option Reset
  reset host run index_js name s js =
      let (events, t) = call_dispose run s in
      elim (cleanup host t) [
        | none ↦ none
        | some (calls, cleaned, u) ↦
            let (result, js') = reset_engine index_js name (engine.stop_event_loop js) cleaned in
            some
              (record { events = events; calls = calls; result = result; subsystems = u; js = js' })
      ]
