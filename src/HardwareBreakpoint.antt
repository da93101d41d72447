-- ===== src/HardwareBreakpoint.antt =====
-- src/core/bindings/native_hw_breakpoint.cc on x86-64 Linux, where a breakpoint is an event of
-- `perf_event_open`. The two maps hold pointers to the same entries, which do not change once they
-- are registered.
pub mod Effects
pub mod Outcomes
pub mod Undo
pub mod Limit
pub mod Handler
use better_ncm.Base.{
  ℕ, zero, suc, ◌+◌, ◌-◌, ◌%◌, ◌^◌, Bool, true, false, not, ◌&&◌, Option, none, some, List, [], ◌∷◌,
  leb, ◌==◌, if◌then◌else◌, length, Outcome, ok, thrown, lookup, insert, erase,
}
use better_ncm.Base.Int.{ℤ}
use better_ncm.Hex.{NumberError, to_hex_addr, parse_hex_addr}
use better_ncm.Callbacks.{Callback, CallResult, Event, dispatch}
use better_ncm.Relocator.Code.{Host}
use better_ncm.Relocator.{Machine, CodeError, build_relocated_code, build_trampoline, release_code}
use better_ncm.Exceptions.{
  breakpoint, single_step, Context, set_pc, Registry, ref_enable, ref_disable, register_handler,
  unregister_handler,
}
use better_ncm.PerfEvents.{
  HwBpType, parse_type, is_execute, Events, Kernel, linux_set_hw_bp, linux_clear_hw_bp,
}

-- `HwBreakpointEntry`; no `perf_fd` is -1, and code at 0 is null.
pub record HwEntry : Type 0 where
  pub address : ℕ
  pub type : HwBpType
  pub size : ℤ
  pub on_hit : Callback
  pub perf_fd : Option ℕ
  pub trampoline_code : ℕ
  pub relocated_code : ℕ

-- The globals, with the machine, the events and the exception registry; `new` gives the address
-- `next_ptr`.
pub record State : Type 0 where
  pub machine : Machine
  pub events : Events
  pub registry : Registry
  pub next_ptr : ℕ
  pub next_hw_id : ℕ
  pub by_id : List (ℕ × HwEntry)
  pub by_address : List (ℕ × HwEntry)
  pub hw_handler_id : ℕ
  pub hw_handler_installed : Bool

pub data HwError : Type 0 where
  invalid_type perf_failed maximum_reached no_free_slot : HwError
  already_set : ℕ → HwError
  code_error : CodeError → HwError
  bad_id : NumberError → HwError

-- `platformMaxBreakpoints`, which is also `maxBreakpoints`
abbrev pub platform_max_breakpoints : ℕ
platform_max_breakpoints = 4

-- `chromatic_hwbp_dispatch`
pub hwbp_dispatch : (ℕ → List ℕ → CallResult) → ℕ → Option HwEntry → List Event
hwbp_dispatch call cpu_context none = []
hwbp_dispatch call cpu_context (some entry) = dispatch call entry.on_hit cpu_context

-- `hwBpSigtrapHandler`
unfoldable pub hw_sigtrap_handler : State → Context → Bool × Context
unfolding is_execute
hw_sigtrap_handler s ctx = elim (lookup ctx.pc s.by_address) [
  | none ↦ (false, ctx)
  | some entry ↦
      if is_execute entry.type && not (entry.trampoline_code == 0)
      then (true, set_pc entry.trampoline_code ctx)
      else (false, ctx)
]

-- The body of `ensureHwHandlerInstalled`; `callback` is the number of `hwBpSigtrapHandler` among the
-- handlers. The id of the second handler is dropped.
unfoldable pub install_hw_handlers : ℕ → State → State
install_hw_handlers callback s =
    let (id, r1) = register_handler breakpoint callback (ref_enable s.registry) in
    let (dropped, r2) = register_handler single_step callback r1 in
    record s { registry = r2; hw_handler_id = id; hw_handler_installed = true }

unfoldable pub ensure_hw_handler_installed : ℕ → State → State
ensure_hw_handler_installed callback s =
    if s.hw_handler_installed then s else install_hw_handlers callback s

unfoldable pub is_empty {ℓ} : {A : Type ℓ} → List A → Bool
is_empty [] = true
is_empty (x ∷ xs) = false

unfoldable pub maybe_remove_hw_handler : State → State
maybe_remove_hw_handler s =
    let removed = record s {
      registry = ref_disable (unregister_handler s.hw_handler_id s.registry);
      hw_handler_id = 0;
      hw_handler_installed = false;
    } in
    if s.hw_handler_installed then if is_empty s.by_address then removed else s else s

-- The last step of `set`
unfoldable pub register : State → Machine → Events → HwEntry → State
register s m events entry = record s {
  machine = m;
  events = events;
  next_ptr = suc s.next_ptr;
  next_hw_id = (s.next_hw_id + 1) % 2 ^ 64;
  by_id = insert s.next_hw_id entry s.by_id;
  by_address = insert entry.address entry s.by_address;
}

-- A call that throws leaves the maps and the counter; the handlers stay installed.
abbrev pub keep : State → Machine → State
keep s m = record s { machine = m; next_ptr = suc s.next_ptr }

-- Null code is not released.
abbrev pub release_entry : Machine → HwEntry → Machine
release_entry m entry = release_code (release_code m entry.trampoline_code) entry.relocated_code

-- The entry that `set` makes
abbrev pub new_entry : ℕ → HwBpType → ℤ → Callback → HwEntry
new_entry address type size on_hit = record {
  address = address;
  type = type;
  size = size;
  on_hit = on_hit;
  perf_fd = none;
  trampoline_code = 0;
  relocated_code = 0;
}

module _ (host : Host) (kernel : Kernel) where
  -- `set`, from the event on
  unfoldable pub set_opened :
      State → Machine → HwEntry → Option (ℕ × Events) → Outcome HwError (List ℕ) × State
  set_opened s m entry none = (thrown perf_failed, keep s (release_entry m entry))
  set_opened s m entry (some (fd, events)) =
      (ok (to_hex_addr s.next_hw_id), register s m events (record entry { perf_fd = some fd }))

  unfoldable pub set_armed : State → Machine → HwEntry → Outcome HwError (List ℕ) × State
  set_armed s m entry =
      set_opened s m entry (linux_set_hw_bp kernel s.events entry.address entry.type entry.size)

  -- from the trampoline on; its failure releases the relocated code
  unfoldable pub set_built :
      State → HwEntry → Outcome CodeError ℕ × Machine → Outcome HwError (List ℕ) × State
  set_built s entry (thrown e, m) =
      (thrown (code_error e), keep s (release_code m entry.relocated_code))
  set_built s entry (ok trampoline, m) =
      set_armed s m (record entry { trampoline_code = trampoline })

  -- from the relocated code on; `dispatch_fn` is the address of `chromatic_hwbp_dispatch`
  unfoldable pub set_relocated :
      ℕ → State → HwEntry → Outcome CodeError (ℕ × ℕ) × Machine → Outcome HwError (List ℕ) × State
  set_relocated dispatch_fn s entry (thrown e, m) = (thrown (code_error e), keep s m)
  set_relocated dispatch_fn s entry (ok (code, consumed), m) =
      set_built s (record entry { relocated_code = code })
        (build_trampoline host m dispatch_fn 0 s.next_ptr code)

  -- from the new entry on
  unfoldable pub set_installed : ℕ → State → HwEntry → Outcome HwError (List ℕ) × State
  unfolding is_execute
  set_installed dispatch_fn s entry =
      if is_execute entry.type
      then set_relocated dispatch_fn s entry (build_relocated_code host s.machine entry.address 1)
      else set_armed s s.machine entry

  -- from the parsed type on
  unfoldable pub set_typed :
      ℕ → ℕ → ℕ → HwBpType → ℤ → Callback → State → Outcome HwError (List ℕ) × State
  set_typed callback dispatch_fn address type size on_hit s = elim (lookup address s.by_address) [
    | some _ ↦ (thrown (already_set address), s)
    | none ↦
        if leb platform_max_breakpoints (length s.by_address)
        then (thrown maximum_reached, s)
        else set_installed dispatch_fn (ensure_hw_handler_installed callback s)
            (new_entry address type size on_hit)
  ]

  unfoldable pub set : ℕ → ℕ → ℕ → List ℕ → ℤ → Callback → State → Outcome HwError (List ℕ) × State
  set callback dispatch_fn address type_str size on_hit s = elim (parse_type type_str) [
    | none ↦ (thrown invalid_type, s)
    | some type ↦ set_typed callback dispatch_fn address type size on_hit s
  ]

-- `remove`, from the parsed id on
unfoldable pub remove_id : ℕ → State → State
remove_id id s = elim (lookup id s.by_id) [
  | none ↦ s
  | some entry ↦ maybe_remove_hw_handler (record s {
    machine = release_entry s.machine entry;
    events = linux_clear_hw_bp entry.perf_fd s.events;
    by_id = erase id s.by_id;
    by_address = erase entry.address s.by_address;
  })
]

unfoldable pub remove : List ℕ → State → Outcome HwError (Unit {0}) × State
remove text s = elim (parse_hex_addr text) [
  | thrown e ↦ (thrown (bad_id e), s)
  | ok id ↦ (ok tt, remove_id id s)
]

-- The loop of `removeAll`
unfoldable pub remove_loop : List (ℕ × HwEntry) → Machine × Events → Machine × Events
remove_loop [] (m, events) = (m, events)
remove_loop ((id, entry) ∷ rest) (m, events) =
    remove_loop rest (release_entry m entry, linux_clear_hw_bp entry.perf_fd events)

unfoldable pub remove_all : State → State
remove_all s =
    let (m, events) = remove_loop s.by_id (s.machine, s.events) in
    maybe_remove_hw_handler (record s { machine = m; events = events; by_id = []; by_address = [] })

pub active_count : State → ℕ
active_count s = length s.by_id
