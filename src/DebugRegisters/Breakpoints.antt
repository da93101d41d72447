-- ===== src/DebugRegisters/Breakpoints.antt =====
-- `set`, `remove` and `removeAll` of src/core/bindings/native_hw_breakpoint.cc on x86-64 Windows and
-- macOS. The debug registers belong to a thread, and a call sees those of the thread that makes it;
-- the slots in use and the maps are shared.
use better_ncm.Base.{
  ℕ, suc, ◌+◌, ◌%◌, ◌^◌, Bool, true, false, Option, none, some, List, [], ◌∷◌, leb, ◌==◌,
  if◌then◌else◌, length, Outcome, ok, thrown, lookup, insert, erase,
}
use better_ncm.Base.Int.{ℤ}
use better_ncm.Hex.{to_hex_addr, parse_hex_addr}
use better_ncm.Callbacks.{Callback}
use better_ncm.Relocator.Code.{Host}
use better_ncm.Relocator.{Machine, CodeError, build_relocated_code, build_trampoline, release_code}
use better_ncm.Exceptions.{
  breakpoint, single_step, Registry, ref_enable, ref_disable, register_handler, unregister_handler,
}
use better_ncm.PerfEvents.{HwBpType, parse_type, is_execute}
use better_ncm.HardwareBreakpoint.{
  HwError, no_free_slot, maximum_reached, invalid_type, already_set, code_error, bad_id,
  platform_max_breakpoints, is_empty,
}
use better_ncm.DebugRegisters.{DebugState, find_free_slot, set_bit, set_debug_reg, clear_debug_reg}
use better_ncm.DebugRegisters.Hits.{SlotEntry}

-- The globals, with the machine, the debug registers of each thread and the exception registry;
-- `new` gives the address `next_ptr`.
pub record State : Type 0 where
  pub machine : Machine
  pub registers : ℕ → DebugState
  pub used_slots : ℕ
  pub registry : Registry
  pub next_ptr : ℕ
  pub next_hw_id : ℕ
  pub by_id : List (ℕ × SlotEntry)
  pub by_address : List (ℕ × SlotEntry)
  pub hw_handler_id : ℕ
  pub hw_handler_installed : Bool

-- Writing the registers of one thread
unfoldable pub put_registers : ℕ → DebugState → (ℕ → DebugState) → ℕ → DebugState
put_registers thread d registers t = if t == thread then d else registers t

-- The body of `ensureHwHandlerInstalled`
unfoldable pub install_hw_handlers : ℕ → State → State
install_hw_handlers callback s =
    let (id, r1) = register_handler breakpoint callback (ref_enable s.registry) in
    let (dropped, r2) = register_handler single_step callback r1 in
    record s { registry = r2; hw_handler_id = id; hw_handler_installed = true }

unfoldable pub ensure_hw_handler_installed : ℕ → State → State
ensure_hw_handler_installed callback s =
    if s.hw_handler_installed then s else install_hw_handlers callback s

unfoldable pub maybe_remove_hw_handler : State → State
maybe_remove_hw_handler s =
    let removed = record s {
      registry = ref_disable (unregister_handler s.hw_handler_id s.registry);
      hw_handler_id = 0;
      hw_handler_installed = false;
    } in
    if s.hw_handler_installed then if is_empty s.by_address then removed else s else s

-- The last steps of `set`: taking the slot, writing the registers of the thread, and both maps
unfoldable pub register : ℕ → ℕ → State → Machine → SlotEntry → State
register thread slot s m entry = record s {
  machine = m;
  registers =
      put_registers thread
        (set_debug_reg slot entry.address entry.type entry.size (s.registers thread)) s.registers;
  used_slots = set_bit slot s.used_slots;
  next_ptr = suc s.next_ptr;
  next_hw_id = (s.next_hw_id + 1) % 2 ^ 64;
  by_id = insert s.next_hw_id entry s.by_id;
  by_address = insert entry.address entry s.by_address;
}

abbrev pub keep : State → Machine → State
keep s m = record s { machine = m; next_ptr = suc s.next_ptr }

-- Null code is not released.
abbrev pub release_entry : Machine → SlotEntry → Machine
release_entry m entry = release_code (release_code m entry.trampoline_code) entry.relocated_code

-- The entry that `set` makes
abbrev pub new_entry : ℕ → HwBpType → ℤ → Callback → SlotEntry
new_entry address type size on_hit = record {
  address = address;
  type = type;
  size = size;
  on_hit = on_hit;
  slot = none;
  trampoline_code = 0;
  relocated_code = 0;
}

-- `set`, from the free slot on
unfoldable pub set_found :
    ℕ → State → Machine → SlotEntry → Option ℕ → Outcome HwError (List ℕ) × State
set_found thread s m entry none = (thrown no_free_slot, keep s (release_entry m entry))
set_found thread s m entry (some slot) =
    (ok (to_hex_addr s.next_hw_id), register thread slot s m (record entry { slot = some slot }))

unfoldable pub set_armed : ℕ → State → Machine → SlotEntry → Outcome HwError (List ℕ) × State
set_armed thread s m entry = set_found thread s m entry (find_free_slot s.used_slots)

module _ (host : Host) where
  -- from the trampoline on
  unfoldable pub set_built :
      ℕ → State → SlotEntry → Outcome CodeError ℕ × Machine → Outcome HwError (List ℕ) × State
  set_built thread s entry (thrown e, m) =
      (thrown (code_error e), keep s (release_code m entry.relocated_code))
  set_built thread s entry (ok trampoline, m) =
      set_armed thread s m (record entry { trampoline_code = trampoline })

  -- from the relocated code on; `dispatch_fn` is the address of `chromatic_hwbp_dispatch`
  unfoldable pub set_relocated :
      ℕ
      → ℕ
      → State
      → SlotEntry
      → Outcome CodeError (ℕ × ℕ) × Machine
      → Outcome HwError (List ℕ) × State
  set_relocated dispatch_fn thread s entry (thrown e, m) = (thrown (code_error e), keep s m)
  set_relocated dispatch_fn thread s entry (ok (code, consumed), m) =
      set_built thread s (record entry { relocated_code = code })
        (build_trampoline host m dispatch_fn 0 s.next_ptr code)

  -- from the new entry on
  unfoldable pub set_installed : ℕ → ℕ → State → SlotEntry → Outcome HwError (List ℕ) × State
  unfolding is_execute
  set_installed dispatch_fn thread s entry =
      if is_execute entry.type
      then set_relocated dispatch_fn thread s entry
          (build_relocated_code host s.machine entry.address 1)
      else set_armed thread s s.machine entry

  -- from the parsed type on
  unfoldable pub set_typed :
      ℕ → ℕ → ℕ → ℕ → HwBpType → ℤ → Callback → State → Outcome HwError (List ℕ) × State
  set_typed callback dispatch_fn thread address type size on_hit s =
      elim (lookup address s.by_address) [
        | some _ ↦ (thrown (already_set address), s)
        | none ↦
            if leb platform_max_breakpoints (length s.by_address)
            then (thrown maximum_reached, s)
            else set_installed dispatch_fn thread (ensure_hw_handler_installed callback s)
                (new_entry address type size on_hit)
      ]

  -- `thread` is the calling thread.
  unfoldable pub set :
      ℕ → ℕ → ℕ → ℕ → List ℕ → ℤ → Callback → State → Outcome HwError (List ℕ) × State
  set callback dispatch_fn thread address type_str size on_hit s = elim (parse_type type_str) [
    | none ↦ (thrown invalid_type, s)
    | some type ↦ set_typed callback dispatch_fn thread address type size on_hit s
  ]

-- `winClearDebugReg(entry->slot)`; every registered entry has a slot.
unfoldable pub clear_entry : SlotEntry → DebugState × ℕ → DebugState × ℕ
clear_entry entry (d, used) = elim entry.slot [
  | none ↦ (d, used)
  | some slot ↦ clear_debug_reg slot (d, used)
]

-- `remove`, from the parsed id on
unfoldable pub remove_id : ℕ → ℕ → State → State
remove_id thread id s = elim (lookup id s.by_id) [
  | none ↦ s
  | some entry ↦
      let regs = clear_entry entry (s.registers thread, s.used_slots) in
      maybe_remove_hw_handler (record s {
        machine = release_entry s.machine entry;
        registers = put_registers thread regs.0 s.registers;
        used_slots = regs.1;
        by_id = erase id s.by_id;
        by_address = erase entry.address s.by_address;
      })
]

unfoldable pub remove : ℕ → List ℕ → State → Outcome HwError (Unit {0}) × State
remove thread text s = elim (parse_hex_addr text) [
  | thrown e ↦ (thrown (bad_id e), s)
  | ok id ↦ (ok tt, remove_id thread id s)
]

-- The loop of `removeAll`
unfoldable pub remove_loop :
    List (ℕ × SlotEntry) → Machine → DebugState × ℕ → Machine × (DebugState × ℕ)
remove_loop [] m regs = (m, regs)
remove_loop ((id, entry) ∷ rest) m regs =
    remove_loop rest (release_entry m entry) (clear_entry entry regs)

unfoldable pub remove_all : ℕ → State → State
remove_all thread s =
    let (m, regs) = remove_loop s.by_id s.machine (s.registers thread, s.used_slots) in
    maybe_remove_hw_handler (record s {
      machine = m;
      registers = put_registers thread regs.0 s.registers;
      used_slots = regs.1;
      by_id = [];
      by_address = [];
    })
