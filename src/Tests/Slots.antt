-- ===== src/Tests/Slots.antt =====
-- Breakpoints in the debug registers on concrete states.
use better_ncm.Base.{
  ℕ, ◌≡◌, ◌≢◌, refl, true, false, some, List, [], ◌∷◌, arith, ok, thrown, lookup, insert, erase,
}
use better_ncm.Base.Int.{pos}
use better_ncm.Hex.{to_hex_addr, hex_loop, hex_char}
use better_ncm.Exceptions.{Context, breakpoint, execute_access, same_text}
use better_ncm.PerfEvents.{write, write_name, parse_type, is_execute}
use better_ncm.HardwareBreakpoint.{no_free_slot}
use better_ncm.DebugRegisters.{find_free_slot}
use better_ncm.DebugRegisters.Hits.{SlotEntry, jump_target, call_on_hit, debug_handler}
use better_ncm.DebugRegisters.Slots.{IsFreeSlot}
use better_ncm.DebugRegisters.Slotted.{Slotted-empty}
use better_ncm.DebugRegisters.Breakpoints.{
  State, set, set_typed, set_installed, set_armed, set_found, register, install_hw_handlers,
  ensure_hw_handler_installed, remove,
}
use better_ncm.DebugRegisters.Tied.{IsTied, addresses}
use better_ncm.DebugRegisters.Limit.{no_step, one_more, step_set, step_remove, Steps-slots}
use better_ncm.DebugRegisters.Fields.{each_slot}
use better_ncm.DebugRegisters.Delivery.{debug_handler-Steps}
use better_ncm.DebugRegisters.Undo.{IsUndone, remove-set_thread}
use better_ncm.Tests.Hosts.{test_host, nops, registry}

abbrev none_set : State
none_set = record {
  machine = record { mem = nops; blocks = [] };
  registers = λ thread. record { dr0 = 0; dr1 = 0; dr2 = 0; dr3 = 0; dr7 = 0 };
  used_slots = 0;
  registry = registry;
  next_ptr = 8;
  next_hw_id = 1;
  by_id = [];
  by_address = [];
  hw_handler_id = 0;
  hw_handler_installed = false;
}

none_set-IsTied : IsTied none_set
unfolding addresses
none_set-IsTied = record {
  slotted = Slotted-empty;
  same_entries = refl;
  unique_ids = tt;
  unique_addresses = tt;
  old_ids = tt;
}

-- Thread 1 sets a breakpoint on writes to 4 bytes at 0x3000.
abbrev one_set : State
one_set = (set test_host 7 0x1000 1 0x3000 write_name (pos 4) (some 5) none_set).1

abbrev first_id : List ℕ
first_id = b'0' ∷ b'x' ∷ b'1' ∷ []

set_id :
    set test_host 7 0x1000 1 0x3000 write_name (pos 4) (some 5) none_set ≡ (ok first_id, one_set)
unfolding set parse_type same_text set_typed lookup set_installed is_execute set_armed set_found
    find_free_slot ensure_hw_handler_installed install_hw_handlers register to_hex_addr hex_loop
    hex_char
set_id = refl

Steps-slots_example :
    (set test_host 7 0x1000 2 0x4000 write_name (pos 8) (some 6) (remove 3 first_id one_set).1).0
    ≢ thrown no_free_slot
Steps-slots_example =
    Steps-slots test_host 7 0x1000 none_set (remove 3 first_id one_set).1 2 0x4000 write_name
      (pos 8) (some 6)
      (one_more _ _ _
        (one_more _ _ _ (no_step none_set)
          (step_set none_set 1 0x3000 write_name (pos 4) (some 5) (omega arith)))
        (step_remove one_set 3 first_id))
      none_set-IsTied

remove-set_thread_example :
    (slot : ℕ) × IsFreeSlot 0 slot × IsUndone 1 3 slot none_set (remove 3 first_id one_set).1
remove-set_thread_example =
    remove-set_thread test_host 7 0x1000 none_set 1 3 0x3000 write_name (pos 4) (some 5) first_id
      one_set none_set-IsTied (omega arith) set_id

abbrev at_64 : Context
at_64 = record {
  type = breakpoint;
  fault_address = 64;
  access_type = execute_access;
  pc = 64;
  flags = 0;
}

-- The entry in slot 0
abbrev watched : SlotEntry
watched = record {
  address = 0x3000;
  type = write;
  size = pos 4;
  on_hit = some 5;
  slot = some 0;
  trampoline_code = 0;
  relocated_code = 0;
}

debug_handler-Steps_example :
    debug_handler (some 1) one_set.by_address at_64
    ≡ (true, at_64, call_on_hit (some 5) (to_hex_addr 64))
unfolding set parse_type same_text set_typed lookup set_installed is_execute set_armed set_found
    find_free_slot ensure_hw_handler_installed install_hw_handlers register insert erase jump_target
debug_handler-Steps_example =
    debug_handler-Steps test_host 7 0x1000 none_set one_set 1 0 1 watched at_64
      (one_more _ _ _ (no_step none_set)
        (step_set none_set 1 0x3000 write_name (pos 4) (some 5) (omega arith)))
      none_set-IsTied refl refl (each_slot _ refl refl refl refl) refl
