-- ===== src/Tests/Hardware.antt =====
-- Hardware breakpoints and debug registers on concrete states.
use better_ncm.Base.{
  ℕ, ◌≤◌, ◌≡◌, refl, false, some, List, [], ◌∷◌, arith, ok, lookup, insert, erase,
}
use better_ncm.Base.Int.{pos}
use better_ncm.Hex.{to_hex_addr, hex_loop, hex_char}
use better_ncm.Exceptions.{Context, breakpoint, execute_access, same_text}
use better_ncm.Relocator.{
  relocate_insn, relocate_loop, add_block, finish_relocated, build_trampoline, build_relocated_code,
}
use better_ncm.Disassembler.{disassemble_one, analyze_instruction}
use better_ncm.PerfEvents.{execute_name, parse_type, is_execute, linux_set_hw_bp}
use better_ncm.HardwareBreakpoint.{
  State, set, set_typed, set_installed, set_relocated, set_built, set_armed, set_opened, register,
  install_hw_handlers, ensure_hw_handler_installed, remove, active_count, platform_max_breakpoints,
}
use better_ncm.HardwareBreakpoint.Undo.{IsHit, remove-set_undoes, hw_sigtrap_handler-set}
use better_ncm.HardwareBreakpoint.Limit.{
  IsTied, no_step, one_more, step_set, step_remove, Steps-active_count,
}
use better_ncm.HardwareBreakpoint.Handler.{leftover, remove-set-leftover}
use better_ncm.Tests.Hosts.{
  test_host, test_host-Allocates, test_kernel, test_kernel-Opens, nops, registry,
}

abbrev pub none_set : State
none_set = record {
  machine = record { mem = nops; blocks = [] };
  events = [];
  registry = registry;
  next_ptr = 8;
  next_hw_id = 1;
  by_id = [];
  by_address = [];
  hw_handler_id = 0;
  hw_handler_installed = false;
}

-- An `execute` breakpoint at 64
abbrev pub one_set : State
one_set = (set test_host test_kernel 7 0x1000 64 execute_name (pos 1) (some 5) none_set).1

abbrev first_id : List ℕ
first_id = b'0' ∷ b'x' ∷ b'1' ∷ []

set_id :
    set test_host test_kernel 7 0x1000 64 execute_name (pos 1) (some 5) none_set
    ≡ (ok first_id, one_set)
unfolding set parse_type same_text set_typed lookup set_installed set_relocated build_relocated_code
    finish_relocated relocate_loop disassemble_one ensure_hw_handler_installed install_hw_handlers
    set_built build_trampoline insert erase analyze_instruction register set_armed set_opened
    hex_char hex_loop to_hex_addr is_execute linux_set_hw_bp add_block relocate_insn
set_id = refl

remove-set_undoes_example :
    let (r, v) = remove first_id one_set in
    (r ≡ ok tt)
    × (v.by_id ≡ [])
    × (v.by_address ≡ [])
    × (v.machine ≡ none_set.machine)
    × (v.events ≡ [])
unfolding lookup
remove-set_undoes_example =
    remove-set_undoes test_host test_host-Allocates test_kernel test_kernel-Opens 7 0x1000 none_set
      64 execute_name (pos 1) (some 5) first_id one_set refl (omega arith) set_id

abbrev at_64 : Context
at_64 = record {
  type = breakpoint;
  fault_address = 64;
  access_type = execute_access;
  pc = 64;
  flags = 0;
}

hw_sigtrap_handler-set_example :
    IsHit test_host test_host-Allocates test_kernel test_kernel-Opens 7 0x1000 none_set 64
      (parse_type execute_name)
      at_64
      one_set
hw_sigtrap_handler-set_example =
    hw_sigtrap_handler-set test_host test_host-Allocates test_kernel test_kernel-Opens 7 0x1000
      none_set 64 execute_name (pos 1) (some 5) first_id one_set at_64 refl set_id

none_set-IsTied : IsTied none_set
unfolding lookup
none_set-IsTied = record {
  forward = λ id e h. absurd (ground arith);
  distinct = λ i j d e h k q. absurd (ground arith);
  fresh_ids = λ id e h. absurd (ground arith);
  unique_ids = tt;
  unique_addresses = tt;
  same_count = refl;
  limit = omega arith;
}

Steps-active_count_example : active_count (remove first_id one_set).1 ≤ platform_max_breakpoints
Steps-active_count_example =
    Steps-active_count test_host test_host-Allocates test_kernel test_kernel-Opens 7 0x1000 none_set
      (remove first_id one_set).1
      (one_more _ _ _
        (one_more _ _ _ (no_step none_set)
          (step_set none_set 64 execute_name (pos 1) (some 5) (omega arith)))
        (step_remove one_set first_id))
      none_set-IsTied

remove-set-leftover_example :
    (remove first_id one_set).1.registry.handlers ≡ leftover 7 registry ∷ []
remove-set-leftover_example =
    remove-set-leftover test_host test_host-Allocates test_kernel test_kernel-Opens 7 0x1000
      none_set 64 execute_name (pos 1) (some 5) first_id one_set refl refl (omega arith) tt
      (omega arith) set_id
