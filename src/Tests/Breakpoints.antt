-- ===== src/Tests/Breakpoints.antt =====
-- Breakpoints on concrete states.
use better_ncm.Base.{◌≡◌, refl, false, some, [], ◌∷◌, arith, ok, lookup, erase, insert}
use better_ncm.Hex.{to_hex_addr, hex_loop, hex_char}
use better_ncm.Memory.{length-read_bytes}
use better_ncm.Relocator.{
  make_writable_and_patch, relocate_insn, relocate_loop, add_block, finish_relocated,
  build_trampoline, build_relocated_code,
}
use better_ncm.Disassembler.{disassemble_one, analyze_instruction}
use better_ncm.Exceptions.{Context, breakpoint, execute_access}
use better_ncm.Breakpoint.{
  State, ensure_handler_installed, set, set_installed, set_relocated, set_built, set_patched,
  register, remove, bp_insn_size, is_empty,
}
use better_ncm.Breakpoint.Effects.{IsTable}
use better_ncm.Breakpoint.Set.{IsTrap, sigtrap_handler-set}
use better_ncm.Breakpoint.Remove.{IsSpread, Restores, remove-set}
use better_ncm.Breakpoint.Handler.{
  IsArmed, Steps, no_step, one_more, step_set, step_remove, Steps-IsArmed,
}
use better_ncm.Tests.Hosts.{test_host, test_host-Allocates, test_host-Protects, nops, registry}

abbrev pub no_breakpoints : State
no_breakpoints = record {
  machine = record { mem = nops; blocks = [] };
  registry = registry;
  next_ptr = 8;
  next_bp_id = 1;
  by_id = [];
  by_address = [];
  sigtrap_handler_id = 0;
  handler_installed = false;
  deleted = [];
}

no_breakpoints-IsTable : IsTable no_breakpoints
no_breakpoints-IsTable = record { unique = tt; below = tt }

no_breakpoints-IsArmed : IsArmed 7 no_breakpoints
unfolding is_empty
no_breakpoints-IsArmed = record {
  registered = λ h. absurd (ground arith);
  while_set = λ h. absurd (ground arith);
}

-- One breakpoint at 64
abbrev stopped : State
stopped = (set test_host 7 0x1000 64 (some 5) no_breakpoints).1

set_id : set test_host 7 0x1000 64 (some 5) no_breakpoints ≡ (ok (b'0' ∷ b'x' ∷ b'1' ∷ []), stopped)
unfolding set set_installed set_relocated set_built set_patched ensure_handler_installed
    make_writable_and_patch relocate_insn relocate_loop add_block finish_relocated build_trampoline
    build_relocated_code disassemble_one analyze_instruction to_hex_addr hex_loop hex_char lookup
    insert erase
set_id = refl

stopped-IsTable : IsTable stopped
unfolding set set_installed set_relocated set_built set_patched ensure_handler_installed
    make_writable_and_patch relocate_insn relocate_loop add_block finish_relocated build_trampoline
    build_relocated_code disassemble_one analyze_instruction register lookup insert erase
stopped-IsTable = record { unique = (tt, tt); below = (omega arith, tt) }

stopped-IsSpread : IsSpread stopped
unfolding set set_installed set_relocated set_built set_patched ensure_handler_installed
    make_writable_and_patch relocate_insn relocate_loop add_block finish_relocated build_trampoline
    build_relocated_code disassemble_one analyze_instruction register lookup insert erase
stopped-IsSpread = record { apart = (tt, tt); sized = (length-read_bytes nops 64 bp_insn_size, tt) }

abbrev hit : Context
hit = record {
  type = breakpoint;
  fault_address = 65;
  access_type = execute_access;
  pc = 65;
  flags = 0;
}

sigtrap_handler-set_example :
    IsTrap test_host test_host-Allocates test_host-Protects 7 0x1000 no_breakpoints 64 hit stopped
sigtrap_handler-set_example =
    sigtrap_handler-set test_host test_host-Allocates test_host-Protects 7 0x1000 no_breakpoints 64
      (some 5) (b'0' ∷ b'x' ∷ b'1' ∷ []) stopped hit (omega arith) refl set_id

remove-set_example :
    Restores test_host test_host-Allocates test_host-Protects no_breakpoints
      (remove test_host (b'0' ∷ b'x' ∷ b'1' ∷ []) stopped)
remove-set_example =
    remove-set test_host test_host-Allocates test_host-Protects 7 0x1000 no_breakpoints 64 (some 5)
      (b'0' ∷ b'x' ∷ b'1' ∷ []) stopped no_breakpoints-IsTable (omega arith) set_id

set_and_remove :
    Steps 7 test_host no_breakpoints (remove test_host (b'0' ∷ b'x' ∷ b'1' ∷ []) stopped).1
set_and_remove =
    one_more _ _ _
      (one_more _ _ _ (no_step no_breakpoints) (step_set 0x1000 64 (some 5) no_breakpoints))
      (step_remove (b'0' ∷ b'x' ∷ b'1' ∷ []) stopped)

Steps-IsArmed_example : IsArmed 7 (remove test_host (b'0' ∷ b'x' ∷ b'1' ∷ []) stopped).1
Steps-IsArmed_example =
    Steps-IsArmed 7 test_host no_breakpoints (remove test_host (b'0' ∷ b'x' ∷ b'1' ∷ []) stopped).1
      set_and_remove no_breakpoints-IsArmed
