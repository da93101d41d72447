-- ===== src/Tests/Hooks.antt =====
-- Hooks on concrete states.
use better_ncm.Base.{◌≡◌, refl, none, some, [], ◌∷◌, arith, ok, lookup, erase, insert}
use better_ncm.Hex.{to_hex_addr, hex_loop, hex_char}
use better_ncm.Memory.{length-read_bytes}
use better_ncm.Relocator.{
  patch_size, make_writable_and_patch, relocate_insn, relocate_loop, add_block, finish_relocated,
  build_trampoline, build_relocated_code,
}
use better_ncm.Disassembler.{disassemble_one, analyze_instruction}
use better_ncm.Interceptor.{
  State, Dispatchers, attach, attach_patched, attach_built, attach_relocated, register, replace,
  detach_id, detach, detach_all,
}
use better_ncm.Interceptor.Maps.{Linked}
use better_ncm.Interceptor.Invariant.{attach-Linked}
use better_ncm.Interceptor.View.{unhooked}
use better_ncm.Interceptor.Detach.{IsSpread, detach-attach, Restores}
use better_ncm.Interceptor.Steps.{
  Steps, no_step, one_more, step_attach, step_detach, Steps-Linked, calls-unhooked,
}
use better_ncm.Tests.Hosts.{test_host, test_host-Allocates, test_host-Protects, nops}

abbrev pub fns : Dispatchers
fns = record { enter = 0x1000; leave = 0x2000 }

-- No hooks
abbrev pub no_hooks : State
no_hooks = record {
  machine = record { mem = nops; blocks = [] };
  next_ptr = 8;
  next_hook_id = 1;
  by_id = [];
  by_target = [];
  deleted = [];
}

no_hooks-Linked : Linked no_hooks
unfolding lookup
no_hooks-Linked = record {
  forward = λ id e h. absurd (ground arith);
  backward = λ t e h. absurd (ground arith);
  distinct = λ i j d e h k q. absurd (ground arith);
  unique = tt;
  fresh_ids = λ id e h. absurd (ground arith);
  fresh_ptrs = λ id e h. absurd (ground arith);
}

-- One hook at 64
abbrev hooked : State
hooked = (attach test_host fns 64 (some 5) none no_hooks).1

hooked-Linked : Linked hooked
hooked-Linked = attach-Linked test_host no_hooks no_hooks-Linked fns 64 (some 5) none (omega arith)

attach_id : attach test_host fns 64 (some 5) none no_hooks ≡ (ok (b'0' ∷ b'x' ∷ b'1' ∷ []), hooked)
unfolding attach attach_patched attach_built attach_relocated make_writable_and_patch relocate_insn
    relocate_loop add_block finish_relocated build_trampoline build_relocated_code disassemble_one
    analyze_instruction to_hex_addr hex_loop hex_char lookup insert erase
attach_id = refl

hooked-IsSpread : IsSpread hooked
unfolding attach attach_patched attach_built attach_relocated make_writable_and_patch relocate_insn
    relocate_loop add_block finish_relocated build_trampoline build_relocated_code disassemble_one
    analyze_instruction register insert erase lookup
hooked-IsSpread = record { apart = (tt, tt); sized = (length-read_bytes nops 64 patch_size, tt) }

detach-attach_example :
    Restores test_host test_host-Allocates test_host-Protects no_hooks
      (detach test_host (b'0' ∷ b'x' ∷ b'1' ∷ []) hooked)
detach-attach_example =
    detach-attach test_host test_host-Allocates test_host-Protects fns no_hooks 64 (some 5) none
      (b'0' ∷ b'x' ∷ b'1' ∷ []) hooked no_hooks-Linked (omega arith) attach_id

attach_and_detach :
    Steps test_host fns no_hooks
      (detach test_host
        (b'0' ∷ b'x' ∷ b'1' ∷ [])
        (attach test_host fns 64 (some 5) none no_hooks).1).1
attach_and_detach =
    one_more _ _ _
      (one_more _ _ _ (no_step no_hooks) (step_attach no_hooks 64 (some 5) none (omega arith)))
      (step_detach _ (b'0' ∷ b'x' ∷ b'1' ∷ []))

Steps-Linked_example :
    Linked
      (detach test_host
        (b'0' ∷ b'x' ∷ b'1' ∷ [])
        (attach test_host fns 64 (some 5) none no_hooks).1).1
Steps-Linked_example = Steps-Linked test_host fns no_hooks _ attach_and_detach no_hooks-Linked

calls-unhooked_example :
    let all = detach_all test_host hooked in
    (unhooked (attach test_host fns 128 none (some 6) hooked).1 ≡ unhooked hooked)
    × (unhooked (replace test_host 128 0x3000 hooked).1 ≡ unhooked hooked)
    × (unhooked (detach_id test_host 1 hooked).1 ≡ unhooked hooked)
    × (all.0 ≡ ok tt)
    × (all.1.by_id ≡ [])
    × (all.1.by_target ≡ [])
    × (all.1.machine.mem ≡ unhooked hooked)
calls-unhooked_example =
    calls-unhooked test_host fns test_host-Allocates test_host-Protects hooked 128 0x3000 1 none
      (some 6) hooked-Linked hooked-IsSpread
