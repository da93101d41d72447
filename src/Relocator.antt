-- ===== src/Relocator.antt =====
-- src/core/bindings/internal/code_relocator.cc on x86-64 Linux: patching code, the bytes of an
-- absolute jump, relocated code and trampolines.
pub mod Code
pub mod Effects
pub mod Labels
pub mod Relocate
pub mod Execution
pub mod Trampoline
use better_ncm.Base.{
  ℕ, zero, suc, ◌+◌, ◌-◌, ◌*◌, ◌%◌, ◌^◌, Bool, true, false, not, ◌&&◌, Option, none, some, List, [],
  ◌∷◌, ◌++◌, bit_xor, ltb, leb, ◌==◌, if◌then◌else◌, length, Outcome, ok, thrown, erase, insert,
}
use better_ncm.Memory.{Memory, write_bytes, read_bytes}
use better_ncm.Memory.Endian.{le_bytes}
use better_ncm.Disassembler.{
  InstructionAnalysis, InstructionInfo, disassemble_one, analyze_instruction,
}
use Code.{
  Reg, rax, rcx, rdx, rbx, rsp, rbp, rsi, rdi, r8, r9, r10, r11, r12, r13, r14, r15, Emit, embed,
  embed_u8, embed_u32, embed_u64, jmp_rip, call_rip, jmp_label, bind_label, pushfq, popfq, push,
  pop, call_reg, mov_reg, mov_imm, add_imm, sub_imm, Blocks, Host,
}

-- Memory and the live blocks of the JIT runtime.
pub record Machine : Type 0 where
  pub mem : Memory
  pub blocks : Blocks

-- What the functions of this file throw. `out_of_fuel` is no exception of the program.
pub data CodeError : Type 0 where
  protect_rw_failed protect_rx_failed build_failed out_of_fuel : CodeError
  cannot_disassemble : ℕ → CodeError

abbrev pub prot_rw : ℕ
prot_rw = 3

abbrev pub prot_rx : ℕ
prot_rx = 5

-- `makeWritableAndPatch`: `addr & ~(pageSize - 1)` for a page size that is a power of two.
unfoldable pub make_writable_and_patch :
    Host → Machine → ℕ → List ℕ → Outcome CodeError (Unit {0}) × Machine
make_writable_and_patch host m addr bytes =
    let page_start = addr - addr % host.page_size in
    let total_size = (addr + length bytes) - page_start in
    let patched = record m { mem = write_bytes m.mem addr bytes } in
    if not (host.mprotect page_start total_size prot_rw)
    then (thrown protect_rw_failed, m)
    else if not (host.mprotect page_start total_size prot_rx)
    then (thrown protect_rx_failed, patched)
    else (ok tt, patched)

-- `PATCH_SIZE` and `generatePatchBytes`: `JMP [RIP+0]` and the 64-bit target.
abbrev pub patch_size : ℕ
patch_size = 14

pub generate_patch_bytes : ℕ → List ℕ
generate_patch_bytes jump_target = (0xFF ∷ 0x25 ∷ le_bytes 4 0) ++ le_bytes 8 jump_target

-- The code of a conditional branch: `cc` of `0x70 + cc` and of `0x0F, 0x80 + cc`, and else 0.
pub condition_code : ℕ → ℕ → ℕ
condition_code first second =
    if leb 0x70 first && leb first 0x7F
    then first - 0x70
    else if first == 0x0F
    then (second + 256 - 0x80) % 256
    else 0

-- What is emitted for one instruction, given its first two bytes and all its bytes, and the number
-- of labels made so far. Labels are numbered in the order of `newLabel`.
unfoldable pub relocate_insn : ℕ → ℕ → List ℕ → InstructionAnalysis → ℕ → List Emit × ℕ
unfolding condition_code
relocate_insn first second raw analysis labels =
    if analysis.is_pc_relative
    then if first == 0xE9
      then (jmp_rip ∷ embed_u64 analysis.target ∷ [], labels)
      else if first == 0xE8
      then (
        call_rip 2 ∷ jmp_label labels ∷ embed_u64 analysis.target ∷ bind_label (labels + 1) ∷ [],
        labels + 2,
      )
      else if analysis.is_branch && not analysis.is_call
      then (
        embed_u8 0x0F
            ∷ embed_u8 ((0x80 + bit_xor (condition_code first second) 1) % 256)
            ∷ embed_u32 14
            ∷ jmp_rip
            ∷ embed_u64 analysis.target
            ∷ bind_label labels
            ∷ [],
        labels + 1,
      )
      else (embed raw ∷ [], labels)
    else (embed raw ∷ [], labels)

-- The code of `buildTrampoline` under the System V ABI: save the registers, call the dispatch
-- functions (`on_leave_fn` may be null) with the address of the saved registers, restore, and jump.
pub save_code : List Emit
save_code =
    pushfq
    ∷ push rax
    ∷ push rcx
    ∷ push rdx
    ∷ push rbx
    ∷ push rbp
    ∷ push rsi
    ∷ push rdi
    ∷ push r8
    ∷ push r9
    ∷ push r10
    ∷ push r11
    ∷ push r12
    ∷ push r13
    ∷ push r14
    ∷ push r15
    ∷ []

pub enter_code : ℕ → ℕ → List Emit
enter_code on_enter_fn user_data =
    mov_reg rdi rsp
    ∷ mov_imm rsi user_data
    ∷ sub_imm rsp 8
    ∷ mov_imm rax on_enter_fn
    ∷ call_reg rax
    ∷ []

pub leave_code : ℕ → ℕ → List Emit
leave_code on_leave_fn user_data =
    if on_leave_fn == 0
    then []
    else mov_reg rdi rsp
      ∷ add_imm rdi 8
      ∷ mov_imm rsi user_data
      ∷ mov_imm rax on_leave_fn
      ∷ call_reg rax
      ∷ []

pub restore_code : List Emit
restore_code =
    add_imm rsp 8
    ∷ pop r15
    ∷ pop r14
    ∷ pop r13
    ∷ pop r12
    ∷ pop r11
    ∷ pop r10
    ∷ pop r9
    ∷ pop r8
    ∷ pop rdi
    ∷ pop rsi
    ∷ pop rbp
    ∷ pop rbx
    ∷ pop rdx
    ∷ pop rcx
    ∷ pop rax
    ∷ popfq
    ∷ []

pub trampoline_code : ℕ → ℕ → ℕ → ℕ → List Emit
unfolding save_code enter_code leave_code restore_code
trampoline_code on_enter_fn on_leave_fn user_data relocated_addr =
    save_code
    ++ (enter_code on_enter_fn user_data
        ++ (leave_code on_leave_fn user_data
            ++ (restore_code ++ jmp_rip ∷ embed_u64 relocated_addr ∷ [])))

module _ (host : Host) where
  -- The loop of `buildRelocatedCode`: the emitted code and the bytes consumed.
  unfoldable pub relocate_loop :
      ℕ → Memory → ℕ → ℕ → ℕ → ℕ → List Emit → Outcome CodeError (List Emit × ℕ)
  relocate_loop zero mem source min_bytes offset labels code = thrown out_of_fuel
  relocate_loop (suc fuel) mem source min_bytes offset labels code =
      let at = (source + offset) % 2 ^ 64 in
      let size = (disassemble_one host.disasm mem at).size in
      let analysis = analyze_instruction host.disasm mem at in
      let (emitted, labels') =
        relocate_insn (mem at) (mem (at + 1)) (read_bytes mem at size) analysis labels in
      let rest =
        relocate_loop fuel mem source min_bytes (offset + size) labels' (code ++ emitted) in
      if ltb offset min_bytes
      then if size == 0 then thrown (cannot_disassemble at) else rest
      else ok (code, offset)

  -- `g_jitRuntime.add(&result, &code)` and the test of its result.
  unfoldable pub add_block : Machine → List Emit → Outcome CodeError ℕ × Machine
  add_block m code = elim (host.jit_add m.blocks code) [
    | none ↦ (thrown build_failed, m)
    | some a ↦
        if a == 0
        then (thrown build_failed, m)
        else (ok a, record m { blocks = insert a code m.blocks })
  ]

  unfoldable pub finish_relocated :
      Machine → ℕ → Outcome CodeError (List Emit × ℕ) → Outcome CodeError (ℕ × ℕ) × Machine
  unfolding add_block
  finish_relocated m source (thrown e) = (thrown e, m)
  finish_relocated m source (ok (code, consumed)) =
      let (added, m') =
        add_block m (code ++ jmp_rip ∷ embed_u64 ((source + consumed) % 2 ^ 64) ∷ []) in
      elim added [ thrown e ↦ (thrown e, m') | ok a ↦ (ok (a, consumed), m') ]

  -- `buildTrampoline`
  unfoldable pub build_trampoline : Machine → ℕ → ℕ → ℕ → ℕ → Outcome CodeError ℕ × Machine
  unfolding add_block
  build_trampoline m on_enter_fn on_leave_fn user_data relocated_addr =
      add_block m (trampoline_code on_enter_fn on_leave_fn user_data relocated_addr)

  -- `buildRelocatedCode`: the address of the block and the bytes consumed. Every instruction has a
  -- byte at least, so `minBytes` rounds and one are enough.
  unfoldable pub build_relocated_code : Machine → ℕ → ℕ → Outcome CodeError (ℕ × ℕ) × Machine
  build_relocated_code m source min_bytes =
      finish_relocated m source (relocate_loop (suc min_bytes) m.mem source min_bytes 0 0 [])

-- `releaseCode`: nothing to do for null.
pub release_code : Machine → ℕ → Machine
release_code m code = if code == 0 then m else record m { blocks = erase code m.blocks }
