-- ===== src/Relocator/Code.antt =====
-- What src/core/bindings/internal/code_relocator.cc asks the assembler (asmjit) to emit on x86-64,
-- one constructor for each kind of call, and the libraries that the file rests on as a parameter.
use better_ncm.Base.{ℕ, ◌≡◌, ◌≢◌, Option, none, some, Bool, List, lookup}
use better_ncm.Disassembler.Instruction.{Disasm}

pub data Reg : Type 0 where
  rax rcx rdx rbx rsp rbp rsi rdi r8 r9 r10 r11 r12 r13 r14 r15 : Reg

pub data Emit : Type 0 where
  embed : List ℕ → Emit
  embed_u8 embed_u32 embed_u64 : ℕ → Emit
  jmp_rip : Emit
  call_rip : ℕ → Emit
  jmp_label bind_label : ℕ → Emit
  pushfq popfq : Emit
  push pop call_reg : Reg → Emit
  mov_reg : Reg → Reg → Emit
  mov_imm add_imm sub_imm : Reg → ℕ → Emit

-- The blocks that `JitRuntime::add` has returned and that are not released.
abbrev pub Blocks : Type 0
Blocks = List (ℕ × List Emit)

pub record Host : Type 0 where
  pub disasm : Disasm
  -- `g_jitRuntime.add`: the address of the new block, or an error.
  pub jit_add : Blocks → List Emit → Option ℕ
  -- Whether `mprotect(start, size, prot)` succeeds.
  pub mprotect : ℕ → ℕ → ℕ → Bool
  pub page_size : ℕ

-- A block of the runtime is at an address other than null and than those of the live blocks.
pub record Allocates (host : Host) : Type 0 where
  pub not_null :
      (blocks : Blocks) (code : List Emit) (a : ℕ) → host.jit_add blocks code ≡ some a → a ≢ 0
  pub not_live :
      (blocks : Blocks) (code : List Emit) (a : ℕ)
      → host.jit_add blocks code ≡ some a
      → lookup a blocks ≡ none
