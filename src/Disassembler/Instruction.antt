-- ===== src/Disassembler/Instruction.antt =====
-- What Capstone says of one instruction, as far as src/core/bindings/native_disassembler.cc reads
-- it. Capstone itself is a parameter: a function from memory, an address, a number of bytes and a
-- number of instructions to the instructions decoded there.
use better_ncm.Base.{ℕ, Option, List}
use better_ncm.Memory.{Memory}

pub data Group : Type 0 where
  jump call branch_relative : Group
  other_group : ℕ → Group

-- A 64-bit immediate, a memory operand with base RIP and its displacement modulo 2^64, or another.
pub data Operand : Type 0 where
  imm rip_relative : ℕ → Operand
  other : Operand

pub record Detail : Type 0 where
  pub groups : List Group
  pub operands : List Operand

-- `cs_insn`
pub record Insn : Type 0 where
  pub address : ℕ
  pub size : ℕ
  pub bytes : List ℕ
  pub detail : Option Detail

abbrev pub Disasm : Type 0
Disasm = Memory → ℕ → ℕ → ℕ → List Insn
