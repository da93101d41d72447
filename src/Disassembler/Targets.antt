-- ===== src/Disassembler/Targets.antt =====
-- The two readers of an instruction's target, `analyzeInstruction` (used to relocate code) and
-- `extractTarget` (used to find references), agree.
use better_ncm.Base.{
  ℕ, ◌≡◌, refl, ap, ◌≢◌, false, Option, none, some, List, ◌∷◌, arith, ◌+◌, ◌==◌, if◌then◌else◌,
}
use better_ncm.Memory.{Memory}
use better_ncm.Disassembler.Instruction.{Detail, Insn, Disasm}
use better_ncm.Disassembler.{
  InstructionAnalysis, XrefType, call_xref, branch_xref, data_xref, unset, analyze_detail,
  analyze_instruction, extract_detail, extract_target,
}

-- The kind of reference that an analysis stands for.
pub xref_type_of : InstructionAnalysis → XrefType
xref_type_of a =
    if a.is_pc_relative
    then if a.is_call then call_xref else if a.is_branch then branch_xref else data_xref
    else unset

analyze-extract_detail :
    (addr : ℕ) (insn : Insn) (o : Option Detail)
    → insn.address ≡ addr
    → extract_detail insn o
      ≡ ((analyze_detail addr insn o).target, xref_type_of (analyze_detail addr insn o))
unfolding analyze_detail extract_detail xref_type_of
analyze-extract_detail addr insn none h = refl
analyze-extract_detail addr insn (some d) h =
    let next : insn.address + insn.size ≡ addr + insn.size = ap (λ a. a + insn.size) h in
    rw (next, extract_detail) (ground arith)

-- At an address other than 0 at which an instruction is decoded with that address, `extractTarget`
-- and `analyzeInstruction` read the same target, and `extractTarget` sets the type that the flags
-- of `analyzeInstruction` stand for.
pub extract_target-analyze_instruction :
    (disasm : Disasm) (mem : Memory) (addr : ℕ) (insn : Insn) (rest : List Insn)
    → addr ≢ 0
    → disasm mem addr 16 1 ≡ insn ∷ rest
    → insn.address ≡ addr
    → extract_target insn ≡ (
      (analyze_instruction disasm mem addr).target,
      xref_type_of (analyze_instruction disasm mem addr),
    )
unfolding analyze_instruction extract_target
extract_target-analyze_instruction disasm mem addr insn rest nz d h =
    let test : (addr == 0) ≡ false = ground arith in
    rw (test, d) (analyze-extract_detail addr insn insn.detail h)
