-- ===== src/Disassembler.antt =====
-- src/core/bindings/native_disassembler.cc on x86-64: `disassembleOne`, `analyzeInstruction`,
-- `extractTarget`, `findXrefs` and `filterInstructions`.
pub mod Instruction
pub mod Targets
pub mod Xrefs
use better_ncm.Base.{
  ℕ, zero, suc, ◌+◌, ◌-◌, ◌/◌, ◌%◌, ◌^◌, Bool, true, false, ◌&&◌, ◌||◌, Option, none, some, List,
  [], ◌∷◌, ◌++◌, map, ◌*◌, ltb, leb, ◌==◌, if◌then◌else◌,
}
use better_ncm.Hex.{hex_char}
use better_ncm.Memory.{Memory}
use Instruction.{
  Group, jump, call, branch_relative, other_group, Operand, imm, rip_relative, other, Detail, Insn,
  Disasm,
}

-- `bytesToHex`: two digits a byte, a space between bytes.
pub bytes_to_hex : List ℕ → List ℕ
bytes_to_hex [] = []
bytes_to_hex (b ∷ []) = hex_char (b / 16 % 16) ∷ hex_char (b % 16) ∷ []
bytes_to_hex (b ∷ c ∷ bs) = hex_char (b / 16 % 16) ∷ hex_char (b % 16) ∷ 32 ∷ bytes_to_hex (c ∷ bs)

-- `InstructionInfo`, less the texts that Capstone prints and the register lists.
pub record InstructionInfo : Type 0 where
  pub address : ℕ
  pub size : ℕ
  pub bytes : List ℕ
  pub groups : List Group

pub groups_of : Option Detail → List Group
groups_of none = []
groups_of (some d) = d.groups

pub insn_to_info : Insn → InstructionInfo
unfolding groups_of
insn_to_info insn = record {
  address = insn.address;
  size = insn.size;
  bytes = bytes_to_hex insn.bytes;
  groups = groups_of insn.detail;
}

abbrev pub no_info : ℕ → InstructionInfo
no_info addr = record { address = addr; size = 0; bytes = []; groups = [] }

pub is_jump : Group → Bool
is_jump jump = true
is_jump _ = false

pub is_call_group : Group → Bool
is_call_group call = true
is_call_group _ = false

pub is_relative_group : Group → Bool
is_relative_group branch_relative = true
is_relative_group _ = false

-- The loops over `groups`, which set a flag.
pub any_group : (Group → Bool) → List Group → Bool
any_group p [] = false
any_group p (g ∷ gs) = p g || any_group p gs

-- The loop over the operands, which stops at the first immediate or RIP-relative one. `next` is
-- the address behind the instruction.
unfoldable pub first_target : ℕ → List Operand → Option ℕ
first_target next [] = none
first_target next (imm v ∷ os) = some v
first_target next (rip_relative disp ∷ os) = some ((next + disp) % 2 ^ 64)
first_target next (other ∷ os) = first_target next os

pub data XrefType : Type 0 where
  call_xref branch_xref data_xref unset : XrefType

-- `extractTarget`: the target, 0 if there is none, and what `type` is set to.
pub extract_detail : Insn → Option Detail → ℕ × XrefType
extract_detail insn none = (0, unset)
extract_detail insn (some d) =
    let is_branch = any_group is_jump d.groups in
    let is_call = any_group is_call_group d.groups in
    elim (first_target (insn.address + insn.size) d.operands) [
      | none ↦ (0, unset)
      | some t ↦ (t, if is_call then call_xref else if is_branch then branch_xref else data_xref)
    ]

pub extract_target : Insn → ℕ × XrefType
unfolding extract_detail
extract_target insn = extract_detail insn insn.detail

-- `InstructionAnalysis`
pub record InstructionAnalysis : Type 0 where
  pub is_branch : Bool
  pub is_call : Bool
  pub is_relative : Bool
  pub target : ℕ
  pub is_pc_relative : Bool
  pub size : ℕ

abbrev pub no_analysis : InstructionAnalysis
no_analysis = record {
  is_branch = false;
  is_call = false;
  is_relative = false;
  target = 0;
  is_pc_relative = false;
  size = 0;
}

pub analyze_detail : ℕ → Insn → Option Detail → InstructionAnalysis
analyze_detail addr insn none = record no_analysis { size = insn.size }
analyze_detail addr insn (some d) =
    let found = first_target (addr + insn.size) d.operands in
    record {
      is_branch = any_group is_jump d.groups;
      is_call = any_group is_call_group d.groups;
      is_relative = any_group is_relative_group d.groups;
      target = elim found [ none ↦ 0 | some t ↦ t ];
      is_pc_relative = elim found [ none ↦ false | some t ↦ true ];
      size = insn.size;
    }

module _ (disasm : Disasm) where
  unfoldable pub disassemble_one : Memory → ℕ → InstructionInfo
  unfolding insn_to_info
  disassemble_one mem addr =
      if addr == 0
      then no_info 0
      else elim (disasm mem addr 16 1) [ [] ↦ no_info addr | insn ∷ _ ↦ insn_to_info insn ]

  -- The capacity of an instruction buffer is `count * 16`.
  pub disassemble : Memory → ℕ → ℕ → List InstructionInfo
  disassemble mem addr count =
      if addr == 0 || count == 0 then [] else map insn_to_info (disasm mem addr (count * 16) count)

  unfoldable pub analyze_instruction : Memory → ℕ → InstructionAnalysis
  unfolding analyze_detail
  analyze_instruction mem addr = if addr == 0 then no_analysis else elim (disasm mem addr 16 1) [
    | [] ↦ no_analysis
    | insn ∷ _ ↦ analyze_detail addr insn insn.detail
  ]

  -- `XrefResult`: address, type and size. One round of `findXrefs` at `offset` gives the step to the next
  -- offset and what is reported.
  pub xref_round : Memory → ℕ → ℕ → ℕ → ℕ → ℕ × List (ℕ × XrefType × ℕ)
  xref_round mem start remaining target offset =
      elim (disasm mem ((start + offset) % 2 ^ 64)
        (if ltb 16 (remaining - offset) then 16 else remaining - offset) 1) [
          | [] ↦ (1, [])
          | insn ∷ _ ↦
              let (found, type) = extract_target insn in
              (insn.size, if found == target then (insn.address, type, insn.size) ∷ [] else [])
        ]

  -- `while (offset < remaining)`. `none`: the fuel ran out.
  pub xref_loop :
      ℕ → Memory → ℕ → ℕ → ℕ → ℕ → List (ℕ × XrefType × ℕ) → Option (List (ℕ × XrefType × ℕ))
  xref_loop zero mem start remaining target offset results = none
  xref_loop (suc fuel) mem start remaining target offset results =
      let (step, found) = xref_round mem start remaining target offset in
      let rest = xref_loop fuel mem start remaining target (offset + step) (results ++ found) in
      if ltb offset remaining then rest else some results

  pub find_xrefs : Memory → ℕ → ℕ → ℕ → Option (List (ℕ × XrefType × ℕ))
  find_xrefs mem start range_size target =
      let found = xref_loop (suc range_size) mem start range_size target 0 [] in
      if start == 0 || target == 0 || range_size == 0 then some [] else found

  -- `while (decoded < count)`: the rounds left are `count - decoded`.
  pub filter_loop :
      ℕ → Memory → ℕ → ℕ → (InstructionInfo → Bool) → List InstructionInfo → List InstructionInfo
  filter_loop zero mem addr offset keep results = results
  filter_loop (suc rounds) mem addr offset keep results =
      elim (disasm mem ((addr + offset) % 2 ^ 64) 16 1) [
        | [] ↦ results
        | insn ∷ _ ↦
            filter_loop rounds mem addr (offset + insn.size) keep
              (if keep (insn_to_info insn) then results ++ insn_to_info insn ∷ [] else results)
      ]

  pub filter_instructions : Memory → ℕ → ℕ → (InstructionInfo → Bool) → List InstructionInfo
  filter_instructions mem addr count keep =
      if addr == 0 || count == 0 then [] else filter_loop count mem addr 0 keep []
