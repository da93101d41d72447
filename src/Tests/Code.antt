-- ===== src/Tests/Code.antt =====
-- Scanning, disassembling and relocating concrete bytes.
use better_ncm.Base.{ℕ, ◌+◌, ◌%◌, ◌≡◌, refl, true, false, some, List, [], ◌∷◌, arith, ok, All}
use better_ncm.Hex.{stoi_hex_byte, run_value, hex_value, digits_value, skip_spaces}
use better_ncm.Memory.{Memory}
use better_ncm.Scan.{bmh_scan}
use better_ncm.Scan.Pattern.{ParsedPattern, parse_pattern}
use better_ncm.Scan.Search.{scan_reference, bmh_scan-scan_reference}
use better_ncm.NativeMemory.{ModuleInfo, scan_module}
use better_ncm.NativeMemory.ScanModule.{all_matches, scan_module-all_matches}
use better_ncm.Disassembler.{
  first_target, XrefType, InstructionAnalysis, analyze_instruction, disassemble_one, find_xrefs,
}
use better_ncm.Disassembler.Xrefs.{IsXref, find_xrefs-IsXref}
use better_ncm.Relocator.Code.{Emit, embed_u64, bind_label, call_rip, jmp_label}
use better_ncm.Relocator.Execution.{Functions, Cpu, run_code}
use better_ncm.Relocator.Trampoline.{Same, dispatch_calls, run_code-trampoline_code}
use better_ncm.Relocator.{trampoline_code, relocate_insn, relocate_loop}
use better_ncm.Relocator.Labels.{binds, jumps, some_item}
use better_ncm.Relocator.Relocate.{Consumes, relocate_loop-Consumes, relocate_call_unbound}
use better_ncm.Tests.Hosts.{test_host, one_byte_disasm, one_byte-Decodes}

-- 1 2 1 2 1 2 ...
abbrev bytes : Memory
bytes a = 1 + a % 2

-- "02 ??"
abbrev pattern_text : List ℕ
pattern_text = b'0' ∷ b'2' ∷ 32 ∷ b'?' ∷ b'?' ∷ []

abbrev pattern_parsed : ParsedPattern
pattern_parsed = record { bytes = 2 ∷ 0 ∷ []; mask = true ∷ false ∷ [] }

parse_pattern_text : parse_pattern pattern_text ≡ ok pattern_parsed
unfolding parse_pattern stoi_hex_byte run_value hex_value digits_value skip_spaces
parse_pattern_text = refl

bmh_scan-scan_reference_example :
    bmh_scan bytes 64 6 pattern_parsed ≡ some (scan_reference bytes 64 6 pattern_parsed, 2)
bmh_scan-scan_reference_example =
    bmh_scan-scan_reference bytes 64 6 pattern_parsed (omega arith) (omega arith)

-- Two segments with a gap
abbrev two_segments : ModuleInfo
two_segments = record { base = 64; size = 64; segments = (64, 6) ∷ (96, 4) ∷ [] }

scan_module-all_matches_example :
    scan_module (λ name. some two_segments) bytes [] pattern_text
    ≡ ok (all_matches bytes pattern_parsed two_segments.segments)
scan_module-all_matches_example =
    scan_module-all_matches (λ name. some two_segments) bytes [] pattern_text two_segments
      pattern_parsed refl parse_pattern_text (λ e. absurd (ground arith))
      ((omega arith, omega arith), ((omega arith, omega arith), tt))

abbrev calls_only : Memory
calls_only a = 0xE8

find_xrefs-IsXref_example :
    (found : List (ℕ × XrefType × ℕ)) × (find_xrefs one_byte_disasm calls_only 64 8 32 ≡ some found)
    × All (IsXref one_byte_disasm calls_only 64 8 32) found
find_xrefs-IsXref_example =
    find_xrefs-IsXref one_byte_disasm calls_only 64 8 32 one_byte-Decodes (omega arith)

relocate_loop-Consumes_example : Consumes 14 (relocate_loop test_host 15 calls_only 64 14 0 0 [])
relocate_loop-Consumes_example = relocate_loop-Consumes test_host calls_only 64 14

abbrev branch : InstructionAnalysis
branch = record {
  is_branch = true;
  is_call = false;
  is_relative = true;
  target = 100;
  is_pc_relative = true;
  size = 2;
}

-- JE (0x74) becomes JNE over the jump.
abbrev relocated_call : List Emit
relocated_call = call_rip 2 ∷ jmp_label 0 ∷ embed_u64 32 ∷ bind_label 1 ∷ []

call_is_relative : (analyze_instruction one_byte_disasm calls_only 64).is_pc_relative ≡ true
unfolding analyze_instruction first_target
call_is_relative = refl

relocate_call : relocate_loop test_host 2 calls_only 64 1 0 0 [] ≡ ok (relocated_call, 1)
unfolding relocate_loop relocate_insn disassemble_one analyze_instruction first_target
relocate_call = refl

relocate_call_unbound_example :
    (some_item (jumps 0) relocated_call ≡ true) × (some_item (binds 0) relocated_call ≡ false)
relocate_call_unbound_example =
    relocate_call_unbound test_host calls_only 64 1 1 relocated_call (omega arith) (omega arith)
      refl call_is_relative relocate_call

-- Called functions leave their own number in every register.
abbrev clobbers : Functions
clobbers f c = (λ r. f, 0)

abbrev cpu : Cpu
cpu = record { regs = λ r. 9; flags = 2; base = 4096; stack = 7 ∷ [] }

run_code-trampoline_code_example :
    (last : Cpu) × Same cpu last
    × (run_code clobbers (trampoline_code 0x1000 0x2000 8 0x3000) cpu
        ≡ some (dispatch_calls 0x1000 0x2000 8 cpu, last, 0x3000))
run_code-trampoline_code_example =
    run_code-trampoline_code clobbers 0x1000 0x2000 8 0x3000 cpu (omega arith)
