-- ===== src/Relocator/Relocate.antt =====
-- `buildRelocatedCode` on x86-64: the loop ends, consumes enough bytes, and treats branches as
-- described below.
use better_ncm.Base.{
  ℕ, zero, suc, ◌+◌, ◌-◌, ◌%◌, ◌^◌, ◌≤◌, ◌<◌, ◌≡◌, refl, true, false, List, [], ◌∷◌, arith, inl,
  inr, ◌⊎◌, Outcome, ok, thrown, Bool-cases, ◌==◌, ltb, bit_xor, dec_lt,
}
use better_ncm.Memory.{Memory, read_bytes}
use better_ncm.Disassembler.{InstructionAnalysis, disassemble_one, analyze_instruction}
use better_ncm.Relocator.Code.{
  Host, Emit, embed_u8, embed_u32, embed_u64, jmp_rip, jmp_label, bind_label, call_rip,
}
use better_ncm.Relocator.{
  CodeError, cannot_disassemble, condition_code, relocate_insn, relocate_loop,
}
use better_ncm.Relocator.Labels.{binds, jumps, some_item, loop_unbound}

-- The loop ends by its own test or by an exception: it returns at least `min_bytes` consumed bytes or
-- throws that an instruction cannot be disassembled; the fuel is enough.
abbrev pub Consumes : ℕ → Outcome CodeError (List Emit × ℕ) → Type 0
Consumes min_bytes r =
    ((a : ℕ) × (r ≡ thrown (cannot_disassemble a)))
    ⊎ ((code : List Emit) × (consumed : ℕ) × (min_bytes ≤ consumed) × (r ≡ ok (code, consumed)))

relocate_loop-Consumes_from :
    (host : Host) (mem : Memory) (source min_bytes fuel offset labels : ℕ) (code : List Emit)
    → min_bytes - offset < fuel
    → Consumes min_bytes (relocate_loop host fuel mem source min_bytes offset labels code)
unfolding relocate_loop
relocate_loop-Consumes_from host mem source min_bytes zero offset labels code h =
    absurd (omega arith)
relocate_loop-Consumes_from host mem source min_bytes (suc fuel) offset labels code h =
    elim (dec_lt offset min_bytes) [
      | no done ↦
          let stop : ltb offset min_bytes ≡ false = ground arith in
          rw stop (inr (code, offset, omega arith, refl))
      | yes more ↦
          let go_on : ltb offset min_bytes ≡ true = ground arith in
          elim (Bool-cases (size == 0)) [
            | inl empty ↦ rw (go_on, empty) (inl (at, refl))
            | inr some_bytes ↦
                rw (go_on, some_bytes)
                  (relocate_loop-Consumes_from host mem source min_bytes fuel (offset + size) _ _
                    (ground arith))
          ]
    ]
  where
    at : ℕ
    at = (source + offset) % 2 ^ 64

    size : ℕ
    size = (disassemble_one host.disasm mem at).size

-- The loop of `buildRelocatedCode`, as it is called, returns with the fuel that it is given, with
-- at least `minBytes` bytes consumed, or throws that an instruction cannot be disassembled.
pub relocate_loop-Consumes :
    (host : Host) (mem : Memory) (source min_bytes : ℕ)
    → Consumes min_bytes (relocate_loop host (suc min_bytes) mem source min_bytes 0 0 [])
relocate_loop-Consumes host mem source min_bytes =
    relocate_loop-Consumes_from host mem source min_bytes (suc min_bytes) 0 0 [] (omega arith)

-- The encodings of the conditional branch with code `cc`: short, and near.
abbrev pub Encodes : ℕ → ℕ → ℕ → Type 0
Encodes cc first second = (first ≡ 0x70 + cc) ⊎ ((first ≡ 0x0F) × (second ≡ 0x80 + cc))

condition_code_of_branch :
    (cc first second : ℕ) → cc < 16 → Encodes cc first second → condition_code first second ≡ cc
unfolding condition_code
condition_code_of_branch cc first second h (inl e) = ground arith
condition_code_of_branch cc first second h (inr e) = ground arith

abbrev pub IsConditional : InstructionAnalysis → Type 0
IsConditional a = (a.is_pc_relative ≡ true) × (a.is_branch ≡ true) × (a.is_call ≡ false)

-- A conditional branch with code below 16, short or near, becomes the near branch on the negated
-- condition over 14 bytes, which is the absolute jump (6 bytes) and its target (8 bytes), with the
-- label behind it.
pub relocate_insn_conditional :
    (cc first second labels : ℕ) (raw : List ℕ) (a : InstructionAnalysis)
    → cc < 16
    → Encodes cc first second
    → IsConditional a
    → relocate_insn first second raw a labels ≡ (
      embed_u8 0x0F
          ∷ embed_u8 ((0x80 + bit_xor cc 1) % 256)
          ∷ embed_u32 (6 + 8)
          ∷ jmp_rip
          ∷ embed_u64 a.target
          ∷ bind_label labels
          ∷ [],
      labels + 1,
    )
unfolding relocate_insn
relocate_insn_conditional cc first second labels raw a h e c =
    let code = condition_code_of_branch cc first second h e in
    let no_jmp : (first == 0xE9) ≡ false = ground arith in
    let no_call : (first == 0xE8) ≡ false = ground arith in
    rw (c.0, no_jmp, no_call, c.1, c.2, code) refl

-- A PC-relative short jump (0xEB), analysed as a branch that is no call, is relocated to the same
-- code as the branch on overflow (0x70).
pub relocate_insn_short_jump :
    (second second' labels : ℕ) (raw raw' : List ℕ) (a : InstructionAnalysis)
    → IsConditional a
    → relocate_insn 0xEB second raw a labels ≡ relocate_insn 0x70 second' raw' a labels
unfolding relocate_insn condition_code
relocate_insn_short_jump second second' labels raw raw' a c = rw (c.0, c.1, c.2) refl

relocate_insn_call :
    (first second : ℕ) (raw : List ℕ) (a : InstructionAnalysis)
    → first ≡ 0xE8
    → a.is_pc_relative ≡ true
    → relocate_insn first second raw a 0
      ≡ (call_rip 2 ∷ jmp_label 0 ∷ embed_u64 a.target ∷ bind_label 1 ∷ [], 2)
unfolding relocate_insn
relocate_insn_call first second raw a e r = rw (r, e) refl

-- Where code of at least one byte below 2^64 begins with a PC-relative near call (0xE8) and the
-- loop of `buildRelocatedCode` returns, the relocated code jumps to a label that it never binds.
pub relocate_call_unbound :
    (host : Host) (mem : Memory) (source min_bytes consumed : ℕ) (out : List Emit)
    → 0 < min_bytes
    → source < 2 ^ 64
    → mem source ≡ 0xE8
    → (analyze_instruction host.disasm mem source).is_pc_relative ≡ true
    → relocate_loop host (suc min_bytes) mem source min_bytes 0 0 [] ≡ ok (out, consumed)
    → (some_item (jumps 0) out ≡ true) × (some_item (binds 0) out ≡ false)
unfolding relocate_loop some_item jumps binds
relocate_call_unbound host mem source min_bytes consumed out pos fits call rel e =
    elim (Bool-cases (size == 0)) [
      | inl empty ↦ absurd (ground (arith, go_on, empty))
      | inr some_bytes ↦
          loop_unbound host mem source min_bytes 0 min_bytes (0 + size) round.1 consumed round.0 out
            (rw one (omega arith)) (rw one refl) (rw one refl) (ground (arith, go_on, some_bytes))
    ]
  where
    at : ℕ
    at = (source + 0) % 2 ^ 64

    here : at ≡ source
    here = omega arith

    size : ℕ
    size = (disassemble_one host.disasm mem at).size

    go_on : ltb 0 min_bytes ≡ true
    go_on = ground arith

    analysis : InstructionAnalysis
    analysis = analyze_instruction host.disasm mem at

    round : List Emit × ℕ
    round = relocate_insn (mem at) (mem (at + 1)) (read_bytes mem at size) analysis 0

    one : round ≡ (call_rip 2 ∷ jmp_label 0 ∷ embed_u64 analysis.target ∷ bind_label 1 ∷ [], 2)
    one =
        relocate_insn_call (mem at) (mem (at + 1)) (read_bytes mem at size) analysis (rw here call)
          (rw here rel)
