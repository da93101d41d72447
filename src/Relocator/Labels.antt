-- ===== src/Relocator/Labels.antt =====
-- The labels of relocated code: what `buildRelocatedCode` binds and what it jumps to.
use better_ncm.Base.{
  ℕ, zero, suc, ◌+◌, ◌%◌, ◌^◌, ◌<◌, ◌≡◌, refl, Bool, true, false, not, ◌&&◌, ◌||◌, List, [], ◌∷◌,
  ◌++◌, arith, inl, inr, ok, Bool-cases, ◌==◌, ltb,
}
use better_ncm.Memory.{Memory, read_bytes}
use better_ncm.Disassembler.{InstructionAnalysis, disassemble_one, analyze_instruction}
use better_ncm.Relocator.Code.{Host, Emit, jmp_label, bind_label}
use better_ncm.Relocator.{relocate_insn, relocate_loop}

-- Whether an emitted item binds the label `k`, and whether it jumps to it.
unfoldable pub binds : ℕ → Emit → Bool
binds k (bind_label l) = l == k
binds k _ = false

unfoldable pub jumps : ℕ → Emit → Bool
jumps k (jmp_label l) = l == k
jumps k _ = false

unfoldable pub some_item : (Emit → Bool) → List Emit → Bool
some_item p [] = false
some_item p (e ∷ es) = p e || some_item p es

some_item-append :
    (p : Emit → Bool) (xs ys : List Emit)
    → some_item p (xs ++ ys) ≡ (some_item p xs || some_item p ys)
unfolding some_item
some_item-append p [] ys = refl
some_item-append p (x ∷ xs) ys = ground (arith, some_item-append p xs ys)

-- Labels are bound in the round that makes them.
relocate_insn_old_labels :
    (k first second labels : ℕ) (raw : List ℕ) (a : InstructionAnalysis)
    → k < labels
    → (some_item (binds k) (relocate_insn first second raw a labels).0 ≡ false)
      × (k < (relocate_insn first second raw a labels).1)
unfolding relocate_insn some_item binds
relocate_insn_old_labels k first second labels raw a h = elim (Bool-cases a.is_pc_relative) [
  | inr e ↦ rw e (refl, h)
  | inl e ↦ elim (Bool-cases (first == 0xE9)) [
    | inl f ↦ rw (e, f) (refl, h)
    | inr f ↦ elim (Bool-cases (first == 0xE8)) [
      | inl g ↦ rw (e, f, g) (ground arith, omega arith)
      | inr g ↦ elim (Bool-cases (a.is_branch && not a.is_call)) [
        | inl b ↦ rw (e, f, g, b) (ground arith, omega arith)
        | inr b ↦ rw (e, f, g, b) (refl, h)
      ]
    ]
  ]
]

module _ (host : Host) (mem : Memory) (source min_bytes k : ℕ) where
  -- The code that the loop returns after code that jumps to `k` and does not bind it.
  pub loop_unbound :
      (fuel offset labels consumed : ℕ) (code out : List Emit)
      → k < labels
      → some_item (jumps k) code ≡ true
      → some_item (binds k) code ≡ false
      → relocate_loop host fuel mem source min_bytes offset labels code ≡ ok (out, consumed)
      → (some_item (jumps k) out ≡ true) × (some_item (binds k) out ≡ false)
  unfolding relocate_loop
  loop_unbound zero offset labels consumed code out h j b e = cc
  loop_unbound (suc fuel) offset labels consumed code out h j b e =
      elim (Bool-cases (ltb offset min_bytes)) [
        | inr stop ↦ let same : code ≡ out = ground (arith, stop) in rw (← same) (j, b)
        | inl more ↦ elim (Bool-cases (size == 0)) [
          | inl empty ↦ absurd (ground (arith, more, empty))
          | inr some_bytes ↦
              loop_unbound fuel (offset + size) round.1 consumed (code ++ round.0) out old.1
                (ground (arith, some_item-append (jumps k) code round.0))
                (ground (arith, some_item-append (binds k) code round.0, old.0))
                (ground (arith, more, some_bytes))
        ]
      ]
    where
      at : ℕ
      at = (source + offset) % 2 ^ 64

      size : ℕ
      size = (disassemble_one host.disasm mem at).size

      round : List Emit × ℕ
      round =
          relocate_insn (mem at) (mem (at + 1)) (read_bytes mem at size)
            (analyze_instruction host.disasm mem at) labels

      old : (some_item (binds k) round.0 ≡ false) × (k < round.1)
      old = relocate_insn_old_labels k _ _ labels _ _ h
