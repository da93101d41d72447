-- ===== src/Disassembler/Xrefs.antt =====
-- `findXrefs` ends, and what it reports is there.
use better_ncm.Base.{
  ℕ, zero, suc, ◌+◌, ◌-◌, ◌%◌, ◌^◌, ◌≤◌, ◌<◌, ◌≡◌, refl, ap, ◌∙◌, true, false, some, List, [], ◌∷◌,
  arith, ltb, ◌==◌, ◌||◌, if◌then◌else◌, inl, inr, ◌⊎◌, Bool-cases, All, All-append, dec_lt,
}
use better_ncm.Memory.{Memory}
use better_ncm.Disassembler.Instruction.{Insn, Disasm}
use better_ncm.Disassembler.{XrefType, extract_target, xref_round, xref_loop, find_xrefs}

-- What Capstone's documentation says of a decoded instruction.
pub record Decodes (disasm : Disasm) : Type 0 where
  pub positive :
      (mem : Memory) (a n c : ℕ) (insn : Insn) (rest : List Insn)
      → disasm mem a n c ≡ insn ∷ rest
      → 0 < insn.size
  pub fits :
      (mem : Memory) (a n c : ℕ) (insn : Insn) (rest : List Insn)
      → disasm mem a n c ≡ insn ∷ rest
      → insn.size ≤ n
  pub located :
      (mem : Memory) (a n c : ℕ) (insn : Insn) (rest : List Insn)
      → disasm mem a n c ≡ insn ∷ rest
      → insn.address ≡ a

module _ (disasm : Disasm) (mem : Memory) (start size target : ℕ) where
  -- A reported reference: an instruction that is decoded at that address, lies inside the range and
  -- has the target.
  pub record IsXref (x : ℕ × XrefType × ℕ) : Type 0 where
    pub insn : Insn
    pub rest : List Insn
    pub limit : ℕ
    pub decoded : disasm mem x.0 limit 1 ≡ insn ∷ rest
    pub lower : start ≤ x.0
    pub upper : x.0 + x.2 ≤ start + size
    pub sized : insn.size ≡ x.2
    pub refers : extract_target insn ≡ (target, x.1)

  module _ (laws : Decodes disasm) (no_wrap : start + size ≤ 2 ^ 64) where
    round-IsXref :
        (offset : ℕ)
        → offset < size
        → (0 < (xref_round disasm mem start size target offset).0)
          × All IsXref (xref_round disasm mem start size target offset).1
    unfolding xref_round
    round-IsXref offset h = go (disasm mem at limit 1) refl
      where
        at : ℕ
        at = (start + offset) % 2 ^ 64

        limit : ℕ
        limit = if ltb 16 (size - offset) then 16 else size - offset

        go :
            (ds : List Insn)
            → disasm mem at limit 1 ≡ ds
            → (0 < (xref_round disasm mem start size target offset).0)
              × All IsXref (xref_round disasm mem start size target offset).1
        go [] e = rw (e, xref_round) (omega arith, tt)
        go (insn ∷ rest) e =
            rw (e, xref_round)
              (
                laws.positive mem at limit 1 insn rest e,
                found (Bool-cases ((extract_target insn).0 == target)),
              )
          where
            here : insn.address ≡ start + offset
            here = omega (arith, laws.located mem at limit 1 insn rest e)

            small : insn.size ≤ size - offset
            small = ground (arith, laws.fits mem at limit 1 insn rest e)

            found :
                (((extract_target insn).0 == target) ≡ true)
                  ⊎ (((extract_target insn).0 == target) ≡ false)
                → All IsXref (
                    if (extract_target insn).0 == target
                    then (insn.address, (extract_target insn).1, insn.size) ∷ []
                    else [])
            found (inr miss) = rw miss tt
            found (inl hit) = rw hit (
              record {
                insn = insn;
                rest = rest;
                limit = limit;
                decoded =
                    ap (λ a. disasm mem a limit 1) (laws.located mem at limit 1 insn rest e) ∙ e;
                lower = omega (arith, here);
                upper = omega (arith, here, small);
                sized = refl;
                refers = ground (arith, hit);
              },
              tt,
            )

    loop-IsXref :
        (fuel offset : ℕ) (results : List (ℕ × XrefType × ℕ))
        → size - offset < fuel
        → All IsXref results
        → (found : List (ℕ × XrefType × ℕ)) × (xref_loop disasm fuel mem start size target offset
              results
            ≡ some found)
          × All IsXref found
    unfolding xref_loop
    loop-IsXref zero offset results enough a = absurd (omega arith)
    loop-IsXref (suc fuel) offset results enough a = elim (dec_lt offset size) [
      | yes more ↦
          let round = round-IsXref offset more in
          let go_on : ltb offset size ≡ true = ground arith in
          rw go_on (loop-IsXref fuel _ _ (omega (arith, round.0)) (All-append IsXref _ _ a round.1))
      | no done ↦ let stop : ltb offset size ≡ false = ground arith in rw stop (results, refl, a)
    ]

-- For a range that does not wrap round, and a disassembler whose instructions are at the address
-- asked for and have at least one byte and at most those given, `findXrefs` ends within its fuel,
-- and every reference that it reports is an instruction decoded at the reported address, inside the
-- range, whose target is the one asked for; its type and size are the reported ones.
pub find_xrefs-IsXref :
    (disasm : Disasm) (mem : Memory) (start size target : ℕ)
    → Decodes disasm
    → start + size ≤ 2 ^ 64
    → (found : List (ℕ × XrefType × ℕ)) × (find_xrefs disasm mem start size target ≡ some found)
      × All (IsXref disasm mem start size target) found
unfolding find_xrefs
find_xrefs-IsXref disasm mem start size target laws no_wrap =
    elim (Bool-cases (start == 0 || target == 0 || size == 0)) [
      | inl none_asked ↦ rw none_asked ([], refl, tt)
      | inr asked ↦
          rw asked
            (loop-IsXref disasm mem start size target laws no_wrap (suc size) 0 [] (omega arith) tt)
    ]
