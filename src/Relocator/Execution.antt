-- ===== src/Relocator/Execution.antt =====
-- The instructions of a trampoline (src/core/bindings/internal/code_relocator.cc). A word of the
-- stack is an element of a list, the last pushed first; the stack pointer follows from its length.
use better_ncm.Base.{
  ℕ, ◌+◌, ◌-◌, ◌*◌, Option, none, some, List, [], ◌∷◌, ◌++◌, ◌==◌, if◌then◌else◌, length,
}
use better_ncm.Relocator.Code.{
  Reg, rax, rcx, rdx, rbx, rsp, rbp, rsi, rdi, r8, r9, r10, r11, r12, r13, r14, r15, Emit,
  embed_u64, jmp_rip, pushfq, popfq, push, pop, call_reg, mov_reg, mov_imm, add_imm, sub_imm,
}

-- The sixteen general-purpose registers and the flags; the vector registers, which a trampoline neither
-- saves nor uses, are left out. `base` is the address of an empty stack.
pub record Cpu : Type 0 where
  pub regs : Reg → ℕ
  pub flags : ℕ
  pub base : ℕ
  pub stack : List ℕ

unfoldable pub number_of : Reg → ℕ
number_of rax = 0
number_of rcx = 1
number_of rdx = 2
number_of rbx = 3
number_of rsp = 4
number_of rbp = 5
number_of rsi = 6
number_of rdi = 7
number_of r8 = 8
number_of r9 = 9
number_of r10 = 10
number_of r11 = 11
number_of r12 = 12
number_of r13 = 13
number_of r14 = 14
number_of r15 = 15

unfoldable pub stack_pointer : Cpu → ℕ
stack_pointer c = c.base - 8 * length c.stack

unfoldable pub read_reg : Cpu → Reg → ℕ
read_reg c r = if number_of r == 4 then stack_pointer c else c.regs r

unfoldable pub write_reg : Reg → ℕ → Cpu → Cpu
write_reg r v c = record c { regs = λ q. if number_of q == number_of r then v else c.regs q }

-- A call: the function, its two arguments and the stack pointer.
pub record Call : Type 0 where
  pub function : ℕ
  pub arg0 : ℕ
  pub arg1 : ℕ
  pub at : ℕ

-- A called function may change every general-purpose register and the flags. It leaves the words on the stack.
abbrev pub Functions : Type 0
Functions = ℕ → Cpu → (Reg → ℕ) × ℕ

-- What one instruction does. The stack pointer moves by whole words; `none` for what a trampoline does not use.
unfoldable pub step : Functions → Emit → Cpu → Option (List Call × Cpu)
step fns pushfq c = some ([], record c { stack = c.flags ∷ c.stack })
step fns (push r) c = some ([], record c { stack = read_reg c r ∷ c.stack })
step fns popfq c = elim c.stack [
  | [] ↦ none
  | w ∷ ws ↦ some ([], record c { flags = w; stack = ws })
]
step fns (pop r) c = elim c.stack [
  | [] ↦ none
  | w ∷ ws ↦ some ([], write_reg r w (record c { stack = ws }))
]
step fns (mov_reg d s) c = some ([], write_reg d (read_reg c s) c)
step fns (mov_imm d v) c = some ([], write_reg d v c)
step fns (add_imm r v) c =
    if number_of r == 4
    then if v == 8
      then elim c.stack [ [] ↦ none | w ∷ ws ↦ some ([], record c { stack = ws }) ]
      else none
    else some ([], write_reg r (c.regs r + v) c)
step fns (sub_imm r v) c =
    if number_of r == 4
    then if v == 8 then some ([], record c { stack = 0 ∷ c.stack }) else none
    else some ([], write_reg r (c.regs r - v) c)
step fns (call_reg r) c =
    let (regs, flags) = fns (c.regs r) c in
    some (
      record { function = c.regs r; arg0 = c.regs rdi; arg1 = c.regs rsi; at = stack_pointer c }
          ∷ [],
      record c { regs = regs; flags = flags },
    )
step fns _ c = none

-- From the first instruction to the jump: the calls, the state, and where the jump goes.
unfoldable pub run_code : Functions → List Emit → Cpu → Option (List Call × Cpu × ℕ)
run_code fns [] c = none
run_code fns (jmp_rip ∷ embed_u64 t ∷ _) c = some ([], c, t)
run_code fns (e ∷ es) c = elim (step fns e c) [
  | none ↦ none
  | some (calls, c') ↦ elim (run_code fns es c') [
    | none ↦ none
    | some (more, last, t) ↦ some (calls ++ more, last, t)
  ]
]
