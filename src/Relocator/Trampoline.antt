-- ===== src/Relocator/Trampoline.antt =====
-- Running the code of `buildTrampoline` (src/core/bindings/internal/code_relocator.cc).
use better_ncm.Base.{
  ℕ, ◌+◌, ◌-◌, ◌*◌, ◌≤◌, ◌≡◌, refl, ap, ◌∙◌, Bool-cases, inl, inr, some, List, [], ◌∷◌, ◌++◌, arith,
  ◌==◌, if◌then◌else◌, length,
}
use better_ncm.Relocator.Code.{
  Reg, rax, rcx, rdx, rbx, rsp, rbp, rsi, rdi, r8, r9, r10, r11, r12, r13, r14, r15, Emit,
  embed_u64, jmp_rip, call_reg, mov_reg, mov_imm, add_imm,
}
use better_ncm.Relocator.{save_code, enter_code, leave_code, restore_code, trampoline_code}
use better_ncm.Relocator.Execution.{
  Cpu, number_of, stack_pointer, read_reg, write_reg, Call, Functions, step, run_code,
}

-- The calls of a trampoline: each with the address of the sixteen saved words, the user data, and
-- the stack pointer one word below.
pub dispatch_call : ℕ → ℕ → Cpu → Call
dispatch_call function user c = record {
  function = function;
  arg0 = c.base - 8 * (16 + length c.stack);
  arg1 = user;
  at = c.base - 8 * (17 + length c.stack);
}

pub dispatch_calls : ℕ → ℕ → ℕ → Cpu → List Call
dispatch_calls enter leave user c =
    dispatch_call enter user c ∷ (if leave == 0 then [] else dispatch_call leave user c ∷ [])

-- The general-purpose registers, the flags and the stack are the same.
pub record Same (c last : Cpu) : Type 0 where
  pub regs : (r : Reg) → read_reg last r ≡ read_reg c r
  pub flags : last.flags ≡ c.flags
  pub stack : last.stack ≡ c.stack
  pub base : last.base ≡ c.base

-- A property of every general-purpose register, one by one.
for_each :
    (P : Reg → Type 0)
    → P rax
    → P rcx
    → P rdx
    → P rbx
    → P rsp
    → P rbp
    → P rsi
    → P rdi
    → P r8
    → P r9
    → P r10
    → P r11
    → P r12
    → P r13
    → P r14
    → P r15
    → (r : Reg) → P r
for_each P p0 p1 p2 p3 p4 p5 p6 p7 p8 p9 p10 p11 p12 p13 p14 p15 rax = p0
for_each P p0 p1 p2 p3 p4 p5 p6 p7 p8 p9 p10 p11 p12 p13 p14 p15 rcx = p1
for_each P p0 p1 p2 p3 p4 p5 p6 p7 p8 p9 p10 p11 p12 p13 p14 p15 rdx = p2
for_each P p0 p1 p2 p3 p4 p5 p6 p7 p8 p9 p10 p11 p12 p13 p14 p15 rbx = p3
for_each P p0 p1 p2 p3 p4 p5 p6 p7 p8 p9 p10 p11 p12 p13 p14 p15 rsp = p4
for_each P p0 p1 p2 p3 p4 p5 p6 p7 p8 p9 p10 p11 p12 p13 p14 p15 rbp = p5
for_each P p0 p1 p2 p3 p4 p5 p6 p7 p8 p9 p10 p11 p12 p13 p14 p15 rsi = p6
for_each P p0 p1 p2 p3 p4 p5 p6 p7 p8 p9 p10 p11 p12 p13 p14 p15 rdi = p7
for_each P p0 p1 p2 p3 p4 p5 p6 p7 p8 p9 p10 p11 p12 p13 p14 p15 r8 = p8
for_each P p0 p1 p2 p3 p4 p5 p6 p7 p8 p9 p10 p11 p12 p13 p14 p15 r9 = p9
for_each P p0 p1 p2 p3 p4 p5 p6 p7 p8 p9 p10 p11 p12 p13 p14 p15 r10 = p10
for_each P p0 p1 p2 p3 p4 p5 p6 p7 p8 p9 p10 p11 p12 p13 p14 p15 r11 = p11
for_each P p0 p1 p2 p3 p4 p5 p6 p7 p8 p9 p10 p11 p12 p13 p14 p15 r12 = p12
for_each P p0 p1 p2 p3 p4 p5 p6 p7 p8 p9 p10 p11 p12 p13 p14 p15 r13 = p13
for_each P p0 p1 p2 p3 p4 p5 p6 p7 p8 p9 p10 p11 p12 p13 p14 p15 r14 = p14
for_each P p0 p1 p2 p3 p4 p5 p6 p7 p8 p9 p10 p11 p12 p13 p14 p15 r15 = p15

abbrev make_call : ℕ → ℕ → ℕ → ℕ → Call
make_call function user a b = record { function = function; arg0 = a; arg1 = user; at = b }

call_at :
    (function user : ℕ) {a a' b b' : ℕ}
    → a ≡ a'
    → b ≡ b'
    → make_call function user a b ≡ make_call function user a' b'
call_at function user p q = cc (p, q)

two_calls : {a b c d : Call} → a ≡ b → c ≡ d → a ∷ c ∷ [] ≡ b ∷ d ∷ []
two_calls p q = cc (p, q)

-- Running the two shapes of a trampoline, by computation.
Runs : Functions → ℕ → ℕ → ℕ → List Emit → List Call → Cpu → Type 0
Runs fns enter user relocated leaving calls c =
    (all : List Call) × (last : Cpu) × (run_code fns
        (save_code
          ++ (enter_code enter user
              ++ (leaving ++ (restore_code ++ jmp_rip ∷ embed_u64 relocated ∷ []))))
        c
      ≡ some (all, last, relocated))
    × Same c last
    × (all ≡ calls)

run_enter :
    (fns : Functions) (enter user relocated : ℕ) (c : Cpu)
    → Runs fns enter user relocated [] (dispatch_call enter user c ∷ []) c
unfolding Runs run_code step read_reg write_reg number_of stack_pointer save_code enter_code
    restore_code dispatch_call
run_enter fns enter user relocated c = (
  _,
  _,
  refl,
  record {
    regs =
        for_each _ refl refl refl refl refl refl refl refl refl refl refl refl refl refl refl refl;
    flags = refl;
    stack = refl;
    base = refl;
  },
  ap (λ d. d ∷ []) (call_at enter user (omega arith) (omega arith)),
)

run_both :
    (fns : Functions) (enter leave user relocated : ℕ) (c : Cpu)
    → 8 * (17 + length c.stack) ≤ c.base
    → Runs fns enter user relocated
        (mov_reg rdi rsp ∷ add_imm rdi 8 ∷ mov_imm rsi user ∷ mov_imm rax leave ∷ call_reg rax ∷ [])
        (dispatch_call enter user c ∷ dispatch_call leave user c ∷ [])
        c
unfolding Runs run_code step read_reg write_reg number_of stack_pointer save_code enter_code
    restore_code dispatch_call
run_both fns enter leave user relocated c room = (
  _,
  _,
  refl,
  record {
    regs =
        for_each _ refl refl refl refl refl refl refl refl refl refl refl refl refl refl refl refl;
    flags = refl;
    stack = refl;
    base = refl;
  },
  two_calls (call_at enter user (omega arith) (omega arith))
      (call_at leave user (omega arith) (omega arith)),
)

-- With room for seventeen words on the stack, the code of a trampoline runs to its jump: it calls
-- the enter function and, where one is given, the leave function, each with the address of the
-- saved registers, the user data and the stack pointer one word below, and then every
-- general-purpose register, the flags and the stack are as they were, and it jumps to the relocated
-- code. The called functions may change every general-purpose register and the flags, but not the
-- words on the stack. Of the vector registers nothing is said.
pub run_code-trampoline_code :
    (fns : Functions) (enter leave user relocated : ℕ) (c : Cpu)
    → 8 * (17 + length c.stack) ≤ c.base
    → (last : Cpu) × Same c last
      × (run_code fns (trampoline_code enter leave user relocated) c
          ≡ some (dispatch_calls enter leave user c, last, relocated))
unfolding Runs trampoline_code leave_code dispatch_calls
run_code-trampoline_code fns enter leave user relocated c room = elim (Bool-cases (leave == 0)) [
  | inl none_given ↦
      let (all, last, runs, same, calls) = run_enter fns enter user relocated c in
      rw none_given (last, same, runs ∙ ap (λ l. some (l, last, relocated)) calls)
  | inr given ↦
      let (all, last, runs, same, calls) = run_both fns enter leave user relocated c room in
      rw given (last, same, runs ∙ ap (λ l. some (l, last, relocated)) calls)
]
