-- ===== src/Tests/Hosts.antt =====
-- A host for the tests: every byte is an instruction, each block of code is put above all others, and
-- `mprotect` never fails.
use better_ncm.Base.{
  lookup, ℕ, suc, ◌<◌, ◌≤◌, ◌≡◌, refl, max, true, false, none, some, List, [], ◌∷◌, arith, ◌==◌,
  if◌then◌else◌, Below, lookup_fresh, IsFresh-of_Below,
}
use better_ncm.Memory.{Memory}
use better_ncm.Disassembler.Instruction.{Insn, imm, call, Disasm}
use better_ncm.Disassembler.Xrefs.{Decodes}
use better_ncm.Relocator.Code.{Host, Allocates}
use better_ncm.Relocator.Effects.{Protects}
use better_ncm.Signals.{default_action}
use better_ncm.Base.Int.{pos}
use better_ncm.Exceptions.{Registry}
use better_ncm.PerfEvents.{Kernel}
use better_ncm.HardwareBreakpoint.Effects.{Opens}

-- The number behind every key.
abbrev pub above {ℓ} : {V : Type ℓ} → List (ℕ × V) → ℕ
above [] = 1
above ((a, code) ∷ l) = max (suc a) (above l)

-- The byte 0xE8 calls address 32, and every other byte has no operand.
abbrev pub one_byte : Memory → ℕ → Insn
one_byte mem a = record {
  address = a;
  size = 1;
  bytes = mem a ∷ [];
  detail =
      if mem a == 0xE8 then some (record { groups = call ∷ []; operands = imm 32 ∷ [] }) else none;
}

abbrev pub one_byte_disasm : Disasm
one_byte_disasm mem a n c = if n == 0 then [] else one_byte mem a ∷ []

abbrev pub test_host : Host
test_host = record {
  disasm = one_byte_disasm;
  jit_add = λ blocks code. some (above blocks);
  mprotect = λ start size prot. true;
  page_size = 4096;
}

above_positive {ℓ} : {V : Type ℓ} (l : List (ℕ × V)) → 0 < above l
above_positive [] = omega arith
above_positive ((a, code) ∷ l) = omega (arith, above_positive l)

Below-weaken {ℓ} : {V : Type ℓ} (n m : ℕ) (l : List (ℕ × V)) → n ≤ m → Below n l → Below m l
Below-weaken n m [] h b = tt
Below-weaken n m ((a, code) ∷ l) h b = (omega arith, Below-weaken n m l h b.1)

above-Below {ℓ} : {V : Type ℓ} (l : List (ℕ × V)) → Below (above l) l
above-Below [] = tt
above-Below ((a, code) ∷ l) =
    (omega arith, Below-weaken (above l) (max (suc a) (above l)) l (omega arith) (above-Below l))

pub lookup-above {ℓ} : {V : Type ℓ} (l : List (ℕ × V)) (a : ℕ) → a ≡ above l → lookup a l ≡ none
lookup-above l a at = rw at (
    lookup_fresh (above l) l (IsFresh-of_Below (above l) (above l) l (omega arith) (above-Below l)))

pub test_host-Allocates : Allocates test_host
test_host-Allocates = record {
  not_null = λ blocks code a h. ground (arith, above_positive blocks);
  not_live = λ blocks code a h. lookup-above blocks a (ground arith);
}

pub test_host-Protects : Protects test_host
test_host-Protects start size prot = refl

pub one_byte-Decodes : Decodes one_byte_disasm
one_byte-Decodes = record {
  positive = λ mem a n c insn rest h. ground arith;
  fits = λ mem a n c insn rest h. ground arith;
  located = λ mem a n c insn rest h. ground arith;
}

-- All bytes are 0x90 (NOP).
abbrev pub nops : Memory
nops a = 0x90

-- The first file descriptor behind all that are open
abbrev pub test_kernel : Kernel
test_kernel events pe = some (above events)

pub test_kernel-Opens : Opens test_kernel
test_kernel-Opens events pe fd h = lookup-above events fd (ground arith)

abbrev pub registry : Registry
registry = record {
  handlers = [];
  next_id = 1;
  js_callbacks = [];
  next_js_id = 0x10000;
  enabled = false;
  ref_count = pos 0;
  current = record {
    segv = default_action;
    bus = default_action;
    trap = default_action;
    ill = default_action;
  };
  saved = record {
    segv = default_action;
    bus = default_action;
    trap = default_action;
    ill = default_action;
  };
}
