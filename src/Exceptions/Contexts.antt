-- ===== src/Exceptions/Contexts.antt =====
-- The kinds of exceptions, their names, and the context that a signal handler makes and changes, of
-- src/core/bindings/native_exception_handler.cc.
use better_ncm.Base.{
  ℕ, ◌+◌, ◌-◌, ◌*◌, ◌/◌, ◌%◌, Bool, true, false, List, [], ◌∷◌, ◌==◌, if◌then◌else◌,
}
use better_ncm.Signals.{Signal, sigsegv, sigbus, sigtrap, sigill, other_signal}

pub data ExceptionType : Type 0 where
  access_violation bus_error breakpoint single_step illegal_instruction unknown_exception :
      ExceptionType

pub data AccessType : Type 0 where
  read_access write_access execute_access unknown_access : AccessType

-- `==` of two exception types.
pub is_type : ExceptionType → ExceptionType → Bool
is_type access_violation access_violation = true
is_type bus_error bus_error = true
is_type breakpoint breakpoint = true
is_type single_step single_step = true
is_type illegal_instruction illegal_instruction = true
is_type unknown_exception unknown_exception = true
is_type _ _ = false

-- `exceptionTypeToString`; a text is the list of its characters' codes.
unfoldable pub exception_type_to_string : ExceptionType → List ℕ
exception_type_to_string access_violation =
    97 ∷ 99 ∷ 99 ∷ 101 ∷ 115 ∷ 115 ∷ 95 ∷ 118 ∷ 105 ∷ 111 ∷ 108 ∷ 97 ∷ 116 ∷ 105 ∷ 111 ∷ 110 ∷ []
exception_type_to_string bus_error = 98 ∷ 117 ∷ 115 ∷ 95 ∷ 101 ∷ 114 ∷ 114 ∷ 111 ∷ 114 ∷ []
exception_type_to_string breakpoint = 98 ∷ 114 ∷ 101 ∷ 97 ∷ 107 ∷ 112 ∷ 111 ∷ 105 ∷ 110 ∷ 116 ∷ []
exception_type_to_string single_step =
    115 ∷ 105 ∷ 110 ∷ 103 ∷ 108 ∷ 101 ∷ 95 ∷ 115 ∷ 116 ∷ 101 ∷ 112 ∷ []
exception_type_to_string illegal_instruction =
    105 ∷ 108 ∷ 108 ∷ 101 ∷ 103 ∷ 97 ∷ 108 ∷ 95 ∷ 105 ∷ 110 ∷ 115 ∷ 116 ∷ 114 ∷ 117 ∷ 99 ∷ 116 ∷ 105
    ∷ 111 ∷ 110 ∷ []
exception_type_to_string unknown_exception = 117 ∷ 110 ∷ 107 ∷ 110 ∷ 111 ∷ 119 ∷ 110 ∷ []

unfoldable pub same_text : List ℕ → List ℕ → Bool
same_text [] [] = true
same_text [] (d ∷ ds) = false
same_text (c ∷ cs) [] = false
same_text (c ∷ cs) (d ∷ ds) = if c == d then same_text cs ds else false

-- `stringToExceptionType`: the comparisons in the order of the code.
unfoldable pub string_to_exception_type : List ℕ → ExceptionType
string_to_exception_type s =
    if same_text s (exception_type_to_string access_violation)
    then access_violation
    else if same_text s (exception_type_to_string bus_error)
    then bus_error
    else if same_text s (exception_type_to_string breakpoint)
    then breakpoint
    else if same_text s (exception_type_to_string single_step)
    then single_step
    else if same_text s (exception_type_to_string illegal_instruction)
    then illegal_instruction
    else unknown_exception

-- What a signal brings: `siginfo_t` and the registers of `ucontext_t` that the code uses.
pub record SignalInfo : Type 0 where
  pub si_addr : ℕ
  -- `si_code` is `SEGV_ACCERR` or `SEGV_MAPERR`,
  pub is_segv_code : Bool
  -- or `TRAP_TRACE`.
  pub is_trap_trace : Bool
  pub error_code : ℕ

-- `ExceptionContext`, with the registers of the platform context.
pub record Context : Type 0 where
  pub type : ExceptionType
  pub fault_address : ℕ
  pub access_type : AccessType
  pub pc : ℕ
  pub flags : ℕ

-- `buildContextFromSignal`; `err & 2` is the bit of a write.
pub build_context_from_signal : Signal → SignalInfo → ℕ → ℕ → Context
build_context_from_signal sigsegv info pc flags = record {
  type = access_violation;
  fault_address = info.si_addr;
  access_type =
      if info.is_segv_code
      then if info.error_code / 2 % 2 == 1 then write_access else read_access
      else unknown_access;
  pc = pc;
  flags = flags;
}
build_context_from_signal sigbus info pc flags = record {
  type = bus_error;
  fault_address = info.si_addr;
  access_type = unknown_access;
  pc = pc;
  flags = flags;
}
build_context_from_signal sigtrap info pc flags = record {
  type = if info.is_trap_trace then single_step else breakpoint;
  fault_address = info.si_addr;
  access_type = execute_access;
  pc = pc;
  flags = flags;
}
build_context_from_signal sigill info pc flags = record {
  type = illegal_instruction;
  fault_address = info.si_addr;
  access_type = execute_access;
  pc = pc;
  flags = flags;
}
build_context_from_signal other_signal info pc flags = record {
  type = unknown_exception;
  fault_address = info.si_addr;
  access_type = unknown_access;
  pc = pc;
  flags = flags;
}

pub set_pc : ℕ → Context → Context
set_pc new_pc ctx = record ctx { pc = new_pc }

-- `EFlags |= 0x100` and `EFlags &= ~0x100`
pub set_single_step : Bool → Context → Context
set_single_step enable ctx =
    let bit = ctx.flags / 256 % 2 in
    record ctx { flags = if enable then ctx.flags + 256 * (1 - bit) else ctx.flags - 256 * bit }
