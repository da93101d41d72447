-- ===== src/CModule.antt =====
-- src/core/bindings/native_cmodule.cc: C code that is compiled into memory. TCC is a parameter; a text
-- is the list of its bytes.
pub mod Symbols
pub mod Lifetime
use Prim.Native.String.{String}
use better_ncm.Base.{
  ℕ, Bool, true, false, not, ◌&&◌, ◌||◌, Option, none, some, List, [], ◌∷◌, ◌++◌, map, ◌==◌,
  if◌then◌else◌, length, Outcome, ok, thrown, codes, starts_with,
}
use better_ncm.Exceptions.{same_text}

-- libtcc: `tcc_new`, `tcc_add_symbol`, `tcc_compile_string` and `tcc_relocate`, which say whether they
-- succeed and give the messages for the error function, `tcc_get_symbol`, where null is 0, and the
-- names that `tcc_list_symbols` lists.
pub record Tcc (S : Type 0) : Type 0 where
  pub new : Option S
  pub add_symbol : List ℕ → ℕ → S → S
  pub compile_string : List ℕ → S → Bool × List (List ℕ) × S
  pub relocate : S → Bool × List (List ℕ) × S
  pub get_symbol : List ℕ → S → ℕ
  pub list_symbols : S → List (List ℕ)

-- What is done besides: a call of a function of the module, and `tcc_delete`.
pub data Effect : Type 0 where
  ran : ℕ → Effect
  deleted : Effect

-- `Impl`
pub record Impl (S : Type 0) : Type 0 where
  pub tcc : Option S
  pub disposed : Bool
  pub injected_symbols : List (List ℕ)

pub data ModuleError : Type 0 where
  different_lengths new_failed : ModuleError
  compilation_failed relocation_failed : List ℕ → ModuleError

-- The names of `injectRuntimeSymbols` on Linux, in the order of the code
unfoldable pub runtime_symbols : List String
runtime_symbols =
    "memcpy" ∷ "memmove" ∷ "memset" ∷ "memcmp" ∷ "memchr" ∷ "strlen" ∷ "strcpy" ∷ "strncpy"
    ∷ "strcmp" ∷ "strncmp" ∷ "strcat" ∷ "strncat" ∷ "strchr" ∷ "strrchr" ∷ "strstr" ∷ "printf"
    ∷ "fprintf" ∷ "snprintf" ∷ "sprintf" ∷ "puts" ∷ "putchar" ∷ "fopen" ∷ "fclose" ∷ "fread"
    ∷ "fwrite" ∷ "fflush" ∷ "fgets" ∷ "fputs" ∷ "stdin" ∷ "stdout" ∷ "stderr" ∷ "malloc" ∷ "calloc"
    ∷ "realloc" ∷ "free" ∷ "atoi" ∷ "atol" ∷ "atof" ∷ "strtol" ∷ "strtoul" ∷ "strtod" ∷ "abort"
    ∷ "exit" ∷ "abs" ∷ "labs" ∷ "qsort" ∷ "sin" ∷ "cos" ∷ "tan" ∷ "sqrt" ∷ "fabs" ∷ "floor" ∷ "ceil"
    ∷ "pow" ∷ "log" ∷ "log10" ∷ "exp" ∷ []

-- `injected` after the names: each with and without an underscore
unfoldable pub injected_names : List (List ℕ) → List (List ℕ)
injected_names [] = []
injected_names (name ∷ names) = name ∷ (b'_' ∷ name) ∷ injected_names names

-- A set of texts
unfoldable pub has_name : List ℕ → List (List ℕ) → Bool
has_name name [] = false
has_name name (n ∷ names) = same_text n name || has_name name names

-- The error function, for each message in turn
unfoldable pub append_errors : List ℕ → List (List ℕ) → List ℕ
append_errors errors [] = errors
append_errors errors (msg ∷ msgs) =
    append_errors (if length errors == 0 then msg else errors ++ 10 ∷ msg) msgs

-- The message of an exception
unfoldable pub failure : String → List ℕ → List ℕ
failure what errors = if length errors == 0 then codes what else codes what ++ b':' ∷ 10 ∷ errors

-- The names that begin with one of these are the linker's.
unfoldable pub internal_prefixes : List String
internal_prefixes =
    "_etext" ∷ "_edata" ∷ "_end" ∷ "__preinit_array" ∷ "__init_array" ∷ "__fini_array" ∷ "__start_"
    ∷ "__stop_" ∷ []

-- A leading underscore is dropped.
unfoldable pub strip : List ℕ → List ℕ
strip [] = []
strip (c ∷ cs) = if c == b'_' then cs else c ∷ cs

unfoldable pub is_internal : List String → List ℕ → Bool
is_internal [] name = false
is_internal (p ∷ ps) name =
    (starts_with (codes p) (strip name) || starts_with (codes p) name) || is_internal ps name

-- The callback of `tcc_list_symbols`, for each name in turn
unfoldable pub listed : List (List ℕ) → List (List ℕ) → List (List ℕ)
listed injected [] = []
listed injected (name ∷ names) =
    let rest = listed injected names in
    if has_name name injected
    then rest
    else if is_internal internal_prefixes name
    then rest
    else strip name ∷ rest

module _ {S : Type 0} (tcc : Tcc S) where
  -- `tcc_add_symbol` for each name; `address_of` gives the addresses of the host's functions.
  unfoldable pub inject_runtime_symbols : (String → ℕ) → List String → S → S
  inject_runtime_symbols address_of [] s = s
  inject_runtime_symbols address_of (name ∷ names) s =
      inject_runtime_symbols address_of names (tcc.add_symbol (codes name) (address_of name) s)

  -- The names and addresses that the script gives
  unfoldable pub inject_symbols : List (List ℕ) → List ℕ → S → S
  inject_symbols [] addresses s = s
  inject_symbols (name ∷ names) [] s = s
  inject_symbols (name ∷ names) (a ∷ addresses) s =
      inject_symbols names addresses (tcc.add_symbol name a s)

  -- A function that is there is called.
  unfoldable pub call_if_there : List ℕ → S → List Effect
  call_if_there name s = let f = tcc.get_symbol name s in if f == 0 then [] else ran f ∷ []

  -- The constructor, from `tcc_relocate` on; the state is deleted where it throws.
  unfoldable pub construct_relocated :
      List (List ℕ) → List ℕ → Bool × List (List ℕ) × S → Outcome ModuleError (Impl S) × List Effect
  construct_relocated injected errors (false, msgs, s) = (
    thrown (relocation_failed (failure "CModule: relocation failed" (append_errors errors msgs))),
    deleted ∷ [],
  )
  construct_relocated injected errors (true, msgs, s) = (
    ok (record { tcc = some s; disposed = false; injected_symbols = injected }),
    call_if_there (codes "init") s,
  )

  -- from `tcc_compile_string` on
  unfoldable pub construct_compiled :
      List (List ℕ) → Bool × List (List ℕ) × S → Outcome ModuleError (Impl S) × List Effect
  construct_compiled injected (false, msgs, s) = (
    thrown (compilation_failed (failure "CModule: compilation failed" (append_errors [] msgs))),
    deleted ∷ [],
  )
  construct_compiled injected (true, msgs, s) =
      construct_relocated injected (append_errors [] msgs) (tcc.relocate s)

  -- from `tcc_new` on
  unfoldable pub construct_new :
      (String → ℕ)
      → List ℕ
      → List (List ℕ)
      → List ℕ
      → Option S
      → Outcome ModuleError (Impl S) × List Effect
  construct_new address_of code symbol_names symbol_addresses none = (thrown new_failed, [])
  construct_new address_of code symbol_names symbol_addresses (some s) =
      construct_compiled (injected_names (map codes runtime_symbols)) (
        tcc.compile_string code (
          inject_symbols symbol_names symbol_addresses
            (inject_runtime_symbols address_of runtime_symbols s)))

  -- `NativeCModule(code, symbolNames, symbolAddresses)`
  unfoldable pub construct :
      (String → ℕ) → List ℕ → List (List ℕ) → List ℕ → Outcome ModuleError (Impl S) × List Effect
  construct address_of code symbol_names symbol_addresses =
      if length symbol_names == length symbol_addresses
      then construct_new address_of code symbol_names symbol_addresses tcc.new
      else (thrown different_lengths, [])

  -- `!$impl->tcc || $impl->disposed`
  unfoldable pub live : Impl S → Option S
  live impl = if impl.disposed then none else impl.tcc

  -- `getSymbol`; null is 0, and no `impl` is what the default constructor leaves.
  unfoldable pub get_symbol : List ℕ → Option (Impl S) → ℕ
  get_symbol name none = 0
  get_symbol name (some impl) = elim (live impl) [ none ↦ 0 | some s ↦ tcc.get_symbol name s ]

  unfoldable pub list_symbols : Option (Impl S) → List (List ℕ)
  list_symbols none = []
  list_symbols (some impl) = elim (live impl) [
    | none ↦ []
    | some s ↦ listed impl.injected_symbols (tcc.list_symbols s)
  ]

  -- `callFinalize` and `tcc_delete`
  unfoldable pub finish : S → List Effect
  finish s = call_if_there (codes "finalize") s ++ deleted ∷ []

  unfoldable pub dispose : Option (Impl S) → List Effect × Option (Impl S)
  dispose none = ([], none)
  dispose (some impl) = elim (live impl) [
    | none ↦ ([], some impl)
    | some s ↦ (finish s, some (record impl { tcc = none; disposed = true }))
  ]

  -- `~Impl`
  unfoldable pub destroy : Option (Impl S) → List Effect
  destroy none = []
  destroy (some impl) = elim (live impl) [ none ↦ [] | some s ↦ finish s ]
