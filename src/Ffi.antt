-- ===== src/Ffi.antt =====
-- src/core/bindings/native_ffi.cc: calls of native functions and callbacks for native code. libffi and
-- the conversions of floating-point numbers are parameters; a value is the 64 bits of its place.
pub mod Values
pub mod Closures
use Prim.Native.String.{String}
use text.Mathlib.Text.{◌==◌ as str_eq}
use better_ncm.Base.{
  ℕ, ◌%◌, ◌^◌, Bool, true, false, ◌||◌, Option, none, some, List, [], ◌∷◌, map, if◌then◌else◌,
  Outcome, ok, thrown, lookup, insert, erase, codes, starts_with,
}
use better_ncm.Base.Int.{ℤ, wrap, to_signed}
use better_ncm.Hex.{NumberError, to_hex_addr, parse_hex_addr}
use better_ncm.Decimal.{to_string, to_string_signed, stoi, stoll, stoull}

-- The types of libffi that the code uses
pub data FfiType : Type 0 where
  ffi_void sint8 uint8 sint16 uint16 sint32 uint32 sint64 uint64 float double pointer : FfiType

-- `getFFIType`; a name that it does not know is that of no value.
unfoldable pub get_ffi_type : String → FfiType
get_ffi_type name =
    if str_eq name "void"
    then ffi_void
    else if str_eq name "int" || str_eq name "int32" || str_eq name "sint32"
    then sint32
    else if str_eq name "uint" || str_eq name "uint32"
    then uint32
    else if str_eq name "long" || str_eq name "int64" || str_eq name "sint64"
    then sint64
    else if str_eq name "ulong" || str_eq name "uint64"
    then uint64
    else if str_eq name "int8" || str_eq name "sint8" || str_eq name "char"
    then sint8
    else if str_eq name "uint8" || str_eq name "uchar"
    then uint8
    else if str_eq name "int16" || str_eq name "sint16" || str_eq name "short"
    then sint16
    else if str_eq name "uint16" || str_eq name "ushort"
    then uint16
    else if str_eq name "float"
    then float
    else if str_eq name "double"
    then double
    else if str_eq name "pointer" || str_eq name "bool"
    then pointer
    else ffi_void

-- `std::stof`, `std::stod` and `std::to_string` on the bits of a `float` and of a `double`
pub record Floats : Type 0 where
  pub stof : List ℕ → Outcome NumberError ℕ
  pub stod : List ℕ → Outcome NumberError ℕ
  pub print_float : ℕ → List ℕ
  pub print_double : ℕ → List ℕ

pub data FfiError : Type 0 where
  prep_cif_failed missing_argument closure_alloc_failed prep_closure_failed : FfiError
  bad_number : NumberError → FfiError

-- A text that begins with `0x` or `0X` is read in base 16, and else in base 10.
unfoldable pub parse_int : List ℕ → Outcome NumberError ℕ
parse_int text =
    let decimal : Outcome NumberError ℕ = elim (stoll text) [
      | thrown e ↦ thrown e
      | ok v ↦ ok (wrap (2 ^ 64) v)
    ] in
    if starts_with (codes "0x") text || starts_with (codes "0X") text
    then parse_hex_addr text
    else decimal

module _ (floats : Floats) where
  -- What `callFunction` stores of an argument
  unfoldable pub prepare_arg : FfiType → List ℕ → Outcome NumberError ℕ
  prepare_arg pointer text = parse_hex_addr text
  prepare_arg float text = floats.stof text
  prepare_arg double text = floats.stod text
  prepare_arg ffi_void text = parse_int text
  prepare_arg sint8 text = parse_int text
  prepare_arg uint8 text = parse_int text
  prepare_arg sint16 text = parse_int text
  prepare_arg uint16 text = parse_int text
  prepare_arg sint32 text = parse_int text
  prepare_arg uint32 text = parse_int text
  prepare_arg sint64 text = parse_int text
  prepare_arg uint64 text = parse_int text

  -- The loop over the arguments. Fewer texts than types are read past their end, which C++ leaves
  -- undefined: `missing_argument`.
  unfoldable pub prepare_args : List FfiType → List (List ℕ) → Outcome FfiError (List ℕ)
  prepare_args [] texts = ok []
  prepare_args (t ∷ types) [] = thrown missing_argument
  prepare_args (t ∷ types) (text ∷ texts) =
      let rest : Outcome FfiError (List ℕ) = prepare_args types texts in
      let cons = λ (v : ℕ).
        let out : Outcome FfiError (List ℕ) = elim rest [
          | thrown e ↦ thrown e
          | ok vs ↦ ok (v ∷ vs)
        ] in
        out in
      elim (prepare_arg t text) [ thrown e ↦ thrown (bad_number e) | ok v ↦ cons v ]

  -- What `callFunction` returns of the value at `retVal`
  unfoldable pub format_return : String → ℕ → List ℕ
  format_return ret_type u64 =
      if str_eq ret_type "void"
      then codes "0"
      else if str_eq ret_type "pointer"
      then to_hex_addr u64
      else if str_eq ret_type "float"
      then floats.print_float (u64 % 2 ^ 32)
      else if str_eq ret_type "double"
      then floats.print_double u64
      else if str_eq ret_type "int64" || str_eq ret_type "sint64" || str_eq ret_type "long"
      then to_string_signed (to_signed (2 ^ 64) u64)
      else if str_eq ret_type "uint64" || str_eq ret_type "ulong"
      then to_string u64
      else to_string_signed (to_signed (2 ^ 32) (u64 % 2 ^ 32))

  -- `callFunction`. `prep_cif` says whether `ffi_prep_cif` succeeds; `ffi_call` is the function's
  -- result at its arguments.
  unfoldable pub call_function :
      (FfiType → List FfiType → Bool)
      → (ℕ → FfiType → List FfiType → List ℕ → ℕ)
      → ℕ
      → String
      → List String
      → List (List ℕ)
      → Outcome FfiError (List ℕ)
  call_function prep_cif ffi_call address ret_type arg_types args =
      let types = map get_ffi_type arg_types in
      let ret = get_ffi_type ret_type in
      let result : Outcome FfiError (List ℕ) = elim (prepare_args types args) [
        | thrown e ↦ thrown e
        | ok values ↦ ok (format_return ret_type (ffi_call address ret types values))
      ] in
      if prep_cif ret types then result else thrown prep_cif_failed

  -- What `callbackHandler` makes of an argument: the types of fewer than 64 bits are read as `int`.
  unfoldable pub serialize_arg : FfiType → ℕ → List ℕ
  serialize_arg pointer v = to_hex_addr v
  serialize_arg float v = floats.print_float (v % 2 ^ 32)
  serialize_arg double v = floats.print_double v
  serialize_arg sint64 v = to_string_signed (to_signed (2 ^ 64) v)
  serialize_arg uint64 v = to_string v
  serialize_arg ffi_void v = to_string_signed (to_signed (2 ^ 32) (v % 2 ^ 32))
  serialize_arg sint8 v = to_string_signed (to_signed (2 ^ 32) (v % 2 ^ 32))
  serialize_arg uint8 v = to_string_signed (to_signed (2 ^ 32) (v % 2 ^ 32))
  serialize_arg sint16 v = to_string_signed (to_signed (2 ^ 32) (v % 2 ^ 32))
  serialize_arg uint16 v = to_string_signed (to_signed (2 ^ 32) (v % 2 ^ 32))
  serialize_arg sint32 v = to_string_signed (to_signed (2 ^ 32) (v % 2 ^ 32))
  serialize_arg uint32 v = to_string_signed (to_signed (2 ^ 32) (v % 2 ^ 32))

  unfoldable pub written : ℕ → Outcome NumberError ℤ → Outcome NumberError (Option ℕ)
  written m (thrown e) = thrown e
  written m (ok v) = ok (some (wrap m v))

  unfoldable pub stored : Outcome NumberError ℕ → Outcome NumberError (Option ℕ)
  stored (thrown e) = thrown e
  stored (ok v) = ok (some v)

  -- What `callbackHandler` writes of the handler's result, if anything
  unfoldable pub parse_result : FfiType → List ℕ → Outcome NumberError (Option ℕ)
  parse_result ffi_void text = ok none
  parse_result pointer text = stored (parse_hex_addr text)
  parse_result float text = stored (floats.stof text)
  parse_result double text = stored (floats.stod text)
  parse_result sint64 text = written (2 ^ 64) (stoll text)
  parse_result uint64 text = stored (stoull text)
  parse_result sint8 text = written (2 ^ 32) (stoi text)
  parse_result uint8 text = written (2 ^ 32) (stoi text)
  parse_result sint16 text = written (2 ^ 32) (stoi text)
  parse_result uint16 text = written (2 ^ 32) (stoi text)
  parse_result sint32 text = written (2 ^ 32) (stoi text)
  parse_result uint32 text = written (2 ^ 32) (stoi text)
