-- ===== src/Tests/Foreign.antt =====
-- C modules and native calls on concrete inputs.
use better_ncm.Base.{
  ℕ, ◌≡◌, ◌^◌, inl, inr, refl, true, false, some, List, [], ◌∷◌, arith, Any, ok, if◌then◌else◌,
  lookup, starts_with, Bool-cases,
}
use better_ncm.Exceptions.{same_text}
use better_ncm.Exceptions.Dispatch.{same_text_refl}
use better_ncm.CModule.{
  deleted, Tcc, live, Impl, construct, has_name, list_symbols, get_symbol, is_internal,
  internal_prefixes, strip,
}
use better_ncm.CModule.Lifetime.{deletion, Constructs, construct-Constructs}
use better_ncm.CModule.Symbols.{Finds, list_symbols-get_symbol}
use better_ncm.Ffi.{Floats, uint64, prepare_arg, serialize_arg}
use better_ncm.Ffi.Values.{Passes, prepare_arg-serialize_arg}
use better_ncm.Ffi.Closures.{
  State, Libffi, Allocates, IsTied, create_callback, destroy_callback, no_step, one_more,
  step_create, step_destroy, Steps-IsTied,
}
use better_ncm.Tests.Hosts.{above, lookup-above}

-- A compiler whose states are the names of the symbols; every text compiles to the symbol `_f`.
abbrev toy : Tcc (List (List ℕ))
toy = record {
  new = some [];
  add_symbol = λ name address s. s;
  compile_string = λ code s. (true, [], (b'_' ∷ b'f' ∷ []) ∷ []);
  relocate = λ s. (true, [], s);
  get_symbol = λ name s. if has_name name s then 1 else 0;
  list_symbols = λ s. s;
}

construct-Constructs_example : Constructs toy (deleted ∷ []) (construct toy (λ name. 1) [] [] [])
unfolding deletion
construct-Constructs_example = construct-Constructs toy (λ name. 1) [] [] []

-- `has_name` is membership.
same_text-eq : (s t : List ℕ) → same_text s t ≡ true → s ≡ t
unfolding same_text
same_text-eq [] [] h = refl
same_text-eq [] (d ∷ t) h = cc
same_text-eq (c ∷ s) [] h = cc
same_text-eq (c ∷ s) (d ∷ t) h = ground (arith, same_text-eq s t)

toy-Finds : Finds toy ((b'_' ∷ b'f' ∷ []) ∷ [])
unfolding has_name
toy-Finds n = elim (Bool-cases (same_text (b'_' ∷ b'f' ∷ []) n)) [
  | inl hit ↦
      rw hit ((λ a e. absurd (omega (arith, e))), λ a. inl (same_text-eq (b'_' ∷ b'f' ∷ []) n hit))
  | inr miss ↦
      rw miss (
        (λ a e. elim a [ inl q ↦ cc (miss, q, same_text_refl n) | inr q ↦ q ]),
        λ a. absurd (a refl),
      )
]

abbrev toy_module : Impl (List (List ℕ))
toy_module = record {
  tcc = some ((b'_' ∷ b'f' ∷ []) ∷ []);
  disposed = false;
  injected_symbols = [];
}

list_symbols-get_symbol_example :
    Any (λ m. m ≡ b'f' ∷ []) (list_symbols toy (some toy_module))
    × (get_symbol toy (b'f' ∷ []) (some toy_module) ≡ 0)
unfolding live list_symbols get_symbol has_name is_internal internal_prefixes strip starts_with
list_symbols-get_symbol_example =
    list_symbols-get_symbol toy toy_module ((b'_' ∷ b'f' ∷ []) ∷ []) (b'f' ∷ []) refl toy-Finds
      (refl, refl) (inl refl) (λ a. elim a [ inl q ↦ absurd (ground arith) | inr q ↦ q ])

-- No text is a floating-point number.
abbrev no_floats : Floats
no_floats = record {
  stof = λ text. ok 0;
  stod = λ text. ok 0;
  print_float = λ v. [];
  print_double = λ v. [];
}

prepare_arg-serialize_arg_example :
    Passes uint64 (2 ^ 63) (prepare_arg no_floats uint64 (serialize_arg no_floats uint64 (2 ^ 63)))
prepare_arg-serialize_arg_example =
    prepare_arg-serialize_arg no_floats uint64 (2 ^ 63) (omega arith)

-- Each closure is put above all others.
abbrev test_ffi : Libffi
test_ffi = record {
  prep_cif = λ ret types. true;
  closure_alloc = λ closures. some (above closures);
  prep_closure_loc = λ info. true;
}

test_ffi-Allocates : Allocates test_ffi
test_ffi-Allocates closures a h = lookup-above closures a (ground arith)

abbrev no_callbacks : State
no_callbacks = record { callbacks = []; closures = [] }

no_callbacks-IsTied : IsTied no_callbacks
unfolding lookup
no_callbacks-IsTied = record {
  no_leak = λ a h. refl;
  no_dangling = λ a h. refl;
  own = λ a info h. cc;
}

Steps-IsTied_example :
    IsTied (destroy_callback 5 (create_callback test_ffi 3 "int" ("int" ∷ []) no_callbacks).1)
Steps-IsTied_example =
    Steps-IsTied test_ffi test_ffi-Allocates no_callbacks _
      (one_more _ _ _
        (one_more _ _ _ (no_step no_callbacks) (step_create no_callbacks 3 "int" ("int" ∷ [])))
        (step_destroy _ 5))
      no_callbacks-IsTied
