-- ===== src/Callbacks.antt =====
-- Callbacks of the host (`std::function`) and the dispatch functions that the trampolines call. What
-- a callback does is a parameter: whether it returns or throws.
use better_ncm.Base.{ℕ, Option, none, some, List, [], ◌∷◌}
use better_ncm.Hex.{to_hex_addr}

-- An empty `std::function`, or the number of a function.
abbrev pub Callback : Type 0
Callback = Option ℕ

pub data CallResult : Type 0 where
  returned threw_unknown : CallResult
  threw_exception : List ℕ → CallResult

-- A call with its argument, or a line on stderr.
pub data Event : Type 0 where
  called : ℕ → List ℕ → Event
  logged_exception : List ℕ → Event
  logged_unknown : Event

unfoldable pub after_call : CallResult → List Event
after_call returned = []
after_call (threw_exception what) = logged_exception what ∷ []
after_call threw_unknown = logged_unknown ∷ []

-- The body of the dispatch functions: call with the address of the saved registers, and log what is
-- thrown.
pub dispatch : (ℕ → List ℕ → CallResult) → Callback → ℕ → List Event
unfolding after_call
dispatch call none cpu_context = []
dispatch call (some f) cpu_context =
    called f (to_hex_addr cpu_context) ∷ after_call (call f (to_hex_addr cpu_context))
