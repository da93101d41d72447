-- ===== src/Console/Marks.antt =====
-- The operations of src/core/bindings/console.cc that only print.
use better_ncm.Base.{ℕ, false, List, [], ◌∷◌, ◌++◌}
use better_ncm.Console.{State, print_styled, log}

pub table : List ℕ → State → State
table message s = log message s

pub dir : List ℕ → State → State
dir message s = log message s

pub dirxml : List ℕ → State → State
dirxml message s = log message s

abbrev profile_prefix : List ℕ
profile_prefix = b'P' ∷ b'r' ∷ b'o' ∷ b'f' ∷ b'i' ∷ b'l' ∷ b'e' ∷ b':' ∷ b' ' ∷ []

abbrev timeline_prefix : List ℕ
timeline_prefix = b'T' ∷ b'i' ∷ b'm' ∷ b'e' ∷ b'l' ∷ b'i' ∷ b'n' ∷ b'e' ∷ b':' ∷ b' ' ∷ []

abbrev started : List ℕ
started = b' ' ∷ b's' ∷ b't' ∷ b'a' ∷ b'r' ∷ b't' ∷ b'e' ∷ b'd' ∷ []

abbrev ended : List ℕ
ended = b' ' ∷ b'e' ∷ b'n' ∷ b'd' ∷ b'e' ∷ b'd' ∷ []

pub profile : List ℕ → State → State
profile message s = print_styled false profile_prefix (message ++ started) s

pub profile_end : List ℕ → State → State
profile_end message s = print_styled false profile_prefix (message ++ ended) s

pub time_stamp : List ℕ → State → State
time_stamp message s =
    print_styled false
      (b'T' ∷ b'i' ∷ b'm' ∷ b'e' ∷ b'S' ∷ b't' ∷ b'a' ∷ b'm' ∷ b'p' ∷ b':' ∷ b' ' ∷ []) message s

-- `timeline`, which is also `timeLine`
pub timeline : List ℕ → State → State
timeline message s = print_styled false timeline_prefix (message ++ started) s

-- `timelineEnd`, which is also `timeLineEnd`
pub timeline_end : List ℕ → State → State
timeline_end message s = print_styled false timeline_prefix (message ++ ended) s
