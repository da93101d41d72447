-- ===== src/Console.antt =====
-- src/core/bindings/console.cc: what is printed, the depth of the groups, the timers and the counters
-- of a thread. A text is the list of its bytes; the clock and the printing of a duration are
-- arguments.
pub mod Marks
pub mod Groups
pub mod Labels
use better_ncm.Base.{
  ℕ, zero, suc, ◌+◌, ◌-◌, ◌*◌, ◌%◌, ◌^◌, Bool, true, false, Option, none, some, List, [], ◌∷◌, ◌++◌,
  ltb, ◌==◌, if◌then◌else◌,
}
use better_ncm.Exceptions.{same_text}

-- A map by labels (`std::unordered_map<std::string, …>`)
unfoldable pub find_label {ℓ} : {V : Type ℓ} → List ℕ → List (List ℕ × V) → Option V
find_label label [] = none
find_label label ((l, v) ∷ m) =
    let rest = find_label label m in if same_text l label then some v else rest

unfoldable pub erase_label {ℓ} : {V : Type ℓ} → List ℕ → List (List ℕ × V) → List (List ℕ × V)
erase_label label [] = []
erase_label label ((l, v) ∷ m) =
    let rest = erase_label label m in if same_text l label then rest else (l, v) ∷ rest

abbrev pub set_label {ℓ} : {V : Type ℓ} → List ℕ → V → List (List ℕ × V) → List (List ℕ × V)
set_label label v m = (label, v) ∷ erase_label label m

-- The thread-local variables, with the lines printed: to `stderr` or not, and the text before the
-- style is applied. The last line is first.
pub record State : Type 0 where
  pub current_group_depth : ℕ
  pub timers : List (List ℕ × ℕ)
  pub counters : List (List ℕ × ℕ)
  pub printed : List (Bool × List ℕ)

unfoldable pub spaces : ℕ → List ℕ
spaces zero = []
spaces (suc n) = b' ' ∷ spaces n

unfoldable pub get_indent : State → List ℕ
get_indent s = spaces (s.current_group_depth * 2)

-- `print_styled`; the styles are escape sequences around the line and are left out.
unfoldable pub print_styled : Bool → List ℕ → List ℕ → State → State
print_styled is_stderr prefix message s = record s {
  printed = (is_stderr, get_indent s ++ prefix ++ message ++ 10 ∷ []) ∷ s.printed;
}

unfoldable pub log : List ℕ → State → State
log message s = print_styled false [] message s

-- The prefixes are UTF-8.
unfoldable pub error : List ℕ → State → State
error message s = print_styled true (0xE2 ∷ 0x9C ∷ 0x96 ∷ b' ' ∷ []) message s

unfoldable pub warn : List ℕ → State → State
warn message s = print_styled true (0xE2 ∷ 0x9A ∷ 0xA0 ∷ b' ' ∷ []) message s

unfoldable pub info : List ℕ → State → State
info message s = print_styled false (0xE2 ∷ 0x84 ∷ 0xB9 ∷ b' ' ∷ []) message s

unfoldable pub debug : List ℕ → State → State
debug message s = print_styled false (0xE2 ∷ 0x96 ∷ 0xB6 ∷ b' ' ∷ []) message s

unfoldable pub trace : List ℕ → State → State
trace message s = print_styled false (b'T' ∷ b'r' ∷ b'a' ∷ b'c' ∷ b'e' ∷ b':' ∷ b' ' ∷ []) message s

unfoldable pub group : List ℕ → State → State
group message s =
    let shown = print_styled false (0xE2 ∷ 0x96 ∷ 0xBC ∷ b' ' ∷ []) message s in
    record shown { current_group_depth = suc shown.current_group_depth }

unfoldable pub group_end : State → State
group_end s =
    let less = record s { current_group_depth = s.current_group_depth - 1 } in
    if ltb 0 s.current_group_depth then less else s

-- `message.empty() ? "default" : message`
unfoldable pub label_of : List ℕ → List ℕ
label_of [] = b'd' ∷ b'e' ∷ b'f' ∷ b'a' ∷ b'u' ∷ b'l' ∷ b't' ∷ []
label_of (c ∷ cs) = c ∷ cs

-- The warnings: `Timer '…' already exists`, `Timer '…' does not exist` and
-- `Count for '…' does not exist`
abbrev pub quoted : List ℕ → List ℕ → List ℕ → List ℕ
quoted before label after = before ++ b' ' ∷ 39 ∷ label ++ 39 ∷ b' ' ∷ after

abbrev pub timer_word : List ℕ
timer_word = b'T' ∷ b'i' ∷ b'm' ∷ b'e' ∷ b'r' ∷ []

abbrev pub count_for : List ℕ
count_for = b'C' ∷ b'o' ∷ b'u' ∷ b'n' ∷ b't' ∷ b' ' ∷ b'f' ∷ b'o' ∷ b'r' ∷ []

abbrev pub already_exists : List ℕ
already_exists =
    b'a' ∷ b'l' ∷ b'r' ∷ b'e' ∷ b'a' ∷ b'd' ∷ b'y' ∷ b' ' ∷ b'e' ∷ b'x' ∷ b'i' ∷ b's' ∷ b't' ∷ b's'
    ∷ []

abbrev pub does_not_exist : List ℕ
does_not_exist =
    b'd' ∷ b'o' ∷ b'e' ∷ b's' ∷ b' ' ∷ b'n' ∷ b'o' ∷ b't' ∷ b' ' ∷ b'e' ∷ b'x' ∷ b'i' ∷ b's' ∷ b't'
    ∷ []

-- `time`; `now` is the time that the clock gives.
unfoldable pub time : ℕ → List ℕ → State → State
time now message s =
    let label = label_of message in
    elim (find_label label s.timers) [
      | some _ ↦ warn (quoted timer_word label already_exists) s
      | none ↦ record s { timers = set_label label now s.timers }
    ]

-- The line of `timeEnd` and `timeLog`; `show_ms` prints the time between two readings of the clock.
unfoldable pub print_duration : (ℕ → ℕ → List ℕ) → ℕ → List ℕ → ℕ → State → State
print_duration show_ms now label start s =
    print_styled false [] (label ++ b':' ∷ b' ' ∷ show_ms start now ++ b' ' ∷ b'm' ∷ b's' ∷ []) s

unfoldable pub time_end : (ℕ → ℕ → List ℕ) → ℕ → List ℕ → State → State
time_end show_ms now message s =
    let label = label_of message in
    elim (find_label label s.timers) [
      | none ↦ warn (quoted timer_word label does_not_exist) s
      | some start ↦
          let shown = print_duration show_ms now label start s in
          record shown { timers = erase_label label shown.timers }
    ]

unfoldable pub time_log : (ℕ → ℕ → List ℕ) → ℕ → List ℕ → State → State
time_log show_ms now message s =
    let label = label_of message in
    elim (find_label label s.timers) [
      | none ↦ warn (quoted timer_word label does_not_exist) s
      | some start ↦ print_duration show_ms now label start s
    ]

-- `++counters[label]`: a missing counter is 0.
unfoldable pub next_count : List ℕ → State → ℕ
next_count label s = elim (find_label label s.counters) [ none ↦ 1 | some n ↦ (n + 1) % 2 ^ 64 ]

-- `count`; `show` prints a number.
unfoldable pub count : (ℕ → List ℕ) → List ℕ → State → State
count show message s =
    let label = label_of message in
    let val = next_count label s in
    print_styled false [] (label ++ b':' ∷ b' ' ∷ show val)
      (record s { counters = set_label label val s.counters })

unfoldable pub count_reset : List ℕ → State → State
count_reset message s =
    let label = label_of message in
    elim (find_label label s.counters) [
      | none ↦ warn (quoted count_for label does_not_exist) s
      | some _ ↦ record s { counters = erase_label label s.counters }
    ]
