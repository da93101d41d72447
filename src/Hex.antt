-- ===== src/Hex.antt =====
-- Hexadecimal text. Every component has its own copy of `toHexAddr` (`toHexId` in
-- src/core/bindings/script_lifecycle.cc, `NativePointer::toString`) and of `parseHexAddr`; the
-- copies are alike. A text is the list of its bytes.
pub mod RoundTrip
use better_ncm.Base.{
  ℕ, zero, suc, ◌+◌, ◌-◌, ◌*◌, ◌/◌, ◌%◌, ◌^◌, Bool, true, false, ◌&&◌, ◌||◌, Option, none, some,
  List, [], ◌∷◌, ltb, leb, ◌==◌, if◌then◌else◌, Outcome, ok, thrown,
}

pub data NumberError : Type 0 where
  invalid_argument out_of_range : NumberError

-- The digit that `std::hex` prints for a number below 16.
unfoldable pub hex_char : ℕ → ℕ
hex_char d = if ltb d 10 then 48 + d else 87 + d

-- The digits of `n`, before the text `tail`; the first argument is the number of digits at hand.
unfoldable pub hex_loop : ℕ → ℕ → List ℕ → List ℕ
hex_loop zero n tail = tail
hex_loop (suc f) n tail =
    let more = hex_loop f (n / 16) (hex_char (n % 16) ∷ tail) in
    if ltb n 16 then hex_char n ∷ tail else more

-- `oss << "0x" << std::hex << addr`: a `uint64_t` has sixteen digits at most.
unfoldable pub to_hex_addr : ℕ → List ℕ
to_hex_addr addr = b'0' ∷ b'x' ∷ hex_loop 16 addr []

pub is_space : ℕ → Bool
is_space c = c == 32 || (leb 9 c && leb c 13)

unfoldable pub hex_value : ℕ → Option ℕ
hex_value c =
    if leb b'0' c && leb c b'9'
    then some (c - 48)
    else if leb b'a' c && leb c b'f'
    then some (c - 87)
    else if leb b'A' c && leb c b'F'
    then some (c - 55)
    else none

-- The number that the longest run of digits makes; what follows is not read.
unfoldable pub digits_value : ℕ → List ℕ → ℕ
digits_value v [] = v
digits_value v (c ∷ cs) = elim (hex_value c) [ none ↦ v | some d ↦ digits_value (v * 16 + d) cs ]

-- At least one digit is wanted.
unfoldable pub run_value : List ℕ → Option ℕ
unfolding hex_value digits_value
run_value [] = none
run_value (c ∷ cs) = elim (hex_value c) [ none ↦ none | some d ↦ some (digits_value d cs) ]

-- `0x` is a prefix if a digit follows it, and else the digit 0.
pub after_prefix : List ℕ → Option ℕ
unfolding run_value
after_prefix cs = elim (run_value cs) [ none ↦ some 0 | some v ↦ some v ]

pub magnitude : List ℕ → Option ℕ
magnitude (c ∷ x ∷ cs) =
    if c == b'0' && (x == b'x' || x == b'X') then after_prefix cs else run_value (c ∷ x ∷ cs)
magnitude cs = run_value cs

unfoldable pub skip_spaces : List ℕ → List ℕ
unfolding is_space
skip_spaces [] = []
skip_spaces (c ∷ cs) = let rest = skip_spaces cs in if is_space c then rest else c ∷ cs

-- Sign and magnitude of a number in base 16, as `strtoull` and `strtol` read it.
pub signed_magnitude : List ℕ → Option (Bool × ℕ)
unfolding magnitude
signed_magnitude [] = none
signed_magnitude (c ∷ cs) =
    let sign = λ (neg : Bool) (o : Option ℕ).
      let out : Option (Bool × ℕ) = elim o [ none ↦ none | some v ↦ some (neg, v) ] in out in
    if c == b'-'
    then sign true (magnitude cs)
    else if c == b'+'
    then sign false (magnitude cs)
    else sign false (magnitude (c ∷ cs))

-- `std::stoull(s, nullptr, 16)`: a negative number is negated modulo 2^64.
pub stoull_hex : List ℕ → Outcome NumberError ℕ
unfolding skip_spaces signed_magnitude
stoull_hex s = elim (signed_magnitude (skip_spaces s)) [
  | none ↦ thrown invalid_argument
  | some (neg, v) ↦
      if leb (2 ^ 64) v then thrown out_of_range else ok (if neg then (2 ^ 64 - v) % 2 ^ 64 else v)
]

-- `std::stoi(s, nullptr, 16)` and the cast of its result to `uint8_t`.
unfoldable pub stoi_hex_byte : List ℕ → Outcome NumberError ℕ
unfolding skip_spaces signed_magnitude
stoi_hex_byte s = elim (signed_magnitude (skip_spaces s)) [
  | none ↦ thrown invalid_argument
  | some (neg, v) ↦
      if neg
      then if leb v (2 ^ 31) then ok ((2 ^ 64 - v) % 2 ^ 8) else thrown out_of_range
      else if ltb v (2 ^ 31)
      then ok (v % 2 ^ 8)
      else thrown out_of_range
]

-- `parseHexAddr`
pub parse_hex_addr : List ℕ → Outcome NumberError ℕ
unfolding stoull_hex
parse_hex_addr s = stoull_hex s
