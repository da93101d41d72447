-- ===== src/Decimal.antt =====
-- Decimal numbers as the standard library prints and reads them (`std::to_string`, `std::stoi`,
-- `std::stoll`, `std::stoull`), which src/core/bindings/native_ffi.cc uses.
pub mod RoundTrip
use better_ncm.Base.{
  ℕ, zero, suc, ◌+◌, ◌-◌, ◌*◌, ◌/◌, ◌%◌, ◌^◌, Bool, true, false, ◌&&◌, Option, none, some, List, [],
  ◌∷◌, ltb, leb, ◌==◌, if◌then◌else◌, Outcome, ok, thrown,
}
use better_ncm.Base.Int.{ℤ, pos, negsuc}
use better_ncm.Hex.{NumberError, invalid_argument, out_of_range, skip_spaces}

-- The digits of `n`, before the text `tail`; the first argument is the number of digits at hand.
unfoldable pub decimal_loop : ℕ → ℕ → List ℕ → List ℕ
decimal_loop zero n tail = tail
decimal_loop (suc f) n tail =
    let more = decimal_loop f (n / 10) ((48 + n % 10) ∷ tail) in
    if ltb n 10 then (48 + n) ∷ tail else more

-- `std::to_string` of a `uint64_t`, which has twenty digits at most, and of an `int64_t`
unfoldable pub to_string : ℕ → List ℕ
to_string n = decimal_loop 20 n []

unfoldable pub to_string_signed : ℤ → List ℕ
to_string_signed (pos n) = to_string n
to_string_signed (negsuc n) = b'-' ∷ to_string (suc n)

unfoldable pub decimal_value : ℕ → Option ℕ
decimal_value c = if leb b'0' c && leb c b'9' then some (c - 48) else none

-- The number that the longest run of digits makes; what follows is not read.
unfoldable pub decimals_value : ℕ → List ℕ → ℕ
decimals_value v [] = v
decimals_value v (c ∷ cs) = elim (decimal_value c) [
  | none ↦ v
  | some d ↦ decimals_value (v * 10 + d) cs
]

-- At least one digit is wanted.
unfoldable pub decimal_run : List ℕ → Option ℕ
decimal_run [] = none
decimal_run (c ∷ cs) = elim (decimal_value c) [ none ↦ none | some d ↦ some (decimals_value d cs) ]

-- Sign and magnitude of a number in base 10, as `strtoll` reads it
unfoldable pub signed_decimal : List ℕ → Option (Bool × ℕ)
signed_decimal [] = none
signed_decimal (c ∷ cs) =
    let sign = λ (neg : Bool) (o : Option ℕ).
      let out : Option (Bool × ℕ) = elim o [ none ↦ none | some v ↦ some (neg, v) ] in out in
    if c == b'-'
    then sign true (decimal_run cs)
    else if c == b'+'
    then sign false (decimal_run cs)
    else sign false (decimal_run (c ∷ cs))

-- A signed number of the type with `2 * half` patterns; -0 is 0.
unfoldable pub in_range : ℕ → Option (Bool × ℕ) → Outcome NumberError ℤ
in_range half none = thrown invalid_argument
in_range half (some (false, v)) = if ltb v half then ok (pos v) else thrown out_of_range
in_range half (some (true, zero)) = ok (pos 0)
in_range half (some (true, suc v)) = if ltb v half then ok (negsuc v) else thrown out_of_range

-- `std::stoi(s)` and `std::stoll(s)`
unfoldable pub stoi : List ℕ → Outcome NumberError ℤ
stoi s = in_range (2 ^ 31) (signed_decimal (skip_spaces s))

unfoldable pub stoll : List ℕ → Outcome NumberError ℤ
stoll s = in_range (2 ^ 63) (signed_decimal (skip_spaces s))

-- `std::stoull(s)`: a negative number is negated modulo 2^64.
unfoldable pub stoull : List ℕ → Outcome NumberError ℕ
stoull s = elim (signed_decimal (skip_spaces s)) [
  | none ↦ thrown invalid_argument
  | some (neg, v) ↦
      if leb (2 ^ 64) v then thrown out_of_range else ok (if neg then (2 ^ 64 - v) % 2 ^ 64 else v)
]
