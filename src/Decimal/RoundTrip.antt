-- ===== src/Decimal/RoundTrip.antt =====
-- What `std::to_string` prints, `std::stoll` and `std::stoull` read back.
use native.Mathlib.Nat.{pow-suc}
use better_ncm.Base.{
  ℕ, zero, suc, ◌+◌, ◌*◌, ◌/◌, ◌%◌, ◌^◌, ◌<◌, ◌≡◌, refl, sym, ap, ◌∙◌, false, true, some, List, [],
  ◌∷◌, arith, ltb, ◌==◌, if◌then◌else◌, inl, inr, Bool-cases, ok, thrown, lt→ltb, ltb→lt,
}
use better_ncm.Base.Int.{ℤ, pos, negsuc, Fits}
use better_ncm.Hex.{out_of_range, skip_spaces, is_space}
use better_ncm.Decimal.{
  decimal_loop, to_string, to_string_signed, decimal_value, decimals_value, decimal_run,
  signed_decimal, in_range, stoll, stoull,
}

decimal_value-digit : (d : ℕ) → d < 10 → decimal_value (48 + d) ≡ some d
unfolding decimal_value
decimal_value-digit d h = ground arith

decimals_value-digit :
    (v d : ℕ) (cs : List ℕ)
    → d < 10
    → decimals_value v ((48 + d) ∷ cs) ≡ decimals_value (v * 10 + d) cs
unfolding decimals_value
decimals_value-digit v d cs h = rw (decimal_value-digit d h, decimals_value)

decimal_run-digit :
    (d : ℕ) (cs : List ℕ) → d < 10 → decimal_run ((48 + d) ∷ cs) ≡ some (decimals_value d cs)
unfolding decimal_run
decimal_run-digit d cs h = rw (decimal_value-digit d h, decimal_run)

-- The printed digits, read from the left, make the number.
decimal_run-loop :
    (f n : ℕ) (tail : List ℕ)
    → n < 10 ^ suc f
    → decimal_run (decimal_loop (suc f) n tail) ≡ some (decimals_value n tail)
unfolding decimal_loop
decimal_run-loop zero n tail h =
    let small : n < 10 = omega (arith, h) in rw (lt→ltb n 10 small) (decimal_run-digit n tail small)
decimal_run-loop (suc f) n tail h = elim (Bool-cases (ltb n 10)) [
  | inl small ↦ rw small (decimal_run-digit n tail (ltb→lt n 10 small))
  | inr large ↦ rw large (
      decimal_run-loop f (n / 10) ((48 + n % 10) ∷ tail) (omega (arith, h, pow-suc 10 (suc f)))
      ∙ ap some (
          decimals_value-digit (n / 10) (n % 10) tail (omega arith)
          ∙ ap (λ v. decimals_value v tail) (omega arith)))
]

-- The first character is a digit.
decimal_loop-first :
    (f n : ℕ) (tail : List ℕ)
    → (d : ℕ) × (cs : List ℕ) × (d < 10) × (decimal_loop (suc f) n tail ≡ (48 + d) ∷ cs)
unfolding decimal_loop
decimal_loop-first zero n tail = elim (Bool-cases (ltb n 10)) [
  | inl small ↦ (n, tail, ltb→lt n 10 small, rw small refl)
  | inr large ↦ (n % 10, tail, omega arith, rw large refl)
]
decimal_loop-first (suc f) n tail = elim (Bool-cases (ltb n 10)) [
  | inl small ↦ (n, tail, ltb→lt n 10 small, rw small refl)
  | inr large ↦ rw large (decimal_loop-first f (n / 10) ((48 + n % 10) ∷ tail))
]

decimal_run-to_string : (n : ℕ) → n < 10 ^ 20 → decimal_run (to_string n) ≡ some n
unfolding to_string decimals_value
decimal_run-to_string n h = decimal_run-loop 19 n [] h

-- A text that begins with a digit has no blanks to skip and no sign.
signed_decimal-digit :
    (d v : ℕ) (cs : List ℕ)
    → d < 10
    → decimal_run ((48 + d) ∷ cs) ≡ some v
    → signed_decimal (skip_spaces ((48 + d) ∷ cs)) ≡ some (false, v)
unfolding skip_spaces signed_decimal
signed_decimal-digit d v cs small h =
    let solid : is_space (48 + d) ≡ false = ground arith in
    let minus : ((48 + d) == b'-') ≡ false = ground arith in
    let plus : ((48 + d) == b'+') ≡ false = ground arith in
    rw (solid, signed_decimal, minus, plus, h) refl

signed_decimal-to_string :
    (n : ℕ) → n < 10 ^ 20 → signed_decimal (skip_spaces (to_string n)) ≡ some (false, n)
unfolding to_string
signed_decimal-to_string n h =
    let (d, cs, small, q) = decimal_loop-first 19 n [] in
    let run : decimal_run ((48 + d) ∷ cs) ≡ some n =
      ap decimal_run (sym q) ∙ decimal_run-to_string n h in
    ap (λ (t : List ℕ). signed_decimal (skip_spaces t)) q ∙ signed_decimal-digit d n cs small run

signed_decimal-minus :
    (n : ℕ) → n < 10 ^ 20 → signed_decimal (skip_spaces (b'-' ∷ to_string n)) ≡ some (true, n)
unfolding skip_spaces signed_decimal
signed_decimal-minus n h = rw (decimal_run-to_string n h) refl

-- `std::stoll` reads what `std::to_string` prints of a 64-bit signed number.
pub stoll-to_string_signed : (v : ℤ) → Fits (2 ^ 64) v → stoll (to_string_signed v) ≡ ok v
unfolding stoll to_string_signed in_range
stoll-to_string_signed (pos n) h =
    rw (signed_decimal-to_string n (omega arith), in_range) (ground arith)
stoll-to_string_signed (negsuc n) h =
    rw (signed_decimal-minus (suc n) (omega arith), in_range) (ground arith)

-- `std::stoll` throws at what it prints of an unsigned number that is not below 2^63.
pub stoll-to_string :
    (n : ℕ)
    → n < 2 ^ 64
    → stoll (to_string n) ≡ (if ltb n (2 ^ 63) then ok (pos n) else thrown out_of_range)
unfolding stoll in_range
stoll-to_string n h = rw (signed_decimal-to_string n (omega arith), in_range) refl

-- `std::stoull` reads it.
pub stoull-to_string : (n : ℕ) → n < 2 ^ 64 → stoull (to_string n) ≡ ok n
unfolding stoull
stoull-to_string n h = rw (signed_decimal-to_string n (omega arith), stoull) (ground arith)
