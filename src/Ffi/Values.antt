-- ===== src/Ffi/Values.antt =====
-- What becomes of a value that native code passes to a callback and the script passes on to a call.
use better_ncm.Base.{
  ℕ, zero, suc, ◌+◌, ◌-◌, ◌/◌, ◌%◌, ◌^◌, ◌<◌, ◌≤◌, ◌≡◌, refl, ap, ◌∙◌, false, List, [], ◌∷◌, arith,
  ltb, if◌then◌else◌, inl, inr, Bool-cases, All, Outcome, ok, thrown, ltb→lt, starts_with,
}
use better_ncm.Base.Int.{
  ℤ, pos, negsuc, wrap, to_signed, Fits, wrap-to_signed, to_signed-Fits, Fits-weaken,
  to_signed-upper,
}
use better_ncm.Hex.{NumberError, out_of_range}
use better_ncm.Hex.RoundTrip.{parse_hex_addr-to_hex_addr}
use better_ncm.Decimal.{decimal_loop, to_string, to_string_signed, stoll}
use better_ncm.Decimal.RoundTrip.{stoll-to_string_signed, stoll-to_string}
use better_ncm.Ffi.{
  FfiType, ffi_void, sint8, uint8, sint16, uint16, sint32, uint32, sint64, uint64, float, double,
  pointer, Floats, parse_int, prepare_arg, serialize_arg, format_return,
}

-- No character of a decimal number is a letter.
decimal_loop-lt :
    (f n : ℕ) (tail : List ℕ) → All (λ c. c < 58) tail → All (λ c. c < 58) (decimal_loop f n tail)
unfolding decimal_loop
decimal_loop-lt zero n tail h = h
decimal_loop-lt (suc f) n tail h = elim (Bool-cases (ltb n 10)) [
  | inl small ↦ let lt : n < 10 = ltb→lt n 10 small in rw small (omega arith, h)
  | inr large ↦ rw large (decimal_loop-lt f (n / 10) ((48 + n % 10) ∷ tail) (omega arith, h))
]

to_string_signed-lt : (v : ℤ) → All (λ c. c < 58) (to_string_signed v)
unfolding to_string_signed to_string
to_string_signed-lt (pos n) = decimal_loop-lt 20 n [] tt
to_string_signed-lt (negsuc n) = (omega arith, decimal_loop-lt 20 (suc n) [] tt)

-- So it has no prefix of base 16.
starts_with-lt :
    (x : ℕ) (s : List ℕ) → 58 ≤ x → All (λ c. c < 58) s → starts_with (b'0' ∷ x ∷ []) s ≡ false
unfolding starts_with
starts_with-lt x [] h a = refl
starts_with-lt x (c ∷ []) h a = ground arith
starts_with-lt x (c ∷ d ∷ s) h a = ground (arith, a.1.0)

parse_int-signed : (v : ℤ) → Fits (2 ^ 64) v → parse_int (to_string_signed v) ≡ ok (wrap (2 ^ 64) v)
unfolding parse_int
parse_int-signed v h =
    let low = starts_with-lt b'x' (to_string_signed v) (omega arith) (to_string_signed-lt v) in
    let high = starts_with-lt b'X' (to_string_signed v) (omega arith) (to_string_signed-lt v) in
    rw (low, high, stoll-to_string_signed v h) refl

parse_int-unsigned :
    (v : ℕ)
    → v < 2 ^ 64
    → parse_int (to_string v) ≡ (if ltb v (2 ^ 63) then ok v else thrown out_of_range)
unfolding parse_int wrap to_string to_string_signed
parse_int-unsigned v h =
    let low = starts_with-lt b'x' (to_string v) (omega arith) (to_string_signed-lt (pos v)) in
    let high = starts_with-lt b'X' (to_string v) (omega arith) (to_string_signed-lt (pos v)) in
    let read = stoll-to_string v h in
    elim (Bool-cases (ltb v (2 ^ 63))) [
      | inl small ↦
          let one : stoll (to_string v) ≡ ok (pos v) =
            read ∙ ap (λ b. if b then ok (pos v) else thrown out_of_range) small in
          let fits : v % 2 ^ 64 ≡ v = omega arith in rw (low, high, one, small, fits) refl
      | inr large ↦
          let one : stoll (to_string v) ≡ thrown out_of_range =
            read ∙ ap (λ b. if b then ok (pos v) else thrown out_of_range) large in
          rw (low, high, one, large) refl
    ]

-- What `callFunction` stores of the text that `callbackHandler` makes of a value
abbrev pub Passes : FfiType → ℕ → Outcome NumberError ℕ → Type 0
Passes pointer v r = r ≡ ok v
Passes sint64 v r = r ≡ ok v
Passes uint64 v r = r ≡ (if ltb v (2 ^ 63) then ok v else thrown out_of_range)
Passes float v r = Unit {0}
Passes double v r = Unit {0}
Passes _ v r = r ≡ ok (wrap (2 ^ 64) (to_signed (2 ^ 32) (v % 2 ^ 32)))

module _ (floats : Floats) where
  int-Passes :
      (v : ℕ)
      → parse_int (to_string_signed (to_signed (2 ^ 32) (v % 2 ^ 32)))
        ≡ ok (wrap (2 ^ 64) (to_signed (2 ^ 32) (v % 2 ^ 32)))
  int-Passes v =
      let low : v % 2 ^ 32 < 2 ^ 32 = omega arith in
      parse_int-signed _
        (Fits-weaken (2 ^ 32) (2 ^ 64) _ (omega arith) (to_signed-Fits (2 ^ 32) (v % 2 ^ 32) low))

  -- A 64-bit value that native code passes to a callback and the script passes on to a function, as
  -- the text that it got, arrives as it was if its type is `pointer` or `int64`; as the 32-bit
  -- signed number that its lower half is if its type has fewer bits; and if its type is `uint64`,
  -- as it was below 2^63, and else the call throws. Of `float` and `double` nothing is said.
  pub prepare_arg-serialize_arg :
      (t : FfiType) (v : ℕ)
      → v < 2 ^ 64
      → Passes t v (prepare_arg floats t (serialize_arg floats t v))
  unfolding prepare_arg serialize_arg
  prepare_arg-serialize_arg pointer v h = parse_hex_addr-to_hex_addr v h
  prepare_arg-serialize_arg sint64 v h =
      parse_int-signed _ (to_signed-Fits (2 ^ 64) v h) ∙ ap ok (wrap-to_signed (2 ^ 64) v h)
  prepare_arg-serialize_arg uint64 v h = parse_int-unsigned v h
  prepare_arg-serialize_arg float v h = tt
  prepare_arg-serialize_arg double v h = tt
  prepare_arg-serialize_arg ffi_void v h = int-Passes v
  prepare_arg-serialize_arg sint8 v h = int-Passes v
  prepare_arg-serialize_arg uint8 v h = int-Passes v
  prepare_arg-serialize_arg sint16 v h = int-Passes v
  prepare_arg-serialize_arg uint16 v h = int-Passes v
  prepare_arg-serialize_arg sint32 v h = int-Passes v
  prepare_arg-serialize_arg uint32 v h = int-Passes v

  -- A function whose result is of type `uint32` and not below 2^31 is said to return a negative number.
  pub format_return-uint32 :
      (v : ℕ)
      → 2 ^ 31 ≤ v
      → v < 2 ^ 32
      → format_return floats "uint32" v ≡ b'-' ∷ to_string (2 ^ 32 - v)
  unfolding format_return to_string_signed
  format_return-uint32 v low high =
      let same : v % 2 ^ 32 ≡ v = omega arith in
      let next : suc (2 ^ 32 - suc v) ≡ 2 ^ 32 - v = omega arith in
      ap to_string_signed (ap (to_signed (2 ^ 32)) same ∙ to_signed-upper (2 ^ 32) v (omega arith))
      ∙ ap (λ (n : ℕ). b'-' ∷ to_string n) next
