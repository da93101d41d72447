-- ===== src/Hex/RoundTrip.antt =====
-- What `toHexAddr` prints, `parseHexAddr` reads back.
use native.Mathlib.Nat.{pow-suc}
use better_ncm.Base.{
  ℕ, zero, suc, ◌+◌, ◌*◌, ◌/◌, ◌%◌, ◌^◌, ◌<◌, ◌≡◌, ap, ◌∙◌, some, List, [], ◌∷◌, arith, ltb, inl,
  inr, Bool-cases, ok, lt→ltb, ltb→lt,
}
use better_ncm.Hex.{
  hex_char, hex_loop, to_hex_addr, hex_value, digits_value, run_value, after_prefix, stoull_hex,
  parse_hex_addr,
}

hex_value-hex_char : (d : ℕ) → d < 16 → hex_value (hex_char d) ≡ some d
unfolding hex_value hex_char
hex_value-hex_char d h = ground arith

digits_value-hex_char :
    (v d : ℕ) (cs : List ℕ)
    → d < 16
    → digits_value v (hex_char d ∷ cs) ≡ digits_value (v * 16 + d) cs
unfolding digits_value
digits_value-hex_char v d cs h = rw (hex_value-hex_char d h, digits_value)

run_value-hex_char :
    (d : ℕ) (cs : List ℕ) → d < 16 → run_value (hex_char d ∷ cs) ≡ some (digits_value d cs)
unfolding run_value
run_value-hex_char d cs h = rw (hex_value-hex_char d h, run_value)

-- The printed digits, read from the left, make the number.
run_value-hex_loop :
    (f n : ℕ) (tail : List ℕ)
    → n < 16 ^ suc f
    → run_value (hex_loop (suc f) n tail) ≡ some (digits_value n tail)
unfolding hex_loop
run_value-hex_loop zero n tail h =
    let small : n < 16 = omega (arith, h) in
    rw (lt→ltb n 16 small) (run_value-hex_char n tail small)
run_value-hex_loop (suc f) n tail h = elim (Bool-cases (ltb n 16)) [
  | inl small ↦ rw small (run_value-hex_char n tail (ltb→lt n 16 small))
  | inr large ↦ rw large (
      run_value-hex_loop f (n / 16) (hex_char (n % 16) ∷ tail)
        (omega (arith, h, pow-suc 16 (suc f)))
      ∙ ap some (
          digits_value-hex_char (n / 16) (n % 16) tail (omega arith)
          ∙ ap (λ v. digits_value v tail) (omega arith)))
]

after_prefix-hex_loop : (n : ℕ) → n < 2 ^ 64 → after_prefix (hex_loop 16 n []) ≡ some n
unfolding after_prefix digits_value
after_prefix-hex_loop n h = rw (run_value-hex_loop 15 n [] h, after_prefix)

-- The text that `toHexAddr` prints for a 64-bit number is read as that number by `parseHexAddr`.
pub parse_hex_addr-to_hex_addr : (n : ℕ) → n < 2 ^ 64 → parse_hex_addr (to_hex_addr n) ≡ ok n
unfolding parse_hex_addr to_hex_addr
parse_hex_addr-to_hex_addr n h = rw (after_prefix-hex_loop n h, stoull_hex) (ground arith)
