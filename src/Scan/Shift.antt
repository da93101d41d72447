-- ===== src/Scan/Shift.antt =====
-- The bad-character table of `bmhScan`.
use better_ncm.Base.{
  ℕ, zero, suc, ◌+◌, ◌-◌, ◌≤◌, ◌<◌, ◌≡◌, true, arith, length, dec_lt, Bool-cases, inl, inr,
}
use better_ncm.Scan.Pattern.{ParsedPattern}
use better_ncm.Scan.{byte_at, must_match, cap_all, shift_step, shift_loop, shift_table}

-- Position `j` of the pattern accepts the byte `c`: it is a wildcard or holds `c`.
abbrev pub Accepts : ParsedPattern → ℕ → ℕ → Type 0
Accepts pat j c = must_match pat j ≡ true → c ≡ byte_at pat j

cap_all_bounds :
    (s : ℕ) (t : ℕ → ℕ) (c : ℕ)
    → (cap_all s t c ≤ s) × (cap_all s t c ≤ t c) × (0 < s → 0 < t c → 0 < cap_all s t c)
unfolding cap_all
cap_all_bounds s t c = ground arith

step_bounds :
    (pat : ParsedPattern) (j c : ℕ) (t : ℕ → ℕ)
    → (shift_step pat j t c ≤ t c)
      × (j < length pat.bytes - 1 → 0 < t c → 0 < shift_step pat j t c)
      × (Accepts pat j c → shift_step pat j t c ≤ length pat.bytes - 1 - j)
unfolding shift_step
step_bounds pat j c t = elim (Bool-cases (must_match pat j)) [
  | inl byte ↦ rw byte (ground arith, ground arith, ground arith)
  | inr wild ↦ rw wild (ground arith, ground arith, ground arith)
]

loop-le : (pat : ParsedPattern) (n j c : ℕ) (t : ℕ → ℕ) → shift_loop pat n j t c ≤ t c
unfolding shift_loop
loop-le pat zero j c t = omega arith
loop-le pat (suc n) j c t =
    omega (arith, loop-le pat n (suc j) c (shift_step pat j t), (step_bounds pat j c t).0)

loop-pos :
    (pat : ParsedPattern) (n j c : ℕ) (t : ℕ → ℕ)
    → j + n ≤ length pat.bytes - 1
    → 0 < t c
    → 0 < shift_loop pat n j t c
unfolding shift_loop
loop-pos pat zero j c t h p = p
loop-pos pat (suc n) j c t h p =
    loop-pos pat n (suc j) c (shift_step pat j t) (omega arith)
      ((step_bounds pat j c t).1 (omega arith) p)

-- After its round, a position that accepts `c` bounds the entry of `c`.
loop-le_of_Accepts :
    (pat : ParsedPattern) (n j k c : ℕ) (t : ℕ → ℕ)
    → j ≤ k
    → k < j + n
    → Accepts pat k c
    → shift_loop pat n j t c ≤ length pat.bytes - 1 - k
unfolding shift_loop
loop-le_of_Accepts pat zero j k c t h l a = absurd (omega arith)
loop-le_of_Accepts pat (suc n) j k c t h l a = elim (dec_lt j k) [
  | yes later ↦ loop-le_of_Accepts pat n (suc j) k c (shift_step pat j t) later (omega arith) a
  | no now ↦
      let here : j ≡ k = omega arith in
      let bound : shift_step pat j t c ≤ length pat.bytes - 1 - k =
        rw here ((step_bounds pat k c t).2 a) in
      omega (arith, loop-le pat n (suc j) c (shift_step pat j t), bound)
]

-- An entry of the table is positive, at most the pattern's length, and no longer than the distance
-- from the last position to any earlier one that accepts the byte.
pub shift_table_bounds :
    (pat : ParsedPattern) (c : ℕ)
    → 0 < length pat.bytes
    → (0 < shift_table pat c)
      × (shift_table pat c ≤ length pat.bytes)
      × ((k : ℕ)
          → k < length pat.bytes - 1
          → Accepts pat k c
          → shift_table pat c ≤ length pat.bytes - 1 - k)
unfolding shift_table
shift_table_bounds pat c h = elim (Bool-cases (must_match pat (m - 1))) [
  | inl byte ↦ rw byte (pos, le, λ k l a. below k l a)
  | inr wild ↦ rw wild (
    caps.2 (omega arith) pos,
    omega (arith, caps.1, le),
    λ k l a. omega (arith, caps.1, below k l a),
  )
]
  where
    m : ℕ
    m = length pat.bytes

    filled : ℕ → ℕ
    filled = shift_loop pat (m - 1) 0 (λ _. m)

    pos : 0 < filled c
    pos = loop-pos pat (m - 1) 0 c (λ _. m) (omega arith) h

    le : filled c ≤ m
    le = loop-le pat (m - 1) 0 c (λ _. m)

    below : (k : ℕ) → k < m - 1 → Accepts pat k c → filled c ≤ m - 1 - k
    below k l a = loop-le_of_Accepts pat (m - 1) 0 k c (λ _. m) (omega arith) (omega arith) a

    caps :
        (cap_all 1 filled c ≤ 1)
        × (cap_all 1 filled c ≤ filled c)
        × (0 < 1 → 0 < filled c → 0 < cap_all 1 filled c)
    caps = cap_all_bounds 1 filled c
