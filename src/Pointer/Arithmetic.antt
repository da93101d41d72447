-- ===== src/Pointer/Arithmetic.antt =====
-- Comparison and arithmetic of native pointers.
use better_ncm.Base.{ℕ, zero, suc, ◌^◌, ◌<◌, ◌≡◌, ◌↔◌, true, Option, none, some, arith}
use better_ncm.Base.Int.{ℤ, pos, negsuc, wrap-lt}
use better_ncm.Pointer.{add, sub, equals, compare_to}

-- `sub` undoes `add` and `add` undoes `sub`, for every 64-bit address and every offset.
pub sub-add : (a : ℕ) (rhs : ℤ) → a < 2 ^ 64 → (sub (add a rhs) rhs ≡ a) × (add (sub a rhs) rhs ≡ a)
unfolding add sub
sub-add a rhs h = let w = wrap-lt (2 ^ 64) rhs (omega arith) in (omega (arith, w), omega (arith, w))

-- `compare` gives 0 exactly where `equals` holds, a null argument counting as address 0.
pub compare_to-equals :
    (a : ℕ) (other : Option ℕ) → ((compare_to a other ≡ pos 0) ↔ (equals a other ≡ true))
unfolding compare_to equals
compare_to-equals a none = ground arith
compare_to-equals a (some b) = ground arith

abbrev pub opposite : ℤ → ℤ
opposite (pos zero) = pos 0
opposite (pos (suc n)) = negsuc n
opposite (negsuc n) = pos (suc n)

-- `compare` the other way round gives the opposite sign.
pub compare_to_flip : (a b : ℕ) → compare_to b (some a) ≡ opposite (compare_to a (some b))
unfolding compare_to
compare_to_flip a b = ground arith
