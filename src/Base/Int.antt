-- ===== src/Base/Int.antt =====
-- Signed machine integers: two's complement with `m` patterns (`m` is 2 to the width).
use Prim.Native.Nat.{ℕ, suc, ◌-◌, ◌*◌, ◌≤◌, ◌<◌, ◌%◌}
use mathlib.Core.Path.{◌≡◌}
use native.Mathlib.Omega.{arith}
use native.Mathlib.Nat.{mod-eq_of_lt}
use better_ncm.Base.Tests.{ltb, if◌then◌else◌}

-- `negsuc n` is -(n + 1).
pub data ℤ : Type 0 where
  pos : ℕ → ℤ
  negsuc : ℕ → ℤ

-- The pattern of an integer, `static_cast` to the unsigned type
unfoldable pub wrap : ℕ → ℤ → ℕ
wrap m (pos n) = n % m
wrap m (negsuc n) = m - suc (n % m)

-- and back
pub to_signed : ℕ → ℕ → ℤ
to_signed m u = if ltb (2 * u) m then pos u else negsuc (m - suc u)

-- The integers that the signed type holds
abbrev pub Fits : ℕ → ℤ → Type 0
Fits m (pos n) = 2 * n < m
Fits m (negsuc n) = 2 * suc n ≤ m

pub wrap-lt : (m : ℕ) (v : ℤ) → 0 < m → wrap m v < m
unfolding wrap
wrap-lt m (pos n) h = omega arith
wrap-lt m (negsuc n) h = omega arith

pub to_signed-wrap : (m : ℕ) (v : ℤ) → Fits m v → to_signed m (wrap m v) ≡ v
unfolding wrap to_signed
to_signed-wrap m (pos n) h =
    let small : n % m ≡ n = mod-eq_of_lt (omega arith) in ground (arith, small)
to_signed-wrap m (negsuc n) h =
    let small : n % m ≡ n = mod-eq_of_lt (omega arith) in ground (arith, small)

pub wrap-to_signed : (m v : ℕ) → v < m → wrap m (to_signed m v) ≡ v
unfolding wrap to_signed
wrap-to_signed m v h =
    let same : v % m ≡ v = mod-eq_of_lt h in
    let back : (m - suc v) % m ≡ m - suc v = mod-eq_of_lt (omega arith) in
    ground (arith, same, back)

pub to_signed-Fits : (m v : ℕ) → v < m → Fits m (to_signed m v)
unfolding to_signed
to_signed-Fits m v h = ground arith

pub Fits-weaken : (m n : ℕ) (v : ℤ) → m ≤ n → Fits m v → Fits n v
Fits-weaken m n (pos k) h f = omega arith
Fits-weaken m n (negsuc k) h f = omega arith

pub to_signed-upper : (m v : ℕ) → m ≤ 2 * v → to_signed m v ≡ negsuc (m - suc v)
unfolding to_signed
to_signed-upper m v h = ground arith
