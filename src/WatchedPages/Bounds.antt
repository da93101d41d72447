-- ===== src/WatchedPages/Bounds.antt =====
-- The pages of a watched range cover what was asked for.
use native.Mathlib.Nat.{div-add-mod, mul-mod_right, mod-lt}
use better_ncm.Base.{ℕ, ◌+◌, ◌-◌, ◌*◌, ◌/◌, ◌%◌, ◌^◌, ◌≤◌, ◌<◌, ◌≡◌, refl, arith}
use better_ncm.Base.Int.{pos, wrap}
use better_ncm.WatchedPages.{align_down, total_size, watched_range}

-- Whole pages at `base` that cover the bytes from `addr` on, with less than a page to spare on
-- either side
pub record Covers (page addr size base total : ℕ) : Type 0 where
  pub base_aligned : base % page ≡ 0
  pub total_aligned : total % page ≡ 0
  pub starts : base ≤ addr
  pub starts_close : addr < base + page
  pub ends : addr + size ≤ base + total
  pub ends_close : base + total < addr + size + page

align_down-mod : (page n : ℕ) → align_down page n % page ≡ 0
align_down-mod page n =
    let multiple : n - n % page ≡ page * (n / page) = omega (arith, div-add-mod n page) in
    rw multiple (mul-mod_right page (n / page))

-- The size of the pages, where nothing wraps round
total_size_lem :
    (page addr size : ℕ)
    → addr + size + page ≤ 2 ^ 64
    → 0 < page
    → total_size page addr size ≡ align_down page (addr + size - align_down page addr + page - 1)
unfolding total_size
total_size_lem page addr size fits h =
    let rem : addr % page ≤ addr = omega arith in
    let inner : ((addr + size) % 2 ^ 64 + (2 ^ 64 - (addr - addr % page))) % 2 ^ 64
        ≡ addr + size - (addr - addr % page) =
      omega arith in
    let outer : (addr + size - (addr - addr % page) + page - 1) % 2 ^ 64
        ≡ addr + size - (addr - addr % page) + page - 1 =
      omega arith in
    rw (inner, outer) refl

-- The pages that `enable` takes for a range begin and end at page boundaries, cover every byte of
-- the range and reach less than a page beyond it at either end. The page size is positive, the size
-- is not negative, and the range and one page more end inside the address space.
pub watched_range-Covers :
    (page i addr size : ℕ)
    → 0 < page
    → addr + size + page ≤ 2 ^ 64
    → let r = watched_range page i addr (pos size) in Covers page addr size r.page_base r.page_size
unfolding watched_range wrap
watched_range-Covers page i addr size h fits =
    let sz : size % 2 ^ 64 ≡ size = omega arith in
    let low : addr % page < page = mod-lt addr h in
    let n = addr + size - (addr - addr % page) + page - 1 in
    let high : n % page < page = mod-lt n h in
    rw (sz, total_size_lem page addr size fits h)
      (record {
        base_aligned = align_down-mod page addr;
        total_aligned = align_down-mod page n;
        starts = omega arith;
        starts_close = omega arith;
        ends = omega arith;
        ends_close = omega arith;
      })
