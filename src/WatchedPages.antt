-- ===== src/WatchedPages.antt =====
-- src/core/bindings/native_memory_access_monitor.cc on Linux: the ranges that a monitor watches and
-- the calls of `mprotect` on their pages.
pub mod Bounds
pub mod Rights
use better_ncm.Base.{
  ℕ, suc, ◌+◌, ◌-◌, ◌%◌, ◌^◌, Bool, true, false, not, ◌&&◌, Option, none, some, List, [], ◌∷◌, ltb,
  leb, if◌then◌else◌,
}
use better_ncm.Base.Int.{ℤ, wrap}

pub record WatchedRange : Type 0 where
  pub page_base : ℕ
  pub page_size : ℕ
  pub original_prot : ℕ
  pub range_index : ℕ
  pub fired : Bool

-- A call of `mprotect`, whose result the code does not look at
pub record Protection : Type 0 where
  pub addr : ℕ
  pub size : ℕ
  pub prot : ℕ

-- `PROT_NONE`, and `PROT_READ | PROT_WRITE`
abbrev pub prot_none : ℕ
prot_none = 0

abbrev pub prot_read_write : ℕ
prot_read_write = 3

unfoldable pub set_protection : ℕ → ℕ → ℕ → List Protection → List Protection
set_protection addr size prot calls = record { addr = addr; size = size; prot = prot } ∷ calls

-- The test of `monitorSegvHandler` on a range
unfoldable pub takes_fault : ℕ → WatchedRange → Bool
takes_fault fault_addr range =
    not range.fired
    && (leb range.page_base fault_addr
        && ltb fault_addr ((range.page_base + range.page_size) % 2 ^ 64))

-- The inner loop: the first range that takes the fault, and the ranges with that one marked
unfoldable pub fire_range : ℕ → List WatchedRange → Option (WatchedRange × List WatchedRange)
fire_range fault_addr [] = none
fire_range fault_addr (range ∷ ranges) =
    let later : Option (WatchedRange × List WatchedRange) = elim (fire_range fault_addr ranges) [
      | none ↦ none
      | some (hit, rs) ↦ some (hit, range ∷ rs)
    ] in
    if takes_fault fault_addr range
    then some (range, record range { fired = true } ∷ ranges)
    else later

-- `n & ~(pageSize - 1)`: the page size of the system is a power of two.
abbrev pub align_down : ℕ → ℕ → ℕ
align_down page n = n - n % page

-- The pages of `size` bytes at `addr`; the size is an `int` that becomes a `size_t`.
unfoldable pub total_size : ℕ → ℕ → ℕ → ℕ
total_size page addr size =
    align_down page
      ((((addr + size) % 2 ^ 64 + (2 ^ 64 - align_down page addr)) % 2 ^ 64 + page - 1) % 2 ^ 64)

unfoldable pub watched_range : ℕ → ℕ → ℕ → ℤ → WatchedRange
watched_range page i addr size = record {
  page_base = align_down page addr;
  page_size = total_size page addr (wrap (2 ^ 64) size);
  original_prot = prot_read_write;
  range_index = i;
  fired = false;
}

-- The loop of `enable` from the index `i` on
unfoldable pub watch_loop :
    ℕ → ℕ → List ℕ → List ℤ → List Protection → List WatchedRange × List Protection
unfolding set_protection
watch_loop page i [] sizes calls = ([], calls)
watch_loop page i (addr ∷ addresses) [] calls = ([], calls)
watch_loop page i (addr ∷ addresses) (size ∷ sizes) calls =
    let range = watched_range page i addr size in
    let (ranges, last) =
      watch_loop page (suc i) addresses sizes
        (set_protection range.page_base range.page_size prot_none calls) in
    (range ∷ ranges, last)

-- The loop that gives the rights back to the ranges that have not fired
unfoldable pub restore_ranges : List WatchedRange → List Protection → List Protection
unfolding set_protection
restore_ranges [] calls = calls
restore_ranges (range ∷ ranges) calls = restore_ranges ranges (
    if range.fired
    then calls
    else set_protection range.page_base range.page_size range.original_prot calls)
