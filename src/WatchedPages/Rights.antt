-- ===== src/WatchedPages/Rights.antt =====
-- What the calls of `mprotect` make of an address: the last call on a range that has it decides.
use better_ncm.Base.{
  ℕ, suc, ◌+◌, ◌≤◌, ◌<◌, ◌≡◌, refl, Bool, true, false, not, ◌&&◌, ◌||◌, Option, none, some, List,
  [], ◌∷◌, arith, if◌then◌else◌, All, Bool-cases, inl, inr,
}
use better_ncm.Base.Int.{ℤ}
use better_ncm.Memory.{within}
use better_ncm.WatchedPages.{
  WatchedRange, Protection, prot_none, prot_read_write, set_protection, watched_range, watch_loop,
  restore_ranges,
}

-- The rights at address `a`, where a call has changed them
unfoldable pub rights_at : ℕ → List Protection → Option ℕ
rights_at a [] = none
rights_at a (c ∷ calls) = if within c.addr c.size a then some c.prot else rights_at a calls

pub rights_at-set :
    (a addr size prot : ℕ) (calls : List Protection)
    → addr ≤ a
    → a < addr + size
    → rights_at a (set_protection addr size prot calls) ≡ some prot
unfolding rights_at set_protection
rights_at-set a addr size prot calls h1 h2 = ground arith

-- A range that has not fired has the address.
pub is_covered : ℕ → List WatchedRange → Bool
is_covered a [] = false
is_covered a (r ∷ rs) = (not r.fired && within r.page_base r.page_size a) || is_covered a rs

pub IsReadWrite : List WatchedRange → Type 0
IsReadWrite rs = All (λ r. r.original_prot ≡ prot_read_write) rs

-- Restoring other ranges keeps rights to read and write.
pub restore_ranges-keep :
    (a : ℕ) (rs : List WatchedRange) (calls : List Protection)
    → IsReadWrite rs
    → rights_at a calls ≡ some prot_read_write
    → rights_at a (restore_ranges rs calls) ≡ some prot_read_write
unfolding restore_ranges rights_at set_protection IsReadWrite
restore_ranges-keep a [] calls v h = h
restore_ranges-keep a (r ∷ rs) calls v h = restore_ranges-keep a rs _ v.1 (ground (arith, v.0))

-- Every address of a range that has not fired can be read and written after the ranges are restored.
pub restore_ranges-rights :
    (a : ℕ) (rs : List WatchedRange) (calls : List Protection)
    → IsReadWrite rs
    → is_covered a rs ≡ true
    → rights_at a (restore_ranges rs calls) ≡ some prot_read_write
unfolding restore_ranges rights_at set_protection IsReadWrite is_covered
restore_ranges-rights a [] calls v h = absurd (ground arith)
restore_ranges-rights a (r ∷ rs) calls v h =
    elim (Bool-cases (not r.fired && within r.page_base r.page_size a)) [
      | inl e ↦ restore_ranges-keep a rs _ v.1 (ground (arith, v.0))
      | inr e ↦ restore_ranges-rights a rs _ v.1 (ground arith)
    ]

-- `enable` saves rights to read and write for every range,
pub watch_loop-IsReadWrite :
    (page i : ℕ) (addresses : List ℕ) (sizes : List ℤ) (calls : List Protection)
    → IsReadWrite (watch_loop page i addresses sizes calls).0
unfolding watch_loop watched_range IsReadWrite
watch_loop-IsReadWrite page i [] sizes calls = tt
watch_loop-IsReadWrite page i (x ∷ addresses) [] calls = tt
watch_loop-IsReadWrite page i (x ∷ addresses) (y ∷ sizes) calls =
    (refl, watch_loop-IsReadWrite page (suc i) addresses sizes _)

watch_loop-keep :
    (a page i : ℕ) (addresses : List ℕ) (sizes : List ℤ) (calls : List Protection)
    → rights_at a calls ≡ some prot_none
    → rights_at a (watch_loop page i addresses sizes calls).1 ≡ some prot_none
unfolding watch_loop watched_range rights_at set_protection
watch_loop-keep a page i [] sizes calls h = h
watch_loop-keep a page i (x ∷ addresses) [] calls h = h
watch_loop-keep a page i (x ∷ addresses) (y ∷ sizes) calls h =
    watch_loop-keep a page (suc i) addresses sizes _ (ground arith)

-- and takes all rights from the addresses that it watches.
pub watch_loop-rights :
    (a page i : ℕ) (addresses : List ℕ) (sizes : List ℤ) (calls : List Protection)
    → is_covered a (watch_loop page i addresses sizes calls).0 ≡ true
    → rights_at a (watch_loop page i addresses sizes calls).1 ≡ some prot_none
unfolding watch_loop watched_range rights_at set_protection is_covered
watch_loop-rights a page i [] sizes calls h = absurd (ground arith)
watch_loop-rights a page i (x ∷ addresses) [] calls h = absurd (ground arith)
watch_loop-rights a page i (x ∷ addresses) (y ∷ sizes) calls h =
    let range = watched_range page i x y in
    elim (Bool-cases (within range.page_base range.page_size a)) [
      | inl e ↦ watch_loop-keep a page (suc i) addresses sizes _ (ground arith)
      | inr e ↦ watch_loop-rights a page (suc i) addresses sizes _ (ground arith)
    ]
