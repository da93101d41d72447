-- ===== src/Process/Ranges.antt =====
-- Which ranges `enumerateRanges` lists.
use better_ncm.Base.{
  ℕ, ◌≡◌, refl, true, List, [], ◌∷◌, arith, ◌==◌, if◌then◌else◌, All, Bool-cases, inl, inr, ◌⊎◌,
}
use better_ncm.NativeMemory.{contains}
use better_ncm.Process.{MapsLine, RangeInfo, matches_prot, range_of, enumerate_ranges}

-- The list without the ranges that lack a right
pub filter_ranges : List ℕ → List RangeInfo → List RangeInfo
filter_ranges protection [] = []
filter_ranges protection (r ∷ rs) =
    let rest = filter_ranges protection rs in
    if matches_prot protection r.protection then r ∷ rest else rest

enumerate_ranges-filter :
    (protection : List ℕ) (lines : List MapsLine)
    → enumerate_ranges protection lines ≡ filter_ranges protection (enumerate_ranges [] lines)
unfolding enumerate_ranges filter_ranges matches_prot range_of
enumerate_ranges-filter protection [] = refl
enumerate_ranges-filter protection (line ∷ lines) =
    ground (arith, enumerate_ranges-filter protection lines)

-- Every right asked for, but for dashes, is there.
abbrev pub HasRights : List ℕ → List ℕ → Type 0
HasRights cs prot = All (λ c. ((c == b'-') ≡ true) ⊎ (contains c prot ≡ true)) cs

-- The rights asked for, but for dashes, are rights of the range.
matches_prot_lem : (cs prot : List ℕ) → matches_prot cs prot ≡ true → HasRights cs prot
unfolding matches_prot
matches_prot_lem [] prot h = tt
matches_prot_lem (c ∷ cs) prot h = (
  elim (Bool-cases (c == b'-')) [ inl e ↦ inl e | inr e ↦ inr (ground arith) ],
  matches_prot_lem cs prot (ground arith),
)

filter_ranges-HasRights :
    (cs : List ℕ) (rs : List RangeInfo)
    → All (λ (r : RangeInfo). HasRights cs r.protection) (filter_ranges cs rs)
unfolding filter_ranges
filter_ranges-HasRights cs [] = tt
filter_ranges-HasRights cs (r ∷ rs) = elim (Bool-cases (matches_prot cs r.protection)) [
  | inl e ↦
      rw (e, filter_ranges) (matches_prot_lem cs r.protection e, filter_ranges-HasRights cs rs)
  | inr e ↦ rw (e, filter_ranges) (filter_ranges-HasRights cs rs)
]

-- `enumerateRanges` lists, in their order, the ranges of the whole list that pass `matchesProt`,
-- and each of them has every right asked for but for dashes.
pub enumerate_ranges_lem :
    (protection : List ℕ) (lines : List MapsLine)
    → (enumerate_ranges protection lines ≡ filter_ranges protection (enumerate_ranges [] lines))
      × All
          (λ (r : RangeInfo). HasRights protection r.protection)
          (enumerate_ranges protection lines)
enumerate_ranges_lem protection lines =
    let same = enumerate_ranges-filter protection lines in
    (same, rw same (filter_ranges-HasRights protection (enumerate_ranges [] lines)))
