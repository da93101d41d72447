-- ===== src/NativeMemory/ScanModule.antt =====
-- The scan of a module finds the matches of every segment.
use better_ncm.Base.{
  ℕ, ◌+◌, ◌^◌, ◌<◌, ◌≤◌, ◌≡◌, ◌≢◌, refl, sym, ap, ◌∙◌, Option, some, List, [], ◌∷◌, ◌++◌, length,
  ok, All,
}
use mathlib.Core.List.{append-nil, append_assoc}
use better_ncm.Memory.{Memory}
use better_ncm.Scan.Pattern.{ParsedPattern, parse_pattern}
use better_ncm.Scan.Search.{scan_reference, bmh_scan-scan_reference}
use better_ncm.NativeMemory.{
  ScanMatch, ModuleInfo, to_matches, scan_range, scan_segments, scan_found, scan_module,
}

-- A range of fewer than 2^63 bytes that ends inside the address space.
abbrev pub Bounded : ℕ × ℕ → Type 0
Bounded r = (r.1 < 2 ^ 63) × (r.0 + r.1 ≤ 2 ^ 64)

-- The matches of each range, by trying every position.
abbrev pub matches_in : Memory → ParsedPattern → ℕ × ℕ → List ScanMatch
matches_in mem pat r = to_matches (scan_reference mem r.0 r.1 pat, length pat.bytes)

abbrev pub all_matches : Memory → ParsedPattern → List (ℕ × ℕ) → List ScanMatch
all_matches mem pat [] = []
all_matches mem pat (r ∷ rs) = matches_in mem pat r ++ all_matches mem pat rs

scan_range-matches :
    (mem : Memory) (pat : ParsedPattern) (r : ℕ × ℕ)
    → Bounded r
    → scan_range mem r.0 r.1 pat ≡ ok (matches_in mem pat r)
unfolding scan_range
scan_range-matches mem pat (base, size) (small, fits) =
    rw (bmh_scan-scan_reference mem base size pat small fits, scan_range) refl

scan_segments-matches :
    (mem : Memory) (pat : ParsedPattern) (rs : List (ℕ × ℕ)) (results : List ScanMatch)
    → All Bounded rs
    → scan_segments mem pat rs results ≡ ok (results ++ all_matches mem pat rs)
unfolding scan_segments
scan_segments-matches mem pat [] results b = ap ok (sym (append-nil results))
scan_segments-matches mem pat ((base, size) ∷ rs) results b =
    rw (scan_range-matches mem pat (base, size) b.0, scan_segments)
      (scan_segments-matches mem pat rs (results ++ matches_in mem pat (base, size)) b.1
        ∙ ap ok (append_assoc results (matches_in mem pat (base, size)) (all_matches mem pat rs)))

scan_found_segments :
    (mem : Memory) (pat : ParsedPattern) (info : ModuleInfo) (rs : List (ℕ × ℕ))
    → info.segments ≡ rs
    → rs ≢ []
    → All Bounded rs
    → scan_found mem info pat ≡ ok (all_matches mem pat rs)
unfolding scan_found
scan_found_segments mem pat info [] q some_segments b = absurd (some_segments refl)
scan_found_segments mem pat info (r ∷ rs) q some_segments b =
    rw (q, scan_found) (scan_segments-matches mem pat (r ∷ rs) [] b)

-- A module that is found, has segments, and whose segments have fewer than 2^63 bytes and end
-- inside the address space, is scanned segment by segment for a pattern that parses: the result is,
-- in the order of the segments, every match that trying each position finds.
pub scan_module-all_matches :
    (find : List ℕ → Option ModuleInfo) (mem : Memory) (name pattern : List ℕ) (info : ModuleInfo)
    (pat : ParsedPattern)
    → find name ≡ some info
    → parse_pattern pattern ≡ ok pat
    → info.segments ≢ []
    → All Bounded info.segments
    → scan_module find mem name pattern ≡ ok (all_matches mem pat info.segments)
unfolding scan_module
scan_module-all_matches find mem name pattern info pat found parsed some_segments b =
    rw (found, scan_module, parsed)
      (scan_found_segments mem pat info info.segments refl some_segments b)
