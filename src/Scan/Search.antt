-- ===== src/Scan/Search.antt =====
-- `bmhScan` against the search that tries every position.
use mathlib.Core.List.{append-nil, append_assoc}
use better_ncm.Base.{
  ℕ, zero, suc, ◌+◌, ◌-◌, ◌^◌, ◌≤◌, ◌<◌, ◌≡◌, refl, sym, ap, ◌∙◌, true, false, some, List, [], ◌∷◌,
  ◌++◌, arith, ltb, leb, ◌==◌, if◌then◌else◌, length, dec_lt, Bool-cases, inl, inr,
}
use better_ncm.Scan.Pattern.{ParsedPattern}
use better_ncm.Scan.{add_size, compare_down, shift_table, search_loop, bmh_scan}
use better_ncm.Scan.Compare.{occurs, occurs-Agrees, compare_down-occurs}
use better_ncm.Scan.Shift.{Accepts, shift_table_bounds}

-- The reference: the addresses of the matches among the next positions from `i` on.
pub occurrences : (ℕ → ℕ) → ℕ → ParsedPattern → ℕ → ℕ → List ℕ
occurrences haystack base pat zero i = []
occurrences haystack base pat (suc rounds) i =
    let rest = occurrences haystack base pat rounds (suc i) in
    if occurs haystack pat i then (base + i) ∷ rest else rest

module _ (haystack : ℕ → ℕ) (base : ℕ) (pat : ParsedPattern) where
  m : ℕ
  m = length pat.bytes

  -- Positions without a match can be left out.
  occurrences_skip :
      (d rounds i k : ℕ)
      → i + d ≡ k
      → ((e : ℕ) → e < d → occurs haystack pat (i + e) ≡ false)
      → occurrences haystack base pat rounds i ≡ occurrences haystack base pat (rounds - d) k
  unfolding occurrences
  occurrences_skip zero rounds i k e h =
      let at : i ≡ k = omega arith in let all : rounds - 0 ≡ rounds = omega arith in rw (at, all)
  occurrences_skip (suc d) zero i k e h = let done : 0 - suc d ≡ 0 = omega arith in rw done
  occurrences_skip (suc d) (suc rounds) i k e h =
      let here : i + 0 ≡ i = omega arith in
      let miss : occurs haystack pat i ≡ false = rw here at (h 0 (omega arith)) in
      let left : suc rounds - suc d ≡ rounds - d = omega arith in
      rw (miss, left)
        (occurrences_skip d rounds (suc i) k (omega arith)
          λ j l. let at : i + suc j ≡ suc i + j = omega arith in rw at at (h (suc j) (omega arith)))

  -- The table never shifts past a match.
  no_match_before_shift :
      (i e : ℕ)
      → 0 < m
      → occurs haystack pat i ≡ false
      → e < shift_table pat (haystack (i + (m - 1)))
      → occurs haystack pat (i + e) ≡ false
  unfolding m
  no_match_before_shift i e h miss l = elim (Bool-cases (occurs haystack pat (i + e))) [
    | inr no_hit ↦ no_hit
    | inl hit ↦ absurd (elim (dec_lt 0 e) [
      | no start ↦
          let at : i + e ≡ i = omega arith in
          (let hit' : occurs haystack pat i ≡ true = rw at at hit in cc)
      | yes later ↦
          omega (arith, bounds, bounds.2 (m - 1 - e) (omega (arith, bounds.1)) (accepts hit))
    ])
  ]
    where
      bounds :
          (0 < shift_table pat (haystack (i + (m - 1))))
          × (shift_table pat (haystack (i + (m - 1))) ≤ m)
          × ((k : ℕ)
              → k < m - 1
              → Accepts pat k (haystack (i + (m - 1)))
              → shift_table pat (haystack (i + (m - 1))) ≤ m - 1 - k)
      bounds = shift_table_bounds pat (haystack (i + (m - 1))) h

      accepts :
          occurs haystack pat (i + e) ≡ true → Accepts pat (m - 1 - e) (haystack (i + (m - 1)))
      accepts hit t =
          let at : (i + e) + (m - 1 - e) ≡ i + (m - 1) = omega (arith, bounds.1) in
          rw at at
            (occurs-Agrees haystack pat.bytes pat.mask (i + e) hit (m - 1 - e) (omega arith) t)

  -- From position `i` on the loop finds what the reference finds, with enough fuel.
  search_loop-occurrences :
      (len fuel i : ℕ) (results : List ℕ)
      → len < 2 ^ 63
      → base + len ≤ 2 ^ 64
      → 0 < m
      → m ≤ len
      → i ≤ len
      → len < i + fuel
      → search_loop fuel haystack base len pat (shift_table pat) i results
        ≡ some (results ++ occurrences haystack base pat (suc len - m - i) i)
  unfolding search_loop m occurrences
  search_loop-occurrences len zero i results small fits h ml il enough = absurd (omega arith)
  search_loop-occurrences len (suc fuel) i results small fits h ml il enough =
      elim (dec_lt len (i + m)) [
        | yes past ↦
            let stop : leb (add_size i m) len ≡ false = ground (arith, at) in
            let left : suc len - m - i ≡ 0 = omega arith in rw (stop, left, append-nil)
        | no inside ↦
            let go : leb (add_size i m) len ≡ true = ground (arith, at) in
            let left : suc len - m - i ≡ suc (len - m - i) = omega arith in
            let decides : compare_down haystack pat i m ≡ occurs haystack pat i =
              compare_down-occurs haystack pat i (omega arith) in
            elim (Bool-cases (occurs haystack pat i)) [
              | inl hit ↦
                  let addr : add_size base i ≡ base + i = omega arith in
                  let next : add_size i 1 ≡ suc i = omega arith in
                  let rounds : suc len - m - suc i ≡ len - m - i = omega arith in
                  rw (go, left, decides, hit, addr, next, occurrences)
                    (search_loop-occurrences len fuel (suc i) (results ++ (base + i) ∷ []) small
                        fits h ml (omega arith) (omega arith)
                      ∙ rw (rounds, append_assoc))
              | inr miss ↦
                  let last : add_size i (m - 1) ≡ i + (m - 1) = omega arith in
                  let d = shift_table pat (haystack (i + (m - 1))) in
                  let bounds = shift_table_bounds pat (haystack (i + (m - 1))) h in
                  let next : add_size i d ≡ i + d = omega (arith, bounds.1) in
                  let rounds : suc len - m - (i + d) ≡ suc len - m - i - d = omega arith in
                  rw (go, decides, miss, last, next)
                    (search_loop-occurrences len fuel (i + d) results small fits h ml
                        (omega (arith, bounds.1)) (omega (arith, bounds.0))
                      ∙ rw rounds (
                          ap (λ found. some (results ++ found))
                            (sym (
                              occurrences_skip d (suc len - m - i) i (i + d) refl
                                λ e l. no_match_before_shift i e h miss l))))
            ]
      ]
    where
      at : add_size i m ≡ i + m
      at = omega arith

-- `bmhScan`'s result, by trying every position in turn. An empty pattern has no match.
pub scan_reference : (ℕ → ℕ) → ℕ → ℕ → ParsedPattern → List ℕ
scan_reference memory base len pat =
    if length pat.bytes == 0
    then []
    else occurrences (λ i. memory (add_size base i)) base pat (suc len - length pat.bytes) 0

-- For a buffer of fewer than 2^63 bytes that ends inside the address space, `bmhScan` ends within
-- its fuel and returns exactly the matches that trying every position finds, in ascending order and
-- overlapping ones included, with the pattern's length; for every pattern, with or without
-- wildcards.
pub bmh_scan-scan_reference :
    (memory : ℕ → ℕ) (base len : ℕ) (pat : ParsedPattern)
    → len < 2 ^ 63
    → base + len ≤ 2 ^ 64
    → bmh_scan memory base len pat ≡ some (scan_reference memory base len pat, length pat.bytes)
unfolding bmh_scan scan_reference occurrences m
bmh_scan-scan_reference memory base len pat small fits = elim (dec_lt 0 len_pat) [
  | no empty ↦ let none_left : len_pat ≡ 0 = omega arith in rw none_left
  | yes some_left ↦ elim (dec_lt len len_pat) [
    | yes long ↦
        let too_long : ltb len len_pat ≡ true = ground arith in
        let not_empty : (len_pat == 0) ≡ false = ground arith in
        let no_rounds : suc len - len_pat ≡ 0 = omega arith in
        rw (not_empty, too_long, no_rounds, occurrences)
    | no short ↦
        let not_long : ltb len len_pat ≡ false = ground arith in
        let not_empty : (len_pat == 0) ≡ false = ground arith in
        let found =
          search_loop-occurrences (λ i. memory (add_size base i)) base pat len (suc len) 0 [] small
            fits some_left (omega arith) (omega arith) (omega arith) in
        let all : suc len - len_pat - 0 ≡ suc len - len_pat = omega arith in
        rw (not_empty, not_long, found, all)
  ]
]
  where
    len_pat : ℕ
    len_pat = length pat.bytes
