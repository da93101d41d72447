-- ===== src/Scan/Compare.antt =====
-- The comparison of `bmhScan` at one position, against a comparison from left to right.
use better_ncm.Base.{
  ℕ, zero, suc, ◌+◌, ◌<◌, ◌^◌, ◌≡◌, refl, Bool, true, false, not, ◌&&◌, ◌||◌, List, [], ◌∷◌, arith,
  ◌==◌, length, get_or, dec_lt,
}
use better_ncm.Scan.Pattern.{ParsedPattern}
use better_ncm.Scan.{add_size, compare_down}

-- The reference: the cells of the pattern against the haystack from `i` on.
pub occurs_cells : (ℕ → ℕ) → List ℕ → List Bool → ℕ → Bool
occurs_cells haystack [] mask i = true
occurs_cells haystack (b ∷ bs) [] i = true
occurs_cells haystack (b ∷ bs) (k ∷ ks) i =
    (not k || (haystack i == b)) && occurs_cells haystack bs ks (suc i)

abbrev pub occurs : (ℕ → ℕ) → ParsedPattern → ℕ → Bool
occurs haystack pat i = occurs_cells haystack pat.bytes pat.mask i

-- Every byte of the mask below `n` agrees.
abbrev pub Agrees : (ℕ → ℕ) → List ℕ → List Bool → ℕ → ℕ → Type 0
Agrees haystack bs ks i n =
    (j : ℕ) → j < n → get_or ks j false ≡ true → haystack (i + j) ≡ get_or bs j 0

module _ (haystack : ℕ → ℕ) where
  pub occurs-Agrees :
      (bs : List ℕ) (ks : List Bool) (i : ℕ)
      → occurs_cells haystack bs ks i ≡ true
      → Agrees haystack bs ks i (length bs)
  unfolding occurs_cells
  occurs-Agrees [] ks i e j h t = absurd (omega arith)
  occurs-Agrees (b ∷ bs) [] i e j h t = cc
  occurs-Agrees (b ∷ bs) (k ∷ ks) i e zero h t =
      let at : i + 0 ≡ i = omega arith in rw at (ground arith)
  occurs-Agrees (b ∷ bs) (k ∷ ks) i e (suc j) h t =
      let at : i + suc j ≡ suc i + j = omega arith in
      let rest : occurs_cells haystack bs ks (suc i) ≡ true = ground arith in
      rw at (occurs-Agrees bs ks (suc i) rest j (omega arith) t)

  Agrees-occurs :
      (bs : List ℕ) (ks : List Bool) (i : ℕ)
      → Agrees haystack bs ks i (length bs)
      → occurs_cells haystack bs ks i ≡ true
  unfolding occurs_cells
  Agrees-occurs [] ks i a = refl
  Agrees-occurs (b ∷ bs) [] i a = refl
  Agrees-occurs (b ∷ bs) (k ∷ ks) i a =
      let head : k ≡ true → haystack i ≡ b =
        λ t. let at : i + 0 ≡ i = omega arith in rw at at (a 0 (omega arith) t) in
      let rest : occurs_cells haystack bs ks (suc i) ≡ true = Agrees-occurs bs ks (suc i) (λ j h t.
        let at : i + suc j ≡ suc i + j = omega arith in rw at at (a (suc j) (omega arith) t)) in
      ground arith

  module _ (pat : ParsedPattern) (i : ℕ) where
    compare_down-Agrees :
        (n : ℕ)
        → i + n < 2 ^ 64
        → compare_down haystack pat i n ≡ true
        → Agrees haystack pat.bytes pat.mask i n
    unfolding compare_down
    compare_down-Agrees zero h e j l t = absurd (omega arith)
    compare_down-Agrees (suc n) h e j l t =
        let at : add_size i n ≡ i + n = omega arith in
        elim (dec_lt j n) [
          | yes below ↦ compare_down-Agrees n (omega arith) (ground arith) j below t
          | no last ↦ let here : j ≡ n = omega arith in ground (arith, at)
        ]

    Agrees-compare_down :
        (n : ℕ)
        → i + n < 2 ^ 64
        → Agrees haystack pat.bytes pat.mask i n
        → compare_down haystack pat i n ≡ true
    unfolding compare_down
    Agrees-compare_down zero h a = refl
    Agrees-compare_down (suc n) h a =
        let at : add_size i n ≡ i + n = omega arith in
        let rest : compare_down haystack pat i n ≡ true =
          Agrees-compare_down n (omega arith) (λ j h t. a j (omega arith) t) in
        ground (arith, at, a n)

-- Comparing right to left, as the code does, decides the reference.
pub compare_down-occurs :
    (haystack : ℕ → ℕ) (pat : ParsedPattern) (i : ℕ)
    → i + length pat.bytes < 2 ^ 64
    → compare_down haystack pat i (length pat.bytes) ≡ occurs haystack pat i
compare_down-occurs haystack pat i h = ground (
  arith,
  λ (e : compare_down haystack pat i (length pat.bytes) ≡ true).
      Agrees-occurs haystack pat.bytes pat.mask i (compare_down-Agrees haystack pat i _ h e),
  λ (e : occurs haystack pat i ≡ true).
      Agrees-compare_down haystack pat i _ h (occurs-Agrees haystack pat.bytes pat.mask i e),
)
