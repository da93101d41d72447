-- ===== src/Scan.antt =====
-- The pattern scanner of src/core/bindings/native_memory.cc: `parsePattern` and `bmhScan`, a
-- Boyer-Moore-Horspool search with wildcards. Memory is a function from addresses to bytes.
pub mod Pattern
pub mod Compare
pub mod Shift
pub mod Search
use better_ncm.Base.{
  ℕ, zero, suc, ◌+◌, ◌-◌, ◌%◌, ◌^◌, Bool, true, false, not, ◌&&◌, ◌||◌, Option, none, some, List,
  [], ◌∷◌, ◌++◌, ltb, leb, ◌==◌, if◌then◌else◌, length, get_or,
}
use Pattern.{ParsedPattern}

-- `size_t` and `uint64_t` addition
abbrev pub add_size : ℕ → ℕ → ℕ
add_size a b = (a + b) % 2 ^ 64

-- `pat.bytes[j]` and `pat.mask[j]`; the code reads them below `pat.bytes.size()` only.
abbrev pub byte_at : ParsedPattern → ℕ → ℕ
byte_at pat j = get_or pat.bytes j 0

abbrev pub must_match : ParsedPattern → ℕ → Bool
must_match pat j = get_or pat.mask j false

-- A wildcard lowers every entry of the table to `s`.
pub cap_all : ℕ → (ℕ → ℕ) → ℕ → ℕ
cap_all s shift c = if ltb s (shift c) then s else shift c

-- A byte lowers its own entry.
pub cap_at : ℕ → ℕ → (ℕ → ℕ) → ℕ → ℕ
cap_at b s shift c = if b == c then (if ltb s (shift b) then s else shift b) else shift c

-- The body of the loop over `j`.
pub shift_step : ParsedPattern → ℕ → (ℕ → ℕ) → ℕ → ℕ
unfolding cap_all cap_at
shift_step pat j shift =
    let s = length pat.bytes - 1 - j in
    if not (must_match pat j) then cap_all s shift else cap_at (byte_at pat j) s shift

-- The rounds that are left, from `j` on.
pub shift_loop : ParsedPattern → ℕ → ℕ → (ℕ → ℕ) → ℕ → ℕ
shift_loop pat zero j shift = shift
shift_loop pat (suc rounds) j shift = shift_loop pat rounds (suc j) (shift_step pat j shift)

-- The finished bad-character table.
pub shift_table : ParsedPattern → ℕ → ℕ
shift_table pat =
    let m = length pat.bytes in
    let filled = shift_loop pat (m - 1) 0 (λ _. m) in
    if not (must_match pat (m - 1)) then cap_all 1 filled else filled

-- `for (j = m; j-- > 0;)`: compare right to left, and stop at the first difference.
pub compare_down : (ℕ → ℕ) → ParsedPattern → ℕ → ℕ → Bool
compare_down haystack pat i zero = true
compare_down haystack pat i (suc j) =
    let rest = compare_down haystack pat i j in
    if must_match pat j && not (haystack (add_size i j) == byte_at pat j) then false else rest

-- `while (i + m <= haystackLen)`. `none` means that the fuel ran out.
pub search_loop : ℕ → (ℕ → ℕ) → ℕ → ℕ → ParsedPattern → (ℕ → ℕ) → ℕ → List ℕ → Option (List ℕ)
search_loop zero haystack base len pat shift i results = none
search_loop (suc fuel) haystack base len pat shift i results =
    let m = length pat.bytes in
    let match = compare_down haystack pat i m in
    let next = add_size i (if match then 1 else shift (haystack (add_size i (m - 1)))) in
    let found = if match then results ++ (add_size base i ∷ []) else results in
    let rest = search_loop fuel haystack base len pat shift next found in
    if leb (add_size i m) len then rest else some results

-- `bmhScan`: the addresses of the matches in the `len` bytes at `base`, with their common size.
pub bmh_scan : (ℕ → ℕ) → ℕ → ℕ → ParsedPattern → Option (List ℕ × ℕ)
bmh_scan memory base len pat =
    let m = length pat.bytes in
    let haystack = λ (i : ℕ). memory (add_size base i) in
    let found = search_loop (suc len) haystack base len pat (shift_table pat) 0 [] in
    if m == 0 || ltb len m
    then some ([], m)
    else elim found [ none ↦ none | some results ↦ some (results, m) ]
