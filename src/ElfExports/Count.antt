-- ===== src/ElfExports/Count.antt =====
-- The number of symbols that the GNU hash table gives.
use better_ncm.Base.{
  ℕ, zero, suc, ◌+◌, ◌-◌, ◌*◌, ◌%◌, ◌^◌, ◌<◌, ◌≤◌, ◌≡◌, ◌≢◌, refl, sym, ◌∙◌, ap, ◌⊎◌, inl, inr,
  Bool-cases, true, false, not, ◌&&◌, some, arith, ltb, leb, ◌==◌, if◌then◌else◌,
}
use better_ncm.Memory.{Memory}
use better_ncm.ElfExports.{DynamicInfo, word, max_bucket, chain_end, count_from_chain, symbol_count}

max_bucket-ge : (n : ℕ) (mem : Memory) (b m : ℕ) → m ≤ max_bucket n mem b m
unfolding max_bucket
max_bucket-ge zero mem b m = omega arith
max_bucket-ge (suc n) mem b m =
    let more = max_bucket-ge n mem (b + 4) (if ltb m (word 4 mem b) then word 4 mem b else m) in
    ground (arith, more)

-- No bucket is above the largest.
pub max_bucket-bound :
    (n : ℕ) (mem : Memory) (b m i : ℕ) → i < n → word 4 mem (b + 4 * i) ≤ max_bucket n mem b m
unfolding max_bucket
max_bucket-bound zero mem b m i h = absurd (omega arith)
max_bucket-bound (suc n) mem b m zero h =
    let at : b + 4 * 0 ≡ b = omega arith in
    let more = max_bucket-ge n mem (b + 4) (if ltb m (word 4 mem b) then word 4 mem b else m) in
    rw at (ground (arith, more))
max_bucket-bound (suc n) mem b m (suc i) h =
    let at : b + 4 * suc i ≡ b + 4 + 4 * i = omega arith in
    rw at (max_bucket-bound n mem (b + 4) _ i (omega arith))

-- The loop keeps its start or gives a bucket.
max_bucket-cases :
    (n : ℕ) (mem : Memory) (b m : ℕ)
    → (max_bucket n mem b m ≡ m)
      ⊎ ((i : ℕ) × (i < n) × (word 4 mem (b + 4 * i) ≡ max_bucket n mem b m))
unfolding max_bucket
max_bucket-cases zero mem b m = inl refl
max_bucket-cases (suc n) mem b m =
    let at : b + 4 * 0 ≡ b = omega arith in
    elim (max_bucket-cases n mem (b + 4) (if ltb m (word 4 mem b) then word 4 mem b else m)) [
      | inr (i, lt, q) ↦
          let there : b + 4 * suc i ≡ b + 4 + 4 * i = omega arith in
          inr (suc i, omega arith, rw there q)
      | inl q ↦ elim (Bool-cases (ltb m (word 4 mem b))) [
        | inr keeps ↦ inl (q ∙ ap (λ c. if c then word 4 mem b else m) keeps)
        | inl more ↦
            inr (0, omega arith, rw at (sym (q ∙ ap (λ c. if c then word 4 mem b else m) more)))
      ]
    ]

-- The bucket `i` holds `max_sym`, and no bucket holds more.
pub record IsLargest (mem : Memory) (info : DynamicInfo) (i max_sym : ℕ) : Type 0 where
  pub below : i < info.gnu_nbuckets
  pub here : word 4 mem (info.gnu_buckets + 4 * i) ≡ max_sym
  pub most : (j : ℕ) → j < info.gnu_nbuckets → word 4 mem (info.gnu_buckets + 4 * j) ≤ max_sym

max_bucket-IsLargest :
    (mem : Memory) (info : DynamicInfo) (i max_sym : ℕ)
    → IsLargest mem info i max_sym
    → max_bucket info.gnu_nbuckets mem info.gnu_buckets 0 ≡ max_sym
max_bucket-IsLargest mem info i max_sym v =
    let above = max_bucket-bound info.gnu_nbuckets mem info.gnu_buckets 0 i v.below in
    let here = v.here in
    elim (max_bucket-cases info.gnu_nbuckets mem info.gnu_buckets 0) [
      | inl q ↦ omega arith
      | inr (j, lt, q) ↦ let small = v.most j lt in omega arith
    ]

-- The walk along a chain ends at the first odd word, `n` words on.
pub chain_end_lem :
    (n fuel : ℕ) (mem : Memory) (chains idx : ℕ)
    → n < fuel
    → idx + n < 2 ^ 32
    → ((j : ℕ) → j < n → word 4 mem (chains + 4 * (idx + j)) % 2 ≡ 0)
    → word 4 mem (chains + 4 * (idx + n)) % 2 ≡ 1
    → chain_end fuel mem chains idx ≡ some (idx + n)
unfolding chain_end
chain_end_lem n zero mem chains idx h small even odd = absurd (omega arith)
chain_end_lem zero (suc fuel) mem chains idx h small even odd =
    let at : idx + 0 ≡ idx = omega arith in
    let last : word 4 mem (chains + 4 * idx) % 2 ≡ 1 = rw at at odd in
    let stop : (word 4 mem (chains + 4 * idx) % 2 == 1) ≡ true = ground arith in rw (at, stop) refl
chain_end_lem (suc n) (suc fuel) mem chains idx h small even odd =
    let at : idx + 0 ≡ idx = omega arith in
    let first : word 4 mem (chains + 4 * idx) % 2 ≡ 0 = rw at at (even 0 (omega arith)) in
    let go : (word 4 mem (chains + 4 * idx) % 2 == 1) ≡ false = ground arith in
    let next : (idx + 1) % 2 ^ 32 ≡ suc idx = omega arith in
    let shift : (j : ℕ) → suc idx + j ≡ idx + suc j = λ j. omega arith in
    rw (go, next)
      (chain_end_lem n fuel mem chains (suc idx) (omega arith) (omega arith)
          (λ j k. rw (shift j) (even (suc j) (omega arith))) (rw (shift n) odd)
        ∙ ap some (shift n))

-- The largest bucket is a symbol of the table, and its chain ends `n` words further on.
pub record EndsAfter (n : ℕ) (mem : Memory) (info : DynamicInfo) (max_sym : ℕ) : Type 0 where
  pub in_table : info.gnu_symndx ≤ max_sym
  pub small : max_sym + n + 1 < 2 ^ 32
  pub even :
      (j : ℕ)
      → j < n
      → word 4 mem (info.gnu_buckets + 4 * info.gnu_nbuckets + 4 * (max_sym - info.gnu_symndx + j))
          % 2
        ≡ 0
  pub odd :
      word 4 mem (info.gnu_buckets + 4 * info.gnu_nbuckets + 4 * (max_sym - info.gnu_symndx + n))
        % 2
      ≡ 1

-- With a GNU hash table only, the number of symbols is one more than the index of the last symbol
-- of the chain of the largest bucket, and the walk along that chain ends within its fuel. `max_sym`
-- is in the bucket `i` and no bucket holds more, its chain ends `n` words behind the first, which
-- is not before the table, the count is below 2^32, and the fuel is above `n`.
pub symbol_count_lem :
    (n fuel i max_sym : ℕ) (mem : Memory) (info : DynamicInfo)
    → info.nchain ≡ 0
    → info.gnu_buckets ≢ 0
    → IsLargest mem info i max_sym
    → EndsAfter n mem info max_sym
    → n < fuel
    → symbol_count fuel mem info ≡ some (max_sym + n + 1)
unfolding symbol_count count_from_chain
symbol_count_lem n fuel i max_sym mem info none_there table largest ends h =
    let found = max_bucket-IsLargest mem info i max_sym largest in
    let gnu : (info.nchain == 0 && not (info.gnu_buckets == 0)) ≡ true = ground arith in
    let there : leb info.gnu_symndx max_sym ≡ true = ground (arith, ends.in_table) in
    let walked =
      chain_end_lem n fuel mem (info.gnu_buckets + 4 * info.gnu_nbuckets)
        (max_sym - info.gnu_symndx) h (omega (arith, ends.small)) ends.even ends.odd in
    let total : (info.gnu_symndx + (max_sym - info.gnu_symndx + n) + 1) % 2 ^ 32 ≡ max_sym + n + 1 =
      omega (arith, ends.small, ends.in_table) in
    rw (gnu, found, there, walked, count_from_chain) (ap some total)
