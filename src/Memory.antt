-- ===== src/Memory.antt =====
-- The memory of the process, which every component reads and patches: a function from addresses to
-- bytes. An access to an unmapped page ends the program and is outside the model.
pub mod Endian
use better_ncm.Base.{
  ℕ, zero, suc, ◌+◌, ◌-◌, ◌≤◌, ◌<◌, ◌≡◌, refl, ap, fun_ext, ◌&&◌, Bool, List, [], ◌∷◌, arith, ltb,
  leb, ◌==◌, if◌then◌else◌, length, get_or,
}

abbrev pub Memory : Type 0
Memory = ℕ → ℕ

abbrev pub store : Memory → ℕ → ℕ → Memory
store mem a v x = if a == x then v else mem x

-- `std::memcpy` from a vector of bytes to address `a`
unfoldable pub write_bytes : Memory → ℕ → List ℕ → Memory
write_bytes mem a [] = mem
write_bytes mem a (b ∷ bs) = write_bytes (store mem a b) (suc a) bs

-- `std::memcpy` of `n` bytes at address `a` into a vector
unfoldable pub read_bytes : Memory → ℕ → ℕ → List ℕ
read_bytes mem a zero = []
read_bytes mem a (suc n) = mem a ∷ read_bytes mem (suc a) n

abbrev pub within : ℕ → ℕ → ℕ → Bool
within a n x = leb a x && ltb x (a + n)

pub length-read_bytes : (mem : Memory) (a n : ℕ) → length (read_bytes mem a n) ≡ n
unfolding read_bytes
length-read_bytes mem a zero = refl
length-read_bytes mem a (suc n) = ap suc (length-read_bytes mem (suc a) n)

get_or-suc :
    (b : ℕ) (bs : List ℕ) (x a : ℕ)
    → suc a ≤ x
    → get_or bs (x - suc a) 0 ≡ get_or (b ∷ bs) (x - a) 0
get_or-suc b bs x a h = let at : x - a ≡ suc (x - suc a) = omega arith in rw at

-- What a write leaves at each address.
pub write_bytes_at :
    (mem : Memory) (a : ℕ) (bs : List ℕ) (x : ℕ)
    → write_bytes mem a bs x ≡ (if within a (length bs) x then get_or bs (x - a) 0 else mem x)
unfolding write_bytes
write_bytes_at mem a [] x = ground arith
write_bytes_at mem a (b ∷ bs) x =
    let here : a ≡ x → x - a ≡ 0 = λ e. omega arith in
    ground (arith, write_bytes_at (store mem a b) (suc a) bs x, get_or-suc b bs x a, here)

pub read_bytes_at :
    (mem : Memory) (a n i : ℕ) → i < n → get_or (read_bytes mem a n) i 0 ≡ mem (a + i)
unfolding read_bytes
read_bytes_at mem a zero i h = absurd (omega arith)
read_bytes_at mem a (suc n) zero h = ap mem (omega arith)
read_bytes_at mem a (suc n) (suc i) h =
    let at : suc a + i ≡ a + suc i = omega arith in
    rw at at (read_bytes_at mem (suc a) n i (omega arith))

-- Writing back what was read before a write of the same length undoes the write.
pub write-read_undo :
    (mem : Memory) (a : ℕ) (bs : List ℕ)
    → write_bytes (write_bytes mem a bs) a (read_bytes mem a (length bs)) ≡ mem
write-read_undo mem a bs = fun_ext λ x.
    let at : a ≤ x → a + (x - a) ≡ x = λ h. omega arith in
    ground (
      arith,
      write_bytes_at (write_bytes mem a bs) a (read_bytes mem a (length bs)) x,
      write_bytes_at mem a bs x,
      length-read_bytes mem a (length bs),
      read_bytes_at mem a (length bs) (x - a),
      at,
    )

-- A read after a write at the same place sees what was written.
pub read-write_bytes :
    (mem : Memory) (a : ℕ) (bs : List ℕ) → read_bytes (write_bytes mem a bs) a (length bs) ≡ bs
unfolding write_bytes read_bytes
read-write_bytes mem a [] = refl
read-write_bytes mem a (b ∷ bs) =
    let head : write_bytes (store mem a b) (suc a) bs a ≡ b =
      ground (arith, write_bytes_at (store mem a b) (suc a) bs a) in
    ground (arith, head, read-write_bytes (store mem a b) (suc a) bs)
