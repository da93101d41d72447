-- ===== src/Relocator/Effects.antt =====
-- What the functions of code_relocator.cc change: patching touches memory only, building code only
-- the live blocks.
use better_ncm.Base.{
  ℕ, ◌+◌, ◌%◌, ◌^◌, ◌≡◌, refl, ap, ◌∙◌, ◌≢◌, none, List, [], ◌∷◌, ◌++◌, arith, inl, inr, ◌⊎◌,
  Option-cases, Outcome, ok, thrown, lookup, insert, erase, erase_fresh, IsFresh-of_lookup, true,
  false, ◌==◌, length, length-append,
}
use better_ncm.Memory.{Memory, write_bytes}
use better_ncm.Memory.Endian.{le_bytes, length-le_bytes}
use better_ncm.Relocator.Code.{Host, Allocates, Emit, Blocks, embed_u64, jmp_rip}
use better_ncm.Relocator.{
  Machine, CodeError, build_failed, make_writable_and_patch, generate_patch_bytes, patch_size,
  add_block, finish_relocated, build_relocated_code, build_trampoline, release_code,
  trampoline_code,
}

pub length-generate_patch_bytes : (t : ℕ) → length (generate_patch_bytes t) ≡ patch_size
unfolding generate_patch_bytes
length-generate_patch_bytes t = omega (
  arith,
  length-append (0xFF ∷ 0x25 ∷ le_bytes 4 0) (le_bytes 8 t),
  length-le_bytes 4 0,
  length-le_bytes 8 t,
)

-- A patch leaves the blocks alone; on success it has written the bytes.
pub patch-blocks :
    (host : Host) (m : Machine) (a : ℕ) (bs : List ℕ)
    → (make_writable_and_patch host m a bs).1.blocks ≡ m.blocks
unfolding make_writable_and_patch
patch-blocks host m a bs = ground arith

pub patch-mem :
    (host : Host) (m : Machine) (a : ℕ) (bs : List ℕ)
    → (make_writable_and_patch host m a bs).0 ≡ ok tt
    → (make_writable_and_patch host m a bs).1.mem ≡ write_bytes m.mem a bs
unfolding make_writable_and_patch
patch-mem host m a bs h = ground arith

-- Where every `mprotect` succeeds, so does a patch.
pub patch_ok :
    (host : Host) (m : Machine) (a : ℕ) (bs : List ℕ)
    → ((s n p : ℕ) → host.mprotect s n p ≡ true)
    → make_writable_and_patch host m a bs ≡ (ok tt, record m { mem = write_bytes m.mem a bs })
unfolding make_writable_and_patch
patch_ok host m a bs h = rw (h, h)

-- The outcomes of `add_block`: an error that changes nothing, or a new block at a free address.
abbrev pub Added : Machine → List Emit → Outcome CodeError ℕ × Machine → Type 0
Added m code r =
    (r ≡ (thrown build_failed, m))
    ⊎ ((a : ℕ) × (a ≢ 0)
        × (lookup a m.blocks ≡ none)
        × (r ≡ (ok a, record m { blocks = insert a code m.blocks })))

module _ (host : Host) (laws : Allocates host) where
  pub add_block-Added : (m : Machine) (code : List Emit) → Added m code (add_block host m code)
  unfolding add_block
  add_block-Added m code = elim (Option-cases (host.jit_add m.blocks code)) [
    | inl e ↦ inl (rw (e, add_block))
    | inr (a, e) ↦
        let nz : (a == 0) ≡ false = ground (arith, laws.not_null m.blocks code a e) in
        inr (
          a,
          laws.not_null m.blocks code a e,
          laws.not_live m.blocks code a e,
          ground (arith, e, nz),
        )
  ]

  pub build_trampoline-Added :
      (m : Machine) (enter leave user relocated : ℕ)
      → Added m
          (trampoline_code enter leave user relocated)
          (build_trampoline host m enter leave user relocated)
  unfolding build_trampoline
  build_trampoline-Added m enter leave user relocated =
      add_block-Added m (trampoline_code enter leave user relocated)

  -- `buildRelocatedCode` fails with nothing changed, or adds one block at a free address.
  abbrev pub Built : Machine → Outcome CodeError (ℕ × ℕ) × Machine → Type 0
  Built m r =
      ((e : CodeError) × (r ≡ (thrown e, m)))
      ⊎ ((a : ℕ) × (consumed : ℕ) × (code : List Emit) × (a ≢ 0)
          × (lookup a m.blocks ≡ none)
          × (r ≡ (ok (a, consumed), record m { blocks = insert a code m.blocks })))

  finish_relocated-Built :
      (m : Machine) (source : ℕ) (r : Outcome CodeError (List Emit × ℕ))
      → Built m (finish_relocated host m source r)
  unfolding finish_relocated
  finish_relocated-Built m source (thrown e) = inl (e, refl)
  finish_relocated-Built m source (ok (code, consumed)) =
      elim (add_block-Added m (code ++ jmp_rip ∷ embed_u64 ((source + consumed) % 2 ^ 64) ∷ [])) [
        | inl e ↦ inl (build_failed, ground (arith, e))
        | inr (a, nz, fresh, e) ↦ inr (
          a,
          consumed,
          (code ++ jmp_rip ∷ embed_u64 ((source + consumed) % 2 ^ 64) ∷ []),
          nz,
          fresh,
          ground (arith, e),
        )
      ]

  pub build_relocated_code-Built :
      (m : Machine) (source min_bytes : ℕ) → Built m (build_relocated_code host m source min_bytes)
  unfolding build_relocated_code
  build_relocated_code-Built m source min_bytes = finish_relocated-Built m source _

-- Releasing a block that was just added leaves the blocks that were there.
pub release-insert :
    (m : Machine) (a : ℕ) (code : List Emit)
    → a ≢ 0
    → lookup a m.blocks ≡ none
    → release_code (record m { blocks = insert a code m.blocks }) a ≡ m
unfolding release_code insert erase
release-insert m a code nz fresh =
    let test : (a == 0) ≡ false = ground arith in
    let same : (a == a) ≡ true = ground arith in
    let gone : erase a m.blocks ≡ m.blocks =
      erase_fresh a m.blocks (IsFresh-of_lookup a m.blocks fresh) in
    rw (test, same, gone) (ap (λ b. record m { blocks = b }) gone)

-- Releasing null does nothing.
pub release_null : (m : Machine) → release_code m 0 ≡ m
unfolding release_code
release_null m = refl

pub release-mem : (m : Machine) (a : ℕ) → (release_code m a).mem ≡ m.mem
unfolding release_code
release-mem m a = ground arith

-- Every `mprotect` succeeds.
abbrev pub Protects : Host → Type 0
Protects host = (start size prot : ℕ) → host.mprotect start size prot ≡ true

-- Releasing two blocks that were just added.
pub release_two :
    (mem : Memory) (blocks : Blocks) (code t : ℕ) (block block' : List Emit)
    → code ≢ 0
    → lookup code blocks ≡ none
    → t ≢ 0
    → lookup t (insert code block blocks) ≡ none
    → release_code
        (release_code (record { mem = mem; blocks = insert t block' (insert code block blocks) }) t)
        code
      ≡ record { mem = mem; blocks = blocks }
release_two mem blocks code t block block' nz fresh tnz tfresh =
    ap (λ (m : Machine). release_code m code)
      (release-insert (record { mem = mem; blocks = insert code block blocks }) t block' tnz tfresh)
    ∙ release-insert (record { mem = mem; blocks = blocks }) code block nz fresh
