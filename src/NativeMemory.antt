-- ===== src/NativeMemory.antt =====
-- src/core/bindings/native_memory.cc on Linux, but for the scan itself (Scan): protection strings,
-- reads that survive a fault, patches, copies, and the scans of a range and of a module.
pub mod Effects
pub mod ScanModule
use better_ncm.Base.{
  ℕ, zero, suc, ◌+◌, ◌-◌, ◌/◌, ◌%◌, Bool, true, false, Option, none, some, List, [], ◌∷◌, ◌++◌,
  bit_or, map, ◌==◌, ltb, if◌then◌else◌, length, Outcome, ok, thrown,
}
use better_ncm.Base.Int.{ℤ, pos, negsuc}
use better_ncm.Hex.{NumberError}
use better_ncm.Memory.{Memory, write_bytes, read_bytes}
use better_ncm.Signals.{Dispositions, safe_read_handler}
use better_ncm.Scan.{bmh_scan}
use better_ncm.Scan.Pattern.{ParsedPattern, parse_pattern}

-- `prot.find(c) != npos`
pub contains : ℕ → List ℕ → Bool
contains c [] = false
contains c (x ∷ xs) = if x == c then true else contains c xs

-- PROT_READ is 1, PROT_WRITE 2 and PROT_EXEC 4.
pub prot_string_to_flags : List ℕ → ℕ
prot_string_to_flags prot =
    let r = if contains b'r' prot then 1 else 0 in
    let w = if contains b'w' prot then bit_or r 2 else r in
    if contains b'x' prot then bit_or w 4 else w

pub flags_to_prot_string : ℕ → List ℕ
flags_to_prot_string flags =
    (if flags % 2 == 1 then b'r' else b'-')
    ∷ (if flags / 2 % 2 == 1 then b'w' else b'-')
    ∷ (if flags / 4 % 2 == 1 then b'x' else b'-')
    ∷ []

pub read_memory : Memory → ℕ → ℕ → List ℕ
read_memory mem address size = read_bytes mem address size

pub write_memory : Memory → ℕ → List ℕ → Memory
write_memory mem address bytes = write_bytes mem address bytes

-- The dispositions while `safeReadMemory` reads, and after it: both signals get the action that
-- SIGSEGV had.
pub begin_safe_read : Dispositions → Dispositions
begin_safe_read old = record old { segv = safe_read_handler; bus = safe_read_handler }

pub end_safe_read : Dispositions → Dispositions → Dispositions
end_safe_read old now = record now { segv = old.segv; bus = old.segv }

-- The bytes one after another; `none` is a fault, from which the handler jumps back.
pub copy_range : Memory → (ℕ → Bool) → ℕ → ℕ → Option (List ℕ)
copy_range mem readable address zero = some []
copy_range mem readable address (suc size) =
    let rest : Option (List ℕ) = elim (copy_range mem readable (suc address) size) [
      | none ↦ none
      | some bytes ↦ some (mem address ∷ bytes)
    ] in
    if readable address then rest else none

-- What `assign` throws: the length of a negative size does not fit, or there is no memory
pub data ReadError : Type 0 where
  length_error bad_alloc : ReadError

-- What is left in `result`
pub or_empty : Option (List ℕ) → List ℕ
or_empty none = []
or_empty (some bytes) = bytes

-- `allocates` says whether there is memory for so many bytes. An exception of `assign` leaves the
-- function at once.
pub safe_read_memory :
    Memory
    → (ℕ → Bool)
    → (ℕ → Bool)
    → ℕ
    → ℤ
    → Dispositions
    → Outcome ReadError (List ℕ) × Dispositions
safe_read_memory mem readable allocates address (negsuc n) old =
    (thrown length_error, begin_safe_read old)
safe_read_memory mem readable allocates address (pos size) old =
    let during = begin_safe_read old in
    if allocates size
    then (ok (or_empty (copy_range mem readable address size)), end_safe_read old during)
    else (thrown bad_alloc, during)

-- `mprotect` decides; the old protection is not known, and "---" stands for it.
pub data MemoryError : Type 0 where
  mprotect_failed mmap_failed : MemoryError
  bad_pattern : NumberError → MemoryError
  no_module : List ℕ → MemoryError
  out_of_fuel : MemoryError

pub protect_memory : (ℕ → ℕ → ℕ → Bool) → ℕ → ℕ → List ℕ → Outcome MemoryError (List ℕ)
protect_memory mprotect address size protection =
    if mprotect address size (prot_string_to_flags protection)
    then ok (b'-' ∷ b'-' ∷ b'-' ∷ [])
    else thrown mprotect_failed

-- `patchCode` does not look at what `mprotect` returns.
pub patch_code : Memory → ℕ → List ℕ → Memory
patch_code mem address bytes = write_bytes mem address bytes

pub copy_memory : Memory → ℕ → ℕ → ℕ → Memory
copy_memory mem dst src size = write_bytes mem dst (read_bytes mem src size)

-- `ScanMatch`: where, and how many bytes.
pub record ScanMatch : Type 0 where
  pub address : ℕ
  pub size : ℕ

pub to_matches : List ℕ × ℕ → List ScanMatch
to_matches (found, size) = map (λ a. record { address = a; size = size }) found

pub scan_range : Memory → ℕ → ℕ → ParsedPattern → Outcome MemoryError (List ScanMatch)
scan_range mem base size pat = elim (bmh_scan mem base size pat) [
  | none ↦ thrown out_of_fuel
  | some r ↦ ok (to_matches r)
]

pub scan_memory : Memory → ℕ → ℕ → List ℕ → Outcome MemoryError (List ScanMatch)
scan_memory mem address size pattern = elim (parse_pattern pattern) [
  | thrown e ↦ thrown (bad_pattern e)
  | ok pat ↦ scan_range mem address size pat
]

-- `ModuleInfo`, with the segments as base and size.
pub record ModuleInfo : Type 0 where
  pub base : ℕ
  pub size : ℕ
  pub segments : List (ℕ × ℕ)

-- The loop of `scanModule` over the segments.
pub scan_segments :
    Memory → ParsedPattern → List (ℕ × ℕ) → List ScanMatch → Outcome MemoryError (List ScanMatch)
scan_segments mem pat [] results = ok results
scan_segments mem pat ((base, size) ∷ rest) results = elim (scan_range mem base size pat) [
  | thrown e ↦ thrown e
  | ok hits ↦ scan_segments mem pat rest (results ++ hits)
]

pub scan_found : Memory → ModuleInfo → ParsedPattern → Outcome MemoryError (List ScanMatch)
scan_found mem info pat = elim info.segments [
  | [] ↦ scan_range mem info.base info.size pat
  | x ∷ xs ↦ scan_segments mem pat (x ∷ xs) []
]

-- `scanModule`; `find` is `NativeProcess::findModuleByName`.
pub scan_module :
    (List ℕ → Option ModuleInfo) → Memory → List ℕ → List ℕ → Outcome MemoryError (List ScanMatch)
scan_module find mem name pattern = elim (find name) [
  | none ↦ thrown (no_module name)
  | some info ↦ elim (parse_pattern pattern) [
    | thrown e ↦ thrown (bad_pattern e)
    | ok pat ↦ scan_found mem info pat
  ]
]
