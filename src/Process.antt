-- ===== src/Process.antt =====
-- src/core/bindings/native_process.cc on Linux: the modules and ranges of /proc/self/maps. What
-- `sscanf` makes of a line of that file is an argument.
pub mod Modules
pub mod Ranges
use better_ncm.Base.{
  ℕ, ◌+◌, ◌-◌, ◌%◌, ◌^◌, Bool, true, false, not, ◌&&◌, ◌||◌, Option, none, some, List, [], ◌∷◌,
  ◌++◌, map, ltb, leb, ◌==◌, if◌then◌else◌, get_or,
}
use better_ncm.Base.Int.{ℤ, to_signed}
use better_ncm.NativeMemory.{contains}
use better_ncm.Exceptions.{same_text}

-- A line as `sscanf` leaves it: how many fields it has converted, and those that are used. The path
-- is empty where there is none.
pub record MapsLine : Type 0 where
  pub converted : ℕ
  pub start : ℕ
  pub end : ℕ
  pub perms : List ℕ
  pub pathname : List ℕ

-- `SegmentInfo`
pub record Segment : Type 0 where
  pub base : ℕ
  pub size : ℕ

pub record LinuxModInfo : Type 0 where
  pub name : List ℕ
  pub path : List ℕ
  pub base : ℕ
  pub end : ℕ
  pub segments : List Segment

-- `ModuleInfo`; the size is an `int`.
pub record ModuleInfo : Type 0 where
  pub name : List ℕ
  pub base : ℕ
  pub size : ℤ
  pub path : List ℕ
  pub segments : List Segment

-- `static_cast<int>` of a `uint64_t`
abbrev pub to_int : ℕ → ℤ
to_int n = to_signed (2 ^ 32) (n % 2 ^ 32)

-- What follows the last `/`, if there is one
unfoldable pub after_slash : List ℕ → Option (List ℕ)
after_slash [] = none
after_slash (c ∷ cs) = elim (after_slash cs) [
  | some name ↦ some name
  | none ↦ if c == b'/' then some cs else none
]

-- `name.substr(pos + 1)` where `find_last_of('/')` finds a position
unfoldable pub file_name : List ℕ → List ℕ
file_name path = elim (after_slash path) [ none ↦ path | some name ↦ name ]

-- The first character of a text that a null byte ends
abbrev pub first_char : List ℕ → ℕ
first_char path = get_or path 0 0

unfoldable pub segment_of : MapsLine → Segment
segment_of line = record { base = line.start; size = (line.end + 2 ^ 64 - line.start) % 2 ^ 64 }

-- A further segment of a module
unfoldable pub grow_module : MapsLine → LinuxModInfo → LinuxModInfo
grow_module line m = record m {
  base = if ltb line.start m.base then line.start else m.base;
  end = if ltb m.end line.end then line.end else m.end;
  segments = m.segments ++ segment_of line ∷ [];
}

-- The inner loop of `enumerateModules`: `none` is `!found`.
unfoldable pub grow_modules : MapsLine → List LinuxModInfo → Option (List LinuxModInfo)
grow_modules line [] = none
grow_modules line (m ∷ ms) =
    let rest : Option (List LinuxModInfo) = elim (grow_modules line ms) [
      | none ↦ none
      | some found ↦ some (m ∷ found)
    ] in
    if same_text m.path line.pathname then some (grow_module line m ∷ ms) else rest

unfoldable pub new_module : MapsLine → LinuxModInfo
new_module line = record {
  name = file_name line.pathname;
  path = line.pathname;
  base = line.start;
  end = line.end;
  segments = segment_of line ∷ [];
}

unfoldable pub is_file : MapsLine → Bool
is_file line = first_char line.pathname == b'/'

-- A round of the outer loop. A path such as `[heap]` makes no module.
unfoldable pub module_step : List LinuxModInfo → MapsLine → List LinuxModInfo
module_step ms line =
    let found : List LinuxModInfo = elim (grow_modules line ms) [
      | some grown ↦ grown
      | none ↦ if is_file line then ms ++ new_module line ∷ [] else ms
    ] in
    if leb 7 line.converted
    then if is_file line || first_char line.pathname == b'[' then found else ms
    else ms

unfoldable pub module_loop : List LinuxModInfo → List MapsLine → List LinuxModInfo
module_loop ms [] = ms
module_loop ms (line ∷ lines) = module_loop (module_step ms line) lines

pub to_module_info : LinuxModInfo → ModuleInfo
to_module_info m = record {
  name = m.name;
  base = m.base;
  size = to_int ((m.end + 2 ^ 64 - m.base) % 2 ^ 64);
  path = m.path;
  segments = m.segments;
}

unfoldable pub enumerate_modules : List MapsLine → List ModuleInfo
enumerate_modules lines = map to_module_info (module_loop [] lines)

-- The loop of `findModuleByName`
unfoldable pub first_named : List ℕ → List ModuleInfo → Option ModuleInfo
first_named name [] = none
first_named name (m ∷ ms) =
    let rest = first_named name ms in if same_text m.name name then some m else rest

unfoldable pub find_module_by_name : List ℕ → List MapsLine → Option ModuleInfo
find_module_by_name name lines = first_named name (enumerate_modules lines)

pub record RangeInfo : Type 0 where
  pub base : ℕ
  pub size : ℤ
  pub protection : List ℕ
  pub file_path : List ℕ

-- The lambda `matchesProt`
unfoldable pub matches_prot : List ℕ → List ℕ → Bool
matches_prot [] range_prot = true
matches_prot (c ∷ cs) range_prot =
    let rest = matches_prot cs range_prot in
    if not (c == b'-') && not (contains c range_prot) then false else rest

unfoldable pub prot_of : List ℕ → List ℕ
prot_of perms =
    (if get_or perms 0 0 == b'r' then b'r' else b'-')
    ∷ (if get_or perms 1 0 == b'w' then b'w' else b'-')
    ∷ (if get_or perms 2 0 == b'x' then b'x' else b'-')
    ∷ []

unfoldable pub range_of : MapsLine → RangeInfo
range_of line = record {
  base = line.start;
  size = to_int ((line.end + 2 ^ 64 - line.start) % 2 ^ 64);
  protection = prot_of line.perms;
  file_path = if is_file line then line.pathname else [];
}

-- The loop of `enumerateRanges`
unfoldable pub enumerate_ranges : List ℕ → List MapsLine → List RangeInfo
enumerate_ranges protection [] = []
enumerate_ranges protection (line ∷ lines) =
    let rest = enumerate_ranges protection lines in
    if leb 3 line.converted
    then if matches_prot protection (prot_of line.perms) then range_of line ∷ rest else rest
    else rest

-- `findModuleByAddress` of what `dladdr` finds: the base and the name of the file
pub find_module_by_address : Option (ℕ × List ℕ) → Option ModuleInfo
unfolding file_name
find_module_by_address none = none
find_module_by_address (some (base, path)) =
    some
      (record { name = file_name path; base = base; size = to_int 0; path = path; segments = [] })
