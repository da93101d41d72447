-- ===== src/Process/Modules.antt =====
-- The modules that the lines of the map make.
use better_ncm.Base.{
  ◌+◌, ◌^◌, ◌<◌, ◌≤◌, ◌≡◌, refl, ◌⊎◌, Bool, true, ◌&&◌, ◌||◌, none, some, List, [], ◌∷◌, arith, leb,
  ◌==◌, All, All-append, All-imp, Any, Any-append_left, Any-append_last, Bool-cases, inl, inr,
}
use better_ncm.Exceptions.{same_text}
use better_ncm.Exceptions.Dispatch.{same_text_refl}
use better_ncm.Process.{
  MapsLine, Segment, LinuxModInfo, segment_of, grow_module, grow_modules, new_module, is_file,
  module_step, module_loop, first_char,
}

-- A segment lies inside a module.
abbrev pub Inside : LinuxModInfo → Segment → Type 0
Inside m s = (m.base ≤ s.base) × (s.base + s.size ≤ m.end)

abbrev pub IsSpanned : LinuxModInfo → Type 0
IsSpanned m = All (Inside m) m.segments

-- The range of a line does not run backwards and ends inside the address space.
abbrev pub IsRange : MapsLine → Type 0
IsRange line = (line.start ≤ line.end) × (line.end < 2 ^ 64)

grow_module-IsSpanned :
    (line : MapsLine) (m : LinuxModInfo)
    → IsRange line
    → IsSpanned m
    → IsSpanned (grow_module line m)
unfolding grow_module segment_of
grow_module-IsSpanned line m r v =
    All-append _ m.segments _
      (All-imp (Inside m) _ m.segments (λ s h. (ground (arith, h.0), ground (arith, h.1))) v)
      ((ground arith, ground (arith, r.0, r.1)), tt)

-- The module has the path of the line, and its segment.
pub record HasSegment (line : MapsLine) (m : LinuxModInfo) : Type 0 where
  pub same_path : same_text m.path line.pathname ≡ true
  pub listed : Any (λ s. s ≡ segment_of line) m.segments

grow_module-HasSegment :
    (line l : MapsLine) (m : LinuxModInfo) → HasSegment l m → HasSegment l (grow_module line m)
unfolding grow_module
grow_module-HasSegment line l m h = record {
  same_path = h.same_path;
  listed = Any-append_left _ m.segments _ h.listed;
}

grow_module-listed :
    (line : MapsLine) (m : LinuxModInfo)
    → same_text m.path line.pathname ≡ true
    → HasSegment line (grow_module line m)
unfolding grow_module
grow_module-listed line m e = record { same_path = e; listed = Any-append_last _ m.segments _ refl }

-- What the inner loop leaves of the modules
pub record Grown (line : MapsLine) (ms found : List LinuxModInfo) : Type 0 where
  pub spanned : IsRange line → All IsSpanned ms → All IsSpanned found
  pub kept : (l : MapsLine) → Any (HasSegment l) ms → Any (HasSegment l) found
  pub listed : Any (HasSegment line) found

grow_modules-Grown :
    (line : MapsLine) (ms : List LinuxModInfo)
    → (grow_modules line ms ≡ none)
      ⊎ ((found : List LinuxModInfo) × (grow_modules line ms ≡ some found) × Grown line ms found)
unfolding grow_modules
grow_modules-Grown line [] = inl refl
grow_modules-Grown line (m ∷ ms) = elim (Bool-cases (same_text m.path line.pathname)) [
  | inl e ↦ inr (
    grow_module line m ∷ ms,
    rw (e, grow_modules) refl,
    record {
      spanned = λ r v. (grow_module-IsSpanned line m r v.0, v.1);
      kept = λ l h. elim h [
        | inl here ↦ inl (grow_module-HasSegment line l m here)
        | inr later ↦ inr later
      ];
      listed = inl (grow_module-listed line m e);
    },
  )
  | inr e ↦ elim (grow_modules-Grown line ms) [
    | inl q ↦ inl (rw (e, q, grow_modules) refl)
    | inr (found, q, g) ↦ inr (
      m ∷ found,
      rw (e, q, grow_modules) refl,
      record {
        spanned = λ r v. (v.0, g.spanned r v.1);
        kept = λ l h. elim h [ inl here ↦ inl here | inr later ↦ inr (g.kept l later) ];
        listed = inr g.listed;
      },
    )
  ]
]

new_module-HasSegment : (line : MapsLine) → HasSegment line (new_module line)
unfolding new_module
new_module-HasSegment line = record { same_path = same_text_refl line.pathname; listed = inl refl }

new_module-IsSpanned : (line : MapsLine) → IsRange line → IsSpanned (new_module line)
unfolding new_module segment_of
new_module-IsSpanned line r = ((omega arith, omega (arith, r.0, r.1)), tt)

-- Lines that count as segments of files
abbrev pub is_segment : MapsLine → Bool
is_segment line = leb 7 line.converted && is_file line

-- A round of the outer loop
record Stepped (line : MapsLine) (ms found : List LinuxModInfo) : Type 0 where
  spanned : IsRange line → All IsSpanned ms → All IsSpanned found
  kept : (l : MapsLine) → Any (HasSegment l) ms → Any (HasSegment l) found
  listed : is_segment line ≡ true → Any (HasSegment line) found

module_step-Stepped :
    (ms : List LinuxModInfo) (line : MapsLine) → Stepped line ms (module_step ms line)
unfolding module_step
module_step-Stepped ms line = elim (Bool-cases (leb 7 line.converted)) [
  | inr short ↦
      rw (short, module_step)
        (record { spanned = λ r v. v; kept = λ l h. h; listed = λ q. absurd (ground (arith, q)) })
  | inl long ↦ elim (Bool-cases (is_file line || first_char line.pathname == b'[')) [
    | inr other ↦
        rw (long, other, module_step)
          (record { spanned = λ r v. v; kept = λ l h. h; listed = λ q. absurd (ground (arith, q)) })
    | inl path ↦ elim (grow_modules-Grown line ms) [
      | inr (found, q, g) ↦
          rw (long, path, q, module_step)
            (record { spanned = g.spanned; kept = g.kept; listed = λ _. g.listed })
      | inl q ↦ elim (Bool-cases (is_file line)) [
        | inr no_file ↦
            rw (long, path, q, no_file, module_step)
              (record {
                spanned = λ r v. v;
                kept = λ l h. h;
                listed = λ p. absurd (ground (arith, p));
              })
        | inl file ↦
            rw (long, path, q, file, module_step)
              (record {
                spanned = λ r v. All-append IsSpanned ms _ v (new_module-IsSpanned line r, tt);
                kept = λ l h. Any-append_left (HasSegment l) ms _ h;
                listed = λ _. Any-append_last (HasSegment line) ms _ (new_module-HasSegment line);
              })
      ]
    ]
  ]
]

module_loop-kept :
    (l : MapsLine) (lines : List MapsLine) (ms : List LinuxModInfo)
    → Any (HasSegment l) ms
    → Any (HasSegment l) (module_loop ms lines)
unfolding module_loop
module_loop-kept l [] ms h = h
module_loop-kept l (line ∷ lines) ms h =
    module_loop-kept l lines (module_step ms line) ((module_step-Stepped ms line).kept l h)

-- Every segment of a file is a segment of the module with its path.
module_loop-HasSegment :
    (lines : List MapsLine) (ms : List LinuxModInfo)
    → All (λ line. is_segment line ≡ true → Any (HasSegment line) (module_loop ms lines)) lines
unfolding module_loop
module_loop-HasSegment [] ms = tt
module_loop-HasSegment (line ∷ lines) ms = (
  λ q. module_loop-kept line lines (module_step ms line) ((module_step-Stepped ms line).listed q),
  module_loop-HasSegment lines (module_step ms line),
)

-- Every segment lies between the base and the end of its module.
module_loop-IsSpanned :
    (lines : List MapsLine) (ms : List LinuxModInfo)
    → All IsRange lines
    → All IsSpanned ms
    → All IsSpanned (module_loop ms lines)
unfolding module_loop
module_loop-IsSpanned [] ms r v = v
module_loop-IsSpanned (line ∷ lines) ms r v =
    module_loop-IsSpanned lines (module_step ms line) r.1
      ((module_step-Stepped ms line).spanned r.0 v)

-- In the modules that `enumerateModules` builds from the lines, every segment lies between the base
-- and the end of its module, and every line of a file is a segment of a module with its path. The
-- ranges of the lines do not run backwards and end below 2^64.
pub module_loop_lem :
    (lines : List MapsLine)
    → All IsRange lines
    → All IsSpanned (module_loop [] lines)
      × All (λ line. is_segment line ≡ true → Any (HasSegment line) (module_loop [] lines)) lines
module_loop_lem lines r = (module_loop-IsSpanned lines [] r tt, module_loop-HasSegment lines [])
