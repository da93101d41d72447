-- ===== src/ElfExports.antt =====
-- `enumerateExports` of src/core/bindings/native_process.cc on 64-bit Linux: the dynamic symbol table
-- of a loaded object. The objects that `dl_iterate_phdr` visits are an argument, and so is the text
-- at an address up to its null byte.
pub mod Count
use better_ncm.Base.{
  ℕ, zero, suc, ◌+◌, ◌-◌, ◌*◌, ◌/◌, ◌%◌, ◌^◌, Bool, true, false, not, ◌&&◌, ◌||◌, Option, none,
  some, List, [], ◌∷◌, ltb, leb, ◌==◌, if◌then◌else◌,
}
use better_ncm.Memory.{Memory, read_bytes}
use better_ncm.Memory.Endian.{le_value}
use better_ncm.Exceptions.{same_text}
use better_ncm.Process.{file_name}

-- `dl_phdr_info`: the program headers are pairs of `p_type` and `p_vaddr`.
pub record LoadedObject : Type 0 where
  pub name : List ℕ
  pub addr : ℕ
  pub phdrs : List (ℕ × ℕ)

-- `ExportInfo`: a function or a variable
pub record ExportInfo : Type 0 where
  pub is_function : Bool
  pub name : List ℕ
  pub address : ℕ

-- What the dynamic section says; null pointers are 0.
pub record DynamicInfo : Type 0 where
  pub symtab : ℕ
  pub strtab : ℕ
  pub nchain : ℕ
  pub gnu_buckets : ℕ
  pub gnu_nbuckets : ℕ
  pub gnu_symndx : ℕ

abbrev pub no_info : DynamicInfo
no_info = record {
  symtab = 0;
  strtab = 0;
  nchain = 0;
  gnu_buckets = 0;
  gnu_nbuckets = 0;
  gnu_symndx = 0;
}

-- A number of `k` bytes in memory
unfoldable pub word : ℕ → Memory → ℕ → ℕ
word k mem a = le_value (read_bytes mem a k)

-- The loop that looks for `PT_DYNAMIC`
pub find_dynamic : ℕ → List (ℕ × ℕ) → Option ℕ
find_dynamic base [] = none
find_dynamic base ((type, vaddr) ∷ rest) =
    let later = find_dynamic base rest in
    if type == 2 then some ((base + vaddr) % 2 ^ 64) else later

-- One entry of the dynamic section: `DT_SYMTAB`, `DT_STRTAB`, `DT_HASH` and `DT_GNU_HASH`
unfoldable pub dynamic_step : Memory → ℕ → ℕ → DynamicInfo → DynamicInfo
unfolding word
dynamic_step mem tag ptr info =
    let bloom_u32s = word 4 mem (ptr + 8) * 2 % 2 ^ 32 in
    if tag == 6
    then record info { symtab = ptr }
    else if tag == 5
    then record info { strtab = ptr }
    else if tag == 4
    then record info { nchain = word 4 mem (ptr + 4) }
    else if tag == 0x6ffffef5
    then record info {
      gnu_nbuckets = word 4 mem ptr;
      gnu_symndx = word 4 mem (ptr + 4);
      gnu_buckets = ptr + 16 + 4 * bloom_u32s;
    }
    else info

-- The loop over the dynamic section on fuel, up to `DT_NULL`
unfoldable pub dynamic_loop : ℕ → Memory → ℕ → DynamicInfo → Option DynamicInfo
unfolding word
dynamic_loop zero mem d info = none
dynamic_loop (suc fuel) mem d info =
    let rest =
      dynamic_loop fuel mem (d + 16) (dynamic_step mem (word 8 mem d) (word 8 mem (d + 8)) info) in
    if word 8 mem d == 0 then some info else rest

-- The loop for the largest bucket, over the next `n` buckets
unfoldable pub max_bucket : ℕ → Memory → ℕ → ℕ → ℕ
unfolding word
max_bucket zero mem bucket max_sym = max_sym
max_bucket (suc n) mem bucket max_sym =
    let value = word 4 mem bucket in
    max_bucket n mem (bucket + 4) (if ltb max_sym value then value else max_sym)

-- `while (!(chains[idx] & 1)) idx++;` on fuel
unfoldable pub chain_end : ℕ → Memory → ℕ → ℕ → Option ℕ
unfolding word
chain_end zero mem chains idx = none
chain_end (suc fuel) mem chains idx =
    let rest = chain_end fuel mem chains ((idx + 1) % 2 ^ 32) in
    if word 4 mem (chains + 4 * idx) % 2 == 1 then some idx else rest

unfoldable pub count_from_chain : DynamicInfo → Option ℕ → Option ℕ
count_from_chain info none = none
count_from_chain info (some idx) = some ((info.gnu_symndx + idx + 1) % 2 ^ 32)

-- The number of symbols: that of `DT_HASH`, or else one that `DT_GNU_HASH` gives
unfoldable pub symbol_count : ℕ → Memory → DynamicInfo → Option ℕ
symbol_count fuel mem info =
    let max_sym = max_bucket info.gnu_nbuckets mem info.gnu_buckets 0 in
    let gnu =
      count_from_chain info (
        chain_end fuel mem (info.gnu_buckets + 4 * info.gnu_nbuckets)
          (max_sym - info.gnu_symndx)) in
    if info.nchain == 0 && not (info.gnu_buckets == 0)
    then if leb info.gnu_symndx max_sym then gnu else some info.nchain
    else some info.nchain

module _ (text : Memory → ℕ → List ℕ) (mem : Memory) where
  -- The body of the loop over the symbols: `none` is `continue`.
  pub export_of : LoadedObject → DynamicInfo → ℕ → Option ExportInfo
  unfolding word
  export_of object info i =
      let sym = info.symtab + 24 * i in
      let st_info = word 1 mem (sym + 4) in
      let name = info.strtab + word 4 mem sym in
      let found : ExportInfo = record {
        is_function = st_info % 16 == 2;
        name = text mem name;
        address = (object.addr + word 8 mem (sym + 8)) % 2 ^ 64;
      } in
      if word 2 mem (sym + 6) == 0 || word 8 mem (sym + 8) == 0
      then none
      else if not (st_info / 16 == 1) && not (st_info / 16 == 2)
      then none
      else if mem name == 0
      then none
      else some found

  -- The next `n` symbols, from the index `i` on
  pub export_loop : ℕ → ℕ → LoadedObject → DynamicInfo → List ExportInfo
  unfolding export_of
  export_loop zero i object info = []
  export_loop (suc n) i object info =
      let rest = export_loop n (suc i) object info in
      elim (export_of object info i) [ none ↦ rest | some e ↦ e ∷ rest ]

  -- The callback on the object that is asked for; `none` stands for a loop that needs more fuel.
  pub object_exports : ℕ → LoadedObject → Option (List ExportInfo)
  unfolding export_loop find_dynamic
  object_exports fuel object = elim (find_dynamic object.addr object.phdrs) [
    | none ↦ some []
    | some dyn ↦ elim (dynamic_loop fuel mem dyn no_info) [
      | none ↦ none
      | some info ↦
          if info.symtab == 0 || info.strtab == 0
          then some []
          else elim (symbol_count fuel mem info) [
            | none ↦ none
            | some nsyms ↦ some (export_loop nsyms 0 object info)
          ]
    ]
  ]

  -- `dl_iterate_phdr` with the callback: it stops at the first object with the name or the path.
  pub enumerate_exports : ℕ → List ℕ → List LoadedObject → Option (List ExportInfo)
  unfolding object_exports
  enumerate_exports fuel module_name [] = some []
  enumerate_exports fuel module_name (object ∷ objects) =
      let rest = enumerate_exports fuel module_name objects in
      if not (same_text (file_name object.name) module_name)
        && not (same_text object.name module_name)
      then rest
      else object_exports fuel object
