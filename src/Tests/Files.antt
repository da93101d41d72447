-- ===== src/Tests/Files.antt =====
-- The modules of the process, exported symbols, the console and the embedded configuration on concrete
-- inputs.
use better_ncm.Base.{
  ap, ℕ, zero, suc, ◌+◌, ◌-◌, ◌*◌, ◌%◌, ◌<◌, ◌≤◌, ◌≡◌, refl, true, some, List, [], ◌∷◌, arith,
  length, All, Any, ◌==◌, if◌then◌else◌,
}
use better_ncm.Memory.{Memory, read_bytes}
use better_ncm.Memory.Endian.{le_value}
use better_ncm.Process.{MapsLine}
use better_ncm.Process.Modules.{IsSpanned, HasSegment, is_segment, module_loop_lem}
use better_ncm.Process.{module_loop}
use better_ncm.ElfExports.{DynamicInfo, word, symbol_count}
use better_ncm.ElfExports.Count.{IsLargest, EndsAfter, symbol_count_lem}
use better_ncm.Console.{State}
use better_ncm.EmbeddedConfig.{
  LzmaRet, Decoder, lzma_stream_end, lzma_ok, chunk_size, is_ok, decompress,
}
use better_ncm.EmbeddedConfig.Decompress.{FillsChunks, Decompresses, decompress-Ends}

abbrev lib_path : List ℕ
lib_path = b'/' ∷ b'l' ∷ b'/' ∷ b'a' ∷ []

abbrev code_line : MapsLine
code_line = record {
  converted = 8;
  start = 0x1000;
  end = 0x3000;
  perms = b'r' ∷ b'-' ∷ b'x' ∷ b'p' ∷ [];
  pathname = lib_path;
}

-- A library of two segments, and a heap
abbrev lines : List MapsLine
lines =
    code_line
    ∷ record code_line { start = 0x3000; end = 0x4000; perms = b'r' ∷ b'w' ∷ b'-' ∷ b'p' ∷ [] }
    ∷ record code_line { start = 0x8000; end = 0x9000; pathname = b'[' ∷ b'h' ∷ b']' ∷ [] }
    ∷ []

module_loop_lem_example :
    All IsSpanned (module_loop [] lines)
    × All (λ line. is_segment line ≡ true → Any (HasSegment line) (module_loop [] lines)) lines
module_loop_lem_example =
    module_loop_lem lines
      ((omega arith, omega arith), ((omega arith, omega arith), ((omega arith, omega arith), tt)))

-- Two buckets at 0x100, with symbols 1 and 2; the chain of symbol 2 ends one word further on.
abbrev gnu_table : Memory
gnu_table a = if a == 0x100 then 1 else if a == 0x104 then 2 else if a == 0x110 then 1 else 0

abbrev gnu_info : DynamicInfo
gnu_info = record {
  symtab = 0x40;
  strtab = 0x80;
  nchain = 0;
  gnu_buckets = 0x100;
  gnu_nbuckets = 2;
  gnu_symndx = 1;
}

even_before : (j : ℕ) → j < 1 → word 4 gnu_table (0x100 + 4 * 2 + 4 * (2 - 1 + j)) % 2 ≡ 0
unfolding word read_bytes le_value
even_before zero h = refl
even_before (suc j) h = absurd (omega arith)

bucket_most : (j : ℕ) → j < 2 → word 4 gnu_table (0x100 + 4 * j) ≤ 2
unfolding word read_bytes le_value
bucket_most zero h = omega arith
bucket_most (suc zero) h = omega arith
bucket_most (suc (suc j)) h = absurd (omega arith)

gnu_table-IsLargest : IsLargest gnu_table gnu_info 1 2
unfolding word read_bytes le_value
gnu_table-IsLargest = record { below = omega arith; here = refl; most = bucket_most }

gnu_table-EndsAfter : EndsAfter 1 gnu_table gnu_info 2
unfolding word read_bytes le_value
gnu_table-EndsAfter = record {
  in_table = omega arith;
  small = omega arith;
  even = even_before;
  odd = refl;
}

symbol_count_lem_example : symbol_count 4 gnu_table gnu_info ≡ some 4
symbol_count_lem_example =
    symbol_count_lem 1 4 1 2 gnu_table gnu_info refl (λ e. absurd (omega arith)) gnu_table-IsLargest
      gnu_table-EndsAfter (omega arith)

abbrev silent : State
silent = record { current_group_depth = 3; timers = []; counters = []; printed = [] }

abbrev show_ms : ℕ → ℕ → List ℕ
show_ms start now = now ∷ []

abbrev show : ℕ → List ℕ
show n = n ∷ []

-- A group with a line in it
abbrev zeros : ℕ → List ℕ
zeros zero = []
zeros (suc n) = 0 ∷ zeros n

length-zeros : (n : ℕ) → length (zeros n) ≡ n
length-zeros zero = refl
length-zeros (suc n) = ap suc (length-zeros n)

-- A decoder that fills `strm` chunks and then writes one byte
unfoldable filler_code : ℕ → LzmaRet × List ℕ × ℕ
filler_code zero = (lzma_stream_end, 7 ∷ [], 0)
filler_code (suc n) = (lzma_ok, zeros chunk_size, n)

abbrev filler : Decoder ℕ
filler = record {
  start = λ bytes. some 1;
  code = λ strm room. filler_code strm;
  avail_in = λ strm. 1;
}

filler-FillsChunks : FillsChunks filler
unfolding filler_code is_ok
filler-FillsChunks zero good rest = absurd (ground arith)
filler-FillsChunks (suc n) good rest = length-zeros chunk_size

decompress-Ends_example : Decompresses filler (7 ∷ []) (decompress filler (7 ∷ []))
decompress-Ends_example = decompress-Ends filler filler-FillsChunks (7 ∷ [])
