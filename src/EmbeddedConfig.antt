-- ===== src/EmbeddedConfig.antt =====
-- `parseEmbeddedConfig` of src/injectee/config.cc. The LZMA decoder and the JSON reader are arguments.
pub mod Decompress
use better_ncm.Base.{
  ℕ, zero, suc, ◌+◌, ◌*◌, Bool, true, false, not, ◌||◌, Option, none, some, List, [], ◌∷◌, ◌++◌,
  ltb, ◌==◌, if◌then◌else◌, length, Outcome, ok, thrown,
}
use better_ncm.Base.Int.{ℤ, pos, negsuc}
use better_ncm.Memory.{Memory, read_bytes}

-- `EmbeddedConfig`, at an address
pub record EmbeddedConfig : Type 0 where
  pub address : ℕ
  pub magic1 : ℕ
  pub magic2 : ℕ
  pub version : ℕ
  pub data_size : ℤ
  pub data_offset : ℤ
  pub data_xz : Bool

pub data ConfigError : Type 0 where
  bad_magic no_data decoder_failed too_large decompression_failed bad_json : ConfigError

-- What `lzma_code` returns, as far as the code distinguishes it
pub data LzmaRet : Type 0 where
  lzma_ok lzma_stream_end lzma_error : LzmaRet

-- The decoder: `lzma_code` takes its state and the room for output to a result, the bytes written
-- and a state, of which `avail_in` is read.
pub record Decoder (S : Type 0) : Type 0 where
  pub start : List ℕ → Option S
  pub code : S → ℕ → LzmaRet × List ℕ × S
  pub avail_in : S → ℕ

abbrev pub chunk_size : ℕ
chunk_size = 64 * 1024

abbrev pub max_size : ℕ
max_size = 300 * 1024 * 1024

unfoldable pub is_stream_end : LzmaRet → Bool
is_stream_end lzma_ok = false
is_stream_end lzma_stream_end = true
is_stream_end lzma_error = false

unfoldable pub is_ok : LzmaRet → Bool
is_ok lzma_ok = true
is_ok lzma_stream_end = false
is_ok lzma_error = false

-- One round more than the chunks that fit
abbrev pub enough_rounds : ℕ
enough_rounds = 4801

module _ {S : Type 0} (decoder : Decoder S) where
  -- The loop that decompresses, on fuel
  unfoldable pub decompress_loop : ℕ → S → List ℕ → Option (Outcome ConfigError (List ℕ))
  unfolding is_stream_end is_ok
  decompress_loop zero strm decompressed = none
  decompress_loop (suc fuel) strm decompressed =
      let (ret, chunk, next) = decoder.code strm chunk_size in
      let rest = decompress_loop fuel next (decompressed ++ chunk) in
      if ltb max_size (length decompressed + length chunk)
      then some (thrown too_large)
      else if is_stream_end ret || decoder.avail_in next == 0
      then some (ok (decompressed ++ chunk))
      else if not (is_ok ret)
      then some (thrown decompression_failed)
      else rest

  unfoldable pub decompress : List ℕ → Option (Outcome ConfigError (List ℕ))
  decompress bytes = elim (decoder.start bytes) [
    | none ↦ some (thrown decoder_failed)
    | some strm ↦ decompress_loop enough_rounds strm []
  ]

  unfoldable pub read_data :
      {C : Type 0}
      → (List ℕ → Option C)
      → Option (Outcome ConfigError (List ℕ))
      → Option (Outcome ConfigError C)
  read_data read_json none = none
  read_data read_json (some (thrown e)) = some (thrown e)
  read_data read_json (some (ok text)) = elim (read_json text) [
    | none ↦ some (thrown bad_json)
    | some c ↦ some (ok c)
  ]

  -- From the size and the offset on
  unfoldable pub parse_at :
      {C : Type 0}
      → (List ℕ → Option C)
      → Memory
      → EmbeddedConfig
      → ℕ
      → ℕ
      → Option (Outcome ConfigError C)
  parse_at read_json mem config size offset =
      let data_bytes = read_bytes mem (config.address + offset) size in
      read_data read_json (if config.data_xz then decompress data_bytes else some (ok data_bytes))

  -- A size or an offset that is not positive
  unfoldable pub parse_sized :
      {C : Type 0}
      → (List ℕ → Option C)
      → Memory
      → EmbeddedConfig
      → ℤ
      → ℤ
      → Option (Outcome ConfigError C)
  parse_sized read_json mem config (pos (suc size)) (pos (suc offset)) =
      parse_at read_json mem config (suc size) (suc offset)
  parse_sized read_json mem config (pos (suc size)) (pos zero) = some (thrown no_data)
  parse_sized read_json mem config (pos (suc size)) (negsuc n) = some (thrown no_data)
  parse_sized read_json mem config (pos zero) offset = some (thrown no_data)
  parse_sized read_json mem config (negsuc n) offset = some (thrown no_data)

  unfoldable pub parse_embedded_config :
      {C : Type 0} → (List ℕ → Option C) → Memory → EmbeddedConfig → Option (Outcome ConfigError C)
  parse_embedded_config read_json mem config =
      if not (config.magic1 == 0x0d000721)
        || not (config.magic2 == 0x1f8a4e2b)
        || not (config.version == 1)
      then some (thrown bad_magic)
      else parse_sized read_json mem config config.data_size config.data_offset
