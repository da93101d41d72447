-- ===== src/EmbeddedConfig/Decompress.antt =====
-- The loop of `parseEmbeddedConfig` that decompresses.
use mathlib.Core.Path.{subst}
use mathlib.Core.List.{append-nil}
use better_ncm.Base.{
  ℕ, zero, suc, ◌+◌, ◌*◌, ◌≤◌, ◌<◌, ◌≡◌, ◌≢◌, refl, ap, ◌⊎◌, Bool, true, false, ◌||◌, Option, none,
  some, List, [], ◌∷◌, ◌++◌, arith, ltb, ◌==◌, length, length-append, Outcome, ok, thrown,
  Bool-cases, Option-cases, inl, inr,
}
use better_ncm.EmbeddedConfig.{
  ConfigError, decoder_failed, too_large, decompression_failed, Decoder, chunk_size, max_size,
  is_stream_end, is_ok, decompress_loop, enough_rounds, decompress,
}

module _ {S : Type 0} (decoder : Decoder S) where
  -- A round after which the loop goes on has filled its chunk.
  abbrev pub FillsChunks : Type 0
  FillsChunks =
      (strm : S)
      → is_ok (decoder.code strm chunk_size).0 ≡ true
      → decoder.avail_in (decoder.code strm chunk_size).2 ≢ 0
      → length (decoder.code strm chunk_size).1 ≡ chunk_size

  -- What the first `n` rounds write, and the stream behind them
  pub outputs : ℕ → S → List ℕ
  outputs zero strm = []
  outputs (suc n) strm =
      let (ret, chunk, next) = decoder.code strm chunk_size in chunk ++ outputs n next

  pub behind : ℕ → S → S
  behind zero strm = strm
  behind (suc n) strm = behind n (decoder.code strm chunk_size).2

  -- A round that the stream ends, or the input
  pub is_last : S → Bool
  is_last strm =
      let (ret, chunk, next) = decoder.code strm chunk_size in
      is_stream_end ret || decoder.avail_in next == 0

  -- The round on `strm`, behind rounds that wrote `before`, is the last that is done: it writes too
  -- much, ends the text, or fails.
  pub Finishes : S → List ℕ → Option (Outcome ConfigError (List ℕ)) → Type 0
  Finishes strm before r =
      let (ret, chunk, next) = decoder.code strm chunk_size in
      ((max_size < length before + length chunk) × (r ≡ some (thrown too_large)))
      ⊎ ((length before + length chunk ≤ max_size)
          × (((is_last strm ≡ true) × (r ≡ some (ok (before ++ chunk))))
              ⊎ ((is_last strm ≡ false)
                  × (is_ok ret ≡ false)
                  × (r ≡ some (thrown decompression_failed)))))

  -- After `n` rounds, none of them the last, which returned LZMA_OK and wrote 300 MB at most, the
  -- round that finishes
  pub record Ends (fuel : ℕ) (strm : S) (before : List ℕ)
      (r : Option (Outcome ConfigError (List ℕ))) : Type 0 where
    pub rounds : ℕ
    pub enough : rounds < fuel
    pub going : (j : ℕ) → j < rounds → is_last (behind j strm) ≡ false
    pub good : (j : ℕ) → j < rounds → is_ok (decoder.code (behind j strm) chunk_size).0 ≡ true
    pub within : length (before ++ outputs rounds strm) ≤ max_size
    pub finishes : Finishes (behind rounds strm) (before ++ outputs rounds strm) r

  append_assoc : (xs ys zs : List ℕ) → xs ++ ys ++ zs ≡ xs ++ (ys ++ zs)
  append_assoc [] ys zs = refl
  append_assoc (x ∷ xs) ys zs = ap (λ l. x ∷ l) (append_assoc xs ys zs)

  Ends-Finishes :
      (fuel : ℕ) (strm : S) (before : List ℕ) (r : Option (Outcome ConfigError (List ℕ)))
      → length before ≤ max_size
      → Finishes strm before r
      → Ends (suc fuel) strm before r
  unfolding outputs behind
  Ends-Finishes fuel strm before r small h = record {
    rounds = 0;
    enough = omega arith;
    going = λ j k. absurd (omega arith);
    good = λ j k. absurd (omega arith);
    within = rw (append-nil before) small;
    finishes = rw (append-nil before) h;
  }

  goes_on :
      (fuel : ℕ) (strm : S) (before : List ℕ) (r : Option (Outcome ConfigError (List ℕ)))
      → is_last strm ≡ false
      → is_ok (decoder.code strm chunk_size).0 ≡ true
      → Ends fuel (decoder.code strm chunk_size).2 (before ++ (decoder.code strm chunk_size).1) r
      → Ends (suc fuel) strm before r
  unfolding outputs behind
  goes_on fuel strm before r more ok_here e =
      let (ret, chunk, next) = decoder.code strm chunk_size in
      let same = append_assoc before chunk (outputs e.rounds next) in
      record {
        rounds = suc e.rounds;
        enough = let h = e.enough in omega arith;
        going = from_first (λ s. is_last s ≡ false) strm e.rounds more e.going;
        good =
            from_first (λ s. is_ok (decoder.code s chunk_size).0 ≡ true) strm e.rounds ok_here
              e.good;
        within = subst (λ l. length l ≤ max_size) same e.within;
        finishes = subst (λ l. Finishes (behind e.rounds next) l r) same e.finishes;
      }
    where
      from_first :
          (P : S → Type 0) (strm : S) (n : ℕ)
          → P strm
          → ((j : ℕ) → j < n → P (behind j (decoder.code strm chunk_size).2))
          → (j : ℕ) → j < suc n
          → P (behind j strm)
      from_first P strm n first later zero h = first
      from_first P strm n first later (suc j) h = later j (omega arith)

  decompress_loop-Ends :
      FillsChunks
      → (fuel : ℕ) (strm : S) (before : List ℕ) → length before ≤ max_size
      → max_size < length before + fuel * chunk_size
      → Ends fuel strm before (decompress_loop decoder fuel strm before)
  unfolding decompress_loop Finishes is_last
  decompress_loop-Ends fills zero strm before small h = absurd (omega arith)
  decompress_loop-Ends fills (suc fuel) strm before small h =
      let (ret, chunk, next) = decoder.code strm chunk_size in
      let len = length-append before chunk in
      elim (Bool-cases (ltb max_size (length before + length chunk))) [
        | inl large ↦
            rw (large, decompress_loop)
              (Ends-Finishes fuel strm before _ small (inl (ground arith, refl)))
        | inr fits ↦
            let room : length before + length chunk ≤ max_size = ground arith in
            let within : length (before ++ chunk) ≤ max_size = omega (arith, len) in
            elim (Bool-cases (is_stream_end ret || decoder.avail_in next == 0)) [
              | inl last ↦
                  rw (fits, last, decompress_loop)
                    (Ends-Finishes fuel strm before _ small (inr (room, inl (last, refl))))
              | inr more ↦ elim (Bool-cases (is_ok ret)) [
                | inr failed ↦
                    rw (fits, more, failed, decompress_loop)
                      (Ends-Finishes fuel strm before _ small
                        (inr (room, inr (more, failed, refl))))
                | inl good ↦
                    let full : length chunk ≡ chunk_size = fills strm good (λ q. ground arith) in
                    rw (fits, more, good, decompress_loop)
                      (goes_on fuel strm before _ more good (
                        decompress_loop-Ends fills fuel next (before ++ chunk) within
                          (omega (arith, len, full))))
              ]
            ]
      ]

  -- What the decompression of `bytes` gives
  pub Decompresses : List ℕ → Option (Outcome ConfigError (List ℕ)) → Type 0
  Decompresses bytes r =
      ((decoder.start bytes ≡ none) × (r ≡ some (thrown decoder_failed)))
      ⊎ ((strm : S) × (decoder.start bytes ≡ some strm) × Ends enough_rounds strm [] r)

  -- Where the decoder does not start, decompression throws; else it ends within 4801 rounds. All
  -- rounds but the last return LZMA_OK with input left, and write 300 MB at most in all. The last
  -- one writes more and the call throws `too_large`; or it ends the stream or the input and the
  -- call returns what all rounds have written; or it fails and the call throws
  -- `decompression_failed`. A round that returns LZMA_OK with input left has filled its chunk.
  pub decompress-Ends :
      FillsChunks → (bytes : List ℕ) → Decompresses bytes (decompress decoder bytes)
  unfolding decompress Decompresses
  decompress-Ends fills bytes = elim (Option-cases (decoder.start bytes)) [
    | inl q ↦ inl (q, rw (q, decompress) refl)
    | inr (strm, q) ↦ inr (
      strm,
      q,
      rw (q, decompress)
          (decompress_loop-Ends fills enough_rounds strm [] (omega arith) (omega arith)),
    )
  ]
