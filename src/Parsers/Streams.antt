-- ===== src/Parsers/Streams.antt =====
-- adapters/parsers/streams.py: content that is passed on as it is, and the Gzip and Zstandard streams.
-- An asynchronous generator is an action on what it has yielded so far. Its input is the chunks that
-- the iterator hands over, and how the iterator ends. The decoders are those of the zlib and zstd
-- packages.
pub mod Bounds
pub mod Ending
pub mod Runs
pub mod Uncompressed
use makolet.Prelude.{
  ℕ, zero, suc, ◌+◌, Bool, true, false, ◌&&◌, ◌||◌, not, Option, none, some, List, [], ◌∷◌, ◌++◌,
  length, take, drop, if◌then◌else◌,
}
use makolet.Domain.Errors.{ErrorKind, Failure, failure}
use makolet.Exec.{Result, ok, err, Exec, lift, pure, raise, check, ◌>>=◌, ◌>>◌}
use makolet.Parsers.Limits.{
  Bytes, CompressionLimits, refuse_archive, check_compressed, check_decompressed, check_ratio,
}

-- How a call of `decompress` ends: with an output, with the package's error (`zlib.error`,
-- `zstd.ZstdError`), or with another exception, such as the `EOFError` of zstd for data behind the end
-- of the frame.
pub data Decompressed (D : Type 0) : Type 0 where
  returned : Bytes → D → Decompressed D
  invalid : Decompressed D
  raised : Failure → Decompressed D

-- A decompressor object with its state. `decompress` gets the data and the most bytes to return.
pub record Decompressor (D : Type 0) : Type 0 where
  pub start : D
  pub decompress : D → Bytes → ℕ → Decompressed D
  pub eof : D → Bool
  pub unused_data : D → Bytes
  pub unconsumed_tail : D → Bytes
  pub needs_input : D → Bool

-- The local variables of a generator, and the chunks that it has yielded.
pub record Progress (D : Type 0) : Type 0 where
  pub decoder : D
  pub compressed : ℕ
  pub decompressed : ℕ
  pub outputs : List Bytes

-- How a loop ends: by its own, or out of the rounds that the model gives it.
pub data Loop : Type 0 where
  ended out_of_rounds : Loop

-- A `bytes` object as a test.
abbrev pub is_empty : Bytes → Bool
is_empty [] = true
is_empty (_ ∷ _) = false

module _ {D : Type 0} where
  abbrev pub yield : Bytes → Exec (Progress D) (Unit {0})
  yield output p = (ok tt, record p { outputs = p.outputs ++ output ∷ [] })

  -- `chunk[offset : offset + step]` for the offsets of `range(0, len(chunk), step)`: the second
  -- argument is what stands from the offset on. A round takes `step` bytes, and `step` is positive.
  unfoldable pub yield_slices : ℕ → ℕ → Bytes → Exec (Progress D) Loop
  unfolding ◌>>=◌
  yield_slices zero step [] = pure ended
  yield_slices zero step (b ∷ bs) = pure out_of_rounds
  yield_slices (suc rounds) step [] = pure ended
  yield_slices (suc rounds) step (b ∷ bs) =
      yield (take step (b ∷ bs)) >> yield_slices rounds step (drop step (b ∷ bs))

  abbrev pub unless_stuck : Loop → Exec (Progress D) Loop → Exec (Progress D) Loop
  unless_stuck ended next = next
  unless_stuck out_of_rounds next = pure out_of_rounds

  -- `_uncompressed`, which counts the bytes in `total`, here `decompressed`.
  unfoldable pub count_uncompressed : CompressionLimits → Bytes → Exec (Progress D) (Unit {0})
  unfolding check_decompressed
  count_uncompressed limits chunk p =
      let total = p.decompressed + length chunk in
      (check_decompressed total limits, record p { decompressed = total })

  unfoldable pub uncompressed :
      CompressionLimits → List Bytes → Option Failure → Exec (Progress D) Loop
  unfolding ◌>>=◌ count_uncompressed yield_slices
  uncompressed limits [] end = lift (check end) >> pure ended
  uncompressed limits (chunk ∷ chunks) end = do
    count_uncompressed limits chunk
    loop ← yield_slices (length chunk) limits.maximum_chunk_bytes chunk
    unless_stuck loop (uncompressed limits chunks end)

  -- `compressed += len(chunk)` and its check.
  unfoldable pub count_compressed : CompressionLimits → Bytes → Exec (Progress D) (Unit {0})
  unfolding check_compressed
  count_compressed limits chunk p =
      let total = p.compressed + length chunk in
      (check_compressed total limits, record p { compressed = total })

  -- `if output:` with its body: count, check and yield. The ratio's input is given, since a ZIP member
  -- is compared with another number.
  abbrev pub count_output : Bytes → Exec (Progress D) (Unit {0})
  count_output output p = (ok tt, record p { decompressed = p.decompressed + length output })

  abbrev pub within_limits : CompressionLimits → ℕ → Exec (Progress D) (Unit {0})
  within_limits limits input p =
      (lift (check_decompressed p.decompressed limits)
          >> lift (check_ratio input p.decompressed limits))
        p

  unfoldable pub deliver : CompressionLimits → ℕ → Bytes → Exec (Progress D) (Unit {0})
  unfolding ◌>>=◌ check_decompressed check_ratio
  deliver limits input output = do count_output output; within_limits limits input; yield output

  abbrev pub emit : CompressionLimits → Bytes → Exec (Progress D) (Unit {0})
  emit limits [] p = (ok tt, p)
  emit limits (b ∷ bs) p = deliver limits p.compressed (b ∷ bs) p

  -- `for chunk in chunks` with its count, and the inner loop over the chunk.
  unfoldable pub each_chunk :
      CompressionLimits
      → (Bytes → Exec (Progress D) Loop)
      → List Bytes
      → Option Failure
      → Exec (Progress D) Loop
  unfolding ◌>>=◌ count_compressed
  each_chunk limits body [] end = lift (check end) >> pure ended
  each_chunk limits body (chunk ∷ chunks) end = do
    count_compressed limits chunk
    loop ← body chunk
    unless_stuck loop (each_chunk limits body chunks end)

module _ {D : Type 0} (z : Decompressor D) (limits : CompressionLimits) where
  -- What `_gzip` does after the output of a round.
  abbrev pub after_gzip_output : (Bytes → Exec (Progress D) Loop) → Bytes → Exec (Progress D) Loop
  after_gzip_output next output p =
      let pending = z.unconsumed_tail p.decoder in
      if z.eof p.decoder
      then (lift
              (refuse_archive (not (is_empty (z.unused_data p.decoder)) || not (is_empty pending)))
            >> pure ended)
          p
      else if is_empty output && is_empty pending
      then (ok ended, p)
      else next pending p

  -- What `_zstandard` does there: a further round gets no data.
  abbrev pub after_zstandard_output :
      (Bytes → Exec (Progress D) Loop) → Bytes → Exec (Progress D) Loop
  after_zstandard_output next output p =
      if z.eof p.decoder
      then (lift (refuse_archive (not (is_empty (z.unused_data p.decoder)))) >> pure ended) p
      else if z.needs_input p.decoder
      then (ok ended, p)
      else next [] p

  -- `decompressor.decompress(pending, limits.maximum_chunk_bytes)`, under the handler that turns the
  -- package's error into an `UnsafeArchiveError` and lets any other exception through.
  abbrev pub decompressed_round :
      (Bytes → Exec (Progress D) Loop) → Decompressed D → Exec (Progress D) Loop
  decompressed_round after invalid p = (err (failure ErrorKind.unsafe_archive), p)
  decompressed_round after (raised e) p = (err e, p)
  decompressed_round after (returned output d) p =
      (emit limits output >> after output) (record p { decoder = d })

  -- `while pending:`.
  unfoldable pub gzip_rounds : ℕ → Bytes → Exec (Progress D) Loop
  unfolding ◌>>=◌ deliver failure
  gzip_rounds zero [] p = (ok ended, p)
  gzip_rounds zero (b ∷ bs) p = (ok out_of_rounds, p)
  gzip_rounds (suc rounds) [] p = (ok ended, p)
  gzip_rounds (suc rounds) (b ∷ bs) p =
      decompressed_round (after_gzip_output (gzip_rounds rounds))
        (z.decompress p.decoder (b ∷ bs) limits.maximum_chunk_bytes) p

  -- `while True:`.
  unfoldable pub zstandard_rounds : ℕ → Bytes → Exec (Progress D) Loop
  unfolding ◌>>=◌ deliver failure
  zstandard_rounds zero pending p = (ok out_of_rounds, p)
  zstandard_rounds (suc rounds) pending p =
      decompressed_round (after_zstandard_output (zstandard_rounds rounds))
        (z.decompress p.decoder pending limits.maximum_chunk_bytes) p

  -- A round that is followed by another yields a byte, and no more than the limit are yielded.
  abbrev pub enough_rounds : ℕ
  enough_rounds = limits.maximum_decompressed_bytes + 2

  abbrev pub finish_stream : Loop → Exec (Progress D) Loop
  finish_stream out_of_rounds p = (ok out_of_rounds, p)
  finish_stream ended p =
      (lift (refuse_archive (not (z.eof p.decoder)))
          >> lift (check_ratio p.compressed p.decompressed limits)
          >> pure ended)
        p

  -- `_gzip` and `_zstandard`.
  unfoldable pub gzip : List Bytes → Option Failure → Exec (Progress D) Loop
  unfolding ◌>>=◌ each_chunk gzip_rounds check_ratio
  gzip chunks end = each_chunk limits (gzip_rounds enough_rounds) chunks end >>= finish_stream

  unfoldable pub zstandard : List Bytes → Option Failure → Exec (Progress D) Loop
  unfolding ◌>>=◌ each_chunk zstandard_rounds check_ratio
  zstandard chunks end =
      each_chunk limits (zstandard_rounds enough_rounds) chunks end >>= finish_stream
