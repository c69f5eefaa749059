-- ===== src/Parsers/Streams/Runs.antt =====
-- adapters/parsers/streams.py: whole Gzip and Zstandard streams stay within the limits, and end.
use makolet.Prelude.{
  ℕ, ◌+◌, ◌*◌, ◌≤◌, ◌<◌, ◌≡◌, refl, subst, Bool, true, false, not, Option, List, [], ◌∷◌, length,
  sum_by, arith,
}
use makolet.Domain.Errors.{Failure}
use makolet.Exec.{
  Result, ok, err, Exec, Keeps, >>=-Keeps, >>=-cases, lift, pure, check, ◌>>=◌, ◌>>◌,
}
use makolet.Parsers.Limits.{Bytes, CompressionLimits, refuse_archive, check_ratio, check_ratio-ok}
use makolet.Parsers.Streams.{
  Decompressor, Progress, Loop, ended, out_of_rounds, count_compressed, unless_stuck, each_chunk,
  gzip_rounds, zstandard_rounds, enough_rounds, finish_stream, gzip, zstandard,
}
use makolet.Parsers.Streams.Bounds.{
  IsProportional, IsBounded, RespectsMaximum, refused-IsBounded, both_ok, gzip_rounds-IsBounded,
  zstandard_rounds-IsBounded,
}
use makolet.Parsers.Streams.Ending.{
  IsSettled, Ends, ConsumesSilently, NeedsInput, gzip_rounds-Ends, zstandard_rounds-Ends,
  each_chunk-Ends,
}

module _ {D : Type 0} (limits : CompressionLimits) where
  unless_stuck-IsBounded :
      (read : ℕ) (loop : Loop) (next : Exec (Progress D) Loop) (p : Progress D)
      → IsBounded limits read p
      → IsBounded limits read (next p).1
      → IsBounded limits read (unless_stuck loop next p).1
  unless_stuck-IsBounded read ended next p h k = k
  unless_stuck-IsBounded read out_of_rounds next p h k = h

  -- A bound on what is read may be raised.
  IsBounded-le : (m n : ℕ) (p : Progress D) → m ≤ n → IsBounded limits m p → IsBounded limits n p
  IsBounded-le m n p below h = (h.0, h.1, omega (arith, h.2))

  each_chunk-IsBounded :
      (body : Bytes → Exec (Progress D) Loop)
      → ((read : ℕ) (chunk : Bytes) → Keeps (IsBounded limits read) (body chunk))
      → (chunks : List Bytes) (end : Option Failure) (p : Progress D)
      → IsBounded limits p.compressed p
      → IsBounded limits
          (p.compressed + sum_by length chunks)
          (each_chunk limits body chunks end p).1
  unfolding each_chunk count_compressed
  each_chunk-IsBounded body keeps [] end p h =
      IsBounded-le p.compressed (p.compressed + 0) ((lift (check end) >> pure ended) p).1
        (omega arith) (refused-IsBounded limits p.compressed (check end) p h)
  each_chunk-IsBounded body keeps (chunk ∷ chunks) end p h =
      let total = p.compressed + sum_by length (chunk ∷ chunks) in
      let q = record p { compressed = p.compressed + length chunk } in
      let s = (body chunk q).1 in
      let more : IsProportional limits q = grind arith in
      let kept = keeps q.compressed chunk q (h.0, more, omega arith) in
      let rest =
        IsBounded-le (s.compressed + sum_by length chunks) total
          (each_chunk limits body chunks end s).1 (omega (arith, kept.2))
          (each_chunk-IsBounded body keeps chunks end s (kept.0, kept.1, omega arith)) in
      let now = IsBounded-le q.compressed total s (omega arith) kept in
      >>=-cases (λ r. IsBounded limits total r.1) (count_compressed limits chunk) _ p
        (λ _ _.
          >>=-cases (λ r. IsBounded limits total r.1) (body chunk) _ q
            (λ loop _. unless_stuck-IsBounded total loop _ s now rest) (λ _ _. now))
        (λ _ _. (h.0, more, omega arith))

module _ {D : Type 0} (z : Decompressor D) (limits : CompressionLimits) where
  -- The checks at the end leave the generator as it is.
  finish_stream-Keeps :
      (P : Progress D → Type 0) (loop : Loop) → Keeps P (finish_stream z limits loop)
  finish_stream-Keeps P out_of_rounds p h = h
  finish_stream-Keeps P ended p h =
      let eof = lift (refuse_archive (not (z.eof p.decoder))) in
      let ratio = lift (check_ratio p.compressed p.decompressed limits) in
      >>=-Keeps P (eof >> ratio) _ (>>=-Keeps P eof (λ _. ratio) (λ s k. k) (λ _ s k. k))
        (λ _ s k. k) p h

  -- A whole stream, by its inner loop.
  stream-IsBounded :
      (body : Bytes → Exec (Progress D) Loop)
      → ((read : ℕ) (chunk : Bytes) → Keeps (IsBounded limits read) (body chunk))
      → (chunks : List Bytes) (end : Option Failure) (p : Progress D)
      → IsBounded limits p.compressed p
      → IsBounded limits
          (p.compressed + sum_by length chunks)
          ((each_chunk limits body chunks end >>= finish_stream z limits) p).1
  stream-IsBounded body keeps chunks end p h =
      let read = p.compressed + sum_by length chunks in
      let kept = each_chunk-IsBounded limits body keeps chunks end p h in
      >>=-cases (λ r. IsBounded limits read r.1) (each_chunk limits body chunks end)
        (finish_stream z limits) p
        (λ loop _. finish_stream-Keeps (IsBounded limits read) loop _ kept) (λ _ _. kept)

  pub gzip-IsBounded :
      RespectsMaximum z
      → 0 < limits.maximum_chunk_bytes
      → (chunks : List Bytes) (end : Option Failure) (p : Progress D)
      → IsBounded limits p.compressed p
      → IsBounded limits (p.compressed + sum_by length chunks) (gzip z limits chunks end p).1
  unfolding gzip
  gzip-IsBounded respects positive =
      stream-IsBounded (gzip_rounds z limits (enough_rounds z limits))
        (λ read. gzip_rounds-IsBounded z limits respects positive read (enough_rounds z limits))

  pub zstandard-IsBounded :
      RespectsMaximum z
      → 0 < limits.maximum_chunk_bytes
      → (chunks : List Bytes) (end : Option Failure) (p : Progress D)
      → IsBounded limits p.compressed p
      → IsBounded limits (p.compressed + sum_by length chunks) (zstandard z limits chunks end p).1
  unfolding zstandard
  zstandard-IsBounded respects positive =
      stream-IsBounded (zstandard_rounds z limits (enough_rounds z limits)) (λ read.
        zstandard_rounds-IsBounded z limits respects positive read (enough_rounds z limits))

  -- What holds of a stream that has not raised: it has ended by itself with the decompressor at its
  -- end, and has yielded every byte that it counted, in proportion to what it read.
  abbrev pub Finishes : Result Loop → Progress D → Type 0
  Finishes (ok ended) p =
      IsSettled limits p
      × (z.eof p.decoder ≡ true)
      × (p.decompressed ≤ p.compressed * limits.maximum_expansion_ratio)
  Finishes (ok out_of_rounds) p = ⊥
  Finishes (err e) p = Unit

  accepted : (b : Bool) (u : Unit {0}) → refuse_archive (not b) ≡ ok u → b ≡ true
  accepted true u h = refl
  accepted false u h = cc

  finish_stream-Finishes :
      (loop : Loop) (p : Progress D)
      → Ends limits (ok loop) p
      → let r = finish_stream z limits loop p in Finishes r.0 r.1
  finish_stream-Finishes out_of_rounds p h = h
  finish_stream-Finishes ended p h =
      let eof = refuse_archive (not (z.eof p.decoder)) in
      let ratio = check_ratio p.compressed p.decompressed limits in
      >>=-cases (λ r. Finishes r.0 r.1) (lift eof >> lift ratio) (λ _. pure ended) p
        (λ u returned.
          let (same, at_end, proportional) = both_ok eof ratio p u returned in
          rw same (
            h,
            accepted (z.eof p.decoder) tt at_end,
            check_ratio-ok p.compressed p.decompressed limits tt proportional,
          ))
        (λ _ _. tt)

  stream-Finishes :
      (body : Bytes → Exec (Progress D) Loop)
      → ((chunk : Bytes) (p : Progress D)
          → IsSettled limits p
          → Ends limits (body chunk p).0 (body chunk p).1)
      → (chunks : List Bytes) (end : Option Failure) (p : Progress D) → IsSettled limits p
      → let r = (each_chunk limits body chunks end >>= finish_stream z limits) p in Finishes r.0 r.1
  stream-Finishes body ends chunks end p h =
      let run = each_chunk limits body chunks end in
      >>=-cases (λ r. Finishes r.0 r.1) run (finish_stream z limits) p
        (λ loop returned. finish_stream-Finishes loop (run p).1 (
          subst (λ s. Ends limits s (run p).1) returned
            (each_chunk-Ends limits body ends chunks end p h)))
        (λ _ _. tt)

  -- A Gzip stream ends, whatever it holds, if no data is left unconsumed behind an empty output.
  pub gzip-Finishes :
      ConsumesSilently z
      → 0 < limits.maximum_chunk_bytes
      → (chunks : List Bytes) (end : Option Failure) (p : Progress D) → IsSettled limits p
      → Finishes (gzip z limits chunks end p).0 (gzip z limits chunks end p).1
  unfolding gzip
  gzip-Finishes silent positive =
      stream-Finishes (gzip_rounds z limits (enough_rounds z limits)) (λ chunk p h.
        gzip_rounds-Ends z limits silent positive (enough_rounds z limits) chunk p h (omega arith))

  pub zstandard-Finishes :
      NeedsInput z
      → 0 < limits.maximum_chunk_bytes
      → (chunks : List Bytes) (end : Option Failure) (p : Progress D) → IsSettled limits p
      → Finishes (zstandard z limits chunks end p).0 (zstandard z limits chunks end p).1
  unfolding zstandard
  zstandard-Finishes needs positive =
      stream-Finishes (zstandard_rounds z limits (enough_rounds z limits)) (λ chunk p h.
        zstandard_rounds-Ends z limits needs positive (enough_rounds z limits) chunk p h
          (omega arith))
