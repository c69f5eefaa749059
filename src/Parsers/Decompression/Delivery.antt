-- ===== src/Parsers/Decompression/Delivery.antt =====
-- adapters/parsers/streams.py, `decompress_chunks`: the generator ends for every format, within the limits,
-- and what it promises where it returns.
use makolet.Prelude.{
  ℕ, ◌+◌, ◌*◌, ◌≤◌, ◌<◌, ◌≡◌, refl, sym, ap, subst, Option, List, [], length, concat, length-concat,
  sum_by, arith,
}
use native.Mathlib.Nat.{mul-le-mul_right}
use makolet.Domain.Errors.{Failure}
use makolet.Domain.Documents.{CompressionFormat}
use makolet.Exec.{Result, ok, err}
use makolet.Parsers.Limits.{Bytes, CompressionLimits}
use makolet.Parsers.Streams.{Decompressor, Progress, Loop, ended, out_of_rounds, uncompressed}
use makolet.Parsers.Streams.Bounds.{yielded, IsWithin, IsBounded, RespectsMaximum}
use makolet.Parsers.Streams.Ending.{ConsumesSilently, NeedsInput}
use makolet.Parsers.Streams.Runs.{
  gzip-IsBounded, zstandard-IsBounded, gzip-Finishes, zstandard-Finishes, Finishes,
}
use makolet.Parsers.Streams.Uncompressed.{Passes, uncompressed-Passes}
use makolet.Parsers.Member.{
  ZipPorts, ZipInfo, Spool, opened, read_opened, read_spooled, zip, spool_compressed,
}
use makolet.Parsers.Decompression.{Codecs, new_progress, decompress_chunks, decompressor_for}
use makolet.Parsers.Zip.Layout.{IsArchive}
use makolet.Parsers.Decompression.Spooling.{Holds, spool_compressed-Holds, opened-IsArchive}
use makolet.Parsers.Decompression.Bounds.{RespectsSize, IsExpanded, read_zip_member-IsExpanded}

abbrev pub IsExpansion : {D : Type 0} → CompressionLimits → List Bytes → Progress D → Type 0
IsExpansion limits chunks p = yielded p ≤ sum_by length chunks * limits.maximum_expansion_ratio

-- What `decompress_chunks` promises of what it has yielded where it returns: the content itself, or no
-- more than `maximum_expansion_ratio` times its bytes; and ZIP content is an archive within the limits.
abbrev pub Promises :
    {D : Type 0} → CompressionLimits → CompressionFormat → List Bytes → Progress D → Type 0
Promises limits CompressionFormat.plain chunks p = concat p.outputs ≡ concat chunks
Promises limits CompressionFormat.gzip chunks p = IsExpansion limits chunks p
Promises limits CompressionFormat.zstandard chunks p = IsExpansion limits chunks p
Promises limits CompressionFormat.zip chunks p =
    IsExpansion limits chunks p × IsArchive limits (concat chunks)
Promises limits CompressionFormat.unknown chunks p = ⊥

abbrev pub Delivers :
    {D : Type 0}
    → CompressionLimits
    → CompressionFormat
    → List Bytes
    → Result Loop
    → Progress D
    → Type 0
Delivers limits format chunks (ok ended) p = Promises limits format chunks p
Delivers limits format chunks (ok out_of_rounds) p = ⊥
Delivers limits format chunks (err e) p = Unit

module _ {D : Type 0} (limits : CompressionLimits) (ports : ZipPorts)
    (respects : RespectsSize ports) (chunks : List Bytes) where
  abbrev Promised : Result Loop × Progress D → Type 0
  Promised r = IsWithin limits r.1 × Delivers limits CompressionFormat.zip chunks r.0 r.1

  expanded-Delivers :
      (total : ℕ) (r : Result Loop × Progress D)
      → total ≡ sum_by length chunks
      → IsArchive limits (concat chunks)
      → IsWithin limits r.1 × IsExpanded {D = D} limits total r.0 r.1
      → Promised r
  expanded-Delivers total (ok ended, p) same archive h =
      (h.0, (rw (sym same) (omega (arith, h.0.0, h.1)), archive))
  expanded-Delivers total (ok out_of_rounds, p) same archive h = h
  expanded-Delivers total (err e, p) same archive h = (h.0, tt)

  read_opened-Delivers :
      (s : Spool) (o : Result ZipInfo) (p : Progress D)
      → o ≡ opened ports limits s
      → s.content ≡ concat chunks
      → s.total ≡ sum_by length chunks
      → IsWithin limits p
      → Promised (read_opened ports limits s o p)
  read_opened-Delivers s (err e) p same content total h = (h, tt)
  read_opened-Delivers s (ok entry) p same content total h =
      let counted : s.total ≡ length s.content =
        omega (arith, total, length-concat chunks, ap length content) in
      expanded-Delivers s.total _ total
        (subst (IsArchive limits) content
          (opened-IsArchive ports limits s entry counted (sym same)))
        (read_zip_member-IsExpanded limits ports respects s entry p h)

  read_spooled-Delivers :
      (s : Result Spool) (p : Progress D)
      → Holds chunks (record { content = []; total = 0; calls = 0 }) s
      → IsWithin limits p
      → Promised (read_spooled ports limits s p)
  read_spooled-Delivers (err e) p holds h = (h, tt)
  read_spooled-Delivers (ok s) p holds h =
      read_opened-Delivers s _ p refl holds.0 (omega (arith, holds.1)) h

  zip-Delivers :
      (end : Option Failure) (p : Progress D)
      → IsWithin limits p
      → Promised (zip ports limits chunks end p)
  unfolding zip
  zip-Delivers end p h =
      let empty : Spool = record { content = []; total = 0; calls = 0 } in
      read_spooled-Delivers (spool_compressed ports limits chunks end empty) p
        (spool_compressed-Holds ports limits chunks end empty) h

-- What the packages document of their objects.
pub record Documented {D : Type 0} (codecs : Codecs D) : Type 0 where
  pub gzip_respects : RespectsMaximum codecs.gzip_decompressor
  pub gzip_consumes : ConsumesSilently codecs.gzip_decompressor
  pub zstandard_respects : RespectsMaximum codecs.zstandard_decompressor
  pub zstandard_needs : NeedsInput codecs.zstandard_decompressor
  pub zip_respects : RespectsSize codecs.zip_ports

-- A finished stream, by the bytes that were read, for a format with one decompressor.
module _ {D : Type 0} (z : Decompressor D) (limits : CompressionLimits) (chunks : List Bytes)
    (format : CompressionFormat)
    (promises : (p : Progress D)
      → IsExpansion limits chunks p
      → Promises limits format chunks p) where
  Finishes-Delivers :
      (r : Result Loop) (p : Progress D)
      → IsBounded limits (0 + sum_by length chunks) p
      → Finishes z limits r p
      → IsWithin limits p × Delivers limits format chunks r p
  Finishes-Delivers (ok ended) p bounded h = (
    bounded.0,
    promises p (
        omega (
          arith,
          h.0.0,
          h.2,
          bounded.2,
          mul-le-mul_right limits.maximum_expansion_ratio bounded.2,
        )),
  )
  Finishes-Delivers (ok out_of_rounds) p bounded h = absurd h
  Finishes-Delivers (err e) p bounded h = (bounded.0, tt)

module _ {D : Type 0} (codecs : Codecs D) (documented : Documented codecs)
    (limits : CompressionLimits) where
  plain_promises :
      (chunks : List Bytes) (r : Result Loop) (p : Progress D)
      → Passes limits chunks (new_progress codecs.gzip_decompressor) r p
      → Delivers limits CompressionFormat.plain chunks r p
  plain_promises chunks (ok ended) p h = h.0
  plain_promises chunks (ok out_of_rounds) p h = h
  plain_promises chunks (err e) p h = tt

  -- With packages that keep to what they document and a `maximum_chunk_bytes` that is not zero,
  -- `decompress_chunks` ends for every format. No chunk that it yields is larger than
  -- `maximum_chunk_bytes`, and all together are no more than `maximum_decompressed_bytes`, however it
  -- ends. Where it returns, it has yielded uncompressed content as it was read, and of compressed
  -- content no more than `maximum_expansion_ratio` times the bytes read, which are a ZIP archive
  -- within the limits where the format says so.
  pub decompress_chunks-Delivers :
      0 < limits.maximum_chunk_bytes
      → (format : CompressionFormat) (chunks : List Bytes) (end : Option Failure)
      → let r =
          decompress_chunks codecs limits format chunks end
            (new_progress (decompressor_for codecs format)) in
        IsWithin limits r.1 × Delivers limits format chunks r.0 r.1
  unfolding decompress_chunks
  decompress_chunks-Delivers positive CompressionFormat.plain chunks end =
      let start = new_progress codecs.gzip_decompressor in
      let (within, passes) =
        uncompressed-Passes limits positive chunks end start (refl, omega arith) tt in
      (within, plain_promises chunks _ (uncompressed limits chunks end start).1 passes)
  decompress_chunks-Delivers positive CompressionFormat.gzip chunks end =
      let z = codecs.gzip_decompressor in
      Finishes-Delivers z limits chunks CompressionFormat.gzip (λ p h. h) _ _
        (gzip-IsBounded z limits documented.gzip_respects positive chunks end (new_progress z)
          ((omega arith, omega arith, tt), omega arith, omega arith))
        (gzip-Finishes z limits documented.gzip_consumes positive chunks end (new_progress z)
          (refl, omega arith))
  decompress_chunks-Delivers positive CompressionFormat.zstandard chunks end =
      let z = codecs.zstandard_decompressor in
      Finishes-Delivers z limits chunks CompressionFormat.zstandard (λ p h. h) _ _
        (zstandard-IsBounded z limits documented.zstandard_respects positive chunks end
          (new_progress z) ((omega arith, omega arith, tt), omega arith, omega arith))
        (zstandard-Finishes z limits documented.zstandard_needs positive chunks end (new_progress z)
          (refl, omega arith))
  decompress_chunks-Delivers positive CompressionFormat.zip chunks end =
      zip-Delivers limits codecs.zip_ports documented.zip_respects chunks end
        (new_progress codecs.gzip_decompressor) (omega arith, omega arith, tt)
  decompress_chunks-Delivers positive CompressionFormat.unknown chunks end =
      ((omega arith, omega arith, tt), tt)
