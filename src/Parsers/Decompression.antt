-- ===== src/Parsers/Decompression.antt =====
-- adapters/parsers/streams.py, `decompress_chunks`: the dispatch on the format of an archive. The model's
-- integers are natural numbers, so the check of `minimum_free_bytes` has no counterpart.
pub mod Bounds
pub mod Delivery
pub mod Spooling
use makolet.Prelude.{Option, List, []}
use makolet.Domain.Errors.{ErrorKind, Failure, failure}
use makolet.Domain.Documents.{CompressionFormat}
use makolet.Exec.{Exec, raise}
use makolet.Parsers.Limits.{Bytes, CompressionLimits}
use makolet.Parsers.Streams.{Decompressor, Progress, Loop, uncompressed, gzip, zstandard}
use makolet.Parsers.Member.{ZipPorts, zip}

-- The packages: the decompressors of zlib and zstd, and zipfile over the spool.
pub record Codecs (D : Type 0) : Type 0 where
  pub gzip_decompressor : Decompressor D
  pub zstandard_decompressor : Decompressor D
  pub zip_ports : ZipPorts

module _ {D : Type 0} where
  -- A generator starts with a new decompressor.
  abbrev pub new_progress : Decompressor D → Progress D
  new_progress z = record { decoder = z.start; compressed = 0; decompressed = 0; outputs = [] }

  unfoldable pub decompress_chunks :
      Codecs D
      → CompressionLimits
      → CompressionFormat
      → List Bytes
      → Option Failure
      → Exec (Progress D) Loop
  unfolding uncompressed gzip zstandard zip failure
  decompress_chunks codecs limits CompressionFormat.plain chunks end =
      uncompressed limits chunks end
  decompress_chunks codecs limits CompressionFormat.gzip chunks end =
      gzip codecs.gzip_decompressor limits chunks end
  decompress_chunks codecs limits CompressionFormat.zstandard chunks end =
      zstandard codecs.zstandard_decompressor limits chunks end
  decompress_chunks codecs limits CompressionFormat.zip chunks end =
      zip codecs.zip_ports limits chunks end
  decompress_chunks codecs limits CompressionFormat.unknown chunks end =
      raise (failure ErrorKind.unsafe_archive)

  -- The decompressor that the generator of a format starts with.
  abbrev pub decompressor_for : Codecs D → CompressionFormat → Decompressor D
  decompressor_for codecs CompressionFormat.zstandard = codecs.zstandard_decompressor
  decompressor_for codecs _ = codecs.gzip_decompressor
