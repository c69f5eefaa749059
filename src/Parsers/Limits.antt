-- ===== src/Parsers/Limits.antt =====
-- adapters/parsers/streams.py: the limits on compressed content and their checks.
use makolet.Prelude.{
  ◌≡◌, ◌≤◌, ℕ, ◌*◌, Bool, true, false, ◌&&◌, ◌||◌, not, List, ltb, leb, ◌==◌, if◌then◌else◌, arith,
}
use makolet.Domain.Errors.{ErrorKind, failure}
use makolet.Exec.{Result, ok, err}

-- A `bytes` object.
abbrev pub Bytes : Type 0
Bytes = List ℕ

pub record CompressionLimits : Type 0 where
  pub maximum_compressed_bytes : ℕ
  pub maximum_decompressed_bytes : ℕ
  pub maximum_expansion_ratio : ℕ
  pub maximum_zip_entries : ℕ
  pub maximum_zip_directory_bytes : ℕ
  pub maximum_chunk_bytes : ℕ
  pub spool_memory_bytes : ℕ
  pub maximum_zstandard_window_log : ℕ

-- `__post_init__`, with the bounds of the decoder's window that the zstd package reports.
unfoldable pub check_compression_limits : ℕ → ℕ → CompressionLimits → Result (Unit {0})
unfolding failure
check_compression_limits minimum_window_log maximum_window_log l =
    if l.maximum_compressed_bytes == 0
      || (l.maximum_decompressed_bytes == 0
          || (l.maximum_expansion_ratio == 0
              || (l.maximum_zip_entries == 0
                  || (l.maximum_zip_directory_bytes == 0
                      || (l.maximum_chunk_bytes == 0 || l.spool_memory_bytes == 0)))))
    then err (failure ErrorKind.value_error)
    else if not (
        leb minimum_window_log l.maximum_zstandard_window_log
        && leb l.maximum_zstandard_window_log maximum_window_log)
    then err (failure ErrorKind.value_error)
    else ok tt

-- `raise UnsafeArchiveError(...)` where the test holds.
abbrev pub refuse_archive : Bool → Result (Unit {0})
refuse_archive true = err (failure ErrorKind.unsafe_archive)
refuse_archive false = ok tt

-- `_check_compressed`.
unfoldable pub check_compressed : ℕ → CompressionLimits → Result (Unit {0})
check_compressed total limits = refuse_archive (ltb limits.maximum_compressed_bytes total)

-- `_check_decompressed`.
unfoldable pub check_decompressed : ℕ → CompressionLimits → Result (Unit {0})
check_decompressed total limits = refuse_archive (ltb limits.maximum_decompressed_bytes total)

-- `_check_ratio`.
unfoldable pub check_ratio : ℕ → ℕ → CompressionLimits → Result (Unit {0})
check_ratio compressed decompressed limits =
    if compressed == 0 && not (decompressed == 0)
    then refuse_archive true
    else refuse_archive
        (not (compressed == 0) && ltb (compressed * limits.maximum_expansion_ratio) decompressed)

pub check_compressed-ok :
    (total : ℕ) (limits : CompressionLimits) (u : Unit {0})
    → check_compressed total limits ≡ ok u
    → total ≤ limits.maximum_compressed_bytes
unfolding check_compressed
check_compressed-ok total limits u h = ground arith

pub check_decompressed-ok :
    (total : ℕ) (limits : CompressionLimits) (u : Unit {0})
    → check_decompressed total limits ≡ ok u
    → total ≤ limits.maximum_decompressed_bytes
unfolding check_decompressed
check_decompressed-ok total limits u h = ground arith

pub check_ratio-ok :
    (compressed decompressed : ℕ) (limits : CompressionLimits) (u : Unit {0})
    → check_ratio compressed decompressed limits ≡ ok u
    → decompressed ≤ compressed * limits.maximum_expansion_ratio
unfolding check_ratio
check_ratio-ok compressed decompressed limits u h = ground arith
