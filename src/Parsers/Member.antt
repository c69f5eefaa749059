-- ===== src/Parsers/Member.antt =====
-- adapters/parsers/streams.py, `_zip`: the spool, the member of the archive and its checks. The zipfile
-- package and the capacity of the file system are parameters.
use makolet.Prelude.{
  ℕ, ◌+◌, ◌*◌, ◌/◌, ◌%◌, Bool, false, ◌&&◌, ◌||◌, not, Option, none, some, List, [], ◌∷◌, ◌++◌,
  length, ltb, leb, ◌==◌, if◌then◌else◌, text_eq,
}
use makolet.Domain.Errors.{ErrorKind, Failure, failure}
use makolet.Domain.Values.{Text}
use makolet.Exec.{Result, ok, err, Exec, lift, pure, raise, check, ◌>>=◌, ◌>>◌}
use makolet.Parsers.Limits.{Bytes, CompressionLimits, refuse_archive, check_compressed, check_ratio}
use makolet.Parsers.Streams.{Progress, Loop, ended, deliver}
use makolet.Parsers.Zip.{preflight_zip, unless, unsafe_archive}

-- The attributes of a `zipfile.ZipInfo` that are read.
pub record ZipInfo : Type 0 where
  pub filename : Text
  pub external_attr : ℕ
  pub flag_bits : ℕ
  pub compress_type : ℕ
  pub file_size : ℕ
  pub compress_size : ℕ
  pub is_dir : Bool

-- How the calls of `read` on a member end.
pub data ReadEnd : Type 0 where
  read_whole : ReadEnd
  -- `BadZipFile`, `RuntimeError`, `NotImplementedError` or `OSError`, which the handler names.
  handled : ReadEnd
  -- Another exception, such as `zlib.error` and `EOFError`.
  unhandled : Failure → ReadEnd

-- `reserve_async(required_bytes)` gets the number of earlier calls, since the free space changes, and
-- tells whether the space is there. `infolist` is none where `ZipFile` raises `BadZipFile`. A member
-- is what the calls of `read` with a number of bytes return, and how they end.
pub record ZipPorts : Type 0 where
  pub reserve : ℕ → ℕ → Bool
  pub infolist : Bytes → Option (List ZipInfo)
  pub read_member : Bytes → ZipInfo → ℕ → List Bytes × ReadEnd

-- `filename.replace("\\", "/")`.
unfoldable pub with_slashes : Text → Text
with_slashes [] = []
with_slashes (c ∷ cs) = (if c == 0x5c then 0x2f else c) ∷ with_slashes cs

abbrev pub is_absolute : Text → Bool
is_absolute [] = false
is_absolute (c ∷ cs) = c == 0x2f

-- `".." in path.parts`: a component is what stands between two slashes. The first argument is what
-- stands of the present one.
unfoldable pub has_parent : Text → Text → Bool
unfolding text_eq
has_parent component [] = text_eq component (0x2e ∷ 0x2e ∷ [])
has_parent component (c ∷ cs) =
    let last = has_parent (component ++ c ∷ []) cs in
    let next = has_parent [] cs in
    if c == 0x2f then text_eq component (0x2e ∷ 0x2e ∷ []) || next else last

unfoldable pub has_nul : Text → Bool
has_nul [] = false
has_nul (c ∷ cs) = c == 0 || has_nul cs

-- `unix_mode and stat.S_ISLNK(unix_mode)`.
abbrev pub is_link : ℕ → Bool
is_link unix_mode = not (unix_mode == 0) && unix_mode / 4096 % 16 == 10

-- `_validate_zip_entry`.
unfoldable pub validate_zip_entry : ZipInfo → CompressionLimits → Result (Unit {0})
unfolding failure with_slashes has_parent has_nul
validate_zip_entry entry limits =
    let name = with_slashes entry.filename in
    unless (is_absolute name || (has_parent [] name || has_nul name)) (
      unless (is_link (entry.external_attr / 65536)) (
        unless (entry.flag_bits % 2 == 1) (
          unless (not (entry.compress_type == 0 || entry.compress_type == 8)) (
            unless (ltb limits.maximum_decompressed_bytes entry.file_size) (
              unless (entry.compress_size == 0 && not (entry.file_size == 0)) (
                unless
                  (not (entry.compress_size == 0)
                    && ltb (entry.compress_size * limits.maximum_expansion_ratio) entry.file_size)
                  (ok tt)))))))

abbrev pub archive_capacity {ℓ} : {A : Type ℓ} → Result A
archive_capacity = err (failure ErrorKind.archive_capacity)

-- The spool: its bytes, their count, and the calls of `reserve_async` so far.
pub record Spool : Type 0 where
  pub content : Bytes
  pub total : ℕ
  pub calls : ℕ

-- One chunk of `_spool_compressed`.
abbrev pub written : Spool → Bytes → Spool
written s chunk = record s { content = s.content ++ chunk; total = s.total + length chunk }

abbrev pub required_bytes : CompressionLimits → Spool → Bytes → ℕ
required_bytes limits s chunk =
    if leb s.total limits.spool_memory_bytes then s.total + length chunk else length chunk

abbrev pub write_chunk : ZipPorts → CompressionLimits → Bytes → Spool → Result Spool
write_chunk ports limits chunk s =
    if ltb limits.spool_memory_bytes (s.total + length chunk)
    then (if ports.reserve s.calls (required_bytes limits s chunk)
        then ok (record (written s chunk) { calls = s.calls + 1 })
        else archive_capacity)
    else ok (written s chunk)

-- `_spool_compressed`.
abbrev pub spool_next : (Spool → Result Spool) → Result Spool → Result Spool
spool_next next (ok s) = next s
spool_next next (err e) = err e

abbrev pub if_ok {ℓ} : {A : Type ℓ} → Result (Unit {0}) → Result A → Result A
if_ok (ok _) rest = rest
if_ok (err e) rest = err e

unfoldable pub spool_compressed :
    ZipPorts → CompressionLimits → List Bytes → Option Failure → Spool → Result Spool
unfolding failure check_compressed
spool_compressed ports limits [] end s = if_ok (check end) (ok s)
spool_compressed ports limits (chunk ∷ chunks) end s =
    if_ok (check_compressed (s.total + length chunk) limits)
      (spool_next (spool_compressed ports limits chunks end) (write_chunk ports limits chunk s))

-- The checks between the spool and the member.
abbrev pub synced : ZipPorts → CompressionLimits → Spool → Result (Unit {0})
synced ports limits s =
    if ltb limits.spool_memory_bytes s.total
    then (if ports.reserve s.calls 0 then ok tt else archive_capacity)
    else ok tt

unfoldable pub payloads : List ZipInfo → List ZipInfo
payloads [] = []
payloads (e ∷ es) = let rest = payloads es in if e.is_dir then rest else e ∷ rest

abbrev pub only_payload : CompressionLimits → List ZipInfo → Result ZipInfo
only_payload limits (e ∷ []) = if_ok (validate_zip_entry e limits) (ok e)
only_payload limits _ = unsafe_archive

abbrev pub member_of : CompressionLimits → Option (List ZipInfo) → Result ZipInfo
member_of limits none = unsafe_archive
member_of limits (some entries) =
    unless (ltb limits.maximum_zip_entries (length entries))
      (only_payload limits (payloads entries))

-- The member of a spooled archive that is read.
unfoldable pub opened : ZipPorts → CompressionLimits → Spool → Result ZipInfo
unfolding failure preflight_zip validate_zip_entry payloads
opened ports limits s =
    if_ok (synced ports limits s)
      (if_ok (preflight_zip s.content s.total limits) (member_of limits (ports.infolist s.content)))

module _ {D : Type 0} where
  abbrev pub end_reading : ReadEnd → Exec (Progress D) (Unit {0})
  end_reading read_whole = pure tt
  end_reading handled = raise (failure ErrorKind.unsafe_archive)
  end_reading (unhandled e) = raise e

  -- `while output := member.read(...)`, with what the handler makes of an error.
  unfoldable pub read_outputs :
      CompressionLimits → ZipInfo → List Bytes → ReadEnd → Exec (Progress D) (Unit {0})
  unfolding ◌>>=◌ deliver failure
  read_outputs limits entry [] how = end_reading how
  read_outputs limits entry ([] ∷ outputs) how = pure tt
  read_outputs limits entry ((b ∷ bs) ∷ outputs) how =
      deliver limits entry.compress_size (b ∷ bs) >> read_outputs limits entry outputs how

  abbrev pub finish_member : CompressionLimits → ZipInfo → ℕ → Exec (Progress D) Loop
  finish_member limits entry compressed p =
      (lift (refuse_archive (not (p.decompressed == entry.file_size)))
          >> lift (check_ratio compressed p.decompressed limits)
          >> pure ended)
        p

  unfoldable pub read_zip_member :
      ZipPorts → CompressionLimits → Spool → ZipInfo → Exec (Progress D) Loop
  unfolding ◌>>=◌ read_outputs check_ratio
  read_zip_member ports limits s entry =
      let reads = ports.read_member s.content entry limits.maximum_chunk_bytes in
      read_outputs limits entry reads.0 reads.1 >> finish_member limits entry s.total

  abbrev pub read_opened :
      ZipPorts → CompressionLimits → Spool → Result ZipInfo → Exec (Progress D) Loop
  read_opened ports limits s (err e) = raise e
  read_opened ports limits s (ok entry) = read_zip_member ports limits s entry

  abbrev pub read_spooled : ZipPorts → CompressionLimits → Result Spool → Exec (Progress D) Loop
  read_spooled ports limits (err e) = raise e
  read_spooled ports limits (ok s) = read_opened ports limits s (opened ports limits s)

  -- `_zip`.
  unfoldable pub zip :
      ZipPorts → CompressionLimits → List Bytes → Option Failure → Exec (Progress D) Loop
  unfolding spool_compressed opened read_zip_member
  zip ports limits chunks end =
      read_spooled ports limits
        (spool_compressed ports limits chunks end (record { content = []; total = 0; calls = 0 }))
