-- ===== src/Parsers/Zip.antt =====
-- adapters/parsers/streams.py: the checks of a spooled ZIP archive before the zipfile package reads it.
pub mod Directory
pub mod EndRecord
pub mod Extra
pub mod Layout
pub mod Refusals
use makolet.Prelude.{
  ℕ, zero, suc, ◌+◌, ◌-◌, ◌*◌, ◌≡◌, Bool, true, false, ◌&&◌, ◌||◌, not, Option, none, some, List,
  [], ◌∷◌, length, take, drop, min, ltb, leb, ◌==◌, if◌then◌else◌, text_eq,
}
use makolet.Domain.Errors.{ErrorKind, failure}
use makolet.Exec.{Result, ok, err}
use makolet.Parsers.Limits.{Bytes, CompressionLimits}

-- Little-endian numbers of a buffer, which `unpack_from` has shown to be long enough.
unfoldable pub byte_at : Bytes → ℕ → ℕ
byte_at [] i = 0
byte_at (b ∷ bs) zero = b
byte_at (b ∷ bs) (suc i) = byte_at bs i

abbrev pub u16_at : Bytes → ℕ → ℕ
u16_at bytes i = byte_at bytes i + 256 * byte_at bytes (i + 1)

abbrev pub u32_at : Bytes → ℕ → ℕ
u32_at bytes i = u16_at bytes i + 65536 * u16_at bytes (i + 2)

-- `_ZIP_END_SIGNATURE`, `_ZIP64_LOCATOR_SIGNATURE`, `_ZIP_CENTRAL_SIGNATURE`.
abbrev pub zip_end_signature : Bytes
zip_end_signature = 0x50 ∷ 0x4b ∷ 5 ∷ 6 ∷ []

abbrev pub zip64_locator_signature : Bytes
zip64_locator_signature = 0x50 ∷ 0x4b ∷ 6 ∷ 7 ∷ []

abbrev pub zip_central_signature : Bytes
zip_central_signature = 0x50 ∷ 0x4b ∷ 1 ∷ 2 ∷ []

-- The sizes of `_ZIP_END_RECORD` and `_ZIP_CENTRAL_HEADER`, and `_ZIP_MAXIMUM_COMMENT_BYTES`.
abbrev pub end_record_size : ℕ
end_record_size = 22

abbrev pub central_header_size : ℕ
central_header_size = 46

abbrev pub maximum_comment_bytes : ℕ
maximum_comment_bytes = 65535

abbrev pub unsafe_archive {ℓ} : {A : Type ℓ} → Result A
unsafe_archive = err (failure ErrorKind.unsafe_archive)

-- `raise UnsafeArchiveError(...)` under a test, and what follows.
abbrev pub unless {ℓ} : {A : Type ℓ} → Bool → Result A → Result A
unless refused rest = if refused then unsafe_archive else rest

-- `struct.unpack_from` of a format of a size, on what stands from the offset on: a `struct.error` where
-- the buffer is too short.
abbrev pub unpack_from {ℓ} : {A : Type ℓ} → ℕ → Bytes → Result A → Result A
unpack_from size buffer rest =
    if ltb (length buffer) size then err (failure ErrorKind.other) else rest

-- `_reject_zip64_extra`, on what stands from the cursor on. A round takes four bytes at least, so the
-- length of the field is rounds enough.
unfoldable pub reject_zip64_extra : ℕ → Bytes → Result (Unit {0})
unfolding failure byte_at
reject_zip64_extra rounds [] = ok tt
reject_zip64_extra zero (b ∷ bs) = err (failure ErrorKind.other)
reject_zip64_extra (suc rounds) (b ∷ bs) =
    let extra = b ∷ bs in
    let field_type = u16_at extra 0 in
    let field_size = u16_at extra 2 in
    let rest = reject_zip64_extra rounds (drop field_size (drop 4 extra)) in
    unless (ltb (length extra) 4) (
      unpack_from 4 extra
        (unless (ltb (length extra) (4 + field_size)) (unless (field_type == 1) rest)))

-- The fields of a central header that are read.
abbrev pub compressed_size : Bytes → ℕ
compressed_size header = u32_at header 20

abbrev pub file_size : Bytes → ℕ
file_size header = u32_at header 24

abbrev pub name_size : Bytes → ℕ
name_size header = u16_at header 28

abbrev pub extra_size : Bytes → ℕ
extra_size header = u16_at header 30

abbrev pub comment_size : Bytes → ℕ
comment_size header = u16_at header 32

abbrev pub disk_number : Bytes → ℕ
disk_number header = u16_at header 34

abbrev pub local_header_offset : Bytes → ℕ
local_header_offset header = u32_at header 42

abbrev pub zip64_marker : ℕ
zip64_marker = 0xFFFFFFFF

abbrev pub is_signed : Bytes → Bytes → Bool
is_signed signature bytes = text_eq (take 4 bytes) signature

unfoldable pub has_null : Bytes → Bool
has_null [] = false
has_null (b ∷ bs) = b == 0 || has_null bs

-- The numbers of a header, in the order of the code's checks.
unfoldable pub check_header : ℕ → ℕ → Bytes → Result (Unit {0})
unfolding failure
check_header directory_offset available header =
    unless
      (ltb available
        (central_header_size + name_size header + extra_size header + comment_size header))
      (unless (not (disk_number header == 0)) (
        unless
          (compressed_size header == zip64_marker
            || (file_size header == zip64_marker || local_header_offset header == zip64_marker))
          (unless (leb directory_offset (local_header_offset header)) (ok tt))))

abbrev pub then_check {ℓ} : {A : Type ℓ} → Result (Unit {0}) → Result A → Result A
then_check (ok _) rest = rest
then_check (err e) rest = err e

-- `_validate_central_directory`: the loop over the entries, on what stands from the cursor on.
unfoldable pub validate_entries : ℕ → ℕ → Bytes → Result (Unit {0})
unfolding failure text_eq check_header has_null reject_zip64_extra byte_at
validate_entries zero directory_offset [] = ok tt
validate_entries zero directory_offset (b ∷ bs) = unsafe_archive
validate_entries (suc entries) directory_offset directory =
    let header = take central_header_size directory in
    let after_header = drop central_header_size directory in
    let after_name = drop (name_size header) after_header in
    let after_extra = drop (extra_size header) after_name in
    let extra = take (extra_size header) after_name in
    let rest = validate_entries entries directory_offset (drop (comment_size header) after_extra) in
    unless (ltb (length directory) central_header_size) (
      unpack_from central_header_size directory (
        unless (not (is_signed zip_central_signature header)) (
          then_check (check_header directory_offset (length directory) header) (
            unless (has_null (take (name_size header) after_header))
              (then_check (reject_zip64_extra (length extra) extra) rest)))))

-- `_ZipEndRecord`.
pub record ZipEndRecord : Type 0 where
  pub entries : ℕ
  pub directory_size : ℕ
  pub directory_offset : ℕ
  pub record_offset : ℕ

-- `tail.rfind(signature, 0, search_end)`.
unfoldable pub rfind : Bytes → Bytes → ℕ → Option ℕ
unfolding text_eq
rfind signature tail zero = none
rfind signature tail (suc k) =
    let earlier = rfind signature tail k in
    if leb 4 (suc k) && is_signed signature (drop (suc k - 4) tail)
    then some (suc k - 4)
    else earlier

-- What a record that ends with the file is refused for: a locator of ZIP64 before it, several disks,
-- and the values that stand for numbers in ZIP64 fields.
abbrev pub is_located : Bytes → ℕ → Bool
is_located tail relative_offset =
    leb 20 relative_offset && is_signed zip64_locator_signature (drop (relative_offset - 20) tail)

abbrev pub is_multi_disk : Bytes → Bool
is_multi_disk found =
    not (u16_at found 4 == 0)
    || (not (u16_at found 6 == 0) || not (u16_at found 8 == u16_at found 10))

abbrev pub is_zip64 : Bytes → Bool
is_zip64 found =
    u16_at found 10 == 0xFFFF
    || (u32_at found 12 == zip64_marker || u32_at found 16 == zip64_marker)

unfoldable pub read_record : Bytes → ℕ → ℕ → Result ZipEndRecord
unfolding failure text_eq byte_at
read_record tail tail_start relative_offset =
    let found = drop relative_offset tail in
    unless (is_located tail relative_offset) (
      unless (is_multi_disk found) (
        unless (is_zip64 found) (
          ok (record {
            entries = u16_at found 10;
            directory_size = u32_at found 12;
            directory_offset = u32_at found 16;
            record_offset = tail_start + relative_offset;
          }))))

-- The record lies within the tail, and its comment ends with the file.
abbrev pub record_fits : Bytes → ℕ → Bool
record_fits tail relative_offset = leb (relative_offset + end_record_size) (length tail)

abbrev pub comment_ends : Bytes → ℕ → Bool
comment_ends tail relative_offset =
    relative_offset + end_record_size + u16_at (drop relative_offset tail) 20 == length tail

-- The loop over the signatures, from the last one on. `search_end` falls in each round.
abbrev pub at_signature : (ℕ → Result ZipEndRecord) → Bytes → ℕ → Option ℕ → Result ZipEndRecord
at_signature next tail tail_start none = unsafe_archive
at_signature next tail tail_start (some relative_offset) =
    let further = next relative_offset in
    if record_fits tail relative_offset
    then unpack_from end_record_size (drop relative_offset tail) (
        if comment_ends tail relative_offset
        then read_record tail tail_start relative_offset
        else further)
    else further

unfoldable pub search_record : ℕ → Bytes → ℕ → ℕ → Result ZipEndRecord
unfolding failure rfind read_record byte_at
search_record zero tail tail_start search_end = err (failure ErrorKind.other)
search_record (suc rounds) tail tail_start search_end =
    at_signature (search_record rounds tail tail_start) tail tail_start
      (rfind zip_end_signature tail search_end)

-- `_read_zip_end_record`, of a spool with its bytes and the size that was counted for it.
unfoldable pub read_zip_end_record : Bytes → ℕ → Result ZipEndRecord
unfolding failure search_record
read_zip_end_record spool size =
    let tail_size = min size (end_record_size + maximum_comment_bytes) in
    let tail = take tail_size (drop (size - tail_size) spool) in
    unless (ltb size end_record_size) (
      unless (not (length tail == tail_size))
        (search_record (length tail + 1) tail (size - tail_size) (length tail)))

-- `_preflight_zip`.
abbrev pub preflight_directory : Bytes → CompressionLimits → Result ZipEndRecord → Result (Unit {0})
preflight_directory spool limits (err e) = err e
preflight_directory spool limits (ok r) =
    let directory = take r.directory_size (drop r.directory_offset spool) in
    unless (ltb limits.maximum_zip_entries r.entries) (
      unless (ltb limits.maximum_zip_directory_bytes r.directory_size) (
        unless (not (r.directory_offset + r.directory_size == r.record_offset)) (
          unless (not (length directory == r.directory_size))
            (validate_entries r.entries r.directory_offset directory))))

unfoldable pub preflight_zip : Bytes → ℕ → CompressionLimits → Result (Unit {0})
unfolding read_zip_end_record validate_entries failure
preflight_zip spool size limits = preflight_directory spool limits (read_zip_end_record spool size)
