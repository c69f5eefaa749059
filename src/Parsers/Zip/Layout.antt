-- ===== src/Parsers/Zip/Layout.antt =====
-- adapters/parsers/streams.py: the layout of an archive that `_preflight_zip` lets through.
use makolet.Prelude.{
  ℕ, ◌+◌, ◌-◌, ◌≤◌, ◌≡◌, refl, sym, ap, ◌∙◌, subst, Bool, true, false, not, ◌++◌, length,
  length-take, length-drop, take, drop, take-append-drop, drop-drop, take-take, take_all, min, ltb,
  leb, ◌==◌, leb→le, &&-true, ==_iff, arith,
}
use makolet.Exec.{Result, ok, err}
use makolet.Parsers.Limits.{Bytes, CompressionLimits}
use makolet.Parsers.Zip.{
  u16_at, u32_at, zip_end_signature, end_record_size, maximum_comment_bytes, unless, ZipEndRecord,
  search_record, read_zip_end_record, preflight_directory, preflight_zip, validate_entries,
}
use makolet.Parsers.Zip.Extra.{u16_at-take}
use makolet.Parsers.Zip.Directory.{IsDirectory, validate_entries_iff}
use makolet.Parsers.Zip.EndRecord.{ends_file, Found, search_record-Found, read_record-fields}

-- The layout of an archive: members, a central directory, and the end record with a comment, which
-- tells the number of the directory's entries, its size and its place.
pub record IsArchive (limits : CompressionLimits) (archive : Bytes) : Type 0 where
  pub entries : ℕ
  pub members : Bytes
  pub directory : Bytes
  pub end_record : Bytes
  pub comment : Bytes
  pub layout : archive ≡ members ++ (directory ++ (end_record ++ comment))
  pub listed : IsDirectory (length members) entries directory
  pub signed : take 4 end_record ≡ zip_end_signature
  pub fixed : length end_record ≡ end_record_size
  pub counted : u16_at end_record 10 ≡ entries
  pub sized : u32_at end_record 12 ≡ length directory
  pub placed : u32_at end_record 16 ≡ length members
  pub commented : u16_at end_record 20 ≡ length comment
  pub few : entries ≤ limits.maximum_zip_entries
  pub small : length directory ≤ limits.maximum_zip_directory_bytes

-- The checks of the directory, without an error.
directory_checks :
    (spool : Bytes) (limits : CompressionLimits) (r : ZipEndRecord)
    → preflight_directory spool limits (ok r) ≡ ok tt
    → let directory = take r.directory_size (drop r.directory_offset spool) in
      (r.entries ≤ limits.maximum_zip_entries)
      × (r.directory_size ≤ limits.maximum_zip_directory_bytes)
      × (r.directory_offset + r.directory_size ≡ r.record_offset)
      × (length directory ≡ r.directory_size)
      × (validate_entries r.entries r.directory_offset directory ≡ ok tt)
directory_checks spool limits r e = ground arith

u32_at-take : (n i : ℕ) (bytes : Bytes) → i + 4 ≤ n → u32_at (take n bytes) i ≡ u32_at bytes i
u32_at-take n i bytes h =
    rw (u16_at-take n i bytes (omega arith), u16_at-take n (i + 2) bytes (omega arith)) refl

-- The archive is cut at the directory and at the record.
preflight_directory-IsArchive :
    (spool : Bytes) (limits : CompressionLimits) (r : ZipEndRecord) (tail_start i : ℕ)
    → let tail = drop tail_start spool in
      take 4 (drop i tail) ≡ zip_end_signature
      → ends_file tail i ≡ true
      → (r.entries ≡ u16_at (drop i tail) 10)
        × (r.directory_size ≡ u32_at (drop i tail) 12)
        × (r.directory_offset ≡ u32_at (drop i tail) 16)
        × (r.record_offset ≡ tail_start + i)
      → preflight_directory spool limits (ok r) ≡ ok tt
      → IsArchive limits spool
preflight_directory-IsArchive spool limits r tail_start i signed fits fields checked =
    let (few, small, placed, whole, listed) = directory_checks spool limits r checked in
    let tail = drop tail_start spool in
    let found = drop i tail in
    let after_members = drop r.directory_offset spool in
    let (room, ends) = &&-true (leb (i + end_record_size) (length tail)) _ fits in
    let inside = leb→le (i + end_record_size) (length tail) room in
    let comment_ends = (==_iff _ (length tail)).0 ends in
    let left = length-drop tail_start spool in
    let found_left = length-drop i tail in
    let comment_left = length-drop end_record_size found in
    let at_record : drop r.directory_size after_members ≡ found =
      drop-drop r.directory_size r.directory_offset spool
      ∙ ap (λ n. drop n spool) (placed ∙ fields.3)
      ∙ sym (drop-drop i tail_start spool) in
    let members_end : length (take r.directory_offset spool) ≡ r.directory_offset =
      length-take r.directory_offset spool (omega (arith, fields.3)) in
    record {
      entries = r.entries;
      members = take r.directory_offset spool;
      directory = take r.directory_size after_members;
      end_record = take end_record_size found;
      comment = drop end_record_size found;
      layout = sym (
          rw
            (
              take-append-drop end_record_size found,
              sym at_record,
              take-append-drop r.directory_size after_members,
            )
            (take-append-drop r.directory_offset spool));
      listed = rw members_end ((validate_entries_iff r.entries r.directory_offset _).0 listed);
      signed = take-take 4 end_record_size found (omega arith) ∙ signed;
      fixed = length-take end_record_size found (omega arith);
      counted = u16_at-take end_record_size 10 found (omega arith) ∙ sym fields.0;
      sized = u32_at-take end_record_size 12 found (omega arith) ∙ sym fields.1 ∙ sym whole;
      placed = u32_at-take end_record_size 16 found (omega arith) ∙ sym fields.2 ∙ sym members_end;
      commented = u16_at-take end_record_size 20 found (omega arith) ∙ omega arith;
      few = few;
      small = rw whole small;
    }

after_two :
    (a b : Bool) (m : Result ZipEndRecord) (r : ZipEndRecord)
    → unless a (unless b m) ≡ ok r
    → m ≡ ok r
after_two true b m r e = absurd (cc e)
after_two false true m r e = absurd (cc e)
after_two false false m r e = e

-- What `_read_zip_end_record` returns was found in the last bytes of the file.
read_zip_end_record-Found :
    (spool : Bytes) (r : ZipEndRecord)
    → read_zip_end_record spool (length spool) ≡ ok r
    → (tail_start : ℕ) × Found (drop tail_start spool) tail_start r
unfolding read_zip_end_record
read_zip_end_record-Found spool r e =
    let size = length spool in
    let tail_size = min size (end_record_size + maximum_comment_bytes) in
    let tail_start = size - tail_size in
    let tail = take tail_size (drop tail_start spool) in
    let searched =
      after_two (ltb size end_record_size) (not (length tail == tail_size))
        (search_record (length tail + 1) tail tail_start (length tail)) r e in
    let whole : tail ≡ drop tail_start spool =
      take_all tail_size (drop tail_start spool) (omega (arith, length-drop tail_start spool)) in
    (
      tail_start,
      subst (λ t. Found t tail_start r) whole
          (search_record-Found (length tail + 1) tail tail_start (length tail) r searched),
    )

preflight_directory-ok :
    (spool : Bytes) (limits : CompressionLimits) (o : Result ZipEndRecord)
    → preflight_directory spool limits o ≡ ok tt
    → (r : ZipEndRecord) × (o ≡ ok r) × (preflight_directory spool limits (ok r) ≡ ok tt)
preflight_directory-ok spool limits (ok r) e = (r, refl, e)
preflight_directory-ok spool limits (err x) e = absurd (cc e)

-- What passes `_preflight_zip` is an archive of at most `maximum_zip_entries` entries, whose directory
-- has at most `maximum_zip_directory_bytes` and fills the file between the members and the end record.
pub preflight_zip-IsArchive :
    (spool : Bytes) (limits : CompressionLimits)
    → preflight_zip spool (length spool) limits ≡ ok tt
    → IsArchive limits spool
unfolding preflight_zip
preflight_zip-IsArchive spool limits e =
    let (r, read, checked) = preflight_directory-ok spool limits _ e in
    let (tail_start, found) = read_zip_end_record-Found spool r read in
    let (i, signed, fits, numbers) = found in
    preflight_directory-IsArchive spool limits r tail_start i signed fits
      (read_record-fields (drop tail_start spool) tail_start i r numbers) checked
