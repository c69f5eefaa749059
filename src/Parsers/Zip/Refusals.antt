-- ===== src/Parsers/Zip/Refusals.antt =====
-- adapters/parsers/streams.py: an archive that does not pass is refused with an `UnsafeArchiveError`, and
-- no loop runs out of the rounds that the model gives it.
use makolet.Prelude.{
  ℕ, zero, suc, ◌+◌, ◌-◌, ◌≤◌, ◌<◌, ◌≡◌, refl, Bool, true, false, Option, none, some, [], ◌∷◌,
  length, length-drop, take, drop, not, ltb, leb, ◌==◌, ◌||◌, min, if_cases, arith,
}
use makolet.Domain.Errors.{ErrorKind, Failure, failure}
use makolet.Exec.{Result, ok, err}
use makolet.Parsers.Limits.{Bytes, CompressionLimits}
use makolet.Parsers.Zip.{
  u16_at, central_header_size, disk_number, compressed_size, file_size, local_header_offset,
  zip64_marker, is_signed, has_null, zip_central_signature, is_located, is_multi_disk, is_zip64,
  end_record_size, maximum_comment_bytes, name_size, extra_size, comment_size, unless, then_check,
  reject_zip64_extra, check_header, validate_entries, ZipEndRecord, record_fits, comment_ends,
  unpack_from, read_record, at_signature, search_record, read_zip_end_record, preflight_directory,
  preflight_zip,
}
use makolet.Parsers.Zip.EndRecord.{IsLast, rfind-IsLast}

-- If there is an error, it is an `UnsafeArchiveError`.
pub data Refuses {ℓ} {A : Type ℓ} : Result A → Type ℓ where
  returned : (a : A) → Refuses (ok a)
  refused : (e : Failure) → e ≡ failure ErrorKind.unsafe_archive → Refuses (err e)

unless-Refuses {ℓ} :
    {A : Type ℓ} (b : Bool) (m : Result A) → (b ≡ false → Refuses m) → Refuses (unless b m)
unless-Refuses true m h = refused _ refl
unless-Refuses false m h = h refl

-- A buffer that is long enough is read.
unpack_from-Refuses {ℓ} :
    {A : Type ℓ} (size : ℕ) (buffer : Bytes) (m : Result A)
    → ltb (length buffer) size ≡ false
    → Refuses m
    → Refuses (unpack_from size buffer m)
unpack_from-Refuses size buffer m long h = rw long h

then_check-Refuses {ℓ} :
    {A : Type ℓ} (c : Result (Unit {0})) (m : Result A)
    → Refuses c
    → Refuses m
    → Refuses (then_check c m)
then_check-Refuses (ok _) m h k = k
then_check-Refuses (err e) m (refused _ same) k = refused e same

reject_zip64_extra-Refuses :
    (rounds : ℕ) (extra : Bytes) → length extra ≤ rounds → Refuses (reject_zip64_extra rounds extra)
unfolding reject_zip64_extra
reject_zip64_extra-Refuses rounds [] h = returned tt
reject_zip64_extra-Refuses zero (b ∷ bs) h = absurd (omega arith)
reject_zip64_extra-Refuses (suc rounds) (b ∷ bs) h =
    let size = u16_at (b ∷ bs) 2 in
    let after = drop 4 (b ∷ bs) in
    unless-Refuses (ltb (length (b ∷ bs)) 4) _ (λ long. unpack_from-Refuses 4 (b ∷ bs) _ long (
      unless-Refuses (ltb (length (b ∷ bs)) (4 + size)) _ (λ _.
        unless-Refuses (u16_at (b ∷ bs) 0 == 1) _ (λ _.
          reject_zip64_extra-Refuses rounds (drop size after)
            (omega (arith, length-drop 3 bs, length-drop size after))))))

check_header-Refuses :
    (directory_offset available : ℕ) (header : Bytes)
    → Refuses (check_header directory_offset available header)
unfolding check_header
check_header-Refuses directory_offset available header =
    unless-Refuses
      (ltb available
        (central_header_size + name_size header + extra_size header + comment_size header))
      _
      (λ _. unless-Refuses (not (disk_number header == 0)) _ (λ _.
        unless-Refuses
          (compressed_size header == zip64_marker
            || (file_size header == zip64_marker || local_header_offset header == zip64_marker))
          _
          (λ _.
            unless-Refuses (leb directory_offset (local_header_offset header)) (ok tt)
              (λ _. returned tt))))

validate_entries-Refuses :
    (n directory_offset : ℕ) (directory : Bytes)
    → Refuses (validate_entries n directory_offset directory)
unfolding validate_entries
validate_entries-Refuses zero directory_offset [] = returned tt
validate_entries-Refuses zero directory_offset (b ∷ bs) = refused _ refl
validate_entries-Refuses (suc n) directory_offset directory =
    let header = take central_header_size directory in
    let after_header = drop central_header_size directory in
    let name = take (name_size header) after_header in
    let extra = take (extra_size header) (drop (name_size header) after_header) in
    unless-Refuses (ltb (length directory) central_header_size) _ (λ long.
      unpack_from-Refuses central_header_size directory _ long (
        unless-Refuses (not (is_signed zip_central_signature header)) _ (λ _.
          then_check-Refuses (check_header directory_offset (length directory) header) _
            (check_header-Refuses directory_offset (length directory) header)
            (unless-Refuses (has_null name) _ (λ _.
              then_check-Refuses (reject_zip64_extra (length extra) extra) _
                (reject_zip64_extra-Refuses (length extra) extra (omega arith))
                (validate_entries-Refuses n directory_offset _))))))

read_record-Refuses : (tail : Bytes) (tail_start i : ℕ) → Refuses (read_record tail tail_start i)
unfolding read_record
read_record-Refuses tail tail_start i = unless-Refuses (is_located tail i) _ (λ _.
    unless-Refuses (is_multi_disk (drop i tail)) _
      (λ _. unless-Refuses (is_zip64 (drop i tail)) (ok _) (λ _. returned _)))

-- The code reads a record only where it lies within the tail.
fits_long :
    (tail : Bytes) (i : ℕ)
    → record_fits tail i ≡ true
    → ltb (length (drop i tail)) end_record_size ≡ false
fits_long tail i fits = ground (arith, length-drop i tail)

at_signature-Refuses :
    (next : ℕ → Result ZipEndRecord) (tail : Bytes) (tail_start search_end : ℕ) (o : Option ℕ)
    → IsLast tail search_end o
    → ((k : ℕ) → k < search_end → Refuses (next k))
    → Refuses (at_signature next tail tail_start o)
at_signature-Refuses next tail tail_start search_end none last further = refused _ refl
at_signature-Refuses next tail tail_start search_end (some i) last further =
    let goes_on = further i (omega (arith, last.0)) in
    if_cases Refuses (record_fits tail i) _ _
      (λ fits. unpack_from-Refuses end_record_size (drop i tail) _ (fits_long tail i fits) (
        if_cases Refuses (comment_ends tail i) _ _ (λ _. read_record-Refuses tail tail_start i)
          (λ _. goes_on)))
      (λ _. goes_on)

search_record-Refuses :
    (rounds : ℕ) (tail : Bytes) (tail_start search_end : ℕ)
    → search_end < rounds
    → Refuses (search_record rounds tail tail_start search_end)
unfolding search_record
search_record-Refuses zero tail tail_start search_end h = absurd (omega arith)
search_record-Refuses (suc rounds) tail tail_start search_end h =
    at_signature-Refuses (search_record rounds tail tail_start) tail tail_start search_end _
      (rfind-IsLast tail search_end)
      (λ k below. search_record-Refuses rounds tail tail_start k (omega arith))

read_zip_end_record-Refuses : (spool : Bytes) (size : ℕ) → Refuses (read_zip_end_record spool size)
unfolding read_zip_end_record
read_zip_end_record-Refuses spool size =
    let tail_size = min size (end_record_size + maximum_comment_bytes) in
    let tail = take tail_size (drop (size - tail_size) spool) in
    unless-Refuses (ltb size end_record_size) _ (λ _.
      unless-Refuses (not (length tail == tail_size)) _ (λ _.
        search_record-Refuses (length tail + 1) tail (size - tail_size) (length tail)
          (omega arith)))

preflight_directory-Refuses :
    (spool : Bytes) (limits : CompressionLimits) (o : Result ZipEndRecord)
    → Refuses o
    → Refuses (preflight_directory spool limits o)
preflight_directory-Refuses spool limits (err e) (refused _ same) = refused e same
preflight_directory-Refuses spool limits (ok r) h =
    let directory = take r.directory_size (drop r.directory_offset spool) in
    unless-Refuses (ltb limits.maximum_zip_entries r.entries) _ (λ _.
      unless-Refuses (ltb limits.maximum_zip_directory_bytes r.directory_size) _ (λ _.
        unless-Refuses (not (r.directory_offset + r.directory_size == r.record_offset)) _ (λ _.
          unless-Refuses (not (length directory == r.directory_size)) _
            (λ _. validate_entries-Refuses r.entries r.directory_offset directory))))

-- `_preflight_zip` ends on every spool, and raises nothing but an `UnsafeArchiveError`: in particular,
-- no `unpack_from` finds its buffer too short.
pub preflight_zip-Refuses :
    (spool : Bytes) (size : ℕ) (limits : CompressionLimits)
    → Refuses (preflight_zip spool size limits)
unfolding preflight_zip
preflight_zip-Refuses spool size limits =
    preflight_directory-Refuses spool limits (read_zip_end_record spool size)
      (read_zip_end_record-Refuses spool size)
