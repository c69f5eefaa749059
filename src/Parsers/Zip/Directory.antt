-- ===== src/Parsers/Zip/Directory.antt =====
-- adapters/parsers/streams.py: which central directories `_validate_central_directory` lets through.
use makolet.Prelude.{
  ℕ, zero, suc, ◌+◌, ◌≤◌, ◌<◌, ◌≡◌, ◌≢◌, ◌↔◌, refl, sym, ap, Bool, true, false, not, [], ◌∷◌, ◌++◌,
  length, length-append, length-take, length-drop, take, drop, take-append-drop, take_part,
  drop_part, All, ltb, if◌then◌else◌, text_eq_iff, arith,
}
use makolet.Domain.Errors.{ErrorKind, Failure, failure}
use makolet.Exec.{Result, ok, err}
use makolet.Parsers.Limits.{Bytes}
use makolet.Parsers.Zip.{
  zip_central_signature, central_header_size, unless, reject_zip64_extra, compressed_size,
  file_size, name_size, extra_size, comment_size, disk_number, local_header_offset, zip64_marker,
  is_signed, has_null, check_header, then_check, validate_entries,
}
use makolet.Parsers.Zip.Extra.{IsExtra, reject_zip64_extra_iff}

-- What the code asks of a central header.
abbrev pub IsHeader : ℕ → Bytes → Type 0
IsHeader directory_offset header =
    (length header ≡ central_header_size)
    × (take 4 header ≡ zip_central_signature)
    × (disk_number header ≡ 0)
    × (compressed_size header ≢ zip64_marker)
    × (file_size header ≢ zip64_marker)
    × (local_header_offset header ≢ zip64_marker)
    × (local_header_offset header < directory_offset)

-- A central directory of a number of entries, as the ZIP format lays it out, of members that lie
-- before it.
pub data IsDirectory (directory_offset : ℕ) : ℕ → Bytes → Type 0 where
  no_entries : IsDirectory directory_offset zero []
  entry :
      (n : ℕ) (header name extra comment rest bytes : Bytes)
      → bytes ≡ header ++ (name ++ (extra ++ (comment ++ rest)))
      → IsHeader directory_offset header
      → length name ≡ name_size header
      → length extra ≡ extra_size header
      → length comment ≡ comment_size header
      → All (λ b. b ≢ 0) name
      → IsExtra extra
      → IsDirectory directory_offset n rest
      → IsDirectory directory_offset (suc n) bytes

has_null-All : (bytes : Bytes) → (has_null bytes ≡ false) ↔ All (λ b. b ≢ 0) bytes
unfolding has_null
has_null-All [] = (λ _. tt, λ _. refl)
has_null-All (b ∷ bs) = ground (arith, has_null-All bs)

check_header_iff :
    (directory_offset available : ℕ) (header : Bytes)
    → (check_header directory_offset available header ≡ ok tt) ↔ (
        (central_header_size + name_size header + extra_size header + comment_size header
          ≤ available)
        × (disk_number header ≡ 0)
        × (compressed_size header ≢ zip64_marker)
        × (file_size header ≢ zip64_marker)
        × (local_header_offset header ≢ zip64_marker)
        × (local_header_offset header < directory_offset))
unfolding check_header
check_header_iff directory_offset available header = ground arith

then_check_iff : (m n : Result (Unit {0})) → (then_check m n ≡ ok tt) ↔ ((m ≡ ok tt) × (n ≡ ok tt))
then_check_iff (ok _) n = (λ h. (refl, h), λ h. h.1)
then_check_iff (err e) n = (λ h. cc, λ h. h.0)

unless_iff : (b : Bool) (m : Result (Unit {0})) → (unless b m ≡ ok tt) ↔ ((b ≡ false) × (m ≡ ok tt))
unless_iff b m = ground arith

-- The chain of checks of an entry.
checks_iff :
    (short signed null : Bool) (e : Failure) (numbers fields rest : Result (Unit {0}))
    → (unless short (
          if short
          then err e
          else unless (not signed) (then_check numbers (unless null (then_check fields rest))))
        ≡ ok tt)
      ↔ ((short ≡ false)
          × (signed ≡ true)
          × (numbers ≡ ok tt)
          × (null ≡ false)
          × (fields ≡ ok tt)
          × (rest ≡ ok tt))
checks_iff true signed null x numbers fields rest = (λ h. cc, λ h. cc (h.0))
checks_iff false false null x numbers fields rest = (λ h. cc, λ h. cc (h.1))
checks_iff false true null x (err e) fields rest = (λ h. cc, λ h. cc (h.2))
checks_iff false true true x (ok _) fields rest = (λ h. cc, λ h. cc (h.3))
checks_iff false true false x (ok _) (err e) rest = (λ h. cc, λ h. cc (h.4))
checks_iff false true false x (ok _) (ok _) rest =
    (λ h. (refl, refl, refl, refl, refl, h), λ h. h.5)

long_enough : (n : ℕ) (bytes : Bytes) → (ltb (length bytes) n ≡ false) ↔ (n ≤ length bytes)
long_enough n bytes = ground arith

-- One entry.
entry_round :
    (n directory_offset : ℕ) (directory : Bytes)
    → let header = take central_header_size directory in
      let after_header = drop central_header_size directory in
      let after_name = drop (name_size header) after_header in
      let after_extra = drop (extra_size header) after_name in
      let extra = take (extra_size header) after_name in
      (validate_entries (suc n) directory_offset directory ≡ ok tt) ↔ (
        (central_header_size ≤ length directory)
        × (take 4 header ≡ zip_central_signature)
        × (check_header directory_offset (length directory) header ≡ ok tt)
        × (has_null (take (name_size header) after_header) ≡ false)
        × (reject_zip64_extra (length extra) extra ≡ ok tt)
        × (validate_entries n directory_offset (drop (comment_size header) after_extra) ≡ ok tt))
unfolding validate_entries
entry_round n directory_offset directory =
    let header = take central_header_size directory in
    let long = long_enough central_header_size directory in
    let signed = text_eq_iff (take 4 header) zip_central_signature in
    let checks =
      checks_iff _ (is_signed zip_central_signature header) _ (failure ErrorKind.other) _ _ _ in
    (
      (λ h. let c = checks.0 h in (long.0 c.0, signed.0 c.1, c.2, c.3, c.4, c.5)),
      (λ h. checks.1 (long.1 h.0, signed.1 h.1, h.2, h.3, h.4, h.5)),
    )

validate_entries-IsDirectory :
    (n directory_offset : ℕ) (directory : Bytes)
    → validate_entries n directory_offset directory ≡ ok tt
    → IsDirectory directory_offset n directory
validate_entries-IsDirectory zero directory_offset [] e = no_entries
validate_entries-IsDirectory zero directory_offset (b ∷ bs) e =
    absurd (unfold validate_entries in cc e)
validate_entries-IsDirectory (suc n) directory_offset directory e =
    let header = take central_header_size directory in
    let after_header = drop central_header_size directory in
    let after_name = drop (name_size header) after_header in
    let after_extra = drop (extra_size header) after_name in
    let (long, signed, numbers, no_null, fields, further) =
      (entry_round n directory_offset directory).0 e in
    let (available, disk, compressed, size, offset, before) =
      (check_header_iff directory_offset (length directory) header).0 numbers in
    let headed = length-drop central_header_size directory in
    let named = length-drop (name_size header) after_header in
    let extended = length-drop (extra_size header) after_name in
    entry n header (take (name_size header) after_header) (take (extra_size header) after_name)
      (take (comment_size header) after_extra) (drop (comment_size header) after_extra) directory
      (sym (
        rw
          (
            take-append-drop (comment_size header) after_extra,
            take-append-drop (extra_size header) after_name,
            take-append-drop (name_size header) after_header,
          )
          (take-append-drop central_header_size directory)))
      (
        length-take central_header_size directory long,
        signed,
        disk,
        compressed,
        size,
        offset,
        before,
      )
      (length-take (name_size header) after_header (omega arith))
      (length-take (extra_size header) after_name (omega arith))
      (length-take (comment_size header) after_extra (omega arith)) ((has_null-All _).0 no_null)
      ((reject_zip64_extra_iff _).0 fields)
      (validate_entries-IsDirectory n directory_offset _ further)

IsDirectory-validate_entries :
    {directory_offset n : ℕ} {directory : Bytes}
    → IsDirectory directory_offset n directory
    → validate_entries n directory_offset directory ≡ ok tt
IsDirectory-validate_entries IsDirectory.no_entries = unfold validate_entries in refl
IsDirectory-validate_entries {directory_offset} {n} {directory}
      (entry m header name extra comment rest bytes e h named extended commented no_null fields
        further) =
    let after_name = extra ++ (comment ++ rest) in
    let head = take_part central_header_size directory header (name ++ after_name) e h.0 in
    let tail = drop_part central_header_size directory header (name ++ after_name) e h.0 in
    let own_name = take_part (name_size header) (name ++ after_name) name after_name refl named in
    let past_name = drop_part (name_size header) (name ++ after_name) name after_name refl named in
    let own_extra =
      take_part (extra_size header) after_name extra (comment ++ rest) refl extended in
    let past_extra =
      drop_part (extra_size header) after_name extra (comment ++ rest) refl extended in
    let past_entry =
      drop_part (comment_size header) (comment ++ rest) comment rest refl commented in
    let long : length directory
        ≡ length header + (length name + (length extra + (length comment + length rest))) =
      omega (
        arith,
        ap length e,
        length-append header (name ++ after_name),
        length-append name after_name,
        length-append extra (comment ++ rest),
        length-append comment rest,
      ) in
    (entry_round m directory_offset directory).1 (
      omega (arith, h.0),
      rw head h.1,
      rw head (
          (check_header_iff directory_offset (length directory) header).1
            (omega (arith, h.0), h.2, h.3, h.4, h.5, h.6)),
      rw (head, tail, own_name) ((has_null-All name).1 no_null),
      rw (head, tail, past_name, own_extra) ((reject_zip64_extra_iff extra).1 fields),
      rw (head, tail, past_name, past_extra, past_entry) (IsDirectory-validate_entries further),
    )

-- Exactly the central directories of the format pass that have the given number of entries, of members
-- before the directory, without ZIP64 fields and null bytes in names.
pub validate_entries_iff :
    (n directory_offset : ℕ) (directory : Bytes)
    → (validate_entries n directory_offset directory ≡ ok tt)
      ↔ IsDirectory directory_offset n directory
validate_entries_iff n directory_offset directory =
    (validate_entries-IsDirectory n directory_offset directory, IsDirectory-validate_entries)
