-- ===== src/Parsers/Zip/EndRecord.antt =====
-- adapters/parsers/streams.py: the end record that `_read_zip_end_record` finds.
use makolet.Prelude.{
  ℕ, zero, suc, ◌+◌, ◌-◌, ◌≤◌, ◌<◌, ◌≡◌, inl, inr, refl, ap, length, ltb, Bool, true, false, ◌&&◌,
  Option, none, some, take, drop, leb, if_cases, text_eq_iff, Bool-cases, leb→le, &&-true, arith,
}
use makolet.Domain.Errors.{ErrorKind, failure}
use makolet.Exec.{Result, ok, err}
use makolet.Parsers.Limits.{Bytes}
use makolet.Parsers.Zip.{
  u16_at, u32_at, zip_end_signature, unless, is_signed, ZipEndRecord, rfind, is_located,
  is_multi_disk, is_zip64, read_record, record_fits, comment_ends, unpack_from, at_signature,
  search_record,
}

-- A signature of an end record stands at the position.
abbrev pub IsSignedAt : Bytes → ℕ → Type 0
IsSignedAt tail i = take 4 (drop i tail) ≡ zip_end_signature

&&-not-false : (a b : Bool) → a ≡ true → b ≡ true → ¬ ((a && b) ≡ false)
&&-not-false a b h k e = ground arith

-- The last signature that ends by `k`.
abbrev pub IsLast : Bytes → ℕ → Option ℕ → Type 0
IsLast tail k none = (j : ℕ) → j + 4 ≤ k → ¬ (IsSignedAt tail j)
IsLast tail k (some i) =
    (i + 4 ≤ k) × IsSignedAt tail i × ((j : ℕ) → i < j → j + 4 ≤ k → ¬ (IsSignedAt tail j))

-- One position more, where no signature stands.
unsigned-suc :
    (tail : Bytes) (k j : ℕ)
    → ((l : ℕ) → l + 4 ≡ suc k → ¬ (IsSignedAt tail l))
    → (j + 4 ≤ k → ¬ (IsSignedAt tail j))
    → j + 4 ≤ suc k
    → ¬ (IsSignedAt tail j)
unsigned-suc tail k j unsigned before below = elim (Bool-cases (leb (j + 4) k)) [
  | inl within ↦ before (leb→le _ _ within)
  | inr beyond ↦ unsigned j (ground arith)
]

IsLast-suc :
    (tail : Bytes) (k : ℕ) (r : Option ℕ)
    → ((j : ℕ) → j + 4 ≡ suc k → ¬ (IsSignedAt tail j))
    → IsLast tail k r
    → IsLast tail (suc k) r
IsLast-suc tail k none unsigned h = λ j. unsigned-suc tail k j unsigned (h j)
IsLast-suc tail k (some i) unsigned h =
    (omega (arith, h.0), h.1, λ j above. unsigned-suc tail k j unsigned (h.2 j above))

pub rfind-IsLast : (tail : Bytes) (k : ℕ) → IsLast tail k (rfind zip_end_signature tail k)
unfolding rfind
rfind-IsLast tail zero = λ j below. absurd (omega arith)
rfind-IsLast tail (suc k) =
    let here = text_eq_iff (take 4 (drop (suc k - 4) tail)) zip_end_signature in
    if_cases (IsLast tail (suc k))
      (leb 4 (suc k) && is_signed zip_end_signature (drop (suc k - 4) tail)) _ _
      (λ found.
        let (room, signed) =
          &&-true (leb 4 (suc k)) (is_signed zip_end_signature (drop (suc k - 4) tail)) found in
        (ground arith, here.0 signed, λ j above below at. absurd (ground arith)))
      (λ missing.
        IsLast-suc tail k _
          (λ j e at.
            let place : suc k - 4 ≡ j = omega arith in
            let room : leb 4 (suc k) ≡ true = ground arith in
            &&-not-false _ _ room (here.1 (rw place at)) missing)
          (rfind-IsLast tail k))

-- The record lies within the tail, and its comment ends with it.
abbrev pub ends_file : Bytes → ℕ → Bool
ends_file tail i = record_fits tail i && comment_ends tail i

-- What the search finds: a signature, whose record's comment ends the file, and that is checked.
abbrev pub Found : Bytes → ℕ → ZipEndRecord → Type 0
Found tail tail_start r =
    (i : ℕ) × IsSignedAt tail i × (ends_file tail i ≡ true) × (read_record tail tail_start i ≡ ok r)

unpacked :
    (size : ℕ) (buffer : Bytes) (m : Result ZipEndRecord) (r : ZipEndRecord)
    → unpack_from size buffer m ≡ ok r
    → m ≡ ok r
unpacked size buffer m r e = elim (Bool-cases (ltb (length buffer) size)) [
  | inl short ↦ let no : err (failure ErrorKind.other) ≡ ok r = rw short at e in absurd (cc no)
  | inr long ↦ rw long at e
]

at_signature-Found :
    (rounds : ℕ) (tail : Bytes) (tail_start search_end : ℕ) (o : Option ℕ) (r : ZipEndRecord)
    → IsLast tail search_end o
    → at_signature (search_record rounds tail tail_start) tail tail_start o ≡ ok r
    → ((k : ℕ) → search_record rounds tail tail_start k ≡ ok r → Found tail tail_start r)
    → Found tail tail_start r
at_signature-Found rounds tail tail_start search_end none r last e further = absurd (cc e)
at_signature-Found rounds tail tail_start search_end (some i) r last e further =
    elim (Bool-cases (record_fits tail i)) [
      | inl fits ↦ elim (Bool-cases (comment_ends tail i)) [
        | inl ends ↦
            (i, last.1, rw (fits, ends) refl, unpacked _ (drop i tail) _ r (rw (fits, ends) at e))
        | inr other ↦ further i (unpacked _ (drop i tail) _ r (rw (fits, other) at e))
      ]
      | inr other ↦ further i (rw other at e)
    ]

pub search_record-Found :
    (rounds : ℕ) (tail : Bytes) (tail_start search_end : ℕ) (r : ZipEndRecord)
    → search_record rounds tail tail_start search_end ≡ ok r
    → Found tail tail_start r
unfolding search_record
search_record-Found zero tail tail_start search_end r e = absurd (cc e)
search_record-Found (suc rounds) tail tail_start search_end r e =
    at_signature-Found rounds tail tail_start search_end _ r (rfind-IsLast tail search_end) e
      (λ k. search_record-Found rounds tail tail_start k r)

after_checks :
    (a b c : Bool) (x r : ZipEndRecord) → unless a (unless b (unless c (ok x))) ≡ ok r → r ≡ x
after_checks true b c x r e = absurd (cc e)
after_checks false true c x r e = absurd (cc e)
after_checks false false true x r e = absurd (cc e)
after_checks false false false x r e = cc e

-- The numbers of a record that is returned.
pub read_record-fields :
    (tail : Bytes) (tail_start i : ℕ) (r : ZipEndRecord)
    → read_record tail tail_start i ≡ ok r
    → let found = drop i tail in
      (r.entries ≡ u16_at found 10)
      × (r.directory_size ≡ u32_at found 12)
      × (r.directory_offset ≡ u32_at found 16)
      × (r.record_offset ≡ tail_start + i)
unfolding read_record
read_record-fields tail tail_start i r e =
    let found = drop i tail in
    let same =
      after_checks (is_located tail i) (is_multi_disk found) (is_zip64 found)
        (record {
          entries = u16_at found 10;
          directory_size = u32_at found 12;
          directory_offset = u32_at found 16;
          record_offset = tail_start + i;
        })
        r e in
    (
      ap (λ s. s.entries) same,
      ap (λ s. s.directory_size) same,
      ap (λ s. s.directory_offset) same,
      ap (λ s. s.record_offset) same,
    )
