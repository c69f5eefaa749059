-- ===== src/Tests/Parsers.antt =====
-- The theorems on archived content at concrete inputs.
use makolet.Prelude.{
  ◌≡◌, refl, ap, ◌||◌, ◌↔◌, Bool, true, false, none, some, List, [], ◌∷◌, ◌++◌, length, take,
  length-take_le, arith,
}
use makolet.Domain.Errors.{failure}
use makolet.Domain.Documents.{CompressionFormat}
use makolet.Exec.{ok}
use makolet.Parsers.Limits.{Bytes, CompressionLimits}
use makolet.Parsers.Streams.{Decompressor, returned}
use makolet.Parsers.Streams.Bounds.{IsWithin, RespectsMaximum}
use makolet.Parsers.Streams.Ending.{NeedsInput}
use makolet.Parsers.Zip.{
  preflight_zip, validate_entries, reject_zip64_extra, check_header, has_null, byte_at,
  read_zip_end_record, search_record, rfind, read_record,
}
use makolet.Parsers.Zip.Directory.{IsDirectory, validate_entries_iff}
use makolet.Parsers.Zip.Layout.{IsArchive, preflight_zip-IsArchive}
use makolet.Parsers.Zip.Refusals.{Refuses, preflight_zip-Refuses}
use makolet.Parsers.Member.{ZipPorts, read_whole}
use makolet.Parsers.Decompression.{Codecs, new_progress, decompress_chunks, decompressor_for}
use makolet.Parsers.Decompression.Delivery.{Documented, Delivers, decompress_chunks-Delivers}
use makolet.Prelude.{text_eq}
use makolet.Domain.Values.{literal}
use makolet.Parsers.Tokens.{
  TokenLimits, TokenGuard, token_element, token_comment, new_guard, ◌>>=◌, malformed, add_text,
  add_quoted, add_token, until, scan, feed_rounds, feed, close,
}
use makolet.Parsers.Tokens.Chunks.{feed-append}
use makolet.Parsers.Tokens.Cuts.{has_no_dash, close-feed_parted}

abbrev limits : CompressionLimits
limits = record {
  maximum_compressed_bytes = 1000;
  maximum_decompressed_bytes = 2000;
  maximum_expansion_ratio = 3;
  maximum_zip_entries = 2;
  maximum_zip_directory_bytes = 100;
  maximum_chunk_bytes = 16;
  spool_memory_bytes = 500;
  maximum_zstandard_window_log = 27;
}

-- A decompressor that returns what it is given and is at its end.
abbrev copying : Decompressor Bool
copying = record {
  start = false;
  decompress = λ d pending n. returned (take n pending) true;
  eof = λ d. d;
  unused_data = λ d. [];
  unconsumed_tail = λ d. [];
  needs_input = λ d. true;
}

abbrev zip_ports : ZipPorts
zip_ports = record {
  reserve = λ calls n. true;
  infolist = λ content. some [];
  read_member = λ content entry n. (take n content ∷ [], read_whole);
}

abbrev codecs : Codecs Bool
codecs = record {
  gzip_decompressor = copying;
  zstandard_decompressor = copying;
  zip_ports = zip_ports;
}

copied : (d : Bool) → (d || true) ≡ true
copied true = refl
copied false = refl

copying-RespectsMaximum : RespectsMaximum copying
copying-RespectsMaximum d d' pending output n positive h =
    let same : take n pending ≡ output = cc h in
    omega (arith, length-take_le n pending, ap length same)

copying-NeedsInput : NeedsInput copying
copying-NeedsInput d d' pending n positive h = copied d'

copying-Documented : Documented codecs
copying-Documented = record {
  gzip_respects = copying-RespectsMaximum;
  gzip_consumes = λ d d' pending n positive h. refl;
  zstandard_respects = copying-RespectsMaximum;
  zstandard_needs = copying-NeedsInput;
  zip_respects = λ content entry n. (length-take_le n content, tt);
}

abbrev one_chunk : List Bytes
one_chunk = (1 ∷ 2 ∷ 3 ∷ []) ∷ []

decompress_chunks-Delivers_example :
    let r =
      decompress_chunks codecs limits CompressionFormat.gzip one_chunk none
        (new_progress (decompressor_for codecs CompressionFormat.gzip)) in
    IsWithin limits r.1 × Delivers limits CompressionFormat.gzip one_chunk r.0 r.1
decompress_chunks-Delivers_example =
    decompress_chunks-Delivers codecs copying-Documented limits (omega arith) CompressionFormat.gzip
      one_chunk none

-- A member of one byte, its entry with the name "a", and the end record with a comment of a byte.
abbrev directory : Bytes
directory =
    0x50 ∷ 0x4b ∷ 1 ∷ 2 ∷ 20 ∷ 0 ∷ 20 ∷ 0 ∷ 0 ∷ 0 ∷ 0 ∷ 0 ∷ 0 ∷ 0 ∷ 0 ∷ 0 ∷ 9 ∷ 9 ∷ 9 ∷ 9 ∷ 1 ∷ 0
    ∷ 0 ∷ 0 ∷ 1 ∷ 0 ∷ 0 ∷ 0 ∷ 1 ∷ 0 ∷ 5 ∷ 0 ∷ 0 ∷ 0 ∷ 0 ∷ 0 ∷ 0 ∷ 0 ∷ 0 ∷ 0 ∷ 0 ∷ 0 ∷ 0 ∷ 0 ∷ 0 ∷ 0
    ∷ b'a' ∷ 2 ∷ 0 ∷ 1 ∷ 0 ∷ 8 ∷ []

abbrev archive : Bytes
archive =
    7
    ∷ (directory
        ++ (0x50 ∷ 0x4b ∷ 5 ∷ 6 ∷ 0 ∷ 0 ∷ 0 ∷ 0 ∷ 1 ∷ 0 ∷ 1 ∷ 0 ∷ 52 ∷ 0 ∷ 0 ∷ 0 ∷ 1 ∷ 0 ∷ 0 ∷ 0 ∷ 1
            ∷ 0 ∷ 33 ∷ []))

preflight_zip-IsArchive_example : IsArchive limits archive
preflight_zip-IsArchive_example = preflight_zip-IsArchive archive limits (
    unfold preflight_zip read_zip_end_record search_record rfind read_record byte_at text_eq
      validate_entries check_header has_null reject_zip64_extra failure in
    refl)

validate_entries_iff_example : (validate_entries 1 1 directory ≡ ok tt) ↔ IsDirectory 1 1 directory
validate_entries_iff_example = validate_entries_iff 1 1 directory

preflight_zip-Refuses_example : Refuses (preflight_zip directory 52 limits)
preflight_zip-Refuses_example = preflight_zip-Refuses directory 52 limits

abbrev token_limits : TokenLimits
token_limits = record { maximum_field_characters = 50; maximum_token_characters = 50 }

-- In the value of an attribute.
abbrev in_apostrophes : TokenGuard
in_apostrophes = record new_guard {
  mode = token_element;
  token_characters = 7;
  quote = some 0x27;
  quoted_characters = 1;
  declaration_prefix = literal "<";
}

feed-append_example :
    feed token_limits (literal "<a b='x" ++ literal "y'>z<!-- -->") new_guard
    ≡ feed token_limits (literal "y'>z<!-- -->") in_apostrophes
feed-append_example =
    feed-append token_limits (literal "<a b='x") (literal "y'>z<!-- -->") new_guard in_apostrophes
      (unfold feed feed_rounds scan until add_token add_quoted add_text failure in refl) refl

abbrev in_comment : TokenGuard
in_comment = record new_guard { mode = token_comment; token_characters = 4 }

close-feed_parted_example :
    ((feed token_limits (literal "a b" ++ literal "-->") in_comment >>= close) ≡ ok tt)
    × ((feed token_limits (literal "a b" ++ literal "-") in_comment
          >>= feed token_limits (literal "->")
          >>= close)
        ≡ malformed)
    × ((feed token_limits (literal "a b" ++ literal "--") in_comment
          >>= feed token_limits (literal ">")
          >>= close)
        ≡ malformed)
close-feed_parted_example =
    close-feed_parted token_limits (literal "a b") in_comment refl (unfold has_no_dash in refl)
      (omega arith)
