-- ===== src/Domain/Remote.antt =====
-- domain/models.py: `RemoteFile`, what discovery says of a file, and the checks of
-- `ArchiveReceipt`.
use makolet.Prelude.{
  ℕ, Bool, true, false, ◌&&◌, ◌||◌, Option, List, [], ◌∷◌, length, leb, ◌==◌, if◌then◌else◌,
}
use makolet.Domain.Values.{Text, Instant}
use makolet.Domain.Documents.{DocumentType, CompressionFormat, SourceProtocol}

pub record RemoteFile : Type 0 where
  pub retailer_id : Text
  pub portal_id : Text
  pub protocol : SourceProtocol
  pub remote_id : Text
  pub download_url : Text
  pub original_filename : Text
  pub document_type : DocumentType
  pub compression : CompressionFormat
  pub discovered_at : Instant
  pub source_timestamp : Option Instant
  pub content_length : Option ℕ
  pub media_type : Option Text
  pub etag : Option Text
  pub last_modified : Option Instant
  pub response_metadata : List (Text × Text)

-- `character in "0123456789abcdef"`.
unfoldable pub is_hex_digit : ℕ → Bool
is_hex_digit c = (leb b'0' c && leb c b'9') || (leb b'a' c && leb c b'f')

unfoldable pub all_hex_digits : Text → Bool
unfolding is_hex_digit
all_hex_digits [] = true
all_hex_digits (c ∷ cs) = is_hex_digit c && all_hex_digits cs

-- `content_sha256` is lowercase SHA-256 hex.
unfoldable pub is_sha256 : Text → Bool
unfolding all_hex_digits
is_sha256 digest = length digest == 64 && all_hex_digits digest

unfoldable pub has_slash : Text → Bool
has_slash [] = false
has_slash (c ∷ cs) = c == b'/' || has_slash cs

-- `object_key.rsplit("/", 1)[-1]`.
unfoldable pub last_segment : Text → Text
unfolding has_slash
last_segment [] = []
last_segment (c ∷ cs) =
    let rest = last_segment cs in if has_slash cs then rest else if c == b'/' then cs else c ∷ cs
