-- ===== src/Collection/Pages.antt =====
-- application/collection.py and application/models.py: discovery pages, and the tests that the
-- traversal makes of a file, a cursor and a reason.
use makolet.Prelude.{
  Bool, true, false, ◌&&◌, ◌||◌, not, Option, none, some, List, leb, text_eq, if◌then◌else◌,
}
use makolet.Domain.Errors.{ErrorKind, failure}
use makolet.Domain.Values.{Text, Instant, utf8_length}
use makolet.Domain.Documents.{DocumentType, CompressionFormat, text_in}
use makolet.Domain.Remote.{RemoteFile}
use makolet.Exec.{Result, ok, err}
use makolet.Collection.Reservation.{BudgetReason}

-- `DiscoveryPage`. The outer option is the cursor, the inner its `value`.
pub record DiscoveryPage : Type 0 where
  pub files : List RemoteFile
  pub next_cursor : Option (Option Text)
  pub complete : Bool

-- The fields of `CollectionScope` that the traversal reads.
pub record CollectionScope : Type 0 where
  pub source_id : Text
  pub portal_ids : List Text
  pub since : Option Instant
  pub until : Option Instant
  pub archive_only : Bool

-- The reasons for which a run ends early.
pub data TruncationReason : Type 0 where
  listing_request_limit listing_byte_limit listing_elapsed_limit : TruncationReason
  discovery_limit file_limit : TruncationReason
  charge_limit : BudgetReason → TruncationReason

-- `_durable_truncation_reason`.
unfoldable pub durable_truncation_reason : Option TruncationReason → Option TruncationReason
durable_truncation_reason (some listing_request_limit) = some discovery_limit
durable_truncation_reason (some listing_byte_limit) = some discovery_limit
durable_truncation_reason (some listing_elapsed_limit) = some discovery_limit
durable_truncation_reason reason = reason

abbrev not_before : Option Instant → Instant → Bool
not_before none timestamp = true
not_before (some since) timestamp = leb since timestamp

abbrev not_after : Option Instant → Instant → Bool
not_after none timestamp = true
not_after (some until) timestamp = leb timestamp until

abbrev in_bounds : Option Instant → Option Instant → Option Instant → Bool
in_bounds none none timestamp = true
in_bounds since until none = false
in_bounds since until (some timestamp) = not_before since timestamp && not_after until timestamp

-- `_within_range`.
unfoldable pub within_range : CollectionScope → RemoteFile → Bool
within_range scope remote = in_bounds scope.since scope.until remote.source_timestamp

-- `remote_file.document_type is UNKNOWN or remote_file.compression is UNKNOWN`.
abbrev unknown_type : DocumentType → Bool
unknown_type DocumentType.unknown = true
unknown_type _ = false

abbrev unknown_compression : CompressionFormat → Bool
unknown_compression CompressionFormat.unknown = true
unknown_compression _ = false

unfoldable pub is_unknown : RemoteFile → Bool
is_unknown remote = unknown_type remote.document_type || unknown_compression remote.compression

-- `_validate_remote_scope`.
unfoldable pub validate_remote_scope : CollectionScope → RemoteFile → Result (Unit {0})
unfolding failure text_in
validate_remote_scope scope remote =
    if not (text_eq remote.retailer_id scope.source_id)
      || not (text_in remote.portal_id scope.portal_ids)
    then err (failure ErrorKind.source_response)
    else ok tt

-- `_publisher_cursor`.
unfoldable pub publisher_cursor : Text → Result Text
unfolding failure utf8_length
publisher_cursor value =
    if leb 1 (utf8_length value) && leb (utf8_length value) 8192
    then ok value
    else err (failure ErrorKind.source_response)

-- `checkpoint.cursor == expected_cursor`.
unfoldable pub cursor_eq : Option Text → Option Text → Bool
cursor_eq none none = true
cursor_eq (some s) (some t) = text_eq s t
cursor_eq _ _ = false
