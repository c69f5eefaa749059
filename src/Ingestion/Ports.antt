-- ===== src/Ingestion/Ports.antt =====
-- application/ports.py: what the collaborators of the ingestion service answer in one run over one
-- source file, any of which may be a failure. application/models.py: the records that they return.
use makolet.Prelude.{ℕ, Bool, Option, List}
use makolet.Domain.Errors.{Failure}
use makolet.Domain.Values.{Text, Instant}
use makolet.Domain.Status.{IngestionStatus}
use makolet.Domain.Documents.{ParsedEvent, DocumentType}
use makolet.Exec.{Result}
use makolet.Ingestion.Summary.{StageSummary}

-- The raw object that a source file's row refers to.
pub record Attachment : Type 0 where
  pub object_key : Text
  pub content_sha256 : Text
  pub content_length : ℕ

-- `RegisteredSourceFile`, without its identifier and its `RemoteFile`, which stay the same.
pub record RegisteredSourceFile : Type 0 where
  pub status : IngestionStatus
  pub completed_content_sha256 : Option Text
  pub archive_object_key : Option Text
  pub content_sha256 : Option Text
  pub archive_content_length : Option ℕ

pub record ApplySummary : Type 0 where
  pub inserted : ℕ
  pub updated : ℕ
  pub unchanged : ℕ
  pub unavailable : ℕ
  pub history_events : ℕ

-- What `RawArchive.put` returns.
pub record Put : Type 0 where
  pub object_key : Text
  pub content_length : ℕ
  pub created : Bool

-- One download attempt. The session counts the bytes that it has moved, over every hop and
-- redirect: `put_bytes` when the archive has taken the object, `final_bytes` at the end. Leaving
-- the session does not raise.
pub record Attempt : Type 0 where
  pub opened : Result (Unit {0})
  pub put : Result Put
  pub put_bytes : ℕ
  pub finished : Result Instant
  pub final_bytes : ℕ

pub record Ports : Type 0 where
  -- repository
  pub assert_ingestion_allowed : Result (Unit {0})
  pub register_discovery : Result RegisteredSourceFile
  pub refresh_discovery : Result (Unit {0})
  pub database_failure : IngestionStatus → IngestionStatus → Option Failure
  pub get_failure : Option Failure
  pub archive_sha256 : Result Text
  pub archive_known : Bool
  pub record_archive_failure : Option Failure
  pub reuse_validated_staging : Result (Option StageSummary)
  pub stage : List ParsedEvent → Result StageSummary
  pub finalize_staging : List (List ParsedEvent) → Result StageSummary
  pub has_file_quarantine_issue : Result Bool
  pub apply : ℕ → Result ApplySummary
  pub begin_replay : Result (Unit {0})
  pub finish_replay : Bool → Result (Unit {0})
  -- leases
  pub acquire : Bool
  -- downloader and archive: the answer to an attempt's number and its `maximum_bytes`
  pub download : ℕ → Option ℕ → Attempt
  pub verify : Text → Text → Result ℕ
  -- parser: its events, and how it ends
  pub document_type : DocumentType
  pub parsed : List ParsedEvent
  pub parse_failure : Option Failure
