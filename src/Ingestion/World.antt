-- ===== src/Ingestion/World.antt =====
-- adapters/persistence/ingestion.py: the part of the database that one source file's run changes,
-- with `transition`, `record_archive` and `get` of the repository.
pub mod History
pub mod Stable
use makolet.Prelude.{
  ℕ, ◌+◌, Bool, true, false, ◌||◌, not, Option, none, some, List, [], ◌∷◌, if◌then◌else◌,
}
use makolet.Domain.Errors.{ErrorKind, Failure, failure}
use makolet.Domain.Values.{Text}
use makolet.Domain.Status.{
  IngestionStatus, downloading, archived, completed, failed_retryable, is_status, in_statuses,
  ensure_ingestion_transition,
}
use makolet.Domain.Documents.{ParsedEvent}
use makolet.Exec.{Result, ok, err, Exec}
use makolet.Ingestion.Ports.{Ports, Attachment, RegisteredSourceFile}

pub record World : Type 0 where
  -- the row of `source_files`
  pub status : IngestionStatus
  pub attachment : Option Attachment
  -- the number of rows of `ingestion_runs`
  pub runs : ℕ
  -- `source_file_events`, newest first
  pub events : List (IngestionStatus × IngestionStatus)
  -- the batches that the staging tables took in the current attempt
  pub staged : List (List ParsedEvent)
  -- how often normalized state was applied
  pub applies : ℕ
  -- the `maximum_bytes` of every download opened, newest first
  pub opened : List (Option ℕ)

-- The writes of `transition`: a retry opens a new run.
unfoldable pub moved : World → IngestionStatus → World
unfolding is_status
moved w target = record w {
  status = target;
  runs = if is_status w.status failed_retryable then w.runs + 1 else w.runs;
  events = (w.status, target) ∷ w.events;
}

-- The update and the insert, unless the database fails.
abbrev pub write_transition : Option Failure → IngestionStatus → Exec World (Unit {0})
write_transition (some e) target w = (err e, w)
write_transition none target w = (ok tt, moved w target)

abbrev pub checked_transition :
    Result (Unit {0}) → Option Failure → IngestionStatus → Exec World (Unit {0})
checked_transition (ok _) failed target w = write_transition failed target w
checked_transition (err e) failed target w = (err e, w)

abbrev no_statuses : List IngestionStatus → Bool
no_statuses [] = true
no_statuses (_ ∷ _) = false

-- `transition`. The error codes that the service passes have at most 128 characters.
unfoldable pub transition : Ports → List IngestionStatus → IngestionStatus → Exec World (Unit {0})
unfolding in_statuses ensure_ingestion_transition failure moved
transition ports expected target w =
    if no_statuses expected
    then (err (failure ErrorKind.value_error), w)
    else if not (in_statuses w.status expected)
    then (err (failure ErrorKind.persistence_conflict), w)
    else checked_transition (ensure_ingestion_transition w.status target)
        (ports.database_failure w.status target) target w

-- `record_archive`: the row takes the object and is archived. The result says that the object was
-- there before.
abbrev pub attach : Option Failure → Bool → Attachment → Exec World Bool
attach (some e) reused object w = (err e, w)
attach none reused object w = (
  ok reused,
  record w {
    status = archived;
    attachment = some object;
    events = (w.status, archived) ∷ w.events;
  },
)

unfoldable pub record_archive : Ports → Attachment → Bool → Exec World Bool
unfolding is_status failure
record_archive ports object created w =
    if is_status w.status downloading
    then attach ports.record_archive_failure (not created || ports.archive_known) object w
    else (err (failure ErrorKind.persistence_conflict), w)

abbrev key_of : Option Attachment → Option Text
key_of none = none
key_of (some a) = some a.object_key

abbrev digest_of : Option Attachment → Option Text
digest_of none = none
digest_of (some a) = some a.content_sha256

abbrev length_of : Option Attachment → Option ℕ
length_of none = none
length_of (some a) = some a.content_length

-- `_registered_source_file`, of the row as it stands.
unfoldable pub registered_source_file : World → RegisteredSourceFile
unfolding is_status
registered_source_file w = record {
  status = w.status;
  completed_content_sha256 = if is_status w.status completed then digest_of w.attachment else none;
  archive_object_key = key_of w.attachment;
  content_sha256 = digest_of w.attachment;
  archive_content_length = length_of w.attachment;
}

-- `get`.
abbrev answer : Option Failure → RegisteredSourceFile → Result RegisteredSourceFile
answer (some e) row = err e
answer none row = ok row

unfoldable pub get : Ports → Exec World RegisteredSourceFile
unfolding registered_source_file
get ports w = (answer ports.get_failure (registered_source_file w), w)
