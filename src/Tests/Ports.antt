-- ===== src/Tests/Ports.antt =====
-- Collaborators, a policy and files to run the ingestion service with.
use makolet.Prelude.{ℕ, zero, suc, Option, none, some, List, [], ◌∷◌, ltb, ◌*◌, true, false}
use makolet.Domain.Errors.{ErrorKind, failure_after}
use makolet.Domain.Values.{Text, literal}
use makolet.Domain.Status.{IngestionStatus, discovered}
use makolet.Domain.Documents.{ParsedEvent, store, issue, DocumentType, IssueCategory}
use makolet.Domain.Documents.{SourceProtocol, CompressionFormat}
use makolet.Domain.Remote.{RemoteFile}
use makolet.Collection.Ledger.{Ledger}
use makolet.Collection.Reservation.{CollectionPolicy}
use makolet.Exec.{Result, ok, err}
use makolet.Ingestion.Policy.{IngestionPolicy}
use makolet.Ingestion.Summary.{StageSummary, stage_events}
use makolet.Ingestion.Ports.{Ports, Attachment, Attempt, RegisteredSourceFile}
use makolet.Ingestion.World.{World}

abbrev pub digest : Text
digest = literal "9f86d081884c7d659a2feaa0c55ad015a3bf4f1b2b0b822cd15d6c15b0f00a08"

abbrev pub object_key : Text
object_key = literal "sha256/9f/86/9f86d081884c7d659a2feaa0c55ad015a3bf4f1b2b0b822cd15d6c15b0f00a08"

abbrev pub object : Attachment
object = record { object_key = object_key; content_sha256 = digest; content_length = 3 }

-- Batches of at most two rows.
abbrev pub policy : IngestionPolicy
policy = record {
  stage_batch_size = 2;
  maximum_stage_batch_bytes = 100000;
  download_attempts = 3;
  minimum_full_records = none;
  minimum_full_store_records = 1;
  minimum_full_price_records = 1;
  minimum_full_promotion_records = 0;
  rejection_exceeds = λ rejected evaluated. ltb evaluated (rejected * 2);
  maximum_validation_issues = 5;
  maximum_validation_issue_bytes = 1000;
}

abbrev pub store_event : ℕ → ParsedEvent
store_event n = store (record {
  source_file_id = 7;
  record_index = n;
  chain_id = literal "7290027600007";
  subchain_id = literal "1";
  store_id = literal "12";
  audit_number = none;
  store_type = none;
  chain_name = none;
  subchain_name = none;
  store_name = literal "Center";
  address = none;
  city = none;
  postal_code = none;
})

abbrev pub warning_event : ParsedEvent
warning_event = issue (record {
  source_file_id = 7;
  severity = IssueCategory.warning;
  code = literal "empty_city";
  message = literal "no city";
  record_index = some 1;
  field_name = none;
  rejected_value = none;
})

abbrev pub document : List ParsedEvent
document = store_event 0 ∷ warning_event ∷ store_event 1 ∷ []

-- The first attempt loses the connection after two bytes. Later ones bring three bytes.
abbrev pub lost : Attempt
lost = record {
  opened = ok tt;
  put = err (failure_after ErrorKind.source_access 2);
  put_bytes = 0;
  finished = ok 0;
  final_bytes = 2;
}

abbrev pub brought : Attempt
brought = record {
  opened = ok tt;
  put = ok (record { object_key = object_key; content_length = 3; created = true });
  put_bytes = 3;
  finished = ok 0;
  final_bytes = 3;
}

abbrev pub flaky : ℕ → Option ℕ → Attempt
flaky zero limit = lost
flaky (suc zero) limit = lost
flaky (suc (suc n)) limit = brought

abbrev pub count_batch : List ParsedEvent → Result StageSummary
count_batch events = ok (stage_events events)

abbrev registered : RegisteredSourceFile
registered = record {
  status = discovered;
  completed_content_sha256 = none;
  archive_object_key = none;
  content_sha256 = none;
  archive_content_length = none;
}

abbrev pub ports : Ports
ports = record {
  assert_ingestion_allowed = ok tt;
  register_discovery = ok registered;
  refresh_discovery = ok tt;
  database_failure = λ s t. none;
  get_failure = none;
  archive_sha256 = ok digest;
  archive_known = false;
  record_archive_failure = none;
  reuse_validated_staging = ok none;
  stage = count_batch;
  finalize_staging = λ batches. ok (stage_events document);
  has_file_quarantine_issue = ok false;
  apply = λ minimum.
      ok (record { inserted = 2; updated = 0; unchanged = 0; unavailable = 0; history_events = 2 });
  begin_replay = ok tt;
  finish_replay = λ completed. ok tt;
  acquire = true;
  download = flaky;
  verify = λ key sha256. ok 3;
  document_type = DocumentType.stores;
  parsed = document;
  parse_failure = none;
}

abbrev pub at : IngestionStatus → Option Attachment → World
at status attachment = record {
  status = status;
  attachment = attachment;
  runs = 1;
  events = [];
  staged = [];
  applies = 0;
  opened = [];
}

abbrev pub remote : RemoteFile
remote = record {
  retailer_id = literal "shufersal";
  portal_id = literal "shufersal-main";
  protocol = SourceProtocol.https;
  remote_id = literal "prices.shufersal.co.il/PriceFull1.gz";
  download_url = literal "https://prices.shufersal.co.il/PriceFull1.gz";
  original_filename = literal "PriceFull1.gz";
  document_type = DocumentType.price_full;
  compression = CompressionFormat.gzip;
  discovered_at = 0;
  source_timestamp = none;
  content_length = some 3;
  media_type = none;
  etag = none;
  last_modified = none;
  response_metadata = [];
}

-- An attempt that has charged 20 bytes so far.
abbrev pub ledger : Ledger
ledger = record {
  running = true;
  attempt_charged_bytes = 20;
  source_charged_bytes = 20;
  charged_transfers = λ f. none;
  charged_sources = [];
  terminal = [];
  source_identity_files = [];
  source_attempt_count = 1;
  source_success_count = 1;
}

abbrev pub collection_policy : CollectionPolicy
collection_policy = record {
  maximum_archive_object_bytes = 10;
  maximum_transfer_chunk_bytes = 3;
  maximum_transfer_protocol_overhead_bytes = 4;
  maximum_http_transfer_protocol_overhead_bytes = 2;
  maximum_charged_bytes_per_source_run = 100;
  maximum_charged_bytes_per_source_day = 200;
  maximum_source_identities_per_source_day = 5;
  maximum_transfer_attempts_per_source_day = 5;
  maximum_successes_per_source_day = 5;
}
