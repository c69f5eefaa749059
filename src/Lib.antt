-- ===== src/Lib.antt =====
-- Makolet collects the price and promotion files that Israeli food retailers publish, archives them
-- byte for byte, parses them and applies them to a database. This library models the part of it that
-- runs the collections of its sources, goes through a source's listing, takes each discovered file
-- through its lifecycle, keeps the budgets that discovery and downloads are charged to, and guards
-- the parser against archives and XML tokens that are too large, as its code stands in src/makolet.
--
-- The parts, and the files that model them:
--   domain/errors.py, adapters/persistence/errors.py: Domain/Errors. An exception is a value with
--     its kind and the attributes that the services read.
--   domain/enums.py: Domain/Status (`IngestionStatus`, `_ALLOWED_TRANSITIONS`,
--     `ensure_ingestion_transition`) and Domain/Documents.
--   domain/models.py: Domain/Documents, Domain/Documents/Fields and Domain/Remote.
--   domain/normalization.py, `is_valid_gtin`: Domain/Gtin.
--   application/models.py: Collection/Budget (`DiscoveryRunBudget`), Ingestion/Summary
--     (`StageSummary`), Collection/Pages, Collection/Checkpoint, Ingestion/Ports and Ingestion/Service (`IngestionResult`).
--   application/collection.py: Collection/Ledger (`charge_budget`, `reserve_transfer` and
--     `settle_transfer` of `_MemoryCollectionRepository`), Collection/Checkpoint (its checkpoint and
--     the operations on it), Collection/Reservation (`_charge_budget_reason`, and how
--     `_collect_with_context` finds the bytes to reserve), Collection/Policy (the checks of
--     `CollectionPolicy`), Collection/Pages (the tests of files,
--     cursors and reasons) and Collection/Traversal (`_collect` and `_collect_with_context`: File has
--     the loop's body for a file, Loop the loops over files and pages, Start what comes before them).
--   application/worker.py: Worker/Sources (`_source_ids`, `_schedules`), Worker/Scheduler
--     (`run_forever`, `_consume_continuously`) and Worker/Health (`_run_source`).
--   adapters/archive/keys.py: Archive/Keys.
--   adapters/parsers/streams.py: Parsers/Limits (`CompressionLimits` and its checks), Parsers/Streams
--     (`_uncompressed`, `_gzip`, `_zstandard`), Parsers/Zip (`_preflight_zip` and what it calls),
--     Parsers/Member (`_spool_compressed`, `_validate_zip_entry`, `_zip`) and Parsers/Decompression
--     (`decompress_chunks`).
--   adapters/parsers/xml.py, `_XmlTokenGuard`: Parsers/Tokens.
--   application/ingestion.py: Ingestion/Policy (`IngestionPolicy`), Ingestion/Charges (`_stage_units`,
--     `_stage_memory_charge`), Ingestion/Summary (`stage_events`, `_combine_stage`), Ingestion/Staging
--     (the loop of `_parse_validate_apply`), Ingestion/Download (`_download_and_archive`) and
--     Ingestion/Service (`ingest`, `archive_only`, `replay` and what they call).
--   adapters/persistence/ingestion.py: Ingestion/World (`transition`, `record_archive`, `get`).
--
-- The service runs over one source file. `World` is what such a run changes in the database: the
-- file's row, the events recorded of it, the number of its runs, the staged batches, and, as a trace,
-- the downloads that were opened. An action is a function from a world to a result and a world
-- (Exec): after an exception the state is what was written before it. The answers of the service's
-- collaborators (downloader, archive, parser, leases, and the repository's methods that are SQL over
-- other tables) are the record `Ports`: any of them may be a failure, and what a theorem needs of
-- them is a named hypothesis (`Obeys`, `Answers`).
--
-- A collection reserves bytes for a file, hands the service the reservation less one transfer chunk
-- as its limit, and settles what the service reports. `Ledger` is what a run of one attempt changes in
-- the books of that attempt and its source; a dictionary is a function or a list. A run of a source
-- goes through the listing from the checkpoint on, page by page and file by file, and moves the
-- checkpoint past a file once the file needs no more work: `Run` is its variables with the books of
-- the repository, `CollectionPorts` the answers of adapter, service and clock, and `AfterRuns` any
-- number of such runs. The worker's tasks change over only at an `await`: `Step` is what happens
-- between two such points, in any order.
--
-- The parser of a document reads it through a generator of decompressed chunks. A generator is an
-- action on its variables and on what it has yielded (`Progress`); the decompressors of zlib and zstd
-- and the zipfile package are the parameters `Codecs`, with what they document as `Documented`. An
-- exception of theirs that no handler names leaves the generator as it is.
--
-- The token guard is fed a document text by text. A position in a text is what stands from it on, and
-- the loop of `feed` runs on twice the number of characters and one round.
--
-- Integers are natural numbers, as the code's checks make them. Texts are lists of code points. The
-- retry loop runs on the number of attempts that are left, which the policy bounds, the loop over
-- discovery pages on fuel, of which two more than the policy's limit on records are enough, the loop over
-- a compressed chunk on two rounds more than the limit on decompressed bytes, the loops over ZIP fields
-- and signatures on the number of bytes, and all other loops over a list. The monotonic clock of the worker is a natural number.
--
-- Left out: logged events and metrics, on which no result depends; the waiting times between
-- attempts; floats, of which the policy holds the test that the service makes; the length check of
-- error codes, since the service's codes are short; exceptions on leaving a download session; the
-- rows of a collection's report, of which the number is kept; the worker's signals, watchdog,
-- heartbeats and shutdown; the paths and the synchronisation of the ZIP
-- spool; in adapters/parsers/xml.py all but the token guard.
pub mod Prelude
pub mod Exec
pub mod Domain
pub mod Parsers
pub mod Ingestion
pub mod Collection
pub mod Archive
pub mod Worker
pub mod Tests
