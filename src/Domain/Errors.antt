-- ===== src/Domain/Errors.antt =====
-- domain/errors.py and adapters/persistence/errors.py: the exceptions that the services raise.
-- A class is a constructor of `ErrorKind`. Classes that do not derive from `MakoletError` stand at
-- the end; `other` is any further class of Python or of a package.
use makolet.Prelude.{if◌then◌else◌, ℕ, Bool, true, false, String}

pub data ErrorKind : Type 0 where
  domain_validation invalid_state_transition source_access source_response : ErrorKind
  source_blocked unsafe_remote download_limit discovery_budget_exceeded : ErrorKind
  charge_budget_exceeded archive_capacity archive_integrity unsafe_archive : ErrorKind
  malformed_document quarantined_file repository_error lease_unavailable : ErrorKind
  maintenance_mode normalized_rebuild_interrupted query_limit not_found : ErrorKind
  catalog_match_conflict : ErrorKind
  persistence_conflict persistence_not_found : ErrorKind
  value_error runtime_error cancelled other : ErrorKind

-- `isinstance(error, MakoletError)`.
unfoldable pub is_makolet : ErrorKind → Bool
is_makolet ErrorKind.persistence_conflict = false
is_makolet ErrorKind.persistence_not_found = false
is_makolet ErrorKind.value_error = false
is_makolet ErrorKind.runtime_error = false
is_makolet ErrorKind.cancelled = false
is_makolet ErrorKind.other = false
is_makolet _ = true

-- The class attribute `retryable`; what is no `MakoletError` has none and is not retried.
unfoldable pub retryable : ErrorKind → Bool
retryable ErrorKind.source_access = true
retryable ErrorKind.discovery_budget_exceeded = true
retryable ErrorKind.charge_budget_exceeded = true
retryable ErrorKind.archive_capacity = true
retryable ErrorKind.repository_error = true
retryable ErrorKind.lease_unavailable = true
retryable ErrorKind.maintenance_mode = true
retryable ErrorKind.normalized_rebuild_interrupted = true
retryable _ = false

-- The class attribute `code`, under `_error_code` of the ingestion service.
unfoldable pub error_code : ErrorKind → String
error_code ErrorKind.domain_validation = "domain_validation_error"
error_code ErrorKind.invalid_state_transition = "invalid_state_transition"
error_code ErrorKind.source_access = "source_access_error"
error_code ErrorKind.source_response = "source_response_error"
error_code ErrorKind.source_blocked = "source_blocked"
error_code ErrorKind.unsafe_remote = "unsafe_remote"
error_code ErrorKind.download_limit = "download_limit_exceeded"
error_code ErrorKind.discovery_budget_exceeded = "discovery_budget_exceeded"
error_code ErrorKind.charge_budget_exceeded = "charge_budget_exceeded"
error_code ErrorKind.archive_capacity = "archive_capacity_exhausted"
error_code ErrorKind.archive_integrity = "archive_integrity_error"
error_code ErrorKind.unsafe_archive = "unsafe_archive"
error_code ErrorKind.malformed_document = "malformed_document"
error_code ErrorKind.quarantined_file = "file_quarantined"
error_code ErrorKind.repository_error = "repository_error"
error_code ErrorKind.lease_unavailable = "lease_unavailable"
error_code ErrorKind.maintenance_mode = "maintenance_mode_active"
error_code ErrorKind.normalized_rebuild_interrupted = "normalized_rebuild_interrupted"
error_code ErrorKind.query_limit = "query_limit_exceeded"
error_code ErrorKind.not_found = "not_found"
error_code ErrorKind.catalog_match_conflict = "catalog_match_conflict"
error_code _ = "unexpected_error"

-- An exception object. `transferred_bytes` and `budget_limited` are attributes of `MakoletError`
-- and `DownloadLimitError`; no code reads them of another class.
pub record Failure : Type 0 where
  pub kind : ErrorKind
  pub transferred_bytes : ℕ
  pub budget_limited : Bool

-- `SomeError("message")`, with the attributes' defaults.
unfoldable pub failure : ErrorKind → Failure
failure k = record { kind = k; transferred_bytes = 0; budget_limited = false }

-- `SomeError("message", transferred_bytes=n)`.
unfoldable pub failure_after : ErrorKind → ℕ → Failure
failure_after k n = record { kind = k; transferred_bytes = n; budget_limited = false }

-- `error.transferred_bytes if isinstance(error, MakoletError) else 0`.
unfoldable pub error_bytes : Failure → ℕ
unfolding is_makolet
error_bytes e = if is_makolet e.kind then e.transferred_bytes else 0
