-- ===== src/Collection/Policy.antt =====
-- application/collection.py, `CollectionPolicy.__post_init__`, with the limits of application/ports.py.
-- Of the two fields that are no integers, the time of a listing and the lease's time to live, the
-- outcome of their test is an argument.
pub mod Sufficiency
use makolet.Prelude.{
  ℕ, ◌+◌, ◌-◌, ◌*◌, ◌/◌, Bool, true, false, ◌&&◌, ◌||◌, not, Option, none, some, leb, max,
  if◌then◌else◌,
}
use makolet.Domain.Errors.{ErrorKind, failure}
use makolet.Exec.{Result, ok, err}
use makolet.Collection.Budget.{DiscoveryRunBudget, create}
use makolet.Collection.Reservation.{CollectionPolicy}
use makolet.Collection.Traversal.{TraversalPolicy}

abbrev pub maximum_supported_archive_object_bytes : ℕ
maximum_supported_archive_object_bytes = 16 * 1024 * 1024 * 1024

abbrev pub maximum_transfer_chunk_bytes : ℕ
maximum_transfer_chunk_bytes = 64 * 1024

-- TLS adds 22 bytes to each record of 16 KiB.
abbrev maximum_tls_framing_bytes_per_open : ℕ
maximum_tls_framing_bytes_per_open =
    (maximum_supported_archive_object_bytes + 16 * 1024 - 1) / (16 * 1024) * 22

abbrev maximum_http_control_bytes_per_open : ℕ
maximum_http_control_bytes_per_open = 128 * 1024 * 4 * 4 + 64 * 1024 * 4

abbrev pub maximum_http_transfer_protocol_overhead_bytes : ℕ
maximum_http_transfer_protocol_overhead_bytes =
    (maximum_http_control_bytes_per_open + maximum_tls_framing_bytes_per_open) * 4

abbrev pub maximum_ftp_transfer_protocol_overhead_bytes : ℕ
maximum_ftp_transfer_protocol_overhead_bytes =
    256 * 1024 + 128 * 1024 * 4 + maximum_tls_framing_bytes_per_open

module _ (policy : TraversalPolicy) where
  open policy use {charges}

  -- The limits on files and records.
  unfoldable pub valid_counts : Bool
  valid_counts =
      leb 1 policy.maximum_files_per_source_run
      && leb policy.maximum_files_per_source_run 10000
      && leb policy.maximum_files_per_source_run policy.maximum_discovery_records_per_source_run
      && leb policy.maximum_discovery_records_per_source_run 1000000
      && leb 1 policy.maximum_reported_files
      && leb policy.maximum_reported_files policy.maximum_files_per_source_run

  -- The limits on charged bytes.
  unfoldable pub valid_bytes : Bool
  valid_bytes =
      leb 1 charges.maximum_archive_object_bytes
      && leb charges.maximum_archive_object_bytes maximum_supported_archive_object_bytes
      && leb 1 charges.maximum_transfer_chunk_bytes
      && leb charges.maximum_transfer_chunk_bytes maximum_transfer_chunk_bytes
      && leb charges.maximum_transfer_protocol_overhead_bytes
          maximum_ftp_transfer_protocol_overhead_bytes
      && leb charges.maximum_http_transfer_protocol_overhead_bytes
          maximum_http_transfer_protocol_overhead_bytes
      && leb
          (charges.maximum_archive_object_bytes
            + charges.maximum_transfer_chunk_bytes
            + max charges.maximum_transfer_protocol_overhead_bytes
                charges.maximum_http_transfer_protocol_overhead_bytes)
          charges.maximum_charged_bytes_per_source_run
      && leb charges.maximum_charged_bytes_per_source_run
          charges.maximum_charged_bytes_per_source_day
      && leb charges.maximum_charged_bytes_per_source_day (16 * 1024 * 1024 * 1024 * 1024)

  -- The limits on a source's day.
  unfoldable pub valid_day : Bool
  valid_day =
      leb 1 charges.maximum_source_identities_per_source_day
      && leb charges.maximum_source_identities_per_source_day
          charges.maximum_transfer_attempts_per_source_day
      && leb charges.maximum_transfer_attempts_per_source_day 100000
      && leb 1 charges.maximum_successes_per_source_day
      && leb charges.maximum_successes_per_source_day 100000

  abbrev after_budget : Result DiscoveryRunBudget → Bool → Result (Unit {0})
  after_budget (err e) valid = err e
  after_budget (ok _) valid = if valid then ok tt else err (failure ErrorKind.value_error)

  unfoldable pub check_collection_policy : ℕ → Bool → Bool → Result (Unit {0})
  unfolding create failure valid_counts valid_bytes valid_day
  check_collection_policy discovery_page_size valid_elapsed valid_lease =
      if leb 1 discovery_page_size && leb discovery_page_size 500
      then after_budget
          (create policy.maximum_listing_requests_per_source_run
            policy.maximum_listing_bytes_per_source_run)
          (valid_elapsed && valid_counts && valid_bytes && valid_lease && valid_day)
      else err (failure ErrorKind.value_error)
