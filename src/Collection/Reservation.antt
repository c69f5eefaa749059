-- ===== src/Collection/Reservation.antt =====
-- application/collection.py, `_collect_with_context`: how much is reserved for a file that is not
-- retried after it was terminal, and the limit that its ingestion is given.
pub mod Limits
use makolet.Prelude.{
  ℕ, ◌+◌, ◌-◌, ◌≤◌, Bool, true, false, Option, none, some, leb, min, if◌then◌else◌,
}
use makolet.Domain.Documents.{SourceProtocol}
use makolet.Collection.Ledger.{CollectionChargeBudget}

-- The limits of `CollectionPolicy` on charged bytes and on a source's day.
pub record CollectionPolicy : Type 0 where
  pub maximum_archive_object_bytes : ℕ
  pub maximum_transfer_chunk_bytes : ℕ
  pub maximum_transfer_protocol_overhead_bytes : ℕ
  pub maximum_http_transfer_protocol_overhead_bytes : ℕ
  pub maximum_charged_bytes_per_source_run : ℕ
  pub maximum_charged_bytes_per_source_day : ℕ
  pub maximum_source_identities_per_source_day : ℕ
  pub maximum_transfer_attempts_per_source_day : ℕ
  pub maximum_successes_per_source_day : ℕ

pub data BudgetReason : Type 0 where
  charged_byte_run_limit charged_byte_day_limit identity_day_limit : BudgetReason
  attempt_day_limit success_day_limit : BudgetReason

module _ (policy : CollectionPolicy) where
  -- `_charge_budget_reason`.
  unfoldable pub charge_budget_reason : CollectionChargeBudget → Option BudgetReason
  charge_budget_reason b =
      if leb policy.maximum_charged_bytes_per_source_run b.run_charged_bytes
      then some charged_byte_run_limit
      else if leb policy.maximum_charged_bytes_per_source_day b.day_charged_bytes
      then some charged_byte_day_limit
      else if leb policy.maximum_source_identities_per_source_day b.day_source_identities
      then some identity_day_limit
      else if leb policy.maximum_transfer_attempts_per_source_day b.day_transfer_attempts
      then some attempt_day_limit
      else if leb policy.maximum_successes_per_source_day b.day_successes
      then some success_day_limit
      else none

  unfoldable pub remaining_bytes : CollectionChargeBudget → ℕ
  remaining_bytes b =
      min (policy.maximum_charged_bytes_per_source_run - b.run_charged_bytes)
        (policy.maximum_charged_bytes_per_source_day - b.day_charged_bytes)

  unfoldable pub protocol_overhead : SourceProtocol → ℕ
  protocol_overhead SourceProtocol.ftp = policy.maximum_transfer_protocol_overhead_bytes
  protocol_overhead SourceProtocol.ftps = policy.maximum_transfer_protocol_overhead_bytes
  protocol_overhead SourceProtocol.http = policy.maximum_http_transfer_protocol_overhead_bytes
  protocol_overhead SourceProtocol.https = policy.maximum_http_transfer_protocol_overhead_bytes
  protocol_overhead SourceProtocol.fixture = 0

  unfoldable pub full_reservation : SourceProtocol → ℕ
  unfolding protocol_overhead
  full_reservation protocol =
      policy.maximum_archive_object_bytes
      + protocol_overhead protocol
      + policy.maximum_transfer_chunk_bytes

  -- The reservation, unless the run ends here for its charges.
  abbrev pub reservation_within :
      SourceProtocol → CollectionChargeBudget → Option BudgetReason → Option ℕ
  reservation_within protocol b (some reason) = none
  reservation_within protocol b none =
      if leb (remaining_bytes b) policy.maximum_transfer_chunk_bytes
      then none
      else some (min (remaining_bytes b) (full_reservation protocol))

  unfoldable pub reserved_bytes : SourceProtocol → CollectionChargeBudget → Option ℕ
  unfolding charge_budget_reason remaining_bytes full_reservation
  reserved_bytes protocol b = reservation_within protocol b (charge_budget_reason b)

  -- `ingestion_byte_limit`.
  abbrev pub ingestion_byte_limit : ℕ → ℕ
  ingestion_byte_limit reserved = reserved - policy.maximum_transfer_chunk_bytes
