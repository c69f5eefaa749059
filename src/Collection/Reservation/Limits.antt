-- ===== src/Collection/Reservation/Limits.antt =====
-- A transfer stays within the limits on charged bytes.
use makolet.Prelude.{ℕ, ◌+◌, ◌-◌, ◌≤◌, ◌≡◌, true, false, Option, none, some, arith, ap}
use makolet.Domain.Documents.{SourceProtocol}
use makolet.Domain.Values.{Uuid}
use makolet.Domain.Remote.{RemoteFile}
use makolet.Exec.{ok}
use makolet.Ingestion.Ports.{Ports}
use makolet.Ingestion.World.{World}
use makolet.Ingestion.Download.{download_and_archive}
use makolet.Ingestion.Download.Budget.{Obeys, reported_bytes, download_and_archive-Within}
use makolet.Collection.Ledger.{
  CollectionChargeBudget, Ledger, identity_of, is_terminal, budget_of, settle_transfer,
  reserve_transfer,
}
use makolet.Collection.Ledger.Settling.{settle_transfer-reserve_transfer, reserve_transfer-new}
use makolet.Collection.Reservation.{
  CollectionPolicy, BudgetReason, charge_budget_reason, remaining_bytes, full_reservation,
  reservation_within, reserved_bytes, ingestion_byte_limit,
}

module _ (policy : CollectionPolicy) where
  reservation_fits :
      (protocol : SourceProtocol) (b : CollectionChargeBudget) (reason : Option BudgetReason)
      (reserved : ℕ)
      → reservation_within policy protocol b reason ≡ some reserved
      → (b.run_charged_bytes + reserved ≤ policy.maximum_charged_bytes_per_source_run)
        × (b.day_charged_bytes + reserved ≤ policy.maximum_charged_bytes_per_source_day)
        × (policy.maximum_transfer_chunk_bytes ≤ reserved)
  unfolding full_reservation remaining_bytes
  reservation_fits protocol b (some reason) reserved h = cc h
  reservation_fits protocol b none reserved h = ground arith

  -- One transfer of a collection, from the reservation to the settlement: of a file that is new to a
  -- running attempt and not noted as terminal, where `_collect_with_context` makes a reservation, and
  -- of whose download the downloader moves at most the limit it is given and one chunk. The
  -- reservation leaves the attempt and its source within the byte limits of the run and the day; the
  -- bytes that the download reports, with its result or its failure, are settled without an error;
  -- and both limits still hold then.
  pub transfer_within_limits :
      (ports : Ports) (file : Uuid) (remote : RemoteFile) (reserved attempts : ℕ) (l : Ledger)
      (w : World)
      → Obeys ports policy.maximum_transfer_chunk_bytes
      → l.running ≡ true
      → l.charged_transfers file ≡ none
      → is_terminal (identity_of remote) l.terminal ≡ false
      → reserved_bytes policy remote.protocol (budget_of l) ≡ some reserved
      → let v = (reserve_transfer file reserved l).1 in
        let download =
          download_and_archive ports (some (ingestion_byte_limit policy reserved)) attempts w in
        let p = settle_transfer file remote (reported_bytes download.0) v in
        (v.attempt_charged_bytes ≤ policy.maximum_charged_bytes_per_source_run)
        × (v.source_charged_bytes ≤ policy.maximum_charged_bytes_per_source_day)
        × (p.0 ≡ ok (budget_of p.1))
        × (p.1.attempt_charged_bytes ≤ policy.maximum_charged_bytes_per_source_run)
        × (p.1.source_charged_bytes ≤ policy.maximum_charged_bytes_per_source_day)
  unfolding reserved_bytes
  transfer_within_limits ports file remote reserved attempts l w obeys running unknown open_ made =
      let chunk = policy.maximum_transfer_chunk_bytes in
      let bytes =
        reported_bytes (download_and_archive ports (some (reserved - chunk)) attempts w).0 in
      let (run, day, room) =
        reservation_fits remote.protocol (budget_of l) (charge_budget_reason policy (budget_of l))
          reserved made in
      let moved : bytes ≤ reserved = omega (
        arith,
        (download_and_archive-Within ports (reserved - chunk) chunk obeys attempts w).reported,
        room,
      ) in
      let reservation = reserve_transfer-new file reserved l running unknown in
      let (returned, attempt, source, _) =
        settle_transfer-reserve_transfer file remote reserved bytes 0 l running unknown open_
          moved in
      (
        omega (arith, run, ap (λ p. p.1.attempt_charged_bytes) reservation),
        omega (arith, day, ap (λ p. p.1.source_charged_bytes) reservation),
        returned,
        omega (arith, run, attempt, moved),
        omega (arith, day, source, moved),
      )
