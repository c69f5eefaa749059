-- ===== src/Tests/Instances.antt =====
-- The theorems at concrete inputs.
use makolet.Prelude.{
  sum_by, ◌+◌, ◌<◌, ◌∷◌, Bool, false, ℕ, zero, suc, ◌≤◌, ◌≡◌, ◌↔◌, ◌⊎◌, refl, true, none, some,
  List, [], ◌++◌, All, concat, arith, if◌then◌else◌, Option, ◌%◌,
}
use makolet.Domain.Errors.{
  ErrorKind, Failure, failure, failure_after, error_bytes, is_makolet, retryable,
}
use makolet.Domain.Values.{literal, utf8_length, bit_length}
use makolet.Domain.Status.{
  discovered, archived, parsing, completed, applying, failed_retryable, in_statuses,
  ensure_ingestion_transition,
}
use makolet.Domain.Status.Laws.{
  ◌⟶*◌, here, done, terminal_absorbs, completes, completed_predecessor, Visits, from_discovered,
  IsTerminal,
}
use makolet.Domain.Gtin.{is_valid_gtin}
use makolet.Domain.Status.Diagram.{as_drawn, ensure_ingestion_transition-as_drawn}
use makolet.Domain.Gtin.Laws.{is_valid_gtin_iff, single_error, weighted_sum, IsLength, IsDigit}
use makolet.Domain.Documents.{ParsedEvent}
use makolet.Domain.Documents.Fields.{event_value}
use makolet.Ingestion.Charges.{
  stage_units, stage_memory_charge, retained_value_charge, retained_values_charge,
  validation_issue_charge,
}
use makolet.Exec.{is_ok, ok, err, ◌>>=◌}
use makolet.Ingestion.Summary.{stage_events, combine_stage, stage_events-append}
use makolet.Ingestion.Staging.{
  start_staging, stage_document, stage_events_until, stage_event, count_issue, check_event,
  make_room, append_event, flush_full, flush_rest, flush_batch, ensure_issues_within_limits,
  ensure_stage_event_within_limits,
}
use makolet.Ingestion.Staging.Steps.{Fits}
use makolet.Ingestion.Staging.Completion.{
  FitsAlone, issue_units, issue_charge, stage_document-returns,
}
use makolet.Ingestion.Staging.Batches.{stage_document-batches, stage_document-whole}
use makolet.Ingestion.Ports.{Put}
use makolet.Ingestion.World.{moved}
use makolet.Ingestion.World.History.{IsHistory}
use makolet.Ingestion.Download.{download_and_archive}
use makolet.Ingestion.Download.Budget.{Obeys, Within, reported_bytes, download_and_archive-Within}
use makolet.Ingestion.Service.{
  ingest, archive_only, ingest_owned, record_failure, failure_target, finished_statuses,
}
use makolet.Ingestion.Service.History.{ingest-IsHistory, ingest_owned_attached}
use makolet.Ingestion.Service.Outcomes.{Answers, record_failure-ok, record_failure-masks}
use makolet.Ingestion.Service.Settling.{Ends, ingest_owned-Ends}
use makolet.Collection.Budget.{DiscoveryRunBudget, create, begin_request}
use makolet.Collection.Budget.Bounds.{
  Call, request, consume, granted, requests_of, bytes_of, granted-create, begin_request-granted,
  after_calls,
}
use makolet.Collection.Ledger.{budget_of, is_terminal, reserve_transfer, settle_transfer}
use makolet.Collection.Ledger.Settling.{settle_transfer-reserve_transfer}
use makolet.Collection.Reservation.{
  reserved_bytes, charge_budget_reason, remaining_bytes, full_reservation, protocol_overhead,
}
use makolet.Collection.Reservation.Limits.{transfer_within_limits}
use makolet.Tests.Ports.{
  remote, ledger, collection_policy, ports, policy, at, object, document, count_batch, flaky,
}

stage_document-batches_example :
    (rest : List ParsedEvent) × (concat
          (stage_document policy count_batch document none start_staging).1.staged
        ++ rest
      ≡ document)
    × All (Fits policy) (stage_document policy count_batch document none start_staging).1.staged
stage_document-batches_example =
    stage_document-batches policy count_batch (omega arith) (omega arith) document none

document_staged : (stage_document policy count_batch document none start_staging).0 ≡ ok tt
unfolding stage_document stage_events_until stage_event flush_rest count_issue check_event make_room
    append_event flush_full flush_batch ensure_issues_within_limits ensure_stage_event_within_limits
    ◌>>=◌ stage_units stage_memory_charge retained_value_charge retained_values_charge event_value
    validation_issue_charge utf8_length stage_events bit_length
document_staged = refl

stage_document-whole_example :
    (concat (stage_document policy count_batch document none start_staging).1.staged ≡ document)
    × (◌≡◌ {A = Option Failure} none none)
stage_document-whole_example =
    stage_document-whole policy count_batch (omega arith) (omega arith) document none
      document_staged

answering : Answers ports
answering = record { reads = refl; writes = λ s t. refl }

ingest_owned-Ends_example : Ends (ingest_owned ports policy (some 10) (at discovered none))
ingest_owned-Ends_example = ingest_owned-Ends ports policy (some 10) (at discovered none) answering

ingest-IsHistory_example :
    IsHistory discovered (ingest ports policy (some 10) (at discovered none)).1
    × IsHistory discovered (archive_only ports policy (some 10) (at discovered none)).1
ingest-IsHistory_example =
    ingest-IsHistory ports policy (some 10) discovered (at discovered none) refl

ingest_owned_attached_example :
    ((ingest_owned ports policy none (at failed_retryable (some object))).1.opened ≡ [])
    × ((ingest_owned ports policy none (at failed_retryable (some object))).1.attachment
        ≡ some object)
ingest_owned_attached_example =
    ingest_owned_attached ports policy none (at failed_retryable (some object)) object refl

record_failure-ok_example :
    record_failure ports policy ErrorKind.malformed_document (at parsing none) ≡ (
      if in_statuses parsing finished_statuses
      then (ok tt, at parsing none)
      else (ok tt, moved (at parsing none) (failure_target parsing ErrorKind.malformed_document)))
record_failure-ok_example =
    record_failure-ok ports policy ErrorKind.malformed_document (at parsing none) answering
      (λ h. unfold is_makolet retryable in refl)

record_failure-masks_example :
    record_failure ports policy ErrorKind.archive_capacity (at failed_retryable (some object))
    ≡ (err (failure ErrorKind.invalid_state_transition), at failed_retryable (some object))
record_failure-masks_example =
    record_failure-masks ports policy ErrorKind.archive_capacity (at failed_retryable (some object))
      answering refl (unfold is_makolet retryable in refl)

flaky_put_bytes : (n : ℕ) (l : Option ℕ) → (flaky n l).put_bytes ≤ 3
flaky_put_bytes zero l = omega arith
flaky_put_bytes (suc zero) l = omega arith
flaky_put_bytes (suc (suc n)) l = omega arith

flaky_final_bytes : (n : ℕ) (l : Option ℕ) → (flaky n l).final_bytes ≤ 3
flaky_final_bytes zero l = omega arith
flaky_final_bytes (suc zero) l = omega arith
flaky_final_bytes (suc (suc n)) l = omega arith

flaky_object_bytes :
    (n : ℕ) (l : Option ℕ) (p : Put) → (flaky n l).put ≡ ok p → p.content_length ≤ 3
flaky_object_bytes zero l p h = cc h
flaky_object_bytes (suc zero) l p h = cc h
flaky_object_bytes (suc (suc n)) l p h = ground arith

flaky_put_error : (n : ℕ) (l : Option ℕ) (e : Failure) → (flaky n l).put ≡ err e → error_bytes e ≤ 3
unfolding error_bytes failure_after
flaky_put_error zero l e h = ground arith
flaky_put_error (suc zero) l e h = ground arith
flaky_put_error (suc (suc n)) l e h = cc h

flaky_open_error :
    (n : ℕ) (l : Option ℕ) (e : Failure) → (flaky n l).opened ≡ err e → error_bytes e ≤ 3
flaky_open_error zero l e h = cc h
flaky_open_error (suc zero) l e h = cc h
flaky_open_error (suc (suc n)) l e h = cc h

flaky_finish_error :
    (n : ℕ) (l : Option ℕ) (e : Failure) → (flaky n l).finished ≡ err e → error_bytes e ≤ 3
flaky_finish_error zero l e h = cc h
flaky_finish_error (suc zero) l e h = cc h
flaky_finish_error (suc (suc n)) l e h = cc h

flaky-Obeys : Obeys ports 3
flaky-Obeys = record {
  put_bytes = λ n r. omega (arith, flaky_put_bytes n (some r));
  final_bytes = λ n r. omega (arith, flaky_final_bytes n (some r));
  object_bytes = λ n r p h. omega (arith, flaky_object_bytes n (some r) p h);
  open_error = λ n r e h. omega (arith, flaky_open_error n (some r) e h);
  put_error = λ n r e h. omega (arith, flaky_put_error n (some r) e h);
  finish_error = λ n r e h. omega (arith, flaky_finish_error n (some r) e h);
  transition_error = λ s t e h. cc h;
  database_error = λ e h. cc h;
}

download_and_archive-Within_example :
    Within 13 3 (at discovered none) (download_and_archive ports (some 10) 3 (at discovered none))
download_and_archive-Within_example =
    download_and_archive-Within ports 10 3 flaky-Obeys 3 (at discovered none)

ensure_ingestion_transition-as_drawn_example :
    (ensure_ingestion_transition archived parsing ≡ ok tt) ↔ (as_drawn archived parsing ≡ true)
ensure_ingestion_transition-as_drawn_example = ensure_ingestion_transition-as_drawn archived parsing

terminal_absorbs_example : completed ≡ completed
terminal_absorbs_example = terminal_absorbs done here

completes_example : IsTerminal parsing ⊎ (parsing ⟶* completed)
completes_example = completes parsing

completed_predecessor_example : (discovered ≡ completed) ⊎ Visits applying from_discovered
completed_predecessor_example = completed_predecessor from_discovered

is_valid_gtin_iff_example : (is_valid_gtin (literal "7290000066318") ≡ true) ↔ (
    IsLength 13
    × All IsDigit (literal "7290000066318")
    × (weighted_sum (literal "7290000066318") % 10 ≡ 0))
is_valid_gtin_iff_example = is_valid_gtin_iff (literal "7290000066318")

single_error_example : ◌≡◌ {A = ℕ} b'8' b'8'
single_error_example =
    single_error (literal "729000006631") [] b'8' b'8' (unfold is_valid_gtin in refl)
      (unfold is_valid_gtin in refl)

stage_events-append_example :
    stage_events (document ++ document)
    ≡ combine_stage (stage_events document) (stage_events document)
stage_events-append_example = stage_events-append document document

abbrev small_budget : DiscoveryRunBudget
small_budget = record {
  maximum_requests = 2;
  maximum_bytes = 100;
  request_count = 0;
  consumed_bytes = 0;
}

abbrev calls : List Call
calls =
    request false 10 ∷ consume false 60 ∷ consume false 60 ∷ request false 0 ∷ request false 0 ∷ []

granted-create_example :
    (granted requests_of calls small_budget ≤ 2) × (granted bytes_of calls small_budget ≤ 100)
granted-create_example = granted-create 2 100 small_budget calls (unfold create in refl)

begin_request-granted_example :
    ((begin_request false 10 (after_calls calls small_budget)).0 ≡ ok tt) ↔ (
      (◌≡◌ {A = Bool} false false)
      × (granted requests_of calls small_budget < 2)
      × (granted bytes_of calls small_budget + 10 ≤ 100)
      × (granted bytes_of calls small_budget < 100))
begin_request-granted_example =
    begin_request-granted 2 100 small_budget calls false 10 (unfold create in refl)

settle_transfer-reserve_transfer_example :
    let p = settle_transfer 7 remote 3 (reserve_transfer 7 15 ledger).1 in
    (p.0 ≡ ok (budget_of p.1))
    × (p.1.attempt_charged_bytes ≤ 20 + 3)
    × (p.1.source_charged_bytes ≤ 20 + 3)
    × (settle_transfer 7 remote 9 p.1 ≡ (ok (budget_of p.1), p.1))
settle_transfer-reserve_transfer_example =
    settle_transfer-reserve_transfer 7 remote 15 3 9 ledger refl refl (unfold is_terminal in refl)
      (omega arith)

transfer_within_limits_example :
    let v = (reserve_transfer 7 15 ledger).1 in
    let download = download_and_archive ports (some 12) 3 (at discovered none) in
    let p = settle_transfer 7 remote (reported_bytes download.0) v in
    (v.attempt_charged_bytes ≤ 100)
    × (v.source_charged_bytes ≤ 200)
    × (p.0 ≡ ok (budget_of p.1))
    × (p.1.attempt_charged_bytes ≤ 100)
    × (p.1.source_charged_bytes ≤ 200)
transfer_within_limits_example =
    transfer_within_limits collection_policy ports 7 remote 15 3 ledger (at discovered none)
      flaky-Obeys refl refl (unfold is_terminal in refl)
      (unfold reserved_bytes charge_budget_reason remaining_bytes full_reservation
          protocol_overhead in
        refl)

counting : (batch : List ParsedEvent) → is_ok (count_batch batch) ≡ true
counting batch = refl

document_fits : All (FitsAlone policy) document
unfolding stage_units stage_memory_charge retained_value_charge retained_values_charge event_value
    validation_issue_charge utf8_length bit_length
document_fits = (
  record { units = omega arith; bytes = omega arith },
  (
    record { units = omega arith; bytes = omega arith },
    (record { units = omega arith; bytes = omega arith }, tt),
  ),
)

document_evidence :
    (sum_by issue_units document ≤ policy.maximum_validation_issues)
    × (sum_by issue_charge document ≤ policy.maximum_validation_issue_bytes)
unfolding validation_issue_charge utf8_length
document_evidence = (omega arith, omega arith)

stage_document-returns_example :
    (stage_document policy count_batch document none start_staging).0 ≡ ok tt
stage_document-returns_example =
    stage_document-returns policy count_batch counting document document_fits document_evidence.0
      document_evidence.1
