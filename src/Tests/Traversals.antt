-- ===== src/Tests/Traversals.antt =====
-- Runs of a collection against a listing of two pages.
use makolet.Prelude.{◌≡◌, ◌≢◌, ◌≤◌, refl, true, false, Option, none, some, [], ◌∷◌, arith, text_eq}
use makolet.Domain.Errors.{ErrorKind, failure, is_makolet}
use makolet.Domain.Values.{Text, literal, utf8_length, utf8_width}
use makolet.Domain.Documents.{DocumentType, SourceProtocol, text_in}
use makolet.Domain.Remote.{RemoteFile}
use makolet.Exec.{Result, ok, err, is_ok, ◌>>=◌, try_bind}
use makolet.Collection.Budget.{create}
use makolet.Collection.Ledger.{
  charge_budget, reserve_transfer, settle_transfer, is_charged, is_terminal, charge_of, file_in,
}
use makolet.Collection.Reservation.{
  charge_budget_reason, remaining_bytes, full_reservation, protocol_overhead, reserved_bytes,
}
use makolet.Collection.Policy.{check_collection_policy, valid_counts, valid_bytes, valid_day}
use makolet.Collection.Policy.Sufficiency.{new_day, accepted_policy_suffices}
use makolet.Collection.Pages.{
  DiscoveryPage, CollectionScope, within_range, is_unknown, publisher_cursor, cursor_eq,
}
use makolet.Collection.Checkpoint.{
  Books, new_checkpoint, begin_attempt, advance_attempt, finish_attempt, observe_attempt,
  note_terminal, is_terminal_for, noted,
}
use makolet.Collection.Traversal.{
  CollectionPorts, TraversalPolicy, Ingested, Run, listed, continues, on_ledger, advance, observe,
}
use makolet.Collection.Traversal.File.{
  pass_unknown, pass_recognized, postprocess, transfer, settle_failed, pass_failed, transfer_failed,
  handle_failure, pass_transferred, reserve_and_transfer, collect_file, visit_recognized,
  visit_file,
}
use makolet.Collection.Traversal.Loop.{
  discover_page, visit_files, complete_traversal, turn_page, leave_page, visit_page, next_page,
  traverse, collect,
}
use makolet.Collection.Traversal.Start.{collect_source, new_run}
use makolet.Collection.Traversal.Trail.{Trail, IsDone}
use makolet.Collection.Traversal.Trail.Coverage.{same, next}
use makolet.Collection.Traversal.Trail.Pages.{Lists}
use makolet.Collection.Traversal.Trail.Runs.{
  AfterRuns, fresh, collected, complete_runs-IsDone, open_runs-Trail,
}
use makolet.Collection.Traversal.Limits.Pages.{IsWithin}
use makolet.Collection.Traversal.Limits.Runs.{collect-Within, collect-ends}
use makolet.Collection.Traversal.Charges.Runs.{collect_source_affords}
use makolet.Tests.Ports.{remote, ledger, collection_policy}

abbrev unknown_file : RemoteFile
unknown_file = record remote { document_type = DocumentType.unknown }

abbrev listing : Option Text → DiscoveryPage
listing none = record {
  files = remote ∷ [];
  next_cursor = some (some (literal "2"));
  complete = false;
}
listing (some _) = record { files = unknown_file ∷ []; next_cursor = none; complete = true }

abbrev scope : CollectionScope
scope = record {
  source_id = remote.retailer_id;
  portal_ids = remote.portal_id ∷ [];
  since = none;
  until = none;
  archive_only = false;
}

abbrev limits : TraversalPolicy
limits = record {
  charges = collection_policy;
  maximum_files_per_source_run = 5;
  maximum_discovery_records_per_source_run = 4;
  maximum_reported_files = 1;
  maximum_listing_requests_per_source_run = 10;
  maximum_listing_bytes_per_source_run = 1000;
}

-- The service ingests the file, or it does not.
abbrev collaborators : Result Ingested → CollectionPorts
collaborators answer = record {
  discover = λ n cursor budget. (listed (listing cursor), budget);
  elapsed = λ n moment. false;
  register = λ n index file. ok 7;
  ingest = λ n index file limit. answer;
  bootstrap = λ n index file. ok tt;
}

abbrev working : CollectionPorts
working = collaborators (ok (record { transferred_bytes = 3; duplicate = false }))

abbrev failing : CollectionPorts
failing = collaborators (err (failure ErrorKind.source_access))

collaborators-Lists : (answer : Result Ingested) → Lists (collaborators answer) listing
collaborators-Lists answer n cursor budget page listed_ = cc listed_

abbrev books : Books
books = record { checkpoint = new_checkpoint; ledger = ledger }

-- A run that fails at the first file, and one that completes.
abbrev failed_books : Books
failed_books = (collect_source failing limits scope false 6 true books).1

abbrev completed_books : Books
completed_books = (collect_source working limits scope false 6 true failed_books).1

failed_runs : AfterRuns listing scope failed_books
failed_runs =
    collected (fresh ledger) failing limits false true 6
      (collaborators-Lists (err (failure ErrorKind.source_access)))

completed_runs : AfterRuns listing scope completed_books
completed_runs =
    collected failed_runs working limits false true 6
      (collaborators-Lists (ok (record { transferred_bytes = 3; duplicate = false })))

module _ where
  stays_open : failed_books.checkpoint.complete ≡ false
  unfolding collect_source begin_attempt create collect traverse next_page discover_page visit_page
      visit_files visit_file is_unknown visit_recognized within_range is_terminal_for noted
      collect_file on_ledger charge_budget charge_budget_reason remaining_bytes full_reservation
      protocol_overhead reserve_and_transfer reserve_transfer file_in transfer handle_failure
      transfer_failed settle_failed settle_transfer is_terminal is_charged charge_of pass_failed
      observe observe_attempt finish_attempt is_makolet failure ◌>>=◌ try_bind
  stays_open = refl

  completes_then : completed_books.checkpoint.complete ≡ true
  unfolding collect_source begin_attempt create collect traverse next_page discover_page visit_page
      visit_files visit_file is_unknown visit_recognized within_range is_terminal_for noted
      collect_file on_ledger charge_budget charge_budget_reason remaining_bytes full_reservation
      protocol_overhead reserve_and_transfer reserve_transfer file_in transfer handle_failure
      transfer_failed settle_failed settle_transfer is_terminal is_charged charge_of pass_failed
      observe observe_attempt finish_attempt is_makolet failure ◌>>=◌ try_bind postprocess
      note_terminal pass_transferred pass_recognized pass_unknown advance advance_attempt cursor_eq
      text_eq leave_page turn_page publisher_cursor utf8_length utf8_width text_in
      complete_traversal
  completes_then = refl

complete_runs-IsDone_example : IsDone scope completed_books.ledger.terminal unknown_file
complete_runs-IsDone_example =
    complete_runs-IsDone listing scope completed_books (some (literal "2")) 0 unknown_file
      completed_runs completes_then (next same refl) refl

open_runs-Trail_example :
    Trail listing scope failed_books.ledger.terminal none 0 failed_books.checkpoint.cursor
      failed_books.checkpoint.page_offset
open_runs-Trail_example = open_runs-Trail listing scope failed_books failed_runs stays_open

abbrev run : Run
run =
    new_run (begin_attempt books).0 (begin_attempt books).1 (record {
      maximum_requests = 10;
      maximum_bytes = 1000;
      request_count = 0;
      consumed_bytes = 0;
    })

run-IsWithin : IsWithin working limits scope false run
run-IsWithin = (omega arith, omega arith)

collect-Within_example :
    IsWithin working limits scope false (collect working limits scope false 6 run).1
collect-Within_example = collect-Within working limits scope false 6 run run-IsWithin

collect-ends_example :
    ((traverse working limits scope false 6 run).0 ≢ ok continues)
    × (collect working limits scope false 9 run ≡ collect working limits scope false 6 run)
collect-ends_example =
    collect-ends working limits scope false 6 9 run run-IsWithin (omega arith) (omega arith)

collect_source_affords_example :
    let l = (collect_source working limits scope false 6 true books).1.ledger in
    (l.attempt_charged_bytes ≤ 100) × (l.source_charged_bytes ≤ 200)
collect_source_affords_example =
    collect_source_affords working limits scope false 6 books (omega arith)

abbrev accepted_limits : TraversalPolicy
accepted_limits = record limits { maximum_discovery_records_per_source_run = 8 }

accepted_policy_suffices_example :
    (is_ok (create 10 1000) ≡ true)
    × (reserved_bytes collection_policy SourceProtocol.https new_day
        ≡ some (full_reservation collection_policy SourceProtocol.https))
accepted_policy_suffices_example =
    accepted_policy_suffices accepted_limits 100 true true SourceProtocol.https
      (unfold check_collection_policy create valid_counts valid_bytes valid_day in refl)
