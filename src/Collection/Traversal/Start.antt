-- ===== src/Collection/Traversal/Start.antt =====
-- application/collection.py, `_collect` and the head of `_collect_with_context`: a run of one source,
-- under its lease and from the checkpoint on.
use makolet.Prelude.{ℕ, Bool, none, [], not, if◌then◌else◌, false}
use makolet.Domain.Errors.{ErrorKind, failure}
use makolet.Exec.{Result, ok, err, Exec}
use makolet.Collection.Budget.{DiscoveryRunBudget, create}
use makolet.Collection.Pages.{CollectionScope}
use makolet.Collection.Checkpoint.{Books, CollectionAttempt, begin_attempt}
use makolet.Collection.Traversal.{CollectionPorts, TraversalPolicy, Run}
use makolet.Collection.Traversal.Loop.{collect}

-- The variables before the loop.
abbrev pub new_run : CollectionAttempt → Books → DiscoveryRunBudget → Run
new_run attempt books budget = record {
  cursor = attempt.cursor;
  page_offset = attempt.page_offset;
  seen_cursors = [];
  discovered = 0;
  ingested = 0;
  duplicates = 0;
  skipped_unknown = 0;
  reported = 0;
  truncation = none;
  traversal_complete = false;
  page_index = 0;
  retry_boundary = attempt.retry_boundary;
  postprocess_pending = false;
  listing_budget = budget;
  charged_bytes = 0;
  attempt = attempt;
  books = books;
}

module _ (ports : CollectionPorts) (policy : TraversalPolicy) (scope : CollectionScope)
    (strict_source_scope : Bool) (fuel : ℕ) where
  -- `_collect_with_context`.
  abbrev pub collect_with_context :
      Result DiscoveryRunBudget → CollectionAttempt × Books → Result (Unit {0}) × Books
  collect_with_context (err e) (attempt, books) = (err e, books)
  collect_with_context (ok budget) (attempt, books) =
      let p = collect ports policy scope strict_source_scope fuel (new_run attempt books budget) in
      (p.0, p.1.books)

  -- `_collect`. `acquired` is what the lease of the source answers.
  unfoldable pub collect_source : Bool → Exec Books (Unit {0})
  unfolding failure begin_attempt create collect
  collect_source acquired b =
      if not acquired
      then (err (failure ErrorKind.lease_unavailable), b)
      else collect_with_context
          (create policy.maximum_listing_requests_per_source_run
            policy.maximum_listing_bytes_per_source_run)
          (begin_attempt b)
