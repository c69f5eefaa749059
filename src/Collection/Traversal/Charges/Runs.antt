-- ===== src/Collection/Traversal/Charges/Runs.antt =====
-- application/collection.py, `_collect_with_context`: the charges of a run stay within the limits of
-- the run and the day over the loops and the runs of a source.
use makolet.Prelude.{
  ℕ, zero, suc, ◌+◌, ◌≤◌, Bool, true, Option, none, some, List, [], ◌∷◌, ◌&&◌, not, leb, ltb,
  length, drop, if_cases, arith,
}
use makolet.Domain.Values.{Text}
use makolet.Domain.Remote.{RemoteFile}
use makolet.Exec.{Result, ok, err, Exec, lift, Keeps, >>=-Keeps, try_bind-Keeps, ◌>>◌}
use makolet.Collection.Budget.{DiscoveryRunBudget, create}
use makolet.Collection.Pages.{DiscoveryPage, CollectionScope, publisher_cursor}
use makolet.Collection.Checkpoint.{Books, CollectionAttempt, begin_attempt, finish_attempt}
use makolet.Collection.Traversal.{
  CollectionPorts, TraversalPolicy, Discovered, listed, exhausted, unlisted, Run, Flow, continues,
  breaks, advance,
}
use makolet.Collection.Traversal.File.{visit_file}
use makolet.Collection.Traversal.Loop.{
  is_empty, is_none, is_repeated, discover_page, visit_files, complete_traversal, is_bounded,
  turn_page, leave_page, visit_page, visit_discovered, next_page, traverse, refuse_unknown, collect,
  unless_broken,
}
use makolet.Collection.Traversal.Start.{new_run, collect_with_context, collect_source}
use makolet.Collection.Traversal.Charges.{Affords, Affordable, advance-Affordable}
use makolet.Collection.Traversal.Charges.Files.{visit_file-Affordable}

module _ (ports : CollectionPorts) (policy : TraversalPolicy) (scope : CollectionScope)
    (strict : Bool) where
  open policy use {charges}

  abbrev Fine : Run → Type 0
  Fine = Affordable ports policy scope strict

  unless_broken-Affordable :
      (flow : Flow) (next : Exec Run Flow) → Keeps Fine next → Keeps Fine (unless_broken flow next)
  unless_broken-Affordable continues next keeps r h = keeps r h
  unless_broken-Affordable breaks next keeps r h = h

  visit_files-Affordable :
      (index : ℕ) (xs : List RemoteFile)
      → Keeps Fine (visit_files ports policy scope strict index xs)
  unfolding visit_files
  visit_files-Affordable index [] r h = h
  visit_files-Affordable index (f ∷ xs) r h =
      >>=-Keeps Fine (visit_file ports policy scope strict index f) _
        (visit_file-Affordable ports policy scope strict index f)
        (λ flow. unless_broken-Affordable flow _ (visit_files-Affordable (index + 1) xs)) r h

  complete_traversal-Affordable :
      (page : DiscoveryPage) → Keeps Fine (complete_traversal ports policy scope strict page)
  unfolding complete_traversal
  complete_traversal-Affordable page r h =
      if_cases {A = Exec Run Flow} (λ o. Fine (o r).1) (not page.complete) _ _ (λ _. h)
        (λ _.
          >>=-Keeps Fine (advance (length page.files) none 0 0 0) _
            (advance-Affordable ports policy scope strict (length page.files) none 0 0 0)
            (λ _ s k. k) r h)

  is_bounded-Affordable : Keeps Fine (is_bounded ports policy scope strict)
  is_bounded-Affordable r h =
      if_cases {A = Result Flow × Run} (λ p. Fine p.1)
        (leb policy.maximum_files_per_source_run r.ingested) _ _ (λ _. h)
        (λ _.
          if_cases {A = Result Flow × Run} (λ p. Fine p.1)
            (leb policy.maximum_discovery_records_per_source_run r.discovered) _ _ (λ _. h)
            (λ _. h))

  turn_page-Affordable :
      (page : DiscoveryPage) (value : Text)
      → Keeps Fine (turn_page ports policy scope strict page value)
  unfolding turn_page
  turn_page-Affordable page value =
      >>=-Keeps Fine (lift (publisher_cursor value)) _ (λ s h. h)
        (λ selected s.
          >>=-Keeps Fine (advance (length page.files) (some selected) 0 0 0) _
            (advance-Affordable ports policy scope strict (length page.files) (some selected) 0 0 0)
            (λ _ t k.
              is_bounded-Affordable (record t { cursor = some selected; page_offset = 0 }) k)
            (record s { seen_cursors = selected ∷ s.seen_cursors }))

  leave_page-Affordable :
      (page : DiscoveryPage) (next : Option (Option Text))
      → Keeps Fine (leave_page ports policy scope strict page next)
  unfolding leave_page
  leave_page-Affordable page none r h = complete_traversal-Affordable page r h
  leave_page-Affordable page (some none) r h = h
  leave_page-Affordable page (some (some value)) r h =
      if_cases {A = Result Flow × Run} (λ p. Fine p.1) (is_repeated value r.cursor r.seen_cursors) _
        _ (λ _. h) (λ _. turn_page-Affordable page value r h)

  visit_page-Affordable :
      (page : DiscoveryPage) → Keeps Fine (visit_page ports policy scope strict page)
  unfolding visit_page
  visit_page-Affordable page r h =
      if_cases {A = Result Flow × Run} (λ p. Fine p.1) (ltb (length page.files) r.page_offset) _ _
        (λ _. h)
        (λ _.
          if_cases {A = Result Flow × Run} (λ p. Fine p.1)
            (is_empty page.files && not (is_none page.next_cursor)) _ _ (λ _. h)
            (λ _.
              >>=-Keeps Fine
                (visit_files ports policy scope strict r.page_offset
                  (drop r.page_offset page.files))
                _ (visit_files-Affordable r.page_offset (drop r.page_offset page.files))
                (λ flow.
                  unless_broken-Affordable flow _ (leave_page-Affordable page page.next_cursor))
                r h))

  visit_discovered-Affordable :
      (d : Discovered) → Keeps Fine (visit_discovered ports policy scope strict d)
  visit_discovered-Affordable (listed page) r h = visit_page-Affordable page r h
  visit_discovered-Affordable (exhausted reason) r h = h
  visit_discovered-Affordable (unlisted e) r h = h

  next_page-Affordable : Keeps Fine (next_page ports policy scope strict)
  unfolding next_page
  next_page-Affordable r h =
      let s = record r { page_index = r.page_index + 1 } in
      let p = discover_page ports policy scope strict s in
      visit_discovered-Affordable p.0 (record s { listing_budget = p.1 }) h

  traverse-Affordable : (fuel : ℕ) → Keeps Fine (traverse ports policy scope strict fuel)
  unfolding traverse
  traverse-Affordable zero r h = h
  traverse-Affordable (suc fuel) r h =
      >>=-Keeps Fine (next_page ports policy scope strict) _ next_page-Affordable
        (λ flow. unless_broken-Affordable flow _ (traverse-Affordable fuel)) r h

  refuse_unknown-Affordable : Keeps Fine (refuse_unknown ports policy scope strict)
  refuse_unknown-Affordable r h =
      if_cases {A = Result (Unit {0}) × Run} (λ p. Fine p.1)
        (r.traversal_complete
          && leb r.attempt.generation_recognized_count 0
          && ltb 0 r.attempt.generation_unknown_count)
        _ _ (λ _. h) (λ _. h)

  collect-Affordable : (fuel : ℕ) → Keeps Fine (collect ports policy scope strict fuel)
  unfolding collect finish_attempt
  collect-Affordable fuel =
      try_bind-Keeps Fine
        (traverse ports policy scope strict fuel >> refuse_unknown ports policy scope strict) _ _
        (>>=-Keeps Fine (traverse ports policy scope strict fuel) _ (traverse-Affordable fuel)
          (λ _. refuse_unknown-Affordable))
        (λ e r h. h) (λ _ r h. h)

  -- The attempt that a run leaves, and the day of its source.
  begun-Affordable :
      (fuel : ℕ) (budget : Result DiscoveryRunBudget) (attempt : CollectionAttempt) (books : Books)
      → Affords charges books.ledger
      → Affords charges
          (collect_with_context ports policy scope strict fuel budget (attempt, books)).1.ledger
  begun-Affordable fuel (err e) attempt books h = h
  begun-Affordable fuel (ok budget) attempt books h =
      collect-Affordable fuel (new_run attempt books budget) h

  -- A run of a source that gets its lease leaves its attempt charged with no more than
  -- `maximum_charged_bytes_per_source_run`, and the source with no more than
  -- `maximum_charged_bytes_per_source_day` where that held before, whatever bytes downloads report, with
  -- results or with failures, and however the run ends.
  pub collect_source_affords :
      (fuel : ℕ) (b : Books)
      → b.ledger.source_charged_bytes ≤ charges.maximum_charged_bytes_per_source_day
      → let l = (collect_source ports policy scope strict fuel true b).1.ledger in
        (l.attempt_charged_bytes ≤ charges.maximum_charged_bytes_per_source_run)
        × (l.source_charged_bytes ≤ charges.maximum_charged_bytes_per_source_day)
  unfolding collect_source begin_attempt
  collect_source_affords fuel b day =
      begun-Affordable fuel
        (create policy.maximum_listing_requests_per_source_run
          policy.maximum_listing_bytes_per_source_run)
        (begin_attempt b).0 (begin_attempt b).1 (omega arith, day)
