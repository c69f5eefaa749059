-- ===== src/Collection/Traversal/Trail/Pages.antt =====
-- The loop over the pages leaves the checkpoint on its trail through the listing.
use makolet.Prelude.{
  ℕ, zero, suc, ◌+◌, ◌≡◌, refl, sym, ap, subst, ◌∙◌, Bool, true, false, Option, none, some, List,
  [], ◌∷◌, ◌&&◌, not, length, drop, drop_step, if_cases, ltb, leb, arith,
}
use makolet.Domain.Values.{Text}
use makolet.Domain.Remote.{RemoteFile}
use makolet.Exec.{
  Result, ok, Exec, lift, Keeps, >>=-Keeps, >>=-cases, try_bind-cases, try_bind-Keeps, ◌>>◌,
}
use makolet.Collection.Budget.{DiscoveryRunBudget}
use makolet.Collection.Pages.{DiscoveryPage, CollectionScope, publisher_cursor}
use makolet.Collection.Checkpoint.{finish_attempt}
use makolet.Collection.Traversal.{
  CollectionPorts, TraversalPolicy, Discovered, listed, exhausted, unlisted, Run, Flow, continues,
  breaks, advance,
}
use makolet.Collection.Traversal.File.{visit_file}
use makolet.Collection.Traversal.Loop.{
  is_empty, is_none, is_repeated, discovered_in_time, discover_page, visit_files,
  complete_traversal, is_bounded, turn_page, leave_page, visit_page, visit_discovered, next_page,
  traverse, refuse_unknown, collect, unless_broken,
}
use makolet.Collection.Traversal.Trail.{Trail, turned, ended, Finished}
use makolet.Collection.Traversal.Trail.Writes.{advance-cases}
use makolet.Collection.Traversal.Trail.Files.{visit_file-IsInPage}
use makolet.Collection.Traversal.Trail.Passing.{IsOnTrail, IsInPage}

-- The source's adapter answers with pages of one listing.
abbrev pub Lists : CollectionPorts → (Option Text → DiscoveryPage) → Type 0
Lists ports listing =
    (n : ℕ) (c : Option Text) (b : DiscoveryRunBudget) (page : DiscoveryPage)
    → (ports.discover n c b).0 ≡ listed page
    → page ≡ listing c

module _ (listing : Option Text → DiscoveryPage) (scope : CollectionScope) (cursor : Option Text)
    (offset : ℕ) where
  abbrev OnTrail : Run → Type 0
  OnTrail = IsOnTrail listing scope cursor offset

  abbrev InPage : Option Text → Run → Type 0
  InPage = IsInPage listing scope cursor offset

  -- At the end of a page's files the checkpoint may go to the next page, or back to the first.
  module _ (c : Option Text) (r : Run) (h : InPage c r) where
    at_end :
        r.books.checkpoint.cursor ≡ r.cursor
        → r.books.checkpoint.page_offset ≡ length (listing c).files
        → Trail listing scope r.books.ledger.terminal cursor offset c (length (listing c).files)
    at_end same there =
        subst
          (λ d.
            Trail listing scope r.books.ledger.terminal cursor offset d (length (listing c).files))
          (same ∙ h.0)
          (subst
            (Trail listing scope r.books.ledger.terminal cursor offset r.books.checkpoint.cursor)
            there h.1.0)

    advance-ended :
        (listing c).next_cursor ≡ none
        → let p = advance (length (listing c).files) none 0 0 0 r in
          OnTrail p.1
          × (p.0 ≡ ok tt → Finished listing scope cursor offset p.1.books.ledger.terminal)
    advance-ended last =
        advance-cases (length (listing c).files) none 0 0 0 r
          (λ p.
            OnTrail p.1
            × (p.0 ≡ ok tt → Finished listing scope cursor offset p.1.books.ledger.terminal))
          (λ e. (h.1, λ k. cc k))
          (λ _ same there.
            ((ended (at_end same there) last, h.1.1), λ _. (c, at_end same there, last)))

    advance-turned :
        (value : Text)
        → (listing c).next_cursor ≡ some (some value)
        → OnTrail (advance (length (listing c).files) (some value) 0 0 0 r).1
    advance-turned value next =
        advance-cases (length (listing c).files) (some value) 0 0 0 r (λ p. OnTrail p.1) (λ e. h.1)
          (λ _ same there. (turned (at_end same there) next, h.1.1))

  module _ (ports : CollectionPorts) (policy : TraversalPolicy) (strict : Bool) where
    unless_broken-Keeps :
        (P : Run → Type 0) (flow : Flow) (next : Exec Run Flow)
        → Keeps P next
        → Keeps P (unless_broken flow next)
    unless_broken-Keeps P continues next keeps r h = keeps r h
    unless_broken-Keeps P breaks next keeps r h = h

    visit_files-InPage :
        (c : Option Text) (index : ℕ) (xs : List RemoteFile)
        → drop index (listing c).files ≡ xs
        → Keeps (InPage c) (visit_files ports policy scope strict index xs)
    unfolding visit_files
    visit_files-InPage c index [] rest = λ r h. h
    visit_files-InPage c index (f ∷ xs) rest =
        let (at, after) = drop_step index (listing c).files xs f rest in
        >>=-Keeps (InPage c) (visit_file ports policy scope strict index f) _
          (visit_file-IsInPage listing scope cursor offset ports policy strict c index f at)
          (λ flow.
            unless_broken-Keeps (InPage c) flow _ (visit_files-InPage c (index + 1) xs after))

    complete_traversal-OnTrail :
        (c : Option Text) (r : Run)
        → (listing c).next_cursor ≡ none
        → InPage c r
        → OnTrail (complete_traversal ports policy scope strict (listing c) r).1
    unfolding complete_traversal
    complete_traversal-OnTrail c r last h =
        if_cases {A = Exec Run Flow} (λ m. OnTrail (m r).1) (not (listing c).complete) _ _
          (λ _. h.1)
          (λ _.
            let end = advance-ended c r h last in
            >>=-cases (λ p. OnTrail p.1) (advance (length (listing c).files) none 0 0 0) _ r
              (λ _ moved. (end.0.0, λ _. end.1 moved)) (λ _ _. end.0))

    is_bounded-OnTrail : Keeps OnTrail (is_bounded ports policy scope strict)
    is_bounded-OnTrail r h =
        if_cases {A = Result Flow × Run} (λ p. OnTrail p.1)
          (leb policy.maximum_files_per_source_run r.ingested) _ _ (λ _. h)
          (λ _.
            if_cases {A = Result Flow × Run} (λ p. OnTrail p.1)
              (leb policy.maximum_discovery_records_per_source_run r.discovered) _ _ (λ _. h)
              (λ _. h))

    publisher_cursor-same :
        (value selected : Text) → publisher_cursor value ≡ ok selected → selected ≡ value
    unfolding publisher_cursor
    publisher_cursor-same value selected h = ground (arith, h)

    turn_page-OnTrail :
        (c : Option Text) (value : Text) (r : Run)
        → (listing c).next_cursor ≡ some (some value)
        → InPage c r
        → OnTrail (turn_page ports policy scope strict (listing c) value r).1
    unfolding turn_page
    turn_page-OnTrail c value r next h =
        >>=-cases (λ p. OnTrail p.1) (lift (publisher_cursor value)) _ r
          (λ selected same.
            let s = record r { seen_cursors = selected ∷ r.seen_cursors } in
            let moved : OnTrail (advance (length (listing c).files) (some selected) 0 0 0 s).1 =
              advance-turned c s h selected (
                next ∙ ap (λ v. some (some v)) (sym (publisher_cursor-same value selected same))) in
            >>=-cases (λ p. OnTrail p.1) (advance (length (listing c).files) (some selected) 0 0 0)
              _ s (λ _ _. is_bounded-OnTrail _ moved) (λ _ _. moved))
          (λ _ _. h.1)

    leave_page-OnTrail :
        (c : Option Text) (next : Option (Option Text)) (r : Run)
        → (listing c).next_cursor ≡ next
        → InPage c r
        → OnTrail (leave_page ports policy scope strict (listing c) next r).1
    unfolding leave_page
    leave_page-OnTrail c none r e h = complete_traversal-OnTrail c r e h
    leave_page-OnTrail c (some none) r e h = h.1
    leave_page-OnTrail c (some (some value)) r e h =
        if_cases {A = Result Flow × Run} (λ p. OnTrail p.1)
          (is_repeated value r.cursor r.seen_cursors) _ _ (λ _. h.1)
          (λ _. turn_page-OnTrail c value r e h)

    visit_page-OnTrail :
        (r : Run)
        → OnTrail r
        → OnTrail (visit_page ports policy scope strict (listing r.cursor) r).1
    unfolding visit_page
    visit_page-OnTrail r h =
        let page = listing r.cursor in
        if_cases {A = Result Flow × Run} (λ p. OnTrail p.1) (ltb (length page.files) r.page_offset)
          _ _ (λ _. h)
          (λ _.
            if_cases {A = Result Flow × Run} (λ p. OnTrail p.1)
              (is_empty page.files && not (is_none page.next_cursor)) _ _ (λ _. h)
              (λ _.
                let visited =
                  visit_files-InPage r.cursor r.page_offset (drop r.page_offset page.files) refl r
                    (refl, h) in
                >>=-cases (λ p. OnTrail p.1)
                  (visit_files ports policy scope strict r.page_offset
                    (drop r.page_offset page.files))
                  _ r
                  (λ flow _.
                    left r.cursor flow
                      (visit_files ports policy scope strict r.page_offset
                        (drop r.page_offset page.files) r).1
                      visited)
                  (λ _ _. visited.1)))
      where
        left :
            (c : Option Text) (flow : Flow) (s : Run)
            → InPage c s
            → OnTrail
                (unless_broken flow
                  (leave_page ports policy scope strict (listing c) (listing c).next_cursor)
                  s).1
        left c continues s k = leave_page-OnTrail c (listing c).next_cursor s refl k
        left c breaks s k = k.1

    module _ (lists : Lists ports listing) where
      discover_page-listing :
          (r : Run) (page : DiscoveryPage)
          → (discover_page ports policy scope strict r).0 ≡ listed page
          → page ≡ listing r.cursor
      unfolding discover_page
      discover_page-listing r page =
          if_cases {A = Discovered × DiscoveryRunBudget}
            (λ p. p.0 ≡ listed page → page ≡ listing r.cursor) (ports.elapsed r.page_index 0) _ _
            (λ _ e. cc e)
            (λ _.
              in_time (ports.elapsed r.page_index 1)
                (ports.discover r.page_index r.cursor r.listing_budget).0
                (lists r.page_index r.cursor r.listing_budget page))
        where
          in_time :
              (late : Bool) (d : Discovered)
              → (d ≡ listed page → page ≡ listing r.cursor)
              → discovered_in_time ports policy scope strict late d ≡ listed page
              → page ≡ listing r.cursor
          in_time true (listed other) from e = cc e
          in_time true (exhausted reason) from e = from e
          in_time true (unlisted f) from e = from e
          in_time false d from e = from e

      visit_discovered-OnTrail :
          (d : Discovered) (r : Run)
          → ((page : DiscoveryPage) → d ≡ listed page → page ≡ listing r.cursor)
          → OnTrail r
          → OnTrail (visit_discovered ports policy scope strict d r).1
      visit_discovered-OnTrail (listed page) r from h =
          subst (λ p. OnTrail (visit_page ports policy scope strict p r).1) (sym (from page refl))
            (visit_page-OnTrail r h)
      visit_discovered-OnTrail (exhausted reason) r from h = h
      visit_discovered-OnTrail (unlisted e) r from h = h

      next_page-OnTrail : Keeps OnTrail (next_page ports policy scope strict)
      unfolding next_page
      next_page-OnTrail r h =
          let s = record r { page_index = r.page_index + 1 } in
          visit_discovered-OnTrail (discover_page ports policy scope strict s).0
            (record s { listing_budget = (discover_page ports policy scope strict s).1 })
            (discover_page-listing s) h

      traverse-OnTrail : (fuel : ℕ) → Keeps OnTrail (traverse ports policy scope strict fuel)
      unfolding traverse
      traverse-OnTrail zero r h = h
      traverse-OnTrail (suc fuel) r h =
          >>=-Keeps OnTrail (next_page ports policy scope strict) _ next_page-OnTrail
            (λ flow. unless_broken-Keeps OnTrail flow _ (traverse-OnTrail fuel)) r h

      refuse_unknown-OnTrail : Keeps OnTrail (refuse_unknown ports policy scope strict)
      refuse_unknown-OnTrail r h =
          if_cases {A = Result (Unit {0}) × Run} (λ p. OnTrail p.1)
            (r.traversal_complete
              && leb r.attempt.generation_recognized_count 0
              && ltb 0 r.attempt.generation_unknown_count)
            _ _ (λ _. h) (λ _. h)

      pub collect-OnTrail : (fuel : ℕ) → Keeps OnTrail (collect ports policy scope strict fuel)
      unfolding collect finish_attempt
      collect-OnTrail fuel =
          try_bind-Keeps OnTrail
            (traverse ports policy scope strict fuel >> refuse_unknown ports policy scope strict) _
            _
            (>>=-Keeps OnTrail (traverse ports policy scope strict fuel) _ (traverse-OnTrail fuel)
              (λ _. refuse_unknown-OnTrail))
            (λ e r h. h) (λ _ r h. h)

    -- What the run reports as completed is what the checkpoint keeps.
    pub collect-complete :
        (fuel : ℕ) (r : Run)
        → let s = (collect ports policy scope strict fuel r).1 in
          s.books.checkpoint.complete ≡ s.traversal_complete
    unfolding collect finish_attempt
    collect-complete fuel r =
        try_bind-cases (λ p. p.1.books.checkpoint.complete ≡ p.1.traversal_complete)
          (traverse ports policy scope strict fuel >> refuse_unknown ports policy scope strict) _ _
          r (λ _ _. refl) (λ _ _. refl)
