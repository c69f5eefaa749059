-- ===== src/Collection/Traversal/Limits/Runs.antt =====
-- A run stays within the limits on records and files, and ends: each page that is left for another has
-- a file that is counted, but for the first.
use makolet.Prelude.{
  ℕ, zero, suc, ◌+◌, ◌≤◌, ◌<◌, ◌≡◌, ◌≢◌, refl, ap, ◌∙◌, Bool, false, List, [], ◌∷◌, ◌&&◌, not, leb,
  ltb, length, drop, if_cases, arith,
}
use makolet.Domain.Remote.{RemoteFile}
use makolet.Exec.{
  Result, ok, err, Exec, continue, >>=-cases, try_bind, ◌>>=◌, ◌>>◌, Keeps, >>=-Keeps,
  try_bind-Keeps,
}
use makolet.Collection.Pages.{DiscoveryPage, CollectionScope}
use makolet.Collection.Traversal.{
  CollectionPorts, TraversalPolicy, Discovered, listed, exhausted, unlisted, Run, Flow, continues,
  breaks,
}
use makolet.Collection.Traversal.Loop.{
  is_empty, is_none, discover_page, visit_files, leave_page, visit_page, visit_discovered,
  next_page, traverse, refuse_unknown, collect, unless_broken,
}
use makolet.Collection.Traversal.Limits.Pages.{IsWithin, visit_files-IsSeen, leave_page-IsLeft}

filled_page :
    (offset : ℕ) (files : List RemoteFile) (last : Bool)
    → offset ≡ 0
    → (is_empty files && not last) ≡ false
    → last ≡ false
    → 1 ≤ length (drop offset files)
filled_page zero [] last start filled another = ground (arith, filled, another)
filled_page zero (f ∷ fs) last start filled another = omega arith
filled_page (suc n) files last start filled another = omega (arith, start)

module _ (ports : CollectionPorts) (policy : TraversalPolicy) (scope : CollectionScope)
    (strict : Bool) where
  open policy use {maximum_files_per_source_run, maximum_discovery_records_per_source_run}

  abbrev Within : Run → Type 0
  Within = IsWithin ports policy scope strict

  ends_unless :
      (flow : Flow) (next : Exec Run Flow) (s : Run)
      → (flow ≡ continues → (next s).0 ≢ ok continues)
      → (unless_broken flow next s).0 ≢ ok continues
  ends_unless continues next s ends k = ends refl k
  ends_unless breaks next s ends k = cc k

  -- After the body of the loop over pages, of the run `r`: where the loop goes on there is room for
  -- more records, the next page starts with its first file, and if this one did too then a file of it
  -- was counted.
  abbrev IsTurned : Run → Result Flow × Run → Type 0
  IsTurned r p =
      Within p.1
      × (p.0 ≡ ok continues
          → (p.1.discovered < maximum_discovery_records_per_source_run)
            × (p.1.page_offset ≡ 0)
            × (r.page_offset ≡ 0 → r.discovered < p.1.discovered))

  left-IsTurned :
      (page : DiscoveryPage) (r s : Run) (flow : Flow)
      → (is_empty page.files && not (is_none page.next_cursor)) ≡ false
      → Within s
      → (flow ≡ continues → r.discovered + length (drop r.page_offset page.files) ≤ s.discovered)
      → IsTurned r
          (unless_broken flow (leave_page ports policy scope strict page page.next_cursor) s)
  left-IsTurned page r s breaks filled within seen = (within, λ e. cc e)
  left-IsTurned page r s continues filled within seen =
      let (left, another) =
        leave_page-IsLeft ports policy scope strict page page.next_cursor s within in
      (
        left.0,
        λ e.
            let (more, room, start) = left.1 e in
            (
              room,
              start,
              λ first. omega (
                arith,
                seen refl,
                more,
                filled_page r.page_offset page.files (is_none page.next_cursor) first filled
                    (another e),
              ),
            ),
      )

  visit_page-IsTurned :
      (page : DiscoveryPage) (r : Run)
      → Within r
      → IsTurned r (visit_page ports policy scope strict page r)
  unfolding visit_page
  visit_page-IsTurned page r h =
      if_cases (IsTurned r) (ltb (length page.files) r.page_offset) _ _ (λ _. (h, λ e. cc e))
        (λ _.
          if_cases (IsTurned r) (is_empty page.files && not (is_none page.next_cursor)) _ _
            (λ _. (h, λ e. cc e))
            (λ filled.
              let rest = drop r.page_offset page.files in
              let seen = visit_files-IsSeen ports policy scope strict r.page_offset rest r h in
              >>=-cases (IsTurned r) (visit_files ports policy scope strict r.page_offset rest) _ r
                (λ flow e.
                  left-IsTurned page r
                    (visit_files ports policy scope strict r.page_offset rest r).1 flow filled
                    seen.0 (λ goes_on. seen.1 (e ∙ ap ok goes_on)))
                (λ _ _. (seen.0, λ e. cc e))))

  visit_discovered-IsTurned :
      (d : Discovered) (r : Run)
      → Within r
      → IsTurned r (visit_discovered ports policy scope strict d r)
  visit_discovered-IsTurned (listed page) r h = visit_page-IsTurned page r h
  visit_discovered-IsTurned (exhausted reason) r h = (h, λ e. cc e)
  visit_discovered-IsTurned (unlisted f) r h = (h, λ e. cc e)

  next_page-IsTurned : (r : Run) → Within r → IsTurned r (next_page ports policy scope strict r)
  unfolding next_page
  next_page-IsTurned r h =
      let s = record r { page_index = r.page_index + 1 } in
      let p = discover_page ports policy scope strict s in
      visit_discovered-IsTurned p.0 (record s { listing_budget = p.1 }) h

  traverse-Within : (fuel : ℕ) → Keeps Within (traverse ports policy scope strict fuel)
  unfolding traverse
  traverse-Within zero r h = h
  traverse-Within (suc fuel) r h =
      >>=-Keeps Within (next_page ports policy scope strict) _ (λ s k. (next_page-IsTurned s k).0)
        (λ flow s k. go flow (traverse-Within fuel) s k) r h
    where
      go :
          (flow : Flow)
          → Keeps Within (traverse ports policy scope strict fuel)
          → Keeps Within (unless_broken flow (traverse ports policy scope strict fuel))
      go continues keeps s k = keeps s k
      go breaks keeps s k = k

  -- From the start of a page, fuel for one page more than there is room for records is enough.
  traverse-ends :
      (fuel : ℕ) (r : Run)
      → Within r
      → r.page_offset ≡ 0
      → maximum_discovery_records_per_source_run < fuel + r.discovered
      → (traverse ports policy scope strict fuel r).0 ≢ ok continues
  unfolding traverse
  traverse-ends zero r h start enough = omega (arith, h.0, enough)
  traverse-ends (suc fuel) r h start enough =
      let (kept, turned) = next_page-IsTurned r h in
      let s = (next_page ports policy scope strict r).1 in
      >>=-cases (λ p. p.0 ≢ ok continues) (next_page ports policy scope strict) _ r
        (λ flow e. ends_unless flow (traverse ports policy scope strict fuel) s (λ goes_on.
          let (_, first, more) = turned (e ∙ ap ok goes_on) in
          traverse-ends fuel s kept first (omega (arith, more start, enough))))
        (λ _ _ k. cc k)

  -- The first page may be one that an earlier run left at its end.
  run-ends :
      (fuel : ℕ) (r : Run)
      → Within r
      → maximum_discovery_records_per_source_run + 2 ≤ fuel
      → (traverse ports policy scope strict fuel r).0 ≢ ok continues
  unfolding traverse
  run-ends zero r h enough = omega (arith, enough)
  run-ends (suc fuel) r h enough =
      let (kept, turned) = next_page-IsTurned r h in
      let s = (next_page ports policy scope strict r).1 in
      >>=-cases (λ p. p.0 ≢ ok continues) (next_page ports policy scope strict) _ r
        (λ flow e. ends_unless flow (traverse ports policy scope strict fuel) s (λ goes_on.
          let (_, first, _) = turned (e ∙ ap ok goes_on) in
          traverse-ends fuel s kept first (omega (arith, enough))))
        (λ _ _ k. cc k)

  same_after :
      (flow : Result Flow) (f g : Exec Run Flow) (s : Run)
      → ((f s).0 ≢ ok continues → g s ≡ f s)
      → (continue flow (λ l. unless_broken l f) s).0 ≢ ok continues
      → continue flow (λ l. unless_broken l g) s ≡ continue flow (λ l. unless_broken l f) s
  same_after (err e) f g s same ends = refl
  same_after (ok continues) f g s same ends = same ends
  same_after (ok breaks) f g s same ends = refl

  -- A loop that ended does the same with more fuel.
  traverse-more :
      (fuel more : ℕ) (r : Run)
      → fuel ≤ more
      → (traverse ports policy scope strict fuel r).0 ≢ ok continues
      → traverse ports policy scope strict more r ≡ traverse ports policy scope strict fuel r
  unfolding traverse ◌>>=◌
  traverse-more zero more r below ends = absurd (ends refl)
  traverse-more (suc fuel) zero r below ends = absurd (omega (arith, below))
  traverse-more (suc fuel) (suc more) r below ends =
      same_after (next_page ports policy scope strict r).0 (traverse ports policy scope strict fuel)
        (traverse ports policy scope strict more) (next_page ports policy scope strict r).1
        (traverse-more fuel more (next_page ports policy scope strict r).1 (omega (arith, below)))
        ends

  refuse_unknown-Within : Keeps Within (refuse_unknown ports policy scope strict)
  refuse_unknown-Within r h =
      if_cases {A = Result (Unit {0}) × Run} (λ p. Within p.1)
        (r.traversal_complete
          && leb r.attempt.generation_recognized_count 0
          && ltb 0 r.attempt.generation_unknown_count)
        _ _ (λ _. h) (λ _. h)

  -- A run, from counts that are within the limits on, never counts more records than
  -- `maximum_discovery_records_per_source_run` nor ingests more files than
  -- `maximum_files_per_source_run`, whether it completes, is bounded or fails.
  pub collect-Within :
      (fuel : ℕ) (r : Run) → Within r → Within (collect ports policy scope strict fuel r).1
  unfolding collect
  collect-Within fuel =
      try_bind-Keeps Within
        (traverse ports policy scope strict fuel >> refuse_unknown ports policy scope strict) _ _
        (>>=-Keeps Within (traverse ports policy scope strict fuel) _ (traverse-Within fuel)
          (λ _. refuse_unknown-Within))
        (λ e r h. h) (λ _ r h. h)

  -- Fuel for two pages more than `maximum_discovery_records_per_source_run` is enough for any run with
  -- counts within the limits: its loop over pages ends by itself, not by the fuel, and with more fuel
  -- the run is the same.
  pub collect-ends :
      (fuel more : ℕ) (r : Run)
      → Within r
      → maximum_discovery_records_per_source_run + 2 ≤ fuel
      → fuel ≤ more
      → ((traverse ports policy scope strict fuel r).0 ≢ ok continues)
        × (collect ports policy scope strict more r ≡ collect ports policy scope strict fuel r)
  unfolding collect try_bind ◌>>=◌
  collect-ends fuel more r h enough below =
      let ends = run-ends fuel r h enough in (ends, rw (traverse-more fuel more r below ends) refl)
