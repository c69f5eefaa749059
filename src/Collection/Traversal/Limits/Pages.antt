-- ===== src/Collection/Traversal/Limits/Pages.antt =====
-- The loop over the pages stays within the limits on records and files, and ends.
use makolet.Prelude.{
  ℕ, suc, ◌+◌, ◌≤◌, ◌<◌, ◌≡◌, ◌≢◌, refl, ap, ◌∙◌, Bool, false, Option, none, some, List, [], ◌∷◌,
  not, leb, length, if_cases, arith,
}
use makolet.Domain.Values.{Text}
use makolet.Domain.Remote.{RemoteFile}
use makolet.Exec.{Result, ok, Exec, lift, >>=-cases}
use makolet.Collection.Pages.{DiscoveryPage, CollectionScope, publisher_cursor}
use makolet.Collection.Traversal.{
  CollectionPorts, TraversalPolicy, Run, Flow, continues, breaks, advance,
}
use makolet.Collection.Traversal.File.{visit_file}
use makolet.Collection.Traversal.Loop.{
  is_none, is_repeated, visit_files, complete_traversal, is_bounded, turn_page, leave_page,
  unless_broken,
}
use makolet.Collection.Traversal.Limits.{advance-IsTally}
use makolet.Collection.Traversal.Limits.Files.{visit_file-IsCounted}

module _ (ports : CollectionPorts) (policy : TraversalPolicy) (scope : CollectionScope)
    (strict : Bool) where
  open policy use {maximum_files_per_source_run, maximum_discovery_records_per_source_run}

  -- The counts of a run are within the limits.
  abbrev pub IsWithin : Run → Type 0
  IsWithin r =
      (r.discovered ≤ maximum_discovery_records_per_source_run)
      × (r.ingested ≤ maximum_files_per_source_run)

  -- Where the loop over files goes on, all of them were counted.
  abbrev pub IsSeen : ℕ → Result Flow × Run → Type 0
  IsSeen n p = IsWithin p.1 × (p.0 ≡ ok continues → n ≤ p.1.discovered)

  unless_broken-IsSeen :
      (n : ℕ) (flow : Flow) (next : Exec Run Flow) (s : Run)
      → IsWithin s
      → (flow ≡ continues → IsSeen n (next s))
      → IsSeen n (unless_broken flow next s)
  unless_broken-IsSeen n continues next s within more = more refl
  unless_broken-IsSeen n breaks next s within more = (within, λ e. cc e)

  pub visit_files-IsSeen :
      (index : ℕ) (xs : List RemoteFile) (r : Run)
      → IsWithin r
      → IsSeen (r.discovered + length xs) (visit_files ports policy scope strict index xs r)
  unfolding visit_files
  visit_files-IsSeen index [] r h = (h, λ _. omega arith)
  visit_files-IsSeen index (f ∷ xs) r h =
      let seen =
        visit_file-IsCounted ports policy scope strict r.discovered index f r (refl, h.1) h.0 in
      let s = (visit_file ports policy scope strict index f r).1 in
      >>=-cases (IsSeen (r.discovered + suc (length xs)))
        (visit_file ports policy scope strict index f) _ r
        (λ flow e.
          unless_broken-IsSeen (r.discovered + suc (length xs)) flow
            (visit_files ports policy scope strict (index + 1) xs) s (seen.0, seen.2)
            (λ goes_on.
              let (kept, all) = visit_files-IsSeen (index + 1) xs s (seen.0, seen.2) in
              (kept, λ k. omega (arith, all k, seen.1 (e ∙ ap ok goes_on)))))
        (λ e _. ((seen.0, seen.2), λ k. cc k))

  -- A page that is left for the next one leaves the loop at the start of a page, and room for more
  -- records.
  abbrev pub IsLeft : ℕ → Result Flow × Run → Type 0
  IsLeft n p =
      IsWithin p.1
      × (p.0 ≡ ok continues
          → (n ≤ p.1.discovered)
            × (p.1.discovered < maximum_discovery_records_per_source_run)
            × (p.1.page_offset ≡ 0))

  advance-IsWithin :
      (n : ℕ) (cursor : Option Text) (r : Run)
      → IsWithin r
      → let s = (advance n cursor 0 0 0 r).1 in
        (s.discovered ≡ r.discovered) × (s.ingested ≤ maximum_files_per_source_run)
  advance-IsWithin n cursor r h =
      advance-IsTally r.discovered maximum_files_per_source_run n cursor 0 0 0 r (refl, h.1)

  is_bounded-IsLeft :
      (n : ℕ) (r : Run)
      → IsWithin r
      → n ≤ r.discovered
      → r.page_offset ≡ 0
      → IsLeft n (is_bounded ports policy scope strict r)
  is_bounded-IsLeft n r h below start =
      if_cases (IsLeft n) (leb maximum_files_per_source_run r.ingested) _ _ (λ _. (h, λ k. cc k))
        (λ _.
          if_cases (IsLeft n) (leb maximum_discovery_records_per_source_run r.discovered) _ _
            (λ _. (h, λ k. cc k)) (λ room. (h, λ _. (below, ground (arith, room), start))))

  turn_page-IsLeft :
      (page : DiscoveryPage) (value : Text) (r : Run)
      → IsWithin r
      → IsLeft r.discovered (turn_page ports policy scope strict page value r)
  unfolding turn_page
  turn_page-IsLeft page value r h =
      >>=-cases (IsLeft r.discovered) (lift (publisher_cursor value)) _ r
        (λ selected _.
          let s = record r { seen_cursors = selected ∷ r.seen_cursors } in
          let kept = advance-IsWithin (length page.files) (some selected) s h in
          let t = (advance (length page.files) (some selected) 0 0 0 s).1 in
          >>=-cases (IsLeft r.discovered) (advance (length page.files) (some selected) 0 0 0) _ s
            (λ _ _.
              is_bounded-IsLeft r.discovered (record t { cursor = some selected; page_offset = 0 })
                (omega (arith, kept.0, h.0), kept.1) (omega (arith, kept.0)) refl)
            (λ _ _. ((omega (arith, kept.0, h.0), kept.1), λ k. cc k)))
        (λ _ _. (h, λ k. cc k))

  complete_traversal-IsLeft :
      (page : DiscoveryPage) (r : Run)
      → IsWithin r
      → IsWithin (complete_traversal ports policy scope strict page r).1
        × ((complete_traversal ports policy scope strict page r).0 ≢ ok continues)
  unfolding complete_traversal
  complete_traversal-IsLeft page r h =
      if_cases {A = Exec Run Flow} (λ o. IsWithin (o r).1 × ((o r).0 ≢ ok continues))
        (not page.complete) _ _ (λ _. (h, λ k. cc k))
        (λ _.
          let kept = advance-IsWithin (length page.files) none r h in
          >>=-cases (λ p. IsWithin p.1 × (p.0 ≢ ok continues))
            (advance (length page.files) none 0 0 0) _ r
            (λ _ _. ((omega (arith, kept.0, h.0), kept.1), λ k. cc k))
            (λ _ _. ((omega (arith, kept.0, h.0), kept.1), λ k. cc k)))

  -- The last page is not left for another.
  pub leave_page-IsLeft :
      (page : DiscoveryPage) (next : Option (Option Text)) (r : Run)
      → IsWithin r
      → IsLeft r.discovered (leave_page ports policy scope strict page next r)
        × ((leave_page ports policy scope strict page next r).0 ≡ ok continues
            → is_none next ≡ false)
  unfolding leave_page
  leave_page-IsLeft page none r h =
      let (kept, ends) = complete_traversal-IsLeft page r h in
      ((kept, λ k. absurd (ends k)), λ k. absurd (ends k))
  leave_page-IsLeft page (some none) r h = ((h, λ k. cc k), λ k. refl)
  leave_page-IsLeft page (some (some value)) r h = (
    if_cases (IsLeft r.discovered) (is_repeated value r.cursor r.seen_cursors) _ _
        (λ _. (h, λ k. cc k)) (λ _. turn_page-IsLeft page value r h),
    λ k. refl,
  )
