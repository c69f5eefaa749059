-- ===== src/Collection/Traversal/Loop.antt =====
-- application/collection.py, `_collect_with_context`: the loop over pages, and how a run ends.
use makolet.Prelude.{
  ℕ, zero, suc, ◌+◌, Bool, true, false, ◌&&◌, ◌||◌, not, Option, none, some, List, [], ◌∷◌, length,
  drop, ltb, leb, if◌then◌else◌, text_eq,
}
use makolet.Domain.Errors.{ErrorKind, failure}
use makolet.Domain.Values.{Text}
use makolet.Domain.Documents.{text_in}
use makolet.Domain.Remote.{RemoteFile}
use makolet.Exec.{ok, err, Exec, pure, raise, lift, try_bind, ◌>>=◌, ◌>>◌}
use makolet.Collection.Budget.{DiscoveryRunBudget}
use makolet.Collection.Pages.{
  DiscoveryPage, CollectionScope, listing_elapsed_limit, discovery_limit, file_limit,
  publisher_cursor,
}
use makolet.Collection.Traversal.{
  CollectionPorts, TraversalPolicy, Discovered, listed, exhausted, unlisted, Run, Flow, continues,
  breaks, modify, advance, truncate,
}
use makolet.Collection.Traversal.File.{visit_file}
use makolet.Collection.Checkpoint.{finish_attempt}

abbrev pub is_empty {ℓ} : {A : Type ℓ} → List A → Bool
is_empty [] = true
is_empty (_ ∷ _) = false

abbrev pub is_none {ℓ} : {A : Type ℓ} → Option A → Bool
is_none none = true
is_none (some _) = false

-- `value is None or value == page_start_cursor or value in seen_cursors`, of a value that is there.
abbrev pub is_repeated : Text → Option Text → List Text → Bool
is_repeated value none seen = text_in value seen
is_repeated value (some start) seen = text_eq value start || text_in value seen

-- What follows in the loop's body, or after it.
abbrev pub unless_broken : Flow → Exec Run Flow → Exec Run Flow
unless_broken continues next = next
unless_broken breaks next = pure breaks

module _ (ports : CollectionPorts) (policy : TraversalPolicy) (scope : CollectionScope)
    (strict_source_scope : Bool) where
  -- `_discover_page`.
  abbrev pub discovered_in_time : Bool → Discovered → Discovered
  discovered_in_time true (listed page) = exhausted listing_elapsed_limit
  discovered_in_time late answer = answer

  unfoldable pub discover_page : Run → Discovered × DiscoveryRunBudget
  discover_page r =
      if ports.elapsed r.page_index 0
      then (exhausted listing_elapsed_limit, r.listing_budget)
      else (let p = ports.discover r.page_index r.cursor r.listing_budget in
          (discovered_in_time (ports.elapsed r.page_index 1) p.0, p.1))

  -- The loop over the files of a page.
  unfoldable pub visit_files : ℕ → List RemoteFile → Exec Run Flow
  unfolding ◌>>=◌
  visit_files index [] = pure continues
  visit_files index (remote ∷ rest) = do
    flow ← visit_file ports policy scope strict_source_scope index remote
    unless_broken flow (visit_files (index + 1) rest)

  abbrev source_response : {A : Type 0} → Exec Run A
  source_response = raise (failure ErrorKind.source_response)

  -- The last page.
  unfoldable pub complete_traversal : DiscoveryPage → Exec Run Flow
  unfolding ◌>>=◌ failure
  complete_traversal page = if not page.complete then source_response else (do
    advance (length page.files) none 0 0 0
    modify (λ r. record r { traversal_complete = true })
    pure breaks)

  -- `ingested >= ... or discovered >= ...`.
  abbrev pub is_bounded : Exec Run Flow
  is_bounded r =
      if leb policy.maximum_files_per_source_run r.ingested
      then truncate file_limit r
      else if leb policy.maximum_discovery_records_per_source_run r.discovered
      then truncate discovery_limit r
      else (ok continues, r)

  unfoldable pub turn_page : DiscoveryPage → Text → Exec Run Flow
  unfolding ◌>>=◌ publisher_cursor
  turn_page page value = do
    selected ← lift (publisher_cursor value)
    modify (λ r. record r { seen_cursors = selected ∷ r.seen_cursors })
    advance (length page.files) (some selected) 0 0 0
    modify (λ r. record r { cursor = some selected; page_offset = 0 })
    is_bounded

  -- After the files of a page.
  unfoldable pub leave_page : DiscoveryPage → Option (Option Text) → Exec Run Flow
  unfolding failure text_in
  leave_page page none r = complete_traversal page r
  leave_page page (some none) r = source_response r
  leave_page page (some (some value)) r =
      if is_repeated value r.cursor r.seen_cursors
      then source_response r
      else turn_page page value r

  unfoldable pub visit_page : DiscoveryPage → Exec Run Flow
  unfolding ◌>>=◌ failure
  visit_page page r =
      if ltb (length page.files) r.page_offset
      then source_response r
      else if is_empty page.files && not (is_none page.next_cursor)
      then source_response r
      else ((do
        flow ← visit_files r.page_offset (drop r.page_offset page.files)
        unless_broken flow (leave_page page page.next_cursor))
          r)

  abbrev pub visit_discovered : Discovered → Exec Run Flow
  visit_discovered (listed page) = visit_page page
  visit_discovered (exhausted reason) = truncate reason
  visit_discovered (unlisted e) = raise e

  -- The body of the `while True`.
  unfoldable pub next_page : Exec Run Flow
  unfolding discover_page
  next_page r =
      let s = record r { page_index = r.page_index + 1 } in
      let p = discover_page s in visit_discovered p.0 (record s { listing_budget = p.1 })

  -- The loop, with fuel. It leaves the run as it is where the fuel is used up.
  unfoldable pub traverse : ℕ → Exec Run Flow
  unfolding ◌>>=◌
  traverse zero = pure continues
  traverse (suc fuel) = do flow ← next_page; unless_broken flow (traverse fuel)

  -- A listing that holds only files of unknown formats is an error.
  abbrev pub refuse_unknown : Exec Run (Unit {0})
  refuse_unknown r =
      if r.traversal_complete
        && leb r.attempt.generation_recognized_count 0
        && ltb 0 r.attempt.generation_unknown_count
      then source_response r
      else (ok tt, r)

  -- The `except` clause, and the end of a run that is bounded or completed.
  abbrev finish : Bool → Run → Run
  finish failed r = record r { books = finish_attempt failed r.traversal_complete r.books }

  unfoldable pub collect : ℕ → Exec Run (Unit {0})
  unfolding ◌>>=◌ finish_attempt failure
  collect fuel =
      try_bind (traverse fuel >> refuse_unknown) (λ e r. (err e, finish true r))
        (λ _ r. (ok tt, finish false r))
