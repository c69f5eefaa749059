-- ===== src/Collection/Traversal/Trail/Files.antt =====
-- The loop over a page's files leaves the checkpoint on its trail, whatever the collaborators answer.
use makolet.Prelude.{
  ℕ, ◌+◌, ◌≡◌, ◌⊎◌, inr, Bool, true, false, Option, none, some, ◌||◌, ◌&&◌, not, get_elem?,
  if_cases, leb, arith,
}
use makolet.Domain.Errors.{Failure, is_makolet}
use makolet.Domain.Values.{Text, Uuid}
use makolet.Domain.Remote.{RemoteFile}
use makolet.Exec.{
  Result, ok, err, Exec, lift, Keeps, >>=-Keeps, try_bind, try_bind-cases, >>=-cases,
}
use makolet.Collection.Ledger.{
  CollectionChargeBudget, charge_budget, reserve_transfer, settle_transfer,
}
use makolet.Collection.Reservation.{BudgetReason, remaining_bytes}
use makolet.Collection.Ledger.Notes.{
  charge_budget-KeepsNotes, reserve_transfer-KeepsNotes, settle_transfer-KeepsNotes,
}
use makolet.Collection.Pages.{DiscoveryPage, CollectionScope, is_unknown, within_range}
use makolet.Collection.Checkpoint.{is_terminal_for, note_terminal}
use makolet.Collection.Traversal.{CollectionPorts, TraversalPolicy, Run, Flow, on_ledger, observe}
use makolet.Collection.Traversal.File.{
  pass_recognized, postprocess, transfer, charge_exceeded, settle_failed, pass_failed,
  transfer_failed, handle_failure, pass_transferred, reserve_and_transfer, collect_file,
  visit_recognized, visit_in_scope, visit_file, within_charges, continue_unless, settle_charge,
  is_charge_exceeded,
}
use makolet.Collection.Traversal.Trail.{IsDone, Trail-map, Finished-map}
use makolet.Collection.Traversal.Trail.Writes.{note_terminal-now}
use makolet.Collection.Traversal.Trail.Passing.{
  IsInPage, notes_of, on_ledger-IsInPage, observe-IsInPage, advance-IsInPage,
  pass_recognized-IsInPage, pass_unknown-IsInPage, grows,
}

passed_IsDone :
    {A : Type 0} (inside terminal retry : Bool)
    → (not inside || (terminal && not retry)) ≡ true
    → A ⊎ ((inside ≡ false) ⊎ (terminal ≡ true))
passed_IsDone inside terminal retry h = ground (arith, h)

module _ (listing : Option Text → DiscoveryPage) (scope : CollectionScope) (cursor : Option Text)
    (offset : ℕ) where
  abbrev InPage : Option Text → Run → Type 0
  InPage = IsInPage listing scope cursor offset

  module _ (ports : CollectionPorts) (policy : TraversalPolicy) (strict : Bool) where
    transfer-IsDone :
        (index : ℕ) (f : RemoteFile) (file : Uuid) (limit : Option ℕ) (r : Run)
        (b : CollectionChargeBudget)
        → (transfer ports policy scope strict index f file limit r).0 ≡ ok b
        → IsDone scope
            (notes_of listing scope cursor offset
              (transfer ports policy scope strict index f file limit r).1)
            f
    unfolding transfer note_terminal
    transfer-IsDone index f file limit r =
        >>=-cases Goal (lift (ports.ingest r.page_index index f limit)) _ r
          (λ result _.
            >>=-cases Goal (settle_charge ports policy scope strict file f result.transferred_bytes)
              _ r
              (λ budget _.
                >>=-cases Goal (postprocess ports policy scope strict index f) _ _
                  (λ _ _ b _. inr (inr (note_terminal-now scope.archive_only f _)))
                  (λ e _ b k. cc k))
              (λ e _ b k. cc k))
          (λ e _ b k. cc k)
      where
        Goal : Result CollectionChargeBudget × Run → Type 0
        Goal p =
            (b : CollectionChargeBudget)
            → p.0 ≡ ok b
            → IsDone scope (notes_of listing scope cursor offset p.1) f

    module _ (c : Option Text) where
      postprocess-IsInPage :
          (index : ℕ) (f : RemoteFile)
          → Keeps (InPage c) (postprocess ports policy scope strict index f)
      unfolding postprocess
      postprocess-IsInPage index f r h =
          if_cases {A = Exec Run (Unit {0})} (λ m. InPage c (m r).1) scope.archive_only _ _ (λ _. h)
            (λ _.
              >>=-cases (λ p. InPage c p.1) (lift (ports.bootstrap r.page_index index f)) _
                (record r { postprocess_pending = true }) (λ _ _. h) (λ _ _. h))

      transfer-IsInPage :
          (index : ℕ) (f : RemoteFile) (file : Uuid) (limit : Option ℕ)
          → Keeps (InPage c) (transfer ports policy scope strict index f file limit)
      unfolding transfer note_terminal
      transfer-IsInPage index f file limit r =
          >>=-Keeps (InPage c) (lift (ports.ingest r.page_index index f limit)) _ (λ s h. h)
            (λ result.
              >>=-Keeps (InPage c)
                (settle_charge ports policy scope strict file f result.transferred_bytes) _
                (on_ledger-IsInPage listing scope cursor offset c
                  (settle_transfer file f result.transferred_bytes)
                  (settle_transfer-KeepsNotes file f result.transferred_bytes))
                (λ budget.
                  >>=-Keeps (InPage c) (postprocess ports policy scope strict index f) _
                    (postprocess-IsInPage index f)
                    (λ _ s h. (
                      h.0,
                      (
                        Trail-map listing scope cursor offset
                            (λ g.
                              grows listing scope cursor offset f g
                                (notes_of listing scope cursor offset s))
                            h.1.0,
                        λ done.
                            Finished-map listing scope cursor offset
                              (λ g.
                                grows listing scope cursor offset f g
                                  (notes_of listing scope cursor offset s))
                              (h.1.1 done),
                      ),
                    ))))
            r

      pass_failed-IsInPage :
          (index : ℕ) (f : RemoteFile) (pending terminal : Bool) (r : Run)
          → get_elem? (listing c).files index ≡ some f
          → (terminal ≡ true → IsDone scope (notes_of listing scope cursor offset r) f)
          → InPage c r
          → InPage c (pass_failed ports policy scope strict index f pending terminal r).1
      unfolding pass_failed
      pass_failed-IsInPage index f pending terminal r at done h =
          if_cases {A = Exec Run (Unit {0})} (λ m. InPage c (m r).1) (not pending && terminal) _ _
            (λ passed.
              advance-IsInPage listing scope cursor offset c index f at 1 0
                (record r { discovered = r.discovered + 1 }) (done (ground (arith, passed))) h)
            (λ _.
              observe-IsInPage listing scope cursor offset c
                (record r { discovered = r.discovered + 1 }) h)

      settle_failed-IsInPage :
          (f : RemoteFile) (file : Uuid) (e : Failure)
          → Keeps (InPage c) (settle_failed ports policy scope strict f file e)
      unfolding settle_failed
      settle_failed-IsInPage f file e r h =
          if_cases {A = Exec Run (Unit {0})} (λ m. InPage c (m r).1) (is_makolet e.kind) _ _
            (λ _.
              >>=-Keeps (InPage c)
                (settle_charge ports policy scope strict file f e.transferred_bytes) _
                (on_ledger-IsInPage listing scope cursor offset c
                  (settle_transfer file f e.transferred_bytes)
                  (settle_transfer-KeepsNotes file f e.transferred_bytes))
                (λ _ s k. k) r h)
            (λ _. h)

      charge_exceeded-IsInPage :
          (f : RemoteFile) (file : Uuid) (e : Failure)
          → Keeps (InPage c) (charge_exceeded ports policy scope strict f file e)
      unfolding charge_exceeded
      charge_exceeded-IsInPage f file e r h =
          >>=-Keeps (InPage c) (settle_charge ports policy scope strict file f e.transferred_bytes)
            _
            (on_ledger-IsInPage listing scope cursor offset c
              (settle_transfer file f e.transferred_bytes)
              (settle_transfer-KeepsNotes file f e.transferred_bytes))
            (λ budget s.
              >>=-Keeps (InPage c) observe _ (observe-IsInPage listing scope cursor offset c)
                (λ _ t k. k) (record s { charged_bytes = budget.run_charged_bytes }))
            (record r { discovered = r.discovered + 1 }) h

      transfer_failed-IsInPage :
          (index : ℕ) (f : RemoteFile) (file : Uuid) (e : Failure)
          → get_elem? (listing c).files index ≡ some f
          → Keeps (InPage c) (transfer_failed ports policy scope strict index f file e)
      unfolding transfer_failed
      transfer_failed-IsInPage index f file e at r =
          >>=-Keeps (InPage c) (settle_failed ports policy scope strict f file e) _
            (settle_failed-IsInPage f file e)
            (λ _ s.
              let t = record s { postprocess_pending = r.postprocess_pending } in
              >>=-Keeps (InPage c)
                (λ u.
                  pass_failed ports policy scope strict index f r.postprocess_pending
                    (is_terminal_for scope.archive_only f u.books.ledger.terminal) u)
                _ (λ u k. pass_failed-IsInPage index f _ _ u at (λ noted. inr (inr noted)) k)
                (λ _ u k. k) t)
            (record r { postprocess_pending = true })

      handle_failure-IsInPage :
          (index : ℕ) (f : RemoteFile) (file : Uuid) (e : Failure)
          → get_elem? (listing c).files index ≡ some f
          → Keeps (InPage c) (handle_failure ports policy scope strict index f file e)
      unfolding handle_failure
      handle_failure-IsInPage index f file e at r h =
          if_cases {A = Exec Run Flow} (λ m. InPage c (m r).1)
            (is_charge_exceeded ports policy scope strict e.kind) _ _
            (λ _. charge_exceeded-IsInPage f file e r h)
            (λ _. transfer_failed-IsInPage index f file e at r h)

      continue_unless-IsInPage :
          (reason : Option BudgetReason)
          → Keeps (InPage c) (continue_unless ports policy scope strict reason)
      continue_unless-IsInPage none r h = h
      continue_unless-IsInPage (some reason) r h = h

      pass_transferred-IsInPage :
          (index : ℕ) (f : RemoteFile) (budget : CollectionChargeBudget) (r : Run)
          → get_elem? (listing c).files index ≡ some f
          → IsDone scope (notes_of listing scope cursor offset r) f
          → InPage c r
          → InPage c (pass_transferred ports policy scope strict index budget r).1
      unfolding pass_transferred
      pass_transferred-IsInPage index f budget r at done h =
          let passed =
            pass_recognized-IsInPage listing scope cursor offset c index f at ports policy strict r
              done h in
          >>=-cases (λ p. InPage c p.1) (pass_recognized ports policy scope strict index) _ r
            (λ _ _. continue_unless-IsInPage _ _ passed) (λ _ _. passed)

      transferred-IsInPage :
          (index : ℕ) (f : RemoteFile) (file : Uuid) (limit : Option ℕ)
          → get_elem? (listing c).files index ≡ some f
          → Keeps (InPage c) (
              try_bind
                (transfer ports policy scope strict index f file limit)
                (handle_failure ports policy scope strict index f file)
                (pass_transferred ports policy scope strict index))
      transferred-IsInPage index f file limit at r h =
          let kept = transfer-IsInPage index f file limit r h in
          try_bind-cases (λ p. InPage c p.1) (transfer ports policy scope strict index f file limit)
            _ _ r
            (λ b returned.
              pass_transferred-IsInPage index f b _ at
                (transfer-IsDone index f file limit r b returned) kept)
            (λ e _. handle_failure-IsInPage index f file e at _ kept)

      reserve_and_transfer-IsInPage :
          (index : ℕ) (f : RemoteFile) (retrying : Bool) (remaining : ℕ)
          → get_elem? (listing c).files index ≡ some f
          → Keeps
              (InPage c)
              (reserve_and_transfer ports policy scope strict index f retrying remaining)
      unfolding reserve_and_transfer
      reserve_and_transfer-IsInPage index f retrying remaining at r =
          >>=-Keeps (InPage c) (lift (ports.register r.page_index index f)) _ (λ s h. h)
            (λ file.
              >>=-Keeps (InPage c) (on_ledger (reserve_transfer file _)) _
                (on_ledger-IsInPage listing scope cursor offset c (reserve_transfer file _)
                  (reserve_transfer-KeepsNotes file _))
                (λ budget t h.
                  transferred-IsInPage index f file _ at
                    (record t { charged_bytes = budget.run_charged_bytes }) h))
            r

      within_charges-IsInPage :
          (index : ℕ) (f : RemoteFile) (retrying : Bool) (budget : CollectionChargeBudget)
          (reason : Option BudgetReason)
          → get_elem? (listing c).files index ≡ some f
          → Keeps
              (InPage c)
              (within_charges ports policy scope strict index f retrying budget reason)
      within_charges-IsInPage index f retrying budget (some reason) at r h = h
      within_charges-IsInPage index f retrying budget none at r h =
          if_cases {A = Exec Run Flow} (λ m. InPage c (m r).1)
            (leb (remaining_bytes policy.charges budget) policy.charges.maximum_transfer_chunk_bytes
              && not retrying)
            _ _ (λ _. h) (λ _. reserve_and_transfer-IsInPage index f retrying _ at r h)

      collect_file-IsInPage :
          (index : ℕ) (f : RemoteFile) (retrying : Bool)
          → get_elem? (listing c).files index ≡ some f
          → Keeps (InPage c) (collect_file ports policy scope strict index f retrying)
      unfolding collect_file
      collect_file-IsInPage index f retrying at =
          >>=-Keeps (InPage c) (on_ledger charge_budget) _
            (on_ledger-IsInPage listing scope cursor offset c charge_budget
              charge_budget-KeepsNotes)
            (λ budget t h.
              within_charges-IsInPage index f retrying budget _ at
                (record t { charged_bytes = budget.run_charged_bytes }) h)

      visit_recognized-IsInPage :
          (index : ℕ) (f : RemoteFile)
          → get_elem? (listing c).files index ≡ some f
          → Keeps (InPage c) (visit_recognized ports policy scope strict index f)
      unfolding visit_recognized
      visit_recognized-IsInPage index f at r h =
          if_cases {A = Result Flow × Run} (λ p. InPage c p.1)
            (not (within_range scope f)
              || (is_terminal_for scope.archive_only f (notes_of listing scope cursor offset r)
                  && not r.retry_boundary))
            _ _
            (λ passed.
              pass_recognized-IsInPage listing scope cursor offset c index f at ports policy strict
                r
                (passed_IsDone (within_range scope f)
                  (is_terminal_for scope.archive_only f (notes_of listing scope cursor offset r))
                  r.retry_boundary passed)
                h)
            (λ _.
              if_cases {A = Result Flow × Run} (λ p. InPage c p.1)
                (leb policy.maximum_files_per_source_run r.ingested) _ _ (λ _. h)
                (λ _. collect_file-IsInPage index f _ at r h))

      -- A page's file is visited.
      pub visit_file-IsInPage :
          (index : ℕ) (f : RemoteFile)
          → get_elem? (listing c).files index ≡ some f
          → Keeps (InPage c) (visit_file ports policy scope strict index f)
      unfolding visit_file
      visit_file-IsInPage index f at r h =
          if_cases {A = Result Flow × Run} (λ p. InPage c p.1)
            (ports.elapsed r.page_index (index + 2)) _ _ (λ _. h)
            (λ _.
              if_cases {A = Result Flow × Run} (λ p. InPage c p.1)
                (leb policy.maximum_discovery_records_per_source_run r.discovered) _ _ (λ _. h)
                (λ _. in_scope _))
        where
          in_scope :
              (v : Result (Unit {0}))
              → InPage c (visit_in_scope ports policy scope strict v index f r).1
          in_scope (err e) = h
          in_scope (ok _) =
              if_cases {A = Exec Run Flow} (λ m. InPage c (m r).1) (is_unknown f) _ _
                (λ unknown.
                  pass_unknown-IsInPage listing scope cursor offset c index f at ports policy strict
                    unknown r h)
                (λ _. visit_recognized-IsInPage index f at r h)
