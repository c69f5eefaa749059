-- ===== src/Collection/Traversal/Charges/Files.antt =====
-- application/collection.py, `_collect_with_context`: the charges of a run stay within the limits of
-- the run and the day over the visit of a file.
use makolet.Prelude.{
  ℕ, ◌+◌, ◌≡◌, subst, Bool, Option, none, some, ◌||◌, ◌&&◌, not, leb, min, if_cases, if◌then◌else◌,
}
use makolet.Domain.Values.{Uuid}
use makolet.Domain.Remote.{RemoteFile}
use makolet.Exec.{Result, ok, err, Exec, lift, Keeps, >>=-cases, try_bind, try_bind-Keeps}
use makolet.Collection.Ledger.{
  Ledger, CollectionChargeBudget, budget_of, charge_budget, reserve_transfer,
}
use makolet.Collection.Ledger.Limits.{charge_budget-IsAffordable, reserve_transfer-IsAffordable}
use makolet.Collection.Reservation.{BudgetReason, remaining_bytes, full_reservation}
use makolet.Collection.Pages.{CollectionScope, is_unknown, within_range}
use makolet.Collection.Checkpoint.{is_terminal_for}
use makolet.Collection.Traversal.{CollectionPorts, TraversalPolicy, Run, Flow, on_ledger}
use makolet.Collection.Traversal.File.{
  transfer, handle_failure, pass_transferred, reserve_and_transfer, collect_file, visit_recognized,
  visit_in_scope, visit_file, within_charges,
}
use makolet.Collection.Traversal.Charges.{
  Affordable, reserved_fits, pass_unknown-Affordable, pass_recognized-Affordable,
  transfer-Affordable, handle_failure-Affordable, pass_transferred-Affordable,
}

charge_budget-returns :
    (l : Ledger) (b : CollectionChargeBudget)
    → (charge_budget l).0 ≡ ok b
    → budget_of (charge_budget l).1 ≡ b
unfolding charge_budget
charge_budget-returns l b =
    if_cases {A = Result CollectionChargeBudget × Ledger} (λ p. p.0 ≡ ok b → budget_of p.1 ≡ b)
      l.running _ _ (λ _ h. cc h) (λ _ h. cc h)

module _ (ports : CollectionPorts) (policy : TraversalPolicy) (scope : CollectionScope)
    (strict : Bool) where
  open policy use {charges}

  abbrev Fine : Run → Type 0
  Fine = Affordable ports policy scope strict

  transferred-Affordable :
      (index : ℕ) (f : RemoteFile) (file : Uuid) (limit : Option ℕ)
      → Keeps Fine (
          try_bind
            (transfer ports policy scope strict index f file limit)
            (handle_failure ports policy scope strict index f file)
            (pass_transferred ports policy scope strict index))
  transferred-Affordable index f file limit =
      try_bind-Keeps Fine (transfer ports policy scope strict index f file limit) _ _
        (transfer-Affordable ports policy scope strict index f file limit)
        (handle_failure-Affordable ports policy scope strict index f file)
        (pass_transferred-Affordable ports policy scope strict index)

  reserve_and_transfer-Affordable :
      (index : ℕ) (f : RemoteFile) (retrying : Bool) (r : Run)
      → Fine r
      → Fine
          (reserve_and_transfer ports policy scope strict index f retrying
            (remaining_bytes charges (budget_of r.books.ledger))
            r).1
  unfolding reserve_and_transfer on_ledger
  reserve_and_transfer-Affordable index f retrying r h =
      let full = full_reservation charges f.protocol in
      let n =
        if retrying then 0 else min (remaining_bytes charges (budget_of r.books.ledger)) full in
      let (run, day) = reserved_fits charges r.books.ledger retrying full h in
      >>=-cases (λ p. Fine p.1) (lift (ports.register r.page_index index f)) _ r
        (λ file _.
          let kept = reserve_transfer-IsAffordable _ _ file n r.books.ledger run day in
          >>=-cases (λ p. Fine p.1) (on_ledger (reserve_transfer file n)) _ r
            (λ budget _. transferred-Affordable index f file _ _ kept) (λ _ _. kept))
        (λ _ _. h)

  within_charges-Affordable :
      (index : ℕ) (f : RemoteFile) (retrying : Bool) (budget : CollectionChargeBudget)
      (reason : Option BudgetReason) (r : Run)
      → budget_of r.books.ledger ≡ budget
      → Fine r
      → Fine (within_charges ports policy scope strict index f retrying budget reason r).1
  within_charges-Affordable index f retrying budget (some reason) r e h = h
  within_charges-Affordable index f retrying budget none r e h =
      if_cases {A = Exec Run Flow} (λ o. Fine (o r).1)
        (leb (remaining_bytes charges budget) charges.maximum_transfer_chunk_bytes && not retrying)
        _ _ (λ _. h)
        (λ _.
          subst
            (λ b.
              Fine
                (reserve_and_transfer ports policy scope strict index f retrying
                  (remaining_bytes charges b) r).1)
            e (reserve_and_transfer-Affordable index f retrying r h))

  collect_file-Affordable :
      (index : ℕ) (f : RemoteFile) (retrying : Bool)
      → Keeps Fine (collect_file ports policy scope strict index f retrying)
  unfolding collect_file on_ledger
  collect_file-Affordable index f retrying r h =
      let kept = charge_budget-IsAffordable _ _ r.books.ledger h in
      >>=-cases (λ p. Fine p.1) (on_ledger charge_budget) _ r
        (λ budget returned.
          within_charges-Affordable index f retrying budget _ _
            (charge_budget-returns r.books.ledger budget returned) kept)
        (λ _ _. kept)

  visit_recognized-Affordable :
      (index : ℕ) (f : RemoteFile) → Keeps Fine (visit_recognized ports policy scope strict index f)
  unfolding visit_recognized
  visit_recognized-Affordable index f r h =
      if_cases {A = Result Flow × Run} (λ p. Fine p.1)
        (not (within_range scope f)
          || (is_terminal_for scope.archive_only f r.books.ledger.terminal && not r.retry_boundary))
        _ _ (λ _. pass_recognized-Affordable ports policy scope strict index r h)
        (λ _.
          if_cases {A = Result Flow × Run} (λ p. Fine p.1)
            (leb policy.maximum_files_per_source_run r.ingested) _ _ (λ _. h)
            (λ _. collect_file-Affordable index f _ r h))

  visit_in_scope-Affordable :
      (v : Result (Unit {0})) (index : ℕ) (f : RemoteFile)
      → Keeps Fine (visit_in_scope ports policy scope strict v index f)
  visit_in_scope-Affordable (err e) index f r h = h
  visit_in_scope-Affordable (ok _) index f r h =
      if_cases {A = Exec Run Flow} (λ o. Fine (o r).1) (is_unknown f) _ _
        (λ _. pass_unknown-Affordable ports policy scope strict index r h)
        (λ _. visit_recognized-Affordable index f r h)

  pub visit_file-Affordable :
      (index : ℕ) (f : RemoteFile) → Keeps Fine (visit_file ports policy scope strict index f)
  unfolding visit_file
  visit_file-Affordable index f r h =
      if_cases {A = Result Flow × Run} (λ p. Fine p.1) (ports.elapsed r.page_index (index + 2)) _ _
        (λ _. h)
        (λ _.
          if_cases {A = Result Flow × Run} (λ p. Fine p.1)
            (leb policy.maximum_discovery_records_per_source_run r.discovered) _ _ (λ _. h)
            (λ _. visit_in_scope-Affordable _ index f r h))
