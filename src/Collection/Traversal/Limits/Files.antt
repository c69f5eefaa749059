-- ===== src/Collection/Traversal/Limits/Files.antt =====
-- The visit of a file counts it at most once, and stays within the limits on records and files.
use makolet.Prelude.{
  ℕ, ◌+◌, ◌≤◌, ◌≡◌, Bool, Option, none, some, ◌||◌, ◌&&◌, not, leb, min, if_cases, if◌then◌else◌,
  arith,
}
use makolet.Domain.Remote.{RemoteFile}
use makolet.Exec.{Result, ok, err, Exec, raise, lift}
use makolet.Collection.Ledger.{CollectionChargeBudget, charge_budget, reserve_transfer}
use makolet.Collection.Reservation.{BudgetReason, remaining_bytes, full_reservation}
use makolet.Collection.Pages.{CollectionScope, file_limit, is_unknown, within_range}
use makolet.Collection.Checkpoint.{is_terminal_for}
use makolet.Collection.Traversal.{
  CollectionPorts, TraversalPolicy, Run, Flow, continues, on_ledger, truncate,
}
use makolet.Collection.Traversal.File.{
  pass_unknown, pass_recognized, reserve_and_transfer, collect_file, visit_recognized,
  visit_in_scope, visit_file, nearer_limit, within_charges,
}
use makolet.Collection.Traversal.Limits.{
  IsTally, IsCounted, counted, stopped, >>=-IsCounted, on_ledger-IsTally, pass_unknown-IsTally,
  pass_recognized-IsTally, transferred-IsCounted,
}

module _ (ports : CollectionPorts) (policy : TraversalPolicy) (scope : CollectionScope)
    (strict : Bool) (n m : ℕ) where
  reserve_and_transfer-IsCounted :
      (index : ℕ) (f : RemoteFile) (retrying : Bool) (remaining k : ℕ) (r : Run)
      → k + 1 ≤ m
      → IsTally n k r
      → IsCounted n m (reserve_and_transfer ports policy scope strict index f retrying remaining r)
  unfolding reserve_and_transfer
  reserve_and_transfer-IsCounted index f retrying remaining k r room h =
      let below : k ≤ m = omega (arith, room) in
      let reserved =
        if retrying then 0 else min remaining (full_reservation policy.charges f.protocol) in
      >>=-IsCounted n m (lift (ports.register r.page_index index f)) _ k r below h (λ file s g.
        >>=-IsCounted n m (on_ledger (reserve_transfer file reserved)) _ k s below
          (on_ledger-IsTally n k (reserve_transfer file reserved) s g)
          (λ budget t l.
            transferred-IsCounted ports policy scope strict n m index f file _ k
              (record t { charged_bytes = budget.run_charged_bytes }) room l))

  within_charges-IsCounted :
      (index : ℕ) (f : RemoteFile) (retrying : Bool) (budget : CollectionChargeBudget)
      (reason : Option BudgetReason) (k : ℕ) (r : Run)
      → k + 1 ≤ m
      → IsTally n k r
      → IsCounted n m (within_charges ports policy scope strict index f retrying budget reason r)
  within_charges-IsCounted index f retrying budget (some reason) k r room h =
      stopped n m (within_charges ports policy scope strict index f retrying budget (some reason) r)
        (h.0, omega (arith, h.1, room)) (λ l. cc l)
  within_charges-IsCounted index f retrying budget none k r room h =
      if_cases {A = Exec Run Flow} (λ o. IsCounted n m (o r))
        (leb (remaining_bytes policy.charges budget) policy.charges.maximum_transfer_chunk_bytes
          && not retrying)
        _ _
        (λ _.
          stopped n m (truncate (nearer_limit ports policy scope strict budget) r)
            (h.0, omega (arith, h.1, room)) (λ l. cc l))
        (λ _. reserve_and_transfer-IsCounted index f retrying _ k r room h)

  collect_file-IsCounted :
      (index : ℕ) (f : RemoteFile) (retrying : Bool) (k : ℕ) (r : Run)
      → k + 1 ≤ m
      → IsTally n k r
      → IsCounted n m (collect_file ports policy scope strict index f retrying r)
  unfolding collect_file
  collect_file-IsCounted index f retrying k r room h =
      >>=-IsCounted n m (on_ledger charge_budget) _ k r (omega (arith, room))
        (on_ledger-IsTally n k charge_budget r h)
        (λ budget t l.
          within_charges-IsCounted index f retrying budget _ k
            (record t { charged_bytes = budget.run_charged_bytes }) room l)

module _ (ports : CollectionPorts) (policy : TraversalPolicy) (scope : CollectionScope)
    (strict : Bool) (n : ℕ) where
  open policy use {maximum_files_per_source_run}

  visit_recognized-IsCounted :
      (index : ℕ) (f : RemoteFile) (r : Run)
      → IsTally n maximum_files_per_source_run r
      → IsCounted n maximum_files_per_source_run
          (visit_recognized ports policy scope strict index f r)
  unfolding visit_recognized
  visit_recognized-IsCounted index f r h =
      if_cases (IsCounted n maximum_files_per_source_run)
        (not (within_range scope f)
          || (is_terminal_for scope.archive_only f r.books.ledger.terminal && not r.retry_boundary))
        _ _
        (λ _.
          counted n maximum_files_per_source_run (pass_recognized ports policy scope strict index r)
            (pass_recognized-IsTally ports policy scope strict n maximum_files_per_source_run index
              r h))
        (λ _.
          if_cases (IsCounted n maximum_files_per_source_run)
            (leb maximum_files_per_source_run r.ingested) _ _
            (λ _. stopped n maximum_files_per_source_run (truncate file_limit r) h (λ l. cc l))
            (λ more.
              collect_file-IsCounted ports policy scope strict n maximum_files_per_source_run index
                f _ r.ingested r (ground (arith, more)) (h.0, omega arith)))

  visit_in_scope-IsCounted :
      (valid : Result (Unit {0})) (index : ℕ) (f : RemoteFile) (r : Run)
      → IsTally n maximum_files_per_source_run r
      → IsCounted n maximum_files_per_source_run
          (visit_in_scope ports policy scope strict valid index f r)
  visit_in_scope-IsCounted (err e) index f r h =
      stopped n maximum_files_per_source_run (raise e r) h (λ l. cc l)
  visit_in_scope-IsCounted (ok _) index f r h =
      if_cases {A = Exec Run Flow} (λ o. IsCounted n maximum_files_per_source_run (o r))
        (is_unknown f) _ _
        (λ _.
          counted n maximum_files_per_source_run (pass_unknown ports policy scope strict index r) (
            pass_unknown-IsTally ports policy scope strict n maximum_files_per_source_run index r
              h))
        (λ _. visit_recognized-IsCounted index f r h)

  -- A file is visited only while the limit on records leaves room.
  pub visit_file-IsCounted :
      (index : ℕ) (f : RemoteFile) (r : Run)
      → IsTally n maximum_files_per_source_run r
      → n ≤ policy.maximum_discovery_records_per_source_run
      → let p = visit_file ports policy scope strict index f r in
        (p.1.discovered ≤ policy.maximum_discovery_records_per_source_run)
        × (p.0 ≡ ok continues → p.1.discovered ≡ n + 1)
        × (p.1.ingested ≤ maximum_files_per_source_run)
  unfolding visit_file
  visit_file-IsCounted index f r h below =
      if_cases {A = Result Flow × Run}
        (λ p.
          (p.1.discovered ≤ policy.maximum_discovery_records_per_source_run)
          × (p.0 ≡ ok continues → p.1.discovered ≡ n + 1)
          × (p.1.ingested ≤ maximum_files_per_source_run))
        (ports.elapsed r.page_index (index + 2)) _ _
        (λ _. (omega (arith, h.0, below), λ l. cc l, h.1))
        (λ _.
          if_cases {A = Result Flow × Run}
            (λ p.
              (p.1.discovered ≤ policy.maximum_discovery_records_per_source_run)
              × (p.0 ≡ ok continues → p.1.discovered ≡ n + 1)
              × (p.1.ingested ≤ maximum_files_per_source_run))
            (leb policy.maximum_discovery_records_per_source_run r.discovered) _ _
            (λ _. (omega (arith, h.0, below), λ l. cc l, h.1))
            (λ more.
              let room : n + 1 ≤ policy.maximum_discovery_records_per_source_run =
                ground (arith, more, h.0) in
              let (most, once) = visit_in_scope-IsCounted _ index f r h in
              (omega (arith, most, room), once.0, once.1)))
