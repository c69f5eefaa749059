-- ===== src/Collection/Traversal/File.antt =====
-- application/collection.py, `_collect_with_context`: the body of the loop over a page's files.
use makolet.Prelude.{
  ℕ, ◌+◌, ◌-◌, Bool, true, false, ◌&&◌, ◌||◌, not, Option, none, some, ltb, leb, min, if◌then◌else◌,
}
use makolet.Domain.Errors.{ErrorKind, Failure, is_makolet}
use makolet.Domain.Values.{Uuid}
use makolet.Domain.Remote.{RemoteFile}
use makolet.Exec.{Result, ok, err, Exec, pure, raise, lift, try_bind, ◌>>=◌, ◌>>◌}
use makolet.Collection.Ledger.{
  CollectionChargeBudget, charge_budget, reserve_transfer, settle_transfer,
}
use makolet.Collection.Reservation.{
  BudgetReason, charged_byte_run_limit, charged_byte_day_limit, charge_budget_reason,
  remaining_bytes, full_reservation,
}
use makolet.Collection.Pages.{
  CollectionScope, TruncationReason, listing_elapsed_limit, discovery_limit, file_limit,
  charge_limit, within_range, is_unknown, validate_remote_scope,
}
use makolet.Collection.Checkpoint.{is_terminal_for, note_terminal}
use makolet.Collection.Traversal.{
  CollectionPorts, TraversalPolicy, Ingested, Run, Flow, continues, modify, read, on_ledger,
  advance, observe, truncate,
}

module _ (ports : CollectionPorts) (policy : TraversalPolicy) (scope : CollectionScope)
    (strict_source_scope : Bool) where
  open policy use {charges}

  -- The file is behind the checkpoint, without an ingestion.
  unfoldable pub pass_unknown : ℕ → Exec Run Flow
  unfolding ◌>>=◌
  pass_unknown index = do
    modify
        (λ r. record r { discovered = r.discovered + 1; skipped_unknown = r.skipped_unknown + 1 })
    cursor ← read (λ r. r.cursor)
    advance index cursor (index + 1) 0 1
    modify (λ r. record r { retry_boundary = false })
    pure continues

  unfoldable pub pass_recognized : ℕ → Exec Run Flow
  unfolding ◌>>=◌
  pass_recognized index = do
    modify (λ r. record r { discovered = r.discovered + 1 })
    cursor ← read (λ r. r.cursor)
    advance index cursor (index + 1) 1 0
    modify (λ r. record r { retry_boundary = false })
    pure continues

  -- Which of the two byte limits is nearer. The differences of the code may be negative, so each charge
  -- stands on the other side.
  abbrev pub nearer_limit : CollectionChargeBudget → TruncationReason
  nearer_limit b = charge_limit (
      if leb (charges.maximum_charged_bytes_per_source_run + b.day_charged_bytes)
        (charges.maximum_charged_bytes_per_source_day + b.run_charged_bytes)
      then charged_byte_run_limit
      else charged_byte_day_limit)

  abbrev pub settle_charge : Uuid → RemoteFile → ℕ → Exec Run CollectionChargeBudget
  settle_charge file remote bytes = on_ledger (settle_transfer file remote bytes)

  abbrev note_charge : CollectionChargeBudget → Exec Run (Unit {0})
  note_charge b = modify (λ r. record r { charged_bytes = b.run_charged_bytes })

  -- `if not scope.archive_only: ... await self._bootstrap_catalog(result) ...`.
  unfoldable pub postprocess : ℕ → RemoteFile → Exec Run (Unit {0})
  unfolding ◌>>=◌
  postprocess index remote = if scope.archive_only then pure tt else (do
    modify (λ r. record r { postprocess_pending = true })
    page ← read (λ r. r.page_index)
    lift (ports.bootstrap page index remote)
    modify (λ r. record r { postprocess_pending = false }))

  -- The counts that follow it in `process`.
  abbrev count_ingested : Ingested → Run → Run
  count_ingested result r = record r {
    ingested = r.ingested + 1;
    duplicates = if result.duplicate then r.duplicates + 1 else r.duplicates;
    reported = if ltb r.reported policy.maximum_reported_files then r.reported + 1 else r.reported;
  }

  -- The body of the `try`: `process`, and the note that the file is terminal.
  unfoldable pub transfer : ℕ → RemoteFile → Uuid → Option ℕ → Exec Run CollectionChargeBudget
  unfolding ◌>>=◌ on_ledger note_terminal
  transfer index remote file limit = do
    page ← read (λ r. r.page_index)
    result ← lift (ports.ingest page index remote limit)
    budget ← settle_charge file remote result.transferred_bytes
    postprocess index remote
    modify (count_ingested result)
    modify (λ r. record r {
      books = note_terminal scope.archive_only remote r.books;
      charged_bytes = budget.run_charged_bytes;
      postprocess_pending = false;
    })
    pure budget

  -- `except ChargeBudgetExceededError`.
  unfoldable pub charge_exceeded : RemoteFile → Uuid → Failure → Exec Run Flow
  unfolding ◌>>=◌ on_ledger observe
  charge_exceeded remote file e = do
    modify (λ r. record r { discovered = r.discovered + 1 })
    budget ← settle_charge file remote e.transferred_bytes
    note_charge budget
    observe
    truncate (nearer_limit budget)

  -- `except BaseException`: what was moved is settled, and a file that is terminal is passed.
  unfoldable pub settle_failed : RemoteFile → Uuid → Failure → Exec Run (Unit {0})
  unfolding ◌>>=◌ on_ledger is_makolet
  settle_failed remote file e =
      if is_makolet e.kind
      then (do budget ← settle_charge file remote e.transferred_bytes; note_charge budget)
      else pure tt

  unfoldable pub pass_failed : ℕ → RemoteFile → Bool → Bool → Exec Run (Unit {0})
  unfolding ◌>>=◌ observe
  pass_failed index remote pending terminal =
      if not pending && terminal
      then (do
        modify (λ r. record r { discovered = r.discovered + 1 })
        cursor ← read (λ r. r.cursor)
        advance index cursor (index + 1) 1 0)
      else (do modify (λ r. record r { discovered = r.discovered + 1 }); observe)

  unfoldable pub transfer_failed : ℕ → RemoteFile → Uuid → Failure → Exec Run Flow
  unfolding ◌>>=◌
  transfer_failed index remote file e = do
    pending ← read (λ r. r.postprocess_pending)
    modify (λ r. record r { postprocess_pending = true })
    settle_failed remote file e
    modify (λ r. record r { postprocess_pending = pending })
    terminal ← read (λ r. is_terminal_for scope.archive_only remote r.books.ledger.terminal)
    pass_failed index remote pending terminal
    raise e

  abbrev pub is_charge_exceeded : ErrorKind → Bool
  is_charge_exceeded ErrorKind.charge_budget_exceeded = true
  is_charge_exceeded _ = false

  unfoldable pub handle_failure : ℕ → RemoteFile → Uuid → Failure → Exec Run Flow
  handle_failure index remote file e =
      if is_charge_exceeded e.kind
      then charge_exceeded remote file e
      else transfer_failed index remote file e

  -- After the transfer.
  abbrev pub continue_unless : Option BudgetReason → Exec Run Flow
  continue_unless none = pure continues
  continue_unless (some reason) = truncate (charge_limit reason)

  unfoldable pub pass_transferred : ℕ → CollectionChargeBudget → Exec Run Flow
  unfolding ◌>>=◌
  pass_transferred index budget = do
    flow ← pass_recognized index
    continue_unless (charge_budget_reason charges budget)

  -- From the reservation on.
  unfoldable pub reserve_and_transfer : ℕ → RemoteFile → Bool → ℕ → Exec Run Flow
  unfolding ◌>>=◌ on_ledger
  reserve_and_transfer index remote retrying_terminal remaining = do
    page ← read (λ r. r.page_index)
    file ← lift (ports.register page index remote)
    let reserved =
        if retrying_terminal then 0 else min remaining (full_reservation charges remote.protocol)
    budget ← on_ledger (reserve_transfer file reserved)
    note_charge budget
    try_bind
        (transfer index remote file (
          if retrying_terminal
          then none
          else some (reserved - charges.maximum_transfer_chunk_bytes)))
        (handle_failure index remote file) (pass_transferred index)

  abbrev unless_retrying : Bool → Option BudgetReason → Option BudgetReason
  unless_retrying true reason = none
  unless_retrying false reason = reason

  abbrev pub within_charges :
      ℕ → RemoteFile → Bool → CollectionChargeBudget → Option BudgetReason → Exec Run Flow
  within_charges index remote retrying_terminal budget (some reason) =
      truncate (charge_limit reason)
  within_charges index remote retrying_terminal budget none =
      if leb (remaining_bytes charges budget) charges.maximum_transfer_chunk_bytes
        && not retrying_terminal
      then truncate (nearer_limit budget)
      else reserve_and_transfer index remote retrying_terminal (remaining_bytes charges budget)

  unfoldable pub collect_file : ℕ → RemoteFile → Bool → Exec Run Flow
  unfolding ◌>>=◌ on_ledger
  collect_file index remote retrying_terminal = do
    budget ← on_ledger charge_budget
    note_charge budget
    within_charges index remote retrying_terminal budget
        (unless_retrying retrying_terminal (charge_budget_reason charges budget))

  unfoldable pub visit_recognized : ℕ → RemoteFile → Exec Run Flow
  unfolding is_terminal_for within_range
  visit_recognized index remote r =
      let terminal = is_terminal_for scope.archive_only remote r.books.ledger.terminal in
      if not (within_range scope remote) || (terminal && not r.retry_boundary)
      then pass_recognized index r
      else if leb policy.maximum_files_per_source_run r.ingested
      then truncate file_limit r
      else collect_file index remote (terminal && r.retry_boundary) r

  abbrev pub visit_in_scope : Result (Unit {0}) → ℕ → RemoteFile → Exec Run Flow
  visit_in_scope (err e) index remote = raise e
  visit_in_scope (ok _) index remote =
      if is_unknown remote then pass_unknown index else visit_recognized index remote

  -- The body of the loop over a page's files.
  unfoldable pub visit_file : ℕ → RemoteFile → Exec Run Flow
  unfolding is_unknown
  visit_file index remote r =
      if ports.elapsed r.page_index (index + 2)
      then truncate listing_elapsed_limit r
      else if leb policy.maximum_discovery_records_per_source_run r.discovered
      then truncate discovery_limit r
      else visit_in_scope
          (if strict_source_scope then validate_remote_scope scope remote else ok tt) index remote r
