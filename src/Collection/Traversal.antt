-- ===== src/Collection/Traversal.antt =====
-- application/collection.py, `_collect_with_context`: the traversal of a source's discovery pages.
-- Logged events and the freshness gauge are left out, and of the reported files only the number is
-- kept.
pub mod File
pub mod Charges
pub mod Limits
pub mod Loop
pub mod Start
pub mod Trail
use makolet.Prelude.{
  ℕ, zero, suc, ◌+◌, ◌-◌, Bool, true, false, ◌&&◌, ◌||◌, not, Option, none, some, List, [], ◌∷◌,
  length, drop, ltb, leb, min, if◌then◌else◌, text_eq,
}
use makolet.Domain.Errors.{ErrorKind, Failure, failure, is_makolet}
use makolet.Domain.Values.{Text, Uuid}
use makolet.Domain.Documents.{text_in}
use makolet.Domain.Remote.{RemoteFile}
use makolet.Exec.{Result, ok, err, Exec, pure, raise, lift, try_bind, ◌>>=◌, ◌>>◌}
use makolet.Collection.Budget.{DiscoveryRunBudget}
use makolet.Collection.Ledger.{
  Ledger, CollectionChargeBudget, charge_budget, reserve_transfer, settle_transfer,
}
use makolet.Collection.Reservation.{
  CollectionPolicy, BudgetReason, charged_byte_run_limit, charged_byte_day_limit,
  charge_budget_reason, remaining_bytes, full_reservation,
}
use makolet.Collection.Pages.{
  DiscoveryPage, CollectionScope, TruncationReason, listing_elapsed_limit, discovery_limit,
  file_limit, charge_limit, within_range, is_unknown, validate_remote_scope, publisher_cursor,
}
use makolet.Collection.Checkpoint.{
  Books, Checkpoint, CollectionAttempt, advance_attempt, observe_attempt, is_terminal_for,
  note_terminal,
}

-- What the source's adapter answers: a page, the end of its budget or of its time, or an error.
pub data Discovered : Type 0 where
  listed : DiscoveryPage → Discovered
  exhausted : TruncationReason → Discovered
  unlisted : Failure → Discovered

-- The fields of `IngestionResult` that the traversal reads.
pub record Ingested : Type 0 where
  pub transferred_bytes : ℕ
  pub duplicate : Bool

-- The answers of the collaborators, to a page's number, a file's index and the file. `elapsed` says
-- whether the time of the listing is used up: before a page is asked for, after it came (the moments
-- 0 and 1), and before the file of an index (the moment `index + 2`).
pub record CollectionPorts : Type 0 where
  pub discover : ℕ → Option Text → DiscoveryRunBudget → Discovered × DiscoveryRunBudget
  pub elapsed : ℕ → ℕ → Bool
  pub register : ℕ → ℕ → RemoteFile → Result Uuid
  pub ingest : ℕ → ℕ → RemoteFile → Option ℕ → Result Ingested
  pub bootstrap : ℕ → ℕ → RemoteFile → Result (Unit {0})

-- The limits of `CollectionPolicy` on files, records and listings, beside those on charged bytes.
pub record TraversalPolicy : Type 0 where
  pub charges : CollectionPolicy
  pub maximum_files_per_source_run : ℕ
  pub maximum_discovery_records_per_source_run : ℕ
  pub maximum_reported_files : ℕ
  pub maximum_listing_requests_per_source_run : ℕ
  pub maximum_listing_bytes_per_source_run : ℕ

-- The variables of the method, and the books of the repository.
pub record Run : Type 0 where
  pub cursor : Option Text
  pub page_offset : ℕ
  pub seen_cursors : List Text
  pub discovered : ℕ
  pub ingested : ℕ
  pub duplicates : ℕ
  pub skipped_unknown : ℕ
  pub reported : ℕ
  -- `run_truncated`, with `truncation_reason`
  pub truncation : Option TruncationReason
  pub traversal_complete : Bool
  pub page_index : ℕ
  pub retry_boundary : Bool
  pub postprocess_pending : Bool
  pub listing_budget : DiscoveryRunBudget
  pub charged_bytes : ℕ
  pub attempt : CollectionAttempt
  pub books : Books

-- How the body of a loop ends.
pub data Flow : Type 0 where
  continues breaks : Flow

abbrev pub modify : (Run → Run) → Exec Run (Unit {0})
modify f r = (ok tt, f r)

abbrev pub read : {A : Type 0} → (Run → A) → Exec Run A
read f r = (ok (f r), r)

-- An operation of the repository on the charges.
unfoldable pub on_ledger : {A : Type 0} → Exec Ledger A → Exec Run A
on_ledger m r =
    let p = m r.books.ledger in (p.0, record r { books = record r.books { ledger = p.1 } })

-- `attempt = await self._repository.advance_attempt(...)`.
abbrev advanced : Run → Result CollectionAttempt × Books → Result (Unit {0}) × Run
advanced r (ok a, b) = (ok tt, record r { attempt = a; books = b })
advanced r (err e, b) = (err e, record r { books = b })

unfoldable pub advance : ℕ → Option Text → ℕ → ℕ → ℕ → Exec Run (Unit {0})
advance expected_page_offset cursor page_offset recognized unknown r = advanced r (
    advance_attempt r.cursor expected_page_offset cursor page_offset recognized unknown r.attempt
      r.books)

unfoldable pub observe : Exec Run (Unit {0})
unfolding observe_attempt
observe r = let p = observe_attempt r.books in (p.0, record r { books = p.1 })

-- `run_truncated = True`, `truncation_reason = reason` and `break`.
abbrev pub truncate : TruncationReason → Exec Run Flow
truncate reason r = (ok breaks, record r { truncation = some reason })
