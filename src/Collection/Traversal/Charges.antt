-- ===== src/Collection/Traversal/Charges.antt =====
-- The charges of a run stay within the limits of the run and the day, whatever bytes the collaborators
-- report: the operations on the charges, and the handlers of a file.
pub mod Files
pub mod Runs
use makolet.Prelude.{
  ℕ, ◌+◌, ◌-◌, ◌≤◌, ◌≡◌, refl, ap, ◌∙◌, Bool, true, false, Option, none, some, ◌||◌, ◌&&◌, not, leb,
  ltb, min, if_cases, if◌then◌else◌, arith,
}
use makolet.Domain.Errors.{Failure, is_makolet}
use makolet.Domain.Values.{Text, Uuid}
use makolet.Domain.Remote.{RemoteFile}
use makolet.Exec.{Result, ok, err, Exec, lift, Keeps, >>=-Keeps, >>=-cases, try_bind-Keeps, ◌>>=◌}
use makolet.Collection.Ledger.{
  Ledger, CollectionChargeBudget, budget_of, charge_budget, reserve_transfer, settle_transfer,
}
use makolet.Collection.Ledger.Limits.{
  IsAffordable, charge_budget-IsAffordable, settle_transfer-IsAffordable,
  reserve_transfer-IsAffordable,
}
use makolet.Collection.Reservation.{
  CollectionPolicy, BudgetReason, remaining_bytes, full_reservation,
}
use makolet.Collection.Pages.{CollectionScope, is_unknown, within_range}
use makolet.Collection.Checkpoint.{Books, is_terminal_for, note_terminal, observe_attempt}
use makolet.Collection.Traversal.{
  CollectionPorts, TraversalPolicy, Ingested, Run, Flow, on_ledger, advance, observe,
}
use makolet.Collection.Traversal.File.{
  pass_unknown, pass_recognized, postprocess, transfer, charge_exceeded, settle_failed, pass_failed,
  transfer_failed, handle_failure, pass_transferred, reserve_and_transfer, collect_file,
  visit_recognized, visit_in_scope, visit_file, within_charges, continue_unless, settle_charge,
  is_charge_exceeded,
}
use makolet.Collection.Traversal.Trail.Writes.{advance-cases}

module _ (policy : CollectionPolicy) where
  abbrev pub Affords : Ledger → Type 0
  Affords =
      IsAffordable policy.maximum_charged_bytes_per_source_run
        policy.maximum_charged_bytes_per_source_day

  -- What is reserved for a file is left of both limits.
  pub reserved_fits :
      (l : Ledger) (retrying : Bool) (full : ℕ)
      → Affords l
      → let n = if retrying then 0 else min (remaining_bytes policy (budget_of l)) full in
        (l.attempt_charged_bytes + n ≤ policy.maximum_charged_bytes_per_source_run)
        × (l.source_charged_bytes + n ≤ policy.maximum_charged_bytes_per_source_day)
  unfolding remaining_bytes
  reserved_fits l true full h = (omega (arith, h.0), omega (arith, h.1))
  reserved_fits l false full h = (omega (arith, h.0), omega (arith, h.1))

module _ (ports : CollectionPorts) (policy : TraversalPolicy) (scope : CollectionScope)
    (strict : Bool) where
  -- The run's books are.
  abbrev pub Affordable : Run → Type 0
  Affordable r = Affords policy.charges r.books.ledger

  pub advance-Affordable :
      (expected : ℕ) (cursor : Option Text) (offset recognized unknown : ℕ)
      → Keeps Affordable (advance expected cursor offset recognized unknown)
  advance-Affordable expected cursor offset recognized unknown r h =
      advance-cases expected cursor offset recognized unknown r (λ p. Affordable p.1) (λ _. h)
        (λ _ _ _. h)

  open policy.charges use {
    maximum_charged_bytes_per_source_run, maximum_charged_bytes_per_source_day,
  }

  observe-Affordable : Keeps Affordable observe
  unfolding observe observe_attempt
  observe-Affordable r h =
      if_cases {A = Result (Unit {0}) × Books} (λ p. Affordable (record r { books = p.1 }))
        r.books.ledger.running _ _ (λ _. h) (λ _. h)

  settle_charge-Affordable :
      (file : Uuid) (f : RemoteFile) (n : ℕ)
      → Keeps Affordable (settle_charge ports policy scope strict file f n)
  unfolding on_ledger
  settle_charge-Affordable file f n r h = settle_transfer-IsAffordable _ _ file f n r.books.ledger h

  pub pass_unknown-Affordable :
      (index : ℕ) → Keeps Affordable (pass_unknown ports policy scope strict index)
  unfolding pass_unknown
  pass_unknown-Affordable index r h =
      >>=-Keeps Affordable (advance index r.cursor (index + 1) 0 1) _
        (advance-Affordable index r.cursor (index + 1) 0 1) (λ _ s k. k)
        (record r { discovered = r.discovered + 1; skipped_unknown = r.skipped_unknown + 1 }) h

  pub pass_recognized-Affordable :
      (index : ℕ) → Keeps Affordable (pass_recognized ports policy scope strict index)
  unfolding pass_recognized
  pass_recognized-Affordable index r h =
      >>=-Keeps Affordable (advance index r.cursor (index + 1) 1 0) _
        (advance-Affordable index r.cursor (index + 1) 1 0) (λ _ s k. k)
        (record r { discovered = r.discovered + 1 }) h

  postprocess-Affordable :
      (index : ℕ) (f : RemoteFile)
      → Keeps Affordable (postprocess ports policy scope strict index f)
  unfolding postprocess
  postprocess-Affordable index f r h =
      if_cases {A = Exec Run (Unit {0})} (λ o. Affordable (o r).1) scope.archive_only _ _ (λ _. h)
        (λ _.
          >>=-cases (λ p. Affordable p.1) (lift (ports.bootstrap r.page_index index f)) _
            (record r { postprocess_pending = true }) (λ _ _. h) (λ _ _. h))

  pub transfer-Affordable :
      (index : ℕ) (f : RemoteFile) (file : Uuid) (limit : Option ℕ)
      → Keeps Affordable (transfer ports policy scope strict index f file limit)
  unfolding transfer note_terminal
  transfer-Affordable index f file limit r =
      >>=-Keeps Affordable (lift (ports.ingest r.page_index index f limit)) _ (λ s h. h)
        (λ result.
          >>=-Keeps Affordable
            (settle_charge ports policy scope strict file f result.transferred_bytes) _
            (settle_charge-Affordable file f result.transferred_bytes)
            (λ budget.
              >>=-Keeps Affordable (postprocess ports policy scope strict index f) _
                (postprocess-Affordable index f) (λ _ s h. h)))
        r

  pass_failed-Affordable :
      (index : ℕ) (f : RemoteFile) (pending terminal : Bool)
      → Keeps Affordable (pass_failed ports policy scope strict index f pending terminal)
  unfolding pass_failed
  pass_failed-Affordable index f pending terminal r h =
      let s = record r { discovered = r.discovered + 1 } in
      if_cases {A = Exec Run (Unit {0})} (λ o. Affordable (o r).1) (not pending && terminal) _ _
        (λ _. advance-Affordable index r.cursor (index + 1) 1 0 s h) (λ _. observe-Affordable s h)

  settle_failed-Affordable :
      (f : RemoteFile) (file : Uuid) (e : Failure)
      → Keeps Affordable (settle_failed ports policy scope strict f file e)
  unfolding settle_failed
  settle_failed-Affordable f file e r h =
      if_cases {A = Exec Run (Unit {0})} (λ o. Affordable (o r).1) (is_makolet e.kind) _ _
        (λ _.
          >>=-Keeps Affordable (settle_charge ports policy scope strict file f e.transferred_bytes)
            _ (settle_charge-Affordable file f e.transferred_bytes) (λ _ s k. k) r h)
        (λ _. h)

  charge_exceeded-Affordable :
      (f : RemoteFile) (file : Uuid) (e : Failure)
      → Keeps Affordable (charge_exceeded ports policy scope strict f file e)
  unfolding charge_exceeded
  charge_exceeded-Affordable f file e r h =
      >>=-Keeps Affordable (settle_charge ports policy scope strict file f e.transferred_bytes) _
        (settle_charge-Affordable file f e.transferred_bytes)
        (λ budget s.
          >>=-Keeps Affordable observe _ observe-Affordable (λ _ t k. k)
            (record s { charged_bytes = budget.run_charged_bytes }))
        (record r { discovered = r.discovered + 1 }) h

  transfer_failed-Affordable :
      (index : ℕ) (f : RemoteFile) (file : Uuid) (e : Failure)
      → Keeps Affordable (transfer_failed ports policy scope strict index f file e)
  unfolding transfer_failed
  transfer_failed-Affordable index f file e r =
      >>=-Keeps Affordable (settle_failed ports policy scope strict f file e) _
        (settle_failed-Affordable f file e)
        (λ _ s.
          >>=-Keeps Affordable
            (λ u.
              pass_failed ports policy scope strict index f r.postprocess_pending
                (is_terminal_for scope.archive_only f u.books.ledger.terminal) u)
            _ (λ u k. pass_failed-Affordable index f r.postprocess_pending _ u k) (λ _ u k. k)
            (record s { postprocess_pending = r.postprocess_pending }))
        (record r { postprocess_pending = true })

  pub handle_failure-Affordable :
      (index : ℕ) (f : RemoteFile) (file : Uuid) (e : Failure)
      → Keeps Affordable (handle_failure ports policy scope strict index f file e)
  unfolding handle_failure
  handle_failure-Affordable index f file e r h =
      if_cases {A = Exec Run Flow} (λ o. Affordable (o r).1)
        (is_charge_exceeded ports policy scope strict e.kind) _ _
        (λ _. charge_exceeded-Affordable f file e r h)
        (λ _. transfer_failed-Affordable index f file e r h)

  continue_unless-Affordable :
      (reason : Option BudgetReason)
      → Keeps Affordable (continue_unless ports policy scope strict reason)
  continue_unless-Affordable none r h = h
  continue_unless-Affordable (some reason) r h = h

  pub pass_transferred-Affordable :
      (index : ℕ) (budget : CollectionChargeBudget)
      → Keeps Affordable (pass_transferred ports policy scope strict index budget)
  unfolding pass_transferred
  pass_transferred-Affordable index budget =
      >>=-Keeps Affordable (pass_recognized ports policy scope strict index) _
        (pass_recognized-Affordable index) (λ _. continue_unless-Affordable _)
