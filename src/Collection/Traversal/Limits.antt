-- ===== src/Collection/Traversal/Limits.antt =====
-- What the loop over a page's files counts: a file that is visited is counted once, and no more files
-- are ingested than the policy allows.
pub mod Files
pub mod Pages
pub mod Runs
use makolet.Prelude.{
  ℕ, ◌+◌, ◌≤◌, ◌<◌, ◌≡◌, ◌≢◌, refl, ap, ◌∙◌, Bool, true, false, Option, none, some, ◌||◌, ◌&&◌, not,
  leb, min, if_cases, if◌then◌else◌, arith,
}
use makolet.Domain.Errors.{Failure, is_makolet}
use makolet.Domain.Values.{Text, Uuid}
use makolet.Domain.Remote.{RemoteFile}
use makolet.Exec.{
  Result, ok, err, Exec, raise, lift, Keeps, >>=-Keeps, >>=-cases, try_bind, try_bind-cases, ◌>>=◌,
}
use makolet.Collection.Ledger.{
  Ledger, CollectionChargeBudget, charge_budget, reserve_transfer, settle_transfer,
}
use makolet.Collection.Reservation.{BudgetReason, remaining_bytes, full_reservation}
use makolet.Collection.Pages.{CollectionScope, file_limit, is_unknown, within_range}
use makolet.Collection.Checkpoint.{Books, is_terminal_for, note_terminal, observe_attempt}
use makolet.Collection.Traversal.{
  CollectionPorts, TraversalPolicy, Ingested, Run, Flow, continues, breaks, on_ledger, advance,
  observe, truncate,
}
use makolet.Collection.Traversal.File.{
  pass_unknown, pass_recognized, postprocess, transfer, charge_exceeded, settle_failed, pass_failed,
  transfer_failed, handle_failure, pass_transferred, reserve_and_transfer, collect_file,
  visit_recognized, visit_in_scope, visit_file, nearer_limit, within_charges, continue_unless,
  settle_charge, is_charge_exceeded,
}
use makolet.Collection.Traversal.Trail.Writes.{advance-cases}

-- `n` files were counted, and no more than `m` were ingested.
abbrev pub IsTally : ℕ → ℕ → Run → Type 0
IsTally n m r = (r.discovered ≡ n) × (r.ingested ≤ m)

-- The file that comes after `n` is counted at most once, and once where the loop goes on.
abbrev pub IsCounted : ℕ → ℕ → Result Flow × Run → Type 0
IsCounted n m p =
    (p.1.discovered ≤ n + 1) × ((p.0 ≡ ok continues → p.1.discovered ≡ n + 1) × (p.1.ingested ≤ m))

module _ (n m : ℕ) where
  pub on_ledger-IsTally : {A : Type 0} (o : Exec Ledger A) → Keeps (IsTally n m) (on_ledger o)
  unfolding on_ledger
  on_ledger-IsTally o r h = h

  observe-IsTally : Keeps (IsTally n m) observe
  unfolding observe
  observe-IsTally r h = h

  pub advance-IsTally :
      (expected : ℕ) (cursor : Option Text) (offset recognized unknown : ℕ)
      → Keeps (IsTally n m) (advance expected cursor offset recognized unknown)
  advance-IsTally expected cursor offset recognized unknown r h =
      advance-cases expected cursor offset recognized unknown r (λ p. IsTally n m p.1) (λ _. h)
        (λ _ _ _. h)

  pub counted : (p : Result Flow × Run) → IsTally (n + 1) m p.1 → IsCounted n m p
  counted p h = (omega (arith, h.0), (λ _. h.0, h.1))

  -- A file that was not counted ends the loop.
  pub stopped : (p : Result Flow × Run) → IsTally n m p.1 → p.0 ≢ ok continues → IsCounted n m p
  stopped p h ends = (omega (arith, h.0), (λ e. absurd (ends e), h.1))

  pub >>=-IsCounted :
      {A : Type 0} (o : Exec Run A) (f : A → Exec Run Flow) (k : ℕ) (r : Run)
      → k ≤ m
      → IsTally n k (o r).1
      → ((a : A) (s : Run) → IsTally n k s → IsCounted n m (f a s))
      → IsCounted n m ((o >>= f) r)
  >>=-IsCounted o f k r below kept next =
      >>=-cases (IsCounted n m) o f r (λ a _. next a (o r).1 kept)
        (λ e _. stopped (err e, (o r).1) (kept.0, omega (arith, kept.1, below)) (λ l. cc l))

module _ (ports : CollectionPorts) (policy : TraversalPolicy) (scope : CollectionScope)
    (strict : Bool) (n m : ℕ) where
  pub pass_unknown-IsTally :
      (index : ℕ) (r : Run)
      → IsTally n m r
      → IsTally (n + 1) m (pass_unknown ports policy scope strict index r).1
  unfolding pass_unknown
  pass_unknown-IsTally index r h =
      let s = record r { discovered = r.discovered + 1; skipped_unknown = r.skipped_unknown + 1 } in
      let kept =
        advance-IsTally (n + 1) m index r.cursor (index + 1) 0 1 s (omega (arith, h.0), h.1) in
      >>=-cases (λ p. IsTally (n + 1) m p.1) (advance index r.cursor (index + 1) 0 1) _ s
        (λ _ _. kept) (λ _ _. kept)

  pub pass_recognized-IsTally :
      (index : ℕ) (r : Run)
      → IsTally n m r
      → IsTally (n + 1) m (pass_recognized ports policy scope strict index r).1
  unfolding pass_recognized
  pass_recognized-IsTally index r h =
      let s = record r { discovered = r.discovered + 1 } in
      let kept =
        advance-IsTally (n + 1) m index r.cursor (index + 1) 1 0 s (omega (arith, h.0), h.1) in
      >>=-cases (λ p. IsTally (n + 1) m p.1) (advance index r.cursor (index + 1) 1 0) _ s
        (λ _ _. kept) (λ _ _. kept)

  postprocess-IsTally :
      (k : ℕ) (index : ℕ) (f : RemoteFile)
      → Keeps (IsTally n k) (postprocess ports policy scope strict index f)
  unfolding postprocess
  postprocess-IsTally k index f r h =
      if_cases {A = Exec Run (Unit {0})} (λ o. IsTally n k (o r).1) scope.archive_only _ _ (λ _. h)
        (λ _.
          >>=-cases (λ p. IsTally n k p.1) (lift (ports.bootstrap r.page_index index f)) _
            (record r { postprocess_pending = true }) (λ _ _. h) (λ _ _. h))

  pass_failed-IsTally :
      (index : ℕ) (f : RemoteFile) (pending terminal : Bool) (r : Run)
      → IsTally n m r
      → IsTally (n + 1) m (pass_failed ports policy scope strict index f pending terminal r).1
  unfolding pass_failed
  pass_failed-IsTally index f pending terminal r h =
      let s = record r { discovered = r.discovered + 1 } in
      if_cases {A = Exec Run (Unit {0})} (λ o. IsTally (n + 1) m (o r).1) (not pending && terminal)
        _ _
        (λ _. advance-IsTally (n + 1) m index r.cursor (index + 1) 1 0 s (omega (arith, h.0), h.1))
        (λ _. observe-IsTally (n + 1) m s (omega (arith, h.0), h.1))

  settle_charge-IsTally :
      (k : ℕ) (f : RemoteFile) (file : Uuid) (bytes : ℕ)
      → Keeps (IsTally k m) (settle_charge ports policy scope strict file f bytes)
  settle_charge-IsTally k f file bytes = on_ledger-IsTally k m (settle_transfer file f bytes)

  settle_failed-IsTally :
      (f : RemoteFile) (file : Uuid) (e : Failure)
      → Keeps (IsTally n m) (settle_failed ports policy scope strict f file e)
  unfolding settle_failed
  settle_failed-IsTally f file e r h =
      if_cases {A = Exec Run (Unit {0})} (λ o. IsTally n m (o r).1) (is_makolet e.kind) _ _
        (λ _.
          >>=-Keeps (IsTally n m)
            (settle_charge ports policy scope strict file f e.transferred_bytes) _
            (settle_charge-IsTally n f file e.transferred_bytes) (λ _ s k. k) r h)
        (λ _. h)

  charge_exceeded-IsCounted :
      (f : RemoteFile) (file : Uuid) (e : Failure) (r : Run)
      → IsTally n m r
      → IsCounted n m (charge_exceeded ports policy scope strict f file e r)
  unfolding charge_exceeded
  charge_exceeded-IsCounted f file e r h =
      counted n m (charge_exceeded ports policy scope strict f file e r) (
        >>=-Keeps (IsTally (n + 1) m)
          (settle_charge ports policy scope strict file f e.transferred_bytes) _
          (settle_charge-IsTally (n + 1) f file e.transferred_bytes)
          (λ budget s.
            >>=-Keeps (IsTally (n + 1) m) observe _ (observe-IsTally (n + 1) m) (λ _ t k. k)
              (record s { charged_bytes = budget.run_charged_bytes }))
          (record r { discovered = r.discovered + 1 }) (omega (arith, h.0), h.1))

  transfer_failed-IsCounted :
      (index : ℕ) (f : RemoteFile) (file : Uuid) (e : Failure) (r : Run)
      → IsTally n m r
      → IsCounted n m (transfer_failed ports policy scope strict index f file e r)
  unfolding transfer_failed
  transfer_failed-IsCounted index f file e r h =
      >>=-IsCounted n m (settle_failed ports policy scope strict f file e) _ m
        (record r { postprocess_pending = true }) (omega arith)
        (settle_failed-IsTally f file e (record r { postprocess_pending = true }) h)
        (λ _ s k. counted n m (failing s) (
          >>=-cases (λ p. IsTally (n + 1) m p.1) (passing s) _
            (record s { postprocess_pending = r.postprocess_pending })
            (λ _ _. pass_failed-IsTally index f r.postprocess_pending _ _ k)
            (λ _ _. pass_failed-IsTally index f r.postprocess_pending _ _ k)))
    where
      passing : Run → Exec Run (Unit {0})
      passing s =
          pass_failed ports policy scope strict index f r.postprocess_pending
            (is_terminal_for scope.archive_only f s.books.ledger.terminal)

      failing : Run → Result Flow × Run
      failing s =
          (passing s >>= λ _. raise e) (record s { postprocess_pending = r.postprocess_pending })

  handle_failure-IsCounted :
      (index : ℕ) (f : RemoteFile) (file : Uuid) (e : Failure) (r : Run)
      → IsTally n m r
      → IsCounted n m (handle_failure ports policy scope strict index f file e r)
  unfolding handle_failure
  handle_failure-IsCounted index f file e r h =
      if_cases {A = Exec Run Flow} (λ o. IsCounted n m (o r))
        (is_charge_exceeded ports policy scope strict e.kind) _ _
        (λ _. charge_exceeded-IsCounted f file e r h)
        (λ _. transfer_failed-IsCounted index f file e r h)

  -- A transfer ingests one file.
  transfer-IsTally :
      (index : ℕ) (f : RemoteFile) (file : Uuid) (limit : Option ℕ) (k : ℕ) (r : Run)
      → k + 1 ≤ m
      → IsTally n k r
      → IsTally n m (transfer ports policy scope strict index f file limit r).1
  unfolding transfer note_terminal
  transfer-IsTally index f file limit k r room h =
      >>=-cases Goal (lift (ports.ingest r.page_index index f limit)) _ r
        (λ result _.
          >>=-cases Goal (settle_charge ports policy scope strict file f result.transferred_bytes) _
            r
            (λ budget _.
              let kept =
                postprocess-IsTally k index f
                  (settle_charge ports policy scope strict file f result.transferred_bytes r).1
                  (on_ledger-IsTally n k (settle_transfer file f result.transferred_bytes) r h) in
              >>=-cases Goal (postprocess ports policy scope strict index f) _ _
                (λ _ _. (kept.0, omega (arith, kept.1, room)))
                (λ _ _. (kept.0, omega (arith, kept.1, room))))
            (λ _ _.
              (on_ledger-IsTally n m (settle_transfer file f result.transferred_bytes) r
                (h.0, omega (arith, h.1, room)))))
        (λ _ _. (h.0, omega (arith, h.1, room)))
    where
      Goal : Result CollectionChargeBudget × Run → Type 0
      Goal p = IsTally n m p.1

  continue_unless-IsTally :
      (reason : Option BudgetReason)
      → Keeps (IsTally (n + 1) m) (continue_unless ports policy scope strict reason)
  continue_unless-IsTally none r h = h
  continue_unless-IsTally (some reason) r h = h

  pass_transferred-IsCounted :
      (index : ℕ) (budget : CollectionChargeBudget) (r : Run)
      → IsTally n m r
      → IsCounted n m (pass_transferred ports policy scope strict index budget r)
  unfolding pass_transferred
  pass_transferred-IsCounted index budget r h =
      let passed = pass_recognized-IsTally index r h in
      counted n m (pass_transferred ports policy scope strict index budget r) (
        >>=-cases (λ p. IsTally (n + 1) m p.1) (pass_recognized ports policy scope strict index) _ r
          (λ _ _. continue_unless-IsTally _ _ passed) (λ _ _. passed))

  pub transferred-IsCounted :
      (index : ℕ) (f : RemoteFile) (file : Uuid) (limit : Option ℕ) (k : ℕ) (r : Run)
      → k + 1 ≤ m
      → IsTally n k r
      → IsCounted n m (
          try_bind
            (transfer ports policy scope strict index f file limit)
            (handle_failure ports policy scope strict index f file)
            (pass_transferred ports policy scope strict index)
            r)
  transferred-IsCounted index f file limit k r room h =
      let kept = transfer-IsTally index f file limit k r room h in
      try_bind-cases (IsCounted n m) (transfer ports policy scope strict index f file limit) _ _ r
        (λ b _. pass_transferred-IsCounted index b _ kept)
        (λ e _. handle_failure-IsCounted index f file e _ kept)
