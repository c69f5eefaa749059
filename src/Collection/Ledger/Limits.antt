-- ===== src/Collection/Ledger/Limits.antt =====
-- The operations on the charges keep them within limits: a settlement never raises them, and a
-- reservation that is left of the limits stays within them.
use makolet.Prelude.{ℕ, ◌+◌, ◌≤◌, Bool, true, false, Option, none, some, ltb, if_cases, arith}
use makolet.Domain.Values.{Uuid}
use makolet.Domain.Remote.{RemoteFile}
use makolet.Exec.{Result, Keeps}
use makolet.Collection.Ledger.{
  Ledger, Identity, Charge, CollectionChargeBudget, charge_budget, reserve_transfer, reserve,
  reserved_ledger, settle_transfer, settle, settled, settled_ledger,
}

module _ (run_limit day_limit : ℕ) where
  -- The charges of the attempt and of its source's day are within their limits.
  abbrev pub IsAffordable : Ledger → Type 0
  IsAffordable l = (l.attempt_charged_bytes ≤ run_limit) × (l.source_charged_bytes ≤ day_limit)

  pub charge_budget-IsAffordable : Keeps IsAffordable charge_budget
  unfolding charge_budget
  charge_budget-IsAffordable l h =
      if_cases {A = Result CollectionChargeBudget × Ledger} (λ p. IsAffordable p.1) l.running _ _
        (λ _. h) (λ _. h)

  settled-IsAffordable :
      (file : Uuid) (identity : Identity) (c : Charge) (reserved : ℕ)
      → Keeps IsAffordable (settled file identity c reserved)
  settled-IsAffordable file identity c reserved l h =
      if_cases {A = Result CollectionChargeBudget × Ledger} (λ p. IsAffordable p.1)
        (ltb reserved (c.transfer_bytes + c.archive_charge)) _ _ (λ _. h)
        (λ fits.
          charge_budget-IsAffordable (settled_ledger file identity c reserved l)
            (ground (arith, h.0, fits), ground (arith, h.1, fits)))

  settle-IsAffordable :
      (file : Uuid) (remote : RemoteFile) (n : ℕ) (o : Option (ℕ × Bool))
      → Keeps IsAffordable (settle file remote n o)
  settle-IsAffordable file remote n none l h = h
  settle-IsAffordable file remote n (some (reserved, true)) l h = h
  settle-IsAffordable file remote n (some (reserved, false)) l h =
      settled-IsAffordable file _ _ reserved l h

  pub settle_transfer-IsAffordable :
      (file : Uuid) (remote : RemoteFile) (n : ℕ)
      → Keeps IsAffordable (settle_transfer file remote n)
  unfolding settle_transfer
  settle_transfer-IsAffordable file remote n l h =
      if_cases {A = Result CollectionChargeBudget × Ledger} (λ p. IsAffordable p.1) l.running _ _
        (λ _. settle-IsAffordable file remote n (l.charged_transfers file) l h) (λ _. h)

  reserve-IsAffordable :
      (file : Uuid) (n : ℕ) (o : Option (ℕ × Bool)) (l : Ledger)
      → l.attempt_charged_bytes + n ≤ run_limit
      → l.source_charged_bytes + n ≤ day_limit
      → IsAffordable (reserve file n o l).1
  reserve-IsAffordable file n (some _) l run day = (omega (arith, run), omega (arith, day))
  reserve-IsAffordable file n none l run day =
      charge_budget-IsAffordable (reserved_ledger file n l) (run, day)

  pub reserve_transfer-IsAffordable :
      (file : Uuid) (n : ℕ) (l : Ledger)
      → l.attempt_charged_bytes + n ≤ run_limit
      → l.source_charged_bytes + n ≤ day_limit
      → IsAffordable (reserve_transfer file n l).1
  unfolding reserve_transfer
  reserve_transfer-IsAffordable file n l run day =
      if_cases {A = Result CollectionChargeBudget × Ledger} (λ p. IsAffordable p.1) l.running _ _
        (λ _. reserve-IsAffordable file n (l.charged_transfers file) l run day)
        (λ _. (omega (arith, run), omega (arith, day)))
