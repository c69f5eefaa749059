-- ===== src/Collection/Ledger/Notes.antt =====
-- The operations on the charges of a collection leave the notes of terminal files as they are.
use makolet.Prelude.{
  ℕ, ◌+◌, ◌≡◌, refl, Bool, true, false, Option, none, some, inl, inr, Bool-cases, if_cases, ltb,
}
use makolet.Domain.Values.{Uuid}
use makolet.Domain.Remote.{RemoteFile}
use makolet.Exec.{Result, Exec}
use makolet.Collection.Ledger.{
  Ledger, CollectionChargeBudget, Identity, Charge, charge_budget, reserve_transfer, reserve,
  settle_transfer, settle, settled, reserved_ledger, settled_ledger,
}

abbrev pub KeepsNotes : {A : Type 0} → Exec Ledger A → Type 0
KeepsNotes m = (l : Ledger) → (m l).1.terminal ≡ l.terminal

pub charge_budget-KeepsNotes : KeepsNotes charge_budget
unfolding charge_budget
charge_budget-KeepsNotes l = elim (Bool-cases l.running) [
  | inl now ↦ rw now refl
  | inr off ↦ rw off refl
]

pub reserve_transfer-KeepsNotes : (file : Uuid) (n : ℕ) → KeepsNotes (reserve_transfer file n)
unfolding reserve_transfer
reserve_transfer-KeepsNotes file n l =
    if_cases {A = Result CollectionChargeBudget × Ledger} (λ p. p.1.terminal ≡ l.terminal) l.running
      _ _ (λ _. go (l.charged_transfers file)) (λ _. refl)
  where
    go : (o : Option (ℕ × Bool)) → (reserve file n o l).1.terminal ≡ l.terminal
    go none = charge_budget-KeepsNotes (reserved_ledger file n l)
    go (some _) = refl

settled-KeepsNotes :
    (file : Uuid) (identity : Identity) (c : Charge) (reserved : ℕ)
    → KeepsNotes (settled file identity c reserved)
settled-KeepsNotes file identity c reserved l =
    elim (Bool-cases (ltb reserved (c.transfer_bytes + c.archive_charge))) [
      | inl over ↦ rw over refl
      | inr fits ↦ rw fits (charge_budget-KeepsNotes (settled_ledger file identity c reserved l))
    ]

pub settle_transfer-KeepsNotes :
    (file : Uuid) (remote : RemoteFile) (n : ℕ) → KeepsNotes (settle_transfer file remote n)
unfolding settle_transfer
settle_transfer-KeepsNotes file remote n l =
    if_cases {A = Result CollectionChargeBudget × Ledger} (λ p. p.1.terminal ≡ l.terminal) l.running
      _ _ (λ _. go (l.charged_transfers file)) (λ _. refl)
  where
    go : (o : Option (ℕ × Bool)) → (settle file remote n o l).1.terminal ≡ l.terminal
    go none = refl
    go (some (reserved, true)) = refl
    go (some (reserved, false)) = settled-KeepsNotes file _ _ reserved l
