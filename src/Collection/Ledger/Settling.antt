-- ===== src/Collection/Ledger/Settling.antt =====
-- How reservations are settled.
use makolet.Prelude.{
  ℕ, ◌+◌, ◌≤◌, ◌≡◌, refl, ◌∙◌, Bool, true, false, Option, none, some, arith, ltb, if◌then◌else◌,
}
use makolet.Domain.Values.{Uuid}
use makolet.Domain.Remote.{RemoteFile}
use makolet.Exec.{Result, ok}
use makolet.Collection.Ledger.{
  CollectionChargeBudget, Identity, Ledger, Charge, identity_of, is_terminal, is_charged,
  is_complete, charge_of, charge_budget, budget_of, settled, settled_ledger, settle,
  settle_transfer, reserve_transfer, reserve, reserved_ledger, set_transfer,
}

-- Where the archived object is attached because its length was transferred, the charge is at most the
-- bytes transferred.
charge_fits :
    (charged : Bool) (length : Option ℕ) (transferred : ℕ)
    → let c = charge_of (is_complete length transferred) charged length transferred in
      c.transfer_bytes + c.archive_charge ≤ transferred
unfolding charge_of
charge_fits charged none transferred = ground arith
charge_fits charged (some n) transferred = ground arith

-- What a settlement that is not refused leaves: the reservation is given back, and the file is settled
-- at no more than the bytes transferred.
pub record IsSettled (file : Uuid) (reserved transferred : ℕ) (before : Ledger)
    (p : Result CollectionChargeBudget × Ledger) : Type 0 where
  pub returned : p.0 ≡ ok (budget_of p.1)
  pub still_running : p.1.running ≡ true
  pub attempt : p.1.attempt_charged_bytes + reserved ≤ before.attempt_charged_bytes + transferred
  pub source : p.1.source_charged_bytes + reserved ≤ before.source_charged_bytes + transferred
  pub settled_once : (bytes : ℕ) × (p.1.charged_transfers file ≡ some (bytes, true))

set-get :
    (file : Uuid) (value : ℕ × Bool) (transfers : Uuid → Option (ℕ × Bool))
    → set_transfer file value transfers file ≡ some value
set-get file value transfers = ground arith

charge_budget-running : (l : Ledger) → l.running ≡ true → charge_budget l ≡ (ok (budget_of l), l)
unfolding charge_budget
charge_budget-running l running = rw running

settled-IsSettled :
    (file : Uuid) (identity : Identity) (c : Charge) (reserved transferred : ℕ) (l : Ledger)
    → l.running ≡ true
    → c.transfer_bytes + c.archive_charge ≤ transferred
    → transferred ≤ reserved
    → reserved ≤ l.attempt_charged_bytes
    → reserved ≤ l.source_charged_bytes
    → IsSettled file reserved transferred l (settled file identity c reserved l)
settled-IsSettled file identity c reserved transferred l running exact fits attempt source =
    let no : ltb reserved (c.transfer_bytes + c.archive_charge) ≡ false = ground arith in
    rw no (
      rw (charge_budget-running (settled_ledger file identity c reserved l) running) (record {
        returned = refl;
        still_running = running;
        attempt = omega arith;
        source = omega arith;
        settled_once =
            (c.transfer_bytes, set-get file (c.transfer_bytes, true) l.charged_transfers);
      }))

module _ (file : Uuid) (remote : RemoteFile) (reserved transferred : ℕ) (l : Ledger) where
  settle-IsSettled :
      (transfer : Option (ℕ × Bool))
      → transfer ≡ some (reserved, false)
      → l.running ≡ true
      → is_terminal (identity_of remote) l.terminal ≡ false
      → transferred ≤ reserved
      → reserved ≤ l.attempt_charged_bytes
      → reserved ≤ l.source_charged_bytes
      → IsSettled file reserved transferred l (settle file remote transferred transfer l)
  settle-IsSettled transfer unsettled running open_ fits attempt source = rw unsettled (
      rw open_ (
        settled-IsSettled file (identity_of remote) _ reserved transferred l running
          (charge_fits (is_charged (identity_of remote) l.charged_sources) remote.content_length
            transferred)
          fits attempt source))

  started :
      (b : Bool) (p q : Result CollectionChargeBudget × Ledger)
      → b ≡ true
      → IsSettled file reserved transferred l p
      → IsSettled file reserved transferred l (if b then p else q)
  started true p q running h = h
  started false p q running h = cc running

-- A transfer of a running attempt that was reserved and not settled, of a file that is not noted as
-- terminal, is settled without an error if no more bytes were transferred than reserved, and the
-- reservation is within what the attempt and its source are charged. The charges of both then fall by
-- the reservation and rise by at most the bytes transferred.
pub settle_transfer-IsSettled :
    (file : Uuid) (remote : RemoteFile) (reserved transferred : ℕ) (l : Ledger)
    → l.charged_transfers file ≡ some (reserved, false)
    → l.running ≡ true
    → is_terminal (identity_of remote) l.terminal ≡ false
    → transferred ≤ reserved
    → reserved ≤ l.attempt_charged_bytes
    → reserved ≤ l.source_charged_bytes
    → IsSettled file reserved transferred l (settle_transfer file remote transferred l)
unfolding settle_transfer
settle_transfer-IsSettled file remote reserved transferred l unsettled running open_ fits a s =
    started file remote reserved transferred l l.running _ _ running (
      settle-IsSettled file remote reserved transferred l (l.charged_transfers file) unsettled
        running open_ fits a s)

already_settled :
    (file : Uuid) (remote : RemoteFile) (transferred bytes : ℕ) (l : Ledger)
    (transfer : Option (ℕ × Bool))
    → transfer ≡ some (bytes, true)
    → settle file remote transferred transfer l ≡ (ok (budget_of l), l)
already_settled file remote transferred bytes l transfer e = rw e refl

if_true : {A : Type 0} (b : Bool) (x y : A) → b ≡ true → (if b then x else y) ≡ x
if_true true x y e = refl
if_true false x y e = cc e

settled_again :
    (file : Uuid) (remote : RemoteFile) (transferred bytes : ℕ) (l : Ledger)
    → l.running ≡ true
    → l.charged_transfers file ≡ some (bytes, true)
    → settle_transfer file remote transferred l ≡ (ok (budget_of l), l)
unfolding settle_transfer
settled_again file remote transferred bytes l running once =
    if_true l.running _ _ running
    ∙ already_settled file remote transferred bytes l (l.charged_transfers file) once

reserved_new :
    (file : Uuid) (n : ℕ) (l : Ledger) (transfer : Option (ℕ × Bool))
    → l.running ≡ true
    → transfer ≡ none
    → reserve file n transfer l
      ≡ (ok (budget_of (reserved_ledger file n l)), reserved_ledger file n l)
reserved_new file n l transfer running unknown =
    rw unknown (charge_budget-running (reserved_ledger file n l) running)

pub reserve_transfer-new :
    (file : Uuid) (n : ℕ) (l : Ledger)
    → l.running ≡ true
    → l.charged_transfers file ≡ none
    → reserve_transfer file n l
      ≡ (ok (budget_of (reserved_ledger file n l)), reserved_ledger file n l)
unfolding reserve_transfer
reserve_transfer-new file n l running unknown =
    if_true l.running _ _ running ∙ reserved_new file n l (l.charged_transfers file) running unknown

-- A new transfer of a running attempt, of a file that is not noted as terminal, is reserved and then
-- settled without an error if no more bytes are transferred than reserved. In all, the attempt and
-- its source are charged at most the bytes transferred, and to settle the transfer once more, with
-- whatever bytes, changes nothing.
pub settle_transfer-reserve_transfer :
    (file : Uuid) (remote : RemoteFile) (reserved transferred again : ℕ) (l : Ledger)
    → l.running ≡ true
    → l.charged_transfers file ≡ none
    → is_terminal (identity_of remote) l.terminal ≡ false
    → transferred ≤ reserved
    → let p = settle_transfer file remote transferred (reserve_transfer file reserved l).1 in
      (p.0 ≡ ok (budget_of p.1))
      × (p.1.attempt_charged_bytes ≤ l.attempt_charged_bytes + transferred)
      × (p.1.source_charged_bytes ≤ l.source_charged_bytes + transferred)
      × (settle_transfer file remote again p.1 ≡ (ok (budget_of p.1), p.1))
settle_transfer-reserve_transfer file remote reserved transferred again l running unknown open_
      fits =
    let v = reserved_ledger file reserved l in
    let k =
      settle_transfer-IsSettled file remote reserved transferred v
        (set-get file (reserved, false) l.charged_transfers) running open_ fits (omega arith)
        (omega arith) in
    rw (reserve_transfer-new file reserved l running unknown) (
      k.returned,
      omega (arith, k.attempt),
      omega (arith, k.source),
      settled_again file remote again k.settled_once.0 (settle_transfer file remote transferred v).1
          k.still_running k.settled_once.1,
    )
