-- ===== src/Collection/Ledger.antt =====
-- application/collection.py, `_MemoryCollectionRepository`: the charges of one running attempt and of
-- its source, as `reserve_transfer` and `settle_transfer` keep them.
pub mod Limits
pub mod Notes
pub mod Settling
use makolet.Prelude.{
  ℕ, ◌+◌, ◌-◌, Bool, true, false, ◌&&◌, ◌||◌, not, Option, none, some, List, [], ◌∷◌, length, ltb,
  leb, ◌==◌, max, if◌then◌else◌, text_eq,
}
use makolet.Domain.Errors.{ErrorKind, failure}
use makolet.Domain.Values.{Text, Uuid}
use makolet.Domain.Remote.{RemoteFile}
use makolet.Exec.{Result, ok, err, Exec, pure, raise, ◌>>=◌}

pub record CollectionChargeBudget : Type 0 where
  pub run_charged_bytes : ℕ
  pub day_charged_bytes : ℕ
  pub day_source_identities : ℕ
  pub day_transfer_attempts : ℕ
  pub day_successes : ℕ

-- Retailer, portal and remote identifier.
pub record Identity : Type 0 where
  pub retailer_id : Text
  pub portal_id : Text
  pub remote_id : Text

pub record Ledger : Type 0 where
  -- the attempt is among `_running`
  pub running : Bool
  pub attempt_charged_bytes : ℕ
  pub source_charged_bytes : ℕ
  -- `_charged_transfers` of the attempt, by source file: bytes, and whether they are settled
  pub charged_transfers : Uuid → Option (ℕ × Bool)
  pub charged_sources : List Identity
  -- `_terminal`: identities, and whether they were only archived
  pub terminal : List (Identity × Bool)
  pub source_identity_files : List Uuid
  pub source_attempt_count : ℕ
  pub source_success_count : ℕ

abbrev pub identity_of : RemoteFile → Identity
identity_of f = record {
  retailer_id = f.retailer_id;
  portal_id = f.portal_id;
  remote_id = f.remote_id;
}

unfoldable pub identity_eq : Identity → Identity → Bool
identity_eq a b =
    text_eq a.retailer_id b.retailer_id
    && (text_eq a.portal_id b.portal_id && text_eq a.remote_id b.remote_id)

unfoldable pub is_charged : Identity → List Identity → Bool
unfolding identity_eq
is_charged i [] = false
is_charged i (j ∷ js) = identity_eq i j || is_charged i js

-- The identity is in `_terminal`, with either flag.
unfoldable pub is_terminal : Identity → List (Identity × Bool) → Bool
unfolding identity_eq
is_terminal i [] = false
is_terminal i ((j, _) ∷ js) = identity_eq i j || is_terminal i js

unfoldable pub file_in : Uuid → List Uuid → Bool
file_in f [] = false
file_in f (g ∷ gs) = f == g || file_in f gs

abbrev pub set_transfer : Uuid → ℕ × Bool → (Uuid → Option (ℕ × Bool)) → Uuid → Option (ℕ × Bool)
set_transfer file value transfers f = if f == file then some value else transfers f

abbrev pub budget_of : Ledger → CollectionChargeBudget
budget_of l = record {
  run_charged_bytes = l.attempt_charged_bytes;
  day_charged_bytes = l.source_charged_bytes;
  day_source_identities = length l.source_identity_files;
  day_transfer_attempts = l.source_attempt_count;
  day_successes = l.source_success_count;
}

-- `charge_budget`.
unfoldable pub charge_budget : Exec Ledger CollectionChargeBudget
unfolding failure
charge_budget l =
    if l.running then (ok (budget_of l), l) else (err (failure ErrorKind.runtime_error), l)

-- `reserve_transfer`: a transfer of the attempt is reserved once.
abbrev reserved_ledger : Uuid → ℕ → Ledger → Ledger
reserved_ledger file content_length l = record l {
  charged_transfers = set_transfer file (content_length, false) l.charged_transfers;
  source_identity_files =
      if file_in file l.source_identity_files
      then l.source_identity_files
      else file ∷ l.source_identity_files;
  source_attempt_count = l.source_attempt_count + 1;
  attempt_charged_bytes = l.attempt_charged_bytes + content_length;
  source_charged_bytes = l.source_charged_bytes + content_length;
}

abbrev reserve : Uuid → ℕ → Option (ℕ × Bool) → Exec Ledger CollectionChargeBudget
reserve file content_length (some _) l = (ok (budget_of l), l)
reserve file content_length none l = charge_budget (reserved_ledger file content_length l)

unfoldable pub reserve_transfer : Uuid → ℕ → Exec Ledger CollectionChargeBudget
unfolding charge_budget failure file_in
reserve_transfer file content_length l =
    if l.running
    then reserve file content_length (l.charged_transfers file) l
    else (err (failure ErrorKind.runtime_error), l)

-- `remote_file.content_length is not None and transferred_bytes >= remote_file.content_length`.
abbrev is_complete : Option ℕ → ℕ → Bool
is_complete none transferred = false
is_complete (some n) transferred = leb n transferred

-- `remote_file.content_length or transferred_bytes`.
abbrev archive_length : Option ℕ → ℕ → ℕ
archive_length none transferred = transferred
archive_length (some n) transferred = if n == 0 then transferred else n

-- What a transfer is charged: the bytes beyond the archived object, and, once for an identity, those
-- of the object.
pub record Charge : Type 0 where
  pub transfer_bytes : ℕ
  pub archive_charge : ℕ
  pub new_archive_charge : Bool

unfoldable pub charge_of : Bool → Bool → Option ℕ → ℕ → Charge
charge_of archive_attached already_charged content_length transferred =
    let archive_bytes = if archive_attached then archive_length content_length transferred else 0 in
    let new_archive_charge = archive_attached && not already_charged in
    record {
      transfer_bytes = if archive_attached then transferred - archive_bytes else transferred;
      archive_charge = if new_archive_charge then archive_bytes else 0;
      new_archive_charge = new_archive_charge;
    }

-- The end of `settle_transfer`: the reservation is replaced by the exact charge.
abbrev settled_ledger : Uuid → Identity → Charge → ℕ → Ledger → Ledger
settled_ledger file identity c reserved l =
    let exact = c.transfer_bytes + c.archive_charge in
    record l {
      charged_sources =
          if c.new_archive_charge then identity ∷ l.charged_sources else l.charged_sources;
      source_success_count =
          if c.new_archive_charge then l.source_success_count + 1 else l.source_success_count;
      charged_transfers = set_transfer file (c.transfer_bytes, true) l.charged_transfers;
      attempt_charged_bytes = (l.attempt_charged_bytes + exact) - reserved;
      source_charged_bytes = (l.source_charged_bytes + exact) - reserved;
    }

abbrev settled : Uuid → Identity → Charge → ℕ → Exec Ledger CollectionChargeBudget
settled file identity c reserved l =
    if ltb reserved (c.transfer_bytes + c.archive_charge)
    then (err (failure ErrorKind.runtime_error), l)
    else charge_budget (settled_ledger file identity c reserved l)

abbrev settle : Uuid → RemoteFile → ℕ → Option (ℕ × Bool) → Exec Ledger CollectionChargeBudget
settle file remote transferred none l = (err (failure ErrorKind.other), l)
settle file remote transferred (some (reserved, true)) l = (ok (budget_of l), l)
settle file remote transferred (some (reserved, false)) l =
    let identity = identity_of remote in
    let attached =
      is_terminal identity l.terminal || is_complete remote.content_length transferred in
    settled file identity
      (charge_of attached (is_charged identity l.charged_sources) remote.content_length transferred)
      reserved l

unfoldable pub settle_transfer : Uuid → RemoteFile → ℕ → Exec Ledger CollectionChargeBudget
unfolding charge_budget failure is_terminal is_charged charge_of
settle_transfer file remote transferred l =
    if l.running
    then settle file remote transferred (l.charged_transfers file) l
    else (err (failure ErrorKind.runtime_error), l)
