-- ===== src/Collection/Checkpoint.antt =====
-- application/collection.py, `_MemoryCollectionRepository`: the checkpoint of one scope, its running
-- attempt and the charges, with the operations that move the checkpoint.
use makolet.Prelude.{
  ℕ, ◌+◌, Bool, true, false, ◌&&◌, ◌||◌, not, Option, none, List, [], ◌∷◌, ◌==◌, if◌then◌else◌,
}
use makolet.Domain.Errors.{ErrorKind, failure}
use makolet.Domain.Values.{Text}
use makolet.Domain.Remote.{RemoteFile}
use makolet.Exec.{ok, err, Exec}
use makolet.Collection.Ledger.{Ledger, Identity, identity_of, identity_eq}
use makolet.Collection.Pages.{cursor_eq}

-- `_MemoryCheckpoint`, without its identifier.
pub record Checkpoint : Type 0 where
  pub generation : ℕ
  pub cursor : Option Text
  pub page_offset : ℕ
  pub recognized_count : ℕ
  pub unknown_count : ℕ
  pub complete : Bool
  pub retry_boundary : Bool

-- `CollectionAttempt`, without identifiers.
pub record CollectionAttempt : Type 0 where
  pub generation : ℕ
  pub cursor : Option Text
  pub page_offset : ℕ
  pub generation_recognized_count : ℕ
  pub generation_unknown_count : ℕ
  pub retry_boundary : Bool

-- The running attempt stands in the ledger.
pub record Books : Type 0 where
  pub checkpoint : Checkpoint
  pub ledger : Ledger

-- `_MemoryCheckpoint()`.
abbrev pub new_checkpoint : Checkpoint
new_checkpoint = record {
  generation = 1;
  cursor = none;
  page_offset = 0;
  recognized_count = 0;
  unknown_count = 0;
  complete = false;
  retry_boundary = false;
}

abbrev pub next_generation : Checkpoint → Checkpoint
next_generation c = record {
  generation = c.generation + 1;
  cursor = none;
  page_offset = 0;
  recognized_count = 0;
  unknown_count = 0;
  complete = false;
  retry_boundary = false;
}

abbrev pub attempt_of : Checkpoint → CollectionAttempt
attempt_of c = record {
  generation = c.generation;
  cursor = c.cursor;
  page_offset = c.page_offset;
  generation_recognized_count = c.recognized_count;
  generation_unknown_count = c.unknown_count;
  retry_boundary = c.retry_boundary;
}

-- `begin_attempt`: a traversal that was completed starts over.
unfoldable pub begin_attempt : Books → CollectionAttempt × Books
begin_attempt b =
    let c = if b.checkpoint.complete then next_generation b.checkpoint else b.checkpoint in
    (
      attempt_of c,
      record b {
        checkpoint = c;
        ledger = record b.ledger {
          running = true;
          attempt_charged_bytes = 0;
          charged_transfers = λ f. none;
        };
      },
    )

abbrev pub moved_to : Option Text → ℕ → ℕ → ℕ → Checkpoint → Checkpoint
moved_to cursor page_offset recognized unknown c = record c {
  cursor = cursor;
  page_offset = page_offset;
  recognized_count = c.recognized_count + recognized;
  unknown_count = c.unknown_count + unknown;
  retry_boundary = false;
}

abbrev updated_attempt : Checkpoint → CollectionAttempt → CollectionAttempt
updated_attempt c a = record a {
  cursor = c.cursor;
  page_offset = c.page_offset;
  generation_recognized_count = c.recognized_count;
  generation_unknown_count = c.unknown_count;
}

-- `advance_attempt`, of the attempt as it was read last.
module _ (expected_cursor : Option Text) (expected_page_offset : ℕ) (cursor : Option Text)
    (page_offset recognized unknown : ℕ) where
  unfoldable pub advance_attempt : CollectionAttempt → Exec Books CollectionAttempt
  unfolding cursor_eq failure
  advance_attempt a b =
      if not b.ledger.running
      then (err (failure ErrorKind.runtime_error), b)
      else if not (cursor_eq b.checkpoint.cursor expected_cursor)
          || not (b.checkpoint.page_offset == expected_page_offset)
      then (err (failure ErrorKind.runtime_error), b)
      else (let c = moved_to cursor page_offset recognized unknown b.checkpoint in
          (ok (updated_attempt c a), record b { checkpoint = c }))

-- `finish_attempt`. `failed` is the test `status == "failed"`.
unfoldable pub finish_attempt : Bool → Bool → Books → Books
finish_attempt failed traversal_complete b = record b {
  checkpoint = record b.checkpoint {
    complete = traversal_complete;
    retry_boundary = failed && not traversal_complete;
  };
  ledger = record b.ledger { running = false };
}

-- `observe_attempt`, of a delta that is not negative.
unfoldable pub observe_attempt : Exec Books (Unit {0})
unfolding failure
observe_attempt b =
    if b.ledger.running then (ok tt, b) else (err (failure ErrorKind.runtime_error), b)

-- `(*identity, archive_only) in self._terminal`.
unfoldable pub noted : Bool → Identity → List (Identity × Bool) → Bool
unfolding identity_eq
noted flag i [] = false
noted true i ((j, true) ∷ rest) = identity_eq i j || noted true i rest
noted true i ((j, false) ∷ rest) = noted true i rest
noted false i ((j, true) ∷ rest) = noted false i rest
noted false i ((j, false) ∷ rest) = identity_eq i j || noted false i rest

-- `is_terminal`.
unfoldable pub is_terminal_for : Bool → RemoteFile → List (Identity × Bool) → Bool
unfolding noted
is_terminal_for archive_only remote terminal =
    noted false (identity_of remote) terminal
    || (archive_only && noted true (identity_of remote) terminal)

-- `note_terminal`.
unfoldable pub note_terminal : Bool → RemoteFile → Books → Books
note_terminal archive_only remote b = record b {
  ledger = record b.ledger { terminal = (identity_of remote, archive_only) ∷ b.ledger.terminal };
}
