-- ===== src/Collection/Traversal/Trail/Writes.antt =====
-- What the single writes of the traversal do to the trail of the checkpoint.
use makolet.Prelude.{
  ℕ, ◌≡◌, refl, ap, Bool, true, false, Option, none, some, List, ◌∷◌, ◌||◌, not, if_cases, ◌==◌,
  ==_iff, text_eq_iff, text_eq_refl, arith,
}
use makolet.Domain.Errors.{Failure}
use makolet.Domain.Values.{Text}
use makolet.Domain.Remote.{RemoteFile}
use makolet.Exec.{Result, ok, err}
use makolet.Collection.Ledger.{Identity, identity_of, identity_eq}
use makolet.Collection.Pages.{cursor_eq}
use makolet.Collection.Checkpoint.{
  CollectionAttempt, is_terminal_for, noted, advance_attempt, moved_to,
}
use makolet.Collection.Traversal.{Run, advance, advanced}

identity_eq_refl : (i : Identity) → identity_eq i i ≡ true
unfolding identity_eq
identity_eq_refl i =
    rw (text_eq_refl i.retailer_id, text_eq_refl i.portal_id, text_eq_refl i.remote_id) refl

-- A note is found again, and a further one takes none away.
noted_now :
    (flag : Bool) (i : Identity) (t : List (Identity × Bool)) → noted flag i ((i, flag) ∷ t) ≡ true
unfolding noted
noted_now true i t = rw (identity_eq_refl i) refl
noted_now false i t = rw (identity_eq_refl i) refl

noted_still :
    (flag : Bool) (i : Identity) (n : Identity × Bool) (t : List (Identity × Bool))
    → noted flag i t ≡ true
    → noted flag i (n ∷ t) ≡ true
unfolding noted
noted_still true i (j, true) t h = ground (arith, h)
noted_still true i (j, false) t h = h
noted_still false i (j, true) t h = h
noted_still false i (j, false) t h = ground (arith, h)

pub note_terminal-now :
    (archive_only : Bool) (f : RemoteFile) (t : List (Identity × Bool))
    → is_terminal_for archive_only f ((identity_of f, archive_only) ∷ t) ≡ true
unfolding is_terminal_for
note_terminal-now true f t = ground (arith, noted_now true (identity_of f) t)
note_terminal-now false f t = ground (arith, noted_now false (identity_of f) t)

pub note_terminal-still :
    (archive_only : Bool) (f : RemoteFile) (n : Identity × Bool) (t : List (Identity × Bool))
    → is_terminal_for archive_only f t ≡ true
    → is_terminal_for archive_only f (n ∷ t) ≡ true
unfolding is_terminal_for
note_terminal-still archive_only f n t h =
    ground (arith, h, noted_still true (identity_of f) n t, noted_still false (identity_of f) n t)

cursor_eq→≡ : (a b : Option Text) → cursor_eq a b ≡ true → a ≡ b
unfolding cursor_eq
cursor_eq→≡ none none h = refl
cursor_eq→≡ none (some t) h = cc h
cursor_eq→≡ (some s) none h = cc h
cursor_eq→≡ (some s) (some t) h = ap some ((text_eq_iff s t).0 h)

-- An advance that is not refused finds the checkpoint at the place that is expected.
module _ {κ} (expected : ℕ) (cursor : Option Text) (offset recognized unknown : ℕ) (r : Run)
    (Q : Result (Unit {0}) × Run → Type κ) (refused : (e : Failure) → Q (err e, r))
    (moved : (a : CollectionAttempt)
      → r.books.checkpoint.cursor ≡ r.cursor
      → r.books.checkpoint.page_offset ≡ expected
      → Q (
        ok tt,
        record r {
          attempt = a;
          books = record r.books {
            checkpoint = moved_to cursor offset recognized unknown r.books.checkpoint;
          };
        },
      )) where
  pub advance-cases : Q (advance expected cursor offset recognized unknown r)
  unfolding advance advance_attempt
  advance-cases =
      if_cases (λ p. Q (advanced r p)) (not r.books.ledger.running) _ _ (λ _. refused _)
        (λ _.
          if_cases (λ p. Q (advanced r p))
            (not (cursor_eq r.books.checkpoint.cursor r.cursor)
              || not (r.books.checkpoint.page_offset == expected))
            _ _ (λ _. refused _)
            (λ found.
              moved _ (cursor_eq→≡ r.books.checkpoint.cursor r.cursor (ground (arith, found)))
                ((==_iff r.books.checkpoint.page_offset expected).0 (ground (arith, found)))))
