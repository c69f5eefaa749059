-- ===== src/Collection/Traversal/Trail/Passing.antt =====
-- What keeps the checkpoint on its trail: writes on the charges, and the passing of a file that is done.
use makolet.Prelude.{
  ℕ, ◌+◌, ◌≡◌, inl, inr, sym, subst, ◌∙◌, Bool, true, Option, some, List, ◌∷◌, get_elem?, if_cases,
}
use makolet.Domain.Values.{Text}
use makolet.Domain.Remote.{RemoteFile}
use makolet.Exec.{Result, Exec, Keeps, >>=-cases}
use makolet.Collection.Ledger.{Ledger, Identity, identity_of}
use makolet.Collection.Ledger.Notes.{KeepsNotes}
use makolet.Collection.Pages.{DiscoveryPage, CollectionScope, is_unknown}
use makolet.Collection.Checkpoint.{Books, observe_attempt}
use makolet.Collection.Traversal.{
  CollectionPorts, TraversalPolicy, Run, on_ledger, advance, observe,
}
use makolet.Collection.Traversal.File.{pass_unknown, pass_recognized}
use makolet.Collection.Traversal.Trail.{Trail, past, IsDone, Finished}
use makolet.Collection.Traversal.Trail.Writes.{note_terminal-still, advance-cases}

module _ (listing : Option Text → DiscoveryPage) (scope : CollectionScope) (cursor : Option Text)
    (offset : ℕ) where
  abbrev pub notes_of : Run → List (Identity × Bool)
  notes_of r = r.books.ledger.terminal

  -- The checkpoint lies on a trail from the place, and a run that completed the traversal has one to
  -- the end of the last page.
  abbrev pub IsOnTrail : Run → Type 0
  IsOnTrail r =
      Trail listing scope (notes_of r) cursor offset r.books.checkpoint.cursor
        r.books.checkpoint.page_offset
      × (r.traversal_complete ≡ true → Finished listing scope cursor offset (notes_of r))

  -- The loop stands in the page of the cursor `c`.
  abbrev pub IsInPage : Option Text → Run → Type 0
  IsInPage c r = (r.cursor ≡ c) × IsOnTrail r

  module _ (c : Option Text) where
    pub on_ledger-IsInPage :
        {A : Type 0} (m : Exec Ledger A) → KeepsNotes m → Keeps (IsInPage c) (on_ledger m)
    unfolding on_ledger
    on_ledger-IsInPage m keeps r (at, (trail, finished)) =
        let e = sym (keeps r.books.ledger) in
        (
          at,
          (
            subst
                (λ t.
                  Trail listing scope t cursor offset r.books.checkpoint.cursor
                    r.books.checkpoint.page_offset)
                e trail,
            λ done. subst (Finished listing scope cursor offset) e (finished done),
          ),
        )

    pub observe-IsInPage : Keeps (IsInPage c) observe
    unfolding observe observe_attempt
    observe-IsInPage r h =
        if_cases {A = Result (Unit {0}) × Books} (λ p. IsInPage c (record r { books = p.1 }))
          r.books.ledger.running _ _ (λ _. h) (λ _. h)

    -- A file that is done may be passed.
    module _ (index : ℕ) (f : RemoteFile) (at : get_elem? (listing c).files index ≡ some f) where
      advanced-Trail :
          (r : Run)
          → IsDone scope (notes_of r) f
          → r.cursor ≡ c
          → r.books.checkpoint.cursor ≡ r.cursor
          → r.books.checkpoint.page_offset ≡ index
          → Trail listing scope
              (notes_of r)
              cursor
              offset
              r.books.checkpoint.cursor
              r.books.checkpoint.page_offset
          → Trail listing scope (notes_of r) cursor offset r.cursor (index + 1)
      advanced-Trail r done here_ same there trail =
          subst (λ d. Trail listing scope (notes_of r) cursor offset d (index + 1)) (sym here_)
            (past
              (subst (λ d. Trail listing scope (notes_of r) cursor offset d index) (same ∙ here_)
                (subst (Trail listing scope (notes_of r) cursor offset r.books.checkpoint.cursor)
                  there trail))
              at done)

      pub advance-IsInPage :
          (recognized unknown : ℕ) (r : Run)
          → IsDone scope (notes_of r) f
          → IsInPage c r
          → IsInPage c (advance index r.cursor (index + 1) recognized unknown r).1
      advance-IsInPage recognized unknown r done h =
          advance-cases index r.cursor (index + 1) recognized unknown r (λ p. IsInPage c p.1)
            (λ _. h) (λ _ same there. (h.0, (advanced-Trail r done h.0 same there h.1.0, h.1.1)))

      -- The file is behind the checkpoint.
      pub pass_recognized-IsInPage :
          (ports : CollectionPorts) (policy : TraversalPolicy) (strict : Bool) (r : Run)
          → IsDone scope (notes_of r) f
          → IsInPage c r
          → IsInPage c (pass_recognized ports policy scope strict index r).1
      unfolding pass_recognized
      pass_recognized-IsInPage ports policy strict r done h =
          >>=-cases (λ p. IsInPage c p.1) (advance index r.cursor (index + 1) 1 0) _
            (record r { discovered = r.discovered + 1 })
            (λ _ _. advance-IsInPage 1 0 (record r { discovered = r.discovered + 1 }) done h)
            (λ _ _. advance-IsInPage 1 0 (record r { discovered = r.discovered + 1 }) done h)

      pub pass_unknown-IsInPage :
          (ports : CollectionPorts) (policy : TraversalPolicy) (strict : Bool)
          → is_unknown f ≡ true
          → Keeps (IsInPage c) (pass_unknown ports policy scope strict index)
      unfolding pass_unknown
      pass_unknown-IsInPage ports policy strict unknown r h =
          let s = record r {
            discovered = r.discovered + 1;
            skipped_unknown = r.skipped_unknown + 1;
          } in
          >>=-cases (λ p. IsInPage c p.1) (advance index r.cursor (index + 1) 0 1) _ s
            (λ _ _. advance-IsInPage 0 1 s (inl unknown) h)
            (λ _ _. advance-IsInPage 0 1 s (inl unknown) h)

  pub grows :
      (remote f : RemoteFile) (t : List (Identity × Bool))
      → IsDone scope t f
      → IsDone scope ((identity_of remote, scope.archive_only) ∷ t) f
  grows remote f t (inl unknown) = inl unknown
  grows remote f t (inr (inl outside)) = inr (inl outside)
  grows remote f t (inr (inr terminal)) =
      inr (inr (note_terminal-still scope.archive_only f _ t terminal))
