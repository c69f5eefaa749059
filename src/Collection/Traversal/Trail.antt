-- ===== src/Collection/Traversal/Trail.antt =====
-- The way that a checkpoint of application/collection.py makes through the listing of a source, file
-- by file and page by page.
pub mod Coverage
pub mod Files
pub mod Pages
pub mod Passing
pub mod Runs
pub mod Writes
use makolet.Prelude.{
  ℕ, ◌+◌, ◌≡◌, ◌⊎◌, Bool, true, false, Option, none, some, List, length, get_elem?,
}
use makolet.Domain.Values.{Text}
use makolet.Domain.Remote.{RemoteFile}
use makolet.Collection.Ledger.{Identity}
use makolet.Collection.Pages.{DiscoveryPage, CollectionScope, within_range, is_unknown}
use makolet.Collection.Checkpoint.{is_terminal_for}

-- The file needs no work any more: its format is unknown, it is out of the range of the scope, or it
-- is noted as terminal.
abbrev pub IsDone : CollectionScope → List (Identity × Bool) → RemoteFile → Type 0
IsDone scope terminal f =
    (is_unknown f ≡ true)
    ⊎ ((within_range scope f ≡ false) ⊎ (is_terminal_for scope.archive_only f terminal ≡ true))

-- From one place of the listing to another, past files that are done, from the end of a page to the
-- next, and from the end of the last page back to the first.
pub data Trail (listing : Option Text → DiscoveryPage) (scope : CollectionScope)
    (terminal : List (Identity × Bool)) (cursor : Option Text) (offset : ℕ)
    : Option Text → ℕ → Type 0 where
  here : Trail listing scope terminal cursor offset cursor offset
  past :
      {c : Option Text} {i : ℕ} {f : RemoteFile}
      → Trail listing scope terminal cursor offset c i
      → get_elem? (listing c).files i ≡ some f
      → IsDone scope terminal f
      → Trail listing scope terminal cursor offset c (i + 1)
  turned :
      {c : Option Text} {v : Text}
      → Trail listing scope terminal cursor offset c (length (listing c).files)
      → (listing c).next_cursor ≡ some (some v)
      → Trail listing scope terminal cursor offset (some v) 0
  ended :
      {c : Option Text}
      → Trail listing scope terminal cursor offset c (length (listing c).files)
      → (listing c).next_cursor ≡ none
      → Trail listing scope terminal cursor offset none 0

module _ (listing : Option Text → DiscoveryPage) (scope : CollectionScope) (cursor : Option Text)
    (offset : ℕ) where
  -- The last page was left.
  abbrev pub Finished : List (Identity × Bool) → Type 0
  Finished terminal =
      (c : Option Text) × Trail listing scope terminal cursor offset c (length (listing c).files)
      × ((listing c).next_cursor ≡ none)

  module _ {t u : List (Identity × Bool)}
      (grows : (f : RemoteFile) → IsDone scope t f → IsDone scope u f) where
    pub Trail-map :
        {c : Option Text} {i : ℕ}
        → Trail listing scope t cursor offset c i
        → Trail listing scope u cursor offset c i
    Trail-map here = here
    Trail-map (past trail at done) = past (Trail-map trail) at (grows _ done)
    Trail-map (turned trail next) = turned (Trail-map trail) next
    Trail-map (ended trail next) = ended (Trail-map trail) next

    pub Finished-map : Finished t → Finished u
    Finished-map (c, trail, next) = (c, Trail-map trail, next)
