-- ===== src/Collection/Traversal/Trail/Runs.antt =====
-- The runs of a source, one after the other, against a listing that stays as it is.
use makolet.Prelude.{
  ℕ, ◌≡◌, refl, sym, ◌∙◌, Bool, true, false, Option, none, some, get_elem?, not, if_cases,
  if◌then◌else◌,
}
use makolet.Domain.Values.{Text}
use makolet.Domain.Remote.{RemoteFile}
use makolet.Exec.{Result, ok, err}
use makolet.Collection.Budget.{DiscoveryRunBudget, create}
use makolet.Collection.Ledger.{Ledger}
use makolet.Collection.Pages.{DiscoveryPage, CollectionScope}
use makolet.Collection.Checkpoint.{
  Books, Checkpoint, begin_attempt, new_checkpoint, next_generation, attempt_of,
}
use makolet.Collection.Traversal.{CollectionPorts, TraversalPolicy}
use makolet.Collection.Traversal.Start.{collect_source, collect_with_context, new_run}
use makolet.Collection.Traversal.Trail.{Trail, here, IsDone}
use makolet.Collection.Traversal.Trail.Coverage.{Follows, Covered, Finished-Covered}
use makolet.Collection.Traversal.Trail.Pages.{Lists, collect-OnTrail, collect-complete}

-- The books of a scope after some runs. The limits, the answers of the collaborators, the lease and
-- the fuel are any, and may change from run to run.
pub data AfterRuns (listing : Option Text → DiscoveryPage) (scope : CollectionScope)
    : Books → Type 0 where
  fresh :
      (ledger : Ledger)
      → AfterRuns listing scope (record { checkpoint = new_checkpoint; ledger = ledger })
  collected :
      {b : Books}
      → AfterRuns listing scope b
      → (ports : CollectionPorts) (policy : TraversalPolicy) (strict acquired : Bool) (fuel : ℕ)
      → Lists ports listing
      → AfterRuns listing scope (collect_source ports policy scope strict fuel acquired b).1

module _ (listing : Option Text → DiscoveryPage) (scope : CollectionScope) where
  abbrev AllCovered : Books → Type 0
  AllCovered b =
      (d : Option Text) → Follows listing none d → Covered listing scope b.ledger.terminal d

  abbrev FromStart : Books → Type 0
  FromStart b =
      Trail listing scope b.ledger.terminal none 0 b.checkpoint.cursor b.checkpoint.page_offset

  -- A checkpoint that is complete has the whole listing behind it, any other a part from the start on.
  abbrev IsSound : Books → Type 0
  IsSound b =
      (b.checkpoint.complete ≡ true → AllCovered b) × (b.checkpoint.complete ≡ false → FromStart b)

  module _ (ports : CollectionPorts) (policy : TraversalPolicy) (strict : Bool) (fuel : ℕ)
      (lists : Lists ports listing) where
    collect_with_context-IsSound :
        (budget : Result DiscoveryRunBudget) (c : Checkpoint) (ledger : Ledger)
        → c.complete ≡ false
        → FromStart (record { checkpoint = c; ledger = ledger })
        → IsSound
            (collect_with_context ports policy scope strict fuel budget
              (attempt_of c, record { checkpoint = c; ledger = ledger })).1
    collect_with_context-IsSound (err e) c ledger open_ trail = (λ k. cc (k, open_), λ _. trail)
    collect_with_context-IsSound (ok budget) c ledger open_ trail =
        let r = new_run (attempt_of c) (record { checkpoint = c; ledger = ledger }) budget in
        let (end, finished) =
          collect-OnTrail listing scope none 0 ports policy strict lists fuel r
            (trail, λ k. cc k) in
        (
          λ k. Finished-Covered listing scope _ (
              finished
                (sym (collect-complete listing scope none 0 ports policy strict fuel r) ∙ k)),
          λ _. end,
        )

    collect_source-IsSound :
        (acquired : Bool) (b : Books)
        → IsSound b
        → IsSound (collect_source ports policy scope strict fuel acquired b).1
    unfolding collect_source begin_attempt
    collect_source-IsSound acquired b h =
        if_cases {A = Result (Unit {0}) × Books} (λ p. IsSound p.1) (not acquired) _ _ (λ _. h)
          (λ _.
            let c = if b.checkpoint.complete then next_generation b.checkpoint else b.checkpoint in
            let begun : Ledger = (begin_attempt b).1.ledger in
            collect_with_context-IsSound
              (create policy.maximum_listing_requests_per_source_run
                policy.maximum_listing_bytes_per_source_run)
              c begun
              (if_cases (λ d. d.complete ≡ false) b.checkpoint.complete _ b.checkpoint (λ _. refl)
                (λ open_. open_))
              (if_cases (λ d. FromStart (record { checkpoint = d; ledger = begun }))
                b.checkpoint.complete _ b.checkpoint (λ _. here) h.1))

  AfterRuns-IsSound : (b : Books) → AfterRuns listing scope b → IsSound b
  AfterRuns-IsSound b (fresh ledger) = (λ k. cc k, λ _. here)
  AfterRuns-IsSound b (collected {b = a} runs ports policy strict acquired fuel lists) =
      collect_source-IsSound ports policy strict fuel lists acquired a (AfterRuns-IsSound a runs)

  -- A new checkpoint, and any sequence of runs against a listing that stays as it is, whatever the
  -- limits, the answers of the collaborators and the errors of each run: once the checkpoint is
  -- marked as complete, every file of every page that the cursors lead to from the first is of an
  -- unknown format, out of the range of the scope, or noted as terminal.
  pub complete_runs-IsDone :
      (b : Books) (d : Option Text) (i : ℕ) (f : RemoteFile)
      → AfterRuns listing scope b
      → b.checkpoint.complete ≡ true
      → Follows listing none d
      → get_elem? (listing d).files i ≡ some f
      → IsDone scope b.ledger.terminal f
  complete_runs-IsDone b d i f runs complete follows at =
      (AfterRuns-IsSound b runs).0 complete d follows i f at

  -- After any runs against a listing that stays as it is, whatever fails in them, a checkpoint that is
  -- not marked as complete stands at the end of a trail from the start of the listing that passes only
  -- files of an unknown format, out of range or noted as terminal.
  pub open_runs-Trail :
      (b : Books)
      → AfterRuns listing scope b
      → b.checkpoint.complete ≡ false
      → Trail listing scope b.ledger.terminal none 0 b.checkpoint.cursor b.checkpoint.page_offset
  open_runs-Trail b runs open_ = (AfterRuns-IsSound b runs).1 open_
