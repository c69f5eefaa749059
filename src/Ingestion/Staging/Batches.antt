-- ===== src/Ingestion/Staging/Batches.antt =====
-- What the repository receives from the loop of `_parse_validate_apply`.
use makolet.Prelude.{
  ◌≤◌, ◌<◌, ◌≡◌, ◌⊎◌, inl, inr, refl, sym, ap, ◌∙◌, Option, none, some, List, [], ◌∷◌, ◌++◌,
  append_assoc, append-nil, All, concat, Bool-cases, arith,
}
use makolet.Domain.Errors.{Failure}
use makolet.Domain.Documents.{ParsedEvent}
use makolet.Exec.{Result, ok, err, >>=-cases, ◌>>◌}
use makolet.Ingestion.Policy.{IngestionPolicy}
use makolet.Ingestion.Charges.{stage_units}
use makolet.Ingestion.Summary.{StageSummary}
use makolet.Ingestion.Staging.{
  Staging, start_staging, event_bytes, is_empty, flushed, flush_batch, count_issue, check_event,
  make_room, append_event, flush_full, stage_event, stage_events_until, flush_rest, stage_document,
}
use makolet.Ingestion.Staging.Steps.{
  Fits, IsBatched, empty-of_is_empty, flushed-IsBatched, count_issue-IsBatched, make_room-IsBatched,
  check_event-fits, make_room-HasRoom, append_event-IsBatched, flush_full-IsBatched,
}

regroup :
    (batches : List (List ParsedEvent)) (batch rest taken events : List ParsedEvent)
    → concat batches ++ batch ≡ taken
    → taken ++ rest ≡ events
    → concat batches ++ (batch ++ rest) ≡ events
regroup batches batch rest taken events h e =
    sym (append_assoc (concat batches) batch rest) ∙ ap (λ l. l ++ rest) h ∙ e

-- What an event leaves behind: taken in, or, after a raise, perhaps not.
record Outcome (policy : IngestionPolicy) (seen : List ParsedEvent) (event : ParsedEvent)
    (p : Result (Unit {0}) × Staging) : Type 0 where
  taken : p.0 ≡ ok tt → IsBatched policy (seen ++ event ∷ []) p.1
  either : IsBatched policy seen p.1 ⊎ IsBatched policy (seen ++ event ∷ []) p.1

module _ (policy : IngestionPolicy) (stage : List ParsedEvent → Result StageSummary) where
  Outcome-raised :
      (seen : List ParsedEvent) (event : ParsedEvent) (e : Failure) (s : Staging)
      → IsBatched policy seen s
      → Outcome policy seen event (err e, s)
  Outcome-raised seen event e s h = record { taken = λ x. cc x; either = inl h }

  Outcome-taken :
      (seen : List ParsedEvent) (event : ParsedEvent) (p : Result (Unit {0}) × Staging)
      → IsBatched policy (seen ++ event ∷ []) p.1
      → Outcome policy seen event p
  Outcome-taken seen event p h = record { taken = λ _. h; either = inr h }

  flushed-empty :
      (s : Staging) (r : Result StageSummary)
      → (flushed policy stage s r).0 ≡ ok tt
      → (flushed policy stage s r).1.batch ≡ []
  flushed-empty s (ok summary) h = refl
  flushed-empty s (err e) h = cc

  module _ (positive : 0 < policy.stage_batch_size)
      (positive' : 0 < policy.maximum_stage_batch_bytes) where
    -- An event that fits by itself is taken in, whether the batch is flushed before, after or not.
    stage_fitting-Outcome :
        (seen : List ParsedEvent) (event : ParsedEvent) (s : Staging)
        → IsBatched policy seen s
        → stage_units event ≤ policy.stage_batch_size
        → event_bytes event ≤ policy.maximum_stage_batch_bytes
        → Outcome policy seen event (
            (make_room policy stage event
                >> (append_event policy stage event >> flush_full policy stage))
              s)
    stage_fitting-Outcome seen event s h u b =
        let Q = Outcome policy seen event in
        let s₁ = (make_room policy stage event s).1 in
        let h₁ = make_room-IsBatched policy stage seen event s h in
        let s₂ = (append_event policy stage event s₁).1 in
        >>=-cases Q (make_room policy stage event) _ s
          (λ _ done.
            let h₂ =
              append_event-IsBatched policy stage seen event s₁
                (make_room-HasRoom policy stage seen event s h u b done) h₁ in
            >>=-cases Q (append_event policy stage event) _ s₁
              (λ _ _.
                Outcome-taken seen event (flush_full policy stage s₂)
                  (flush_full-IsBatched policy stage (seen ++ event ∷ []) s₂ positive positive' h₂))
              (λ e _. record { taken = λ x. cc x; either = inr h₂ }))
          (λ e _. Outcome-raised seen event e s₁ h₁)

    stage_event-Outcome :
        (seen : List ParsedEvent) (event : ParsedEvent) (s : Staging)
        → IsBatched policy seen s
        → Outcome policy seen event (stage_event policy stage event s)
    unfolding stage_event check_event
    stage_event-Outcome seen event s h =
        let Q = Outcome policy seen event in
        let s₁ = (count_issue policy stage event s).1 in
        let h₁ = count_issue-IsBatched policy stage seen event s h in
        >>=-cases Q (count_issue policy stage event) _ s
          (λ _ _.
            >>=-cases Q (check_event policy stage event) _ s₁
              (λ _ checked.
                let fits = check_event-fits policy stage event s₁ checked in
                stage_fitting-Outcome seen event s₁ h₁ fits.0 fits.1)
              (λ e _. Outcome-raised seen event e s₁ h₁))
          (λ e _. Outcome-raised seen event e s₁ h₁)

    -- The batches that the repository took and the pending batch are the events taken in so far.
    stage_events_until-IsBatched :
        (seen events : List ParsedEvent) (failed : Option Failure) (s : Staging)
        → IsBatched policy seen s
        → (taken rest : List ParsedEvent) × (taken ++ rest ≡ seen ++ events)
          × IsBatched policy taken (stage_events_until policy stage events failed s).1
          × ((stage_events_until policy stage events failed s).0 ≡ ok tt
              → (rest ≡ []) × (failed ≡ none))
    unfolding stage_events_until
    stage_events_until-IsBatched seen [] none s h = (seen, [], refl, h, λ _. (refl, refl))
    stage_events_until-IsBatched seen [] (some e) s h = (seen, [], refl, h, λ x. cc x)
    stage_events_until-IsBatched seen (event ∷ events) failed s h =
        >>=-cases
          (λ p.
            (taken rest : List ParsedEvent) × (taken ++ rest ≡ seen ++ event ∷ events)
            × IsBatched policy taken p.1
            × (p.0 ≡ ok tt → (rest ≡ []) × (failed ≡ none)))
          (stage_event policy stage event) _ s
          (λ _ done.
            let (taken, rest, e, k, end) =
              stage_events_until-IsBatched (seen ++ event ∷ []) events failed
                (stage_event policy stage event s).1
                ((stage_event-Outcome seen event s h).taken done) in
            (taken, rest, e ∙ append_assoc seen (event ∷ []) events, k, end))
          (λ e _. elim ((stage_event-Outcome seen event s h).either) [
            | inl k ↦ (seen, event ∷ events, refl, k, λ x. cc x)
            | inr k ↦
                (seen ++ event ∷ [], events, append_assoc seen (event ∷ []) events, k, λ x. cc x)
          ])

    flush_rest-IsBatched :
        (seen : List ParsedEvent) (s : Staging)
        → IsBatched policy seen s
        → IsBatched policy seen (flush_rest policy stage s).1
          × ((flush_rest policy stage s).0 ≡ ok tt → (flush_rest policy stage s).1.batch ≡ [])
    flush_rest-IsBatched seen s h = elim (Bool-cases (is_empty s.batch)) [
      | inl none_left ↦
          unfold flush_rest in rw none_left (h, λ _. empty-of_is_empty s.batch none_left)
      | inr some_left ↦
          unfold flush_rest flush_batch in
          rw some_left (
            flushed-IsBatched policy stage seen s (stage s.batch)
                (λ e. cc (ap is_empty e, some_left)) h,
            flushed-empty s (stage s.batch),
          )
    ]

    IsBatched-start : IsBatched policy [] start_staging
    IsBatched-start = record {
      contents = refl;
      units = refl;
      bytes = refl;
      units_fit = omega arith;
      bytes_fit = omega arith;
      fits = tt;
    }

    stage_document_cases :
        (events : List ParsedEvent) (failed : Option Failure)
        → let p = stage_document policy stage events failed start_staging in
          (rest : List ParsedEvent) × (concat p.1.staged ++ rest ≡ events)
          × All (Fits policy) p.1.staged
          × (p.0 ≡ ok tt → (rest ≡ []) × (failed ≡ none))
    unfolding stage_document
    stage_document_cases events failed =
        let Q = λ (p : Result (Unit {0}) × Staging).
          (rest : List ParsedEvent) × (concat p.1.staged ++ rest ≡ events)
          × All (Fits policy) p.1.staged
          × (p.0 ≡ ok tt → (rest ≡ []) × (failed ≡ none)) in
        let s = (stage_events_until policy stage events failed start_staging).1 in
        let (taken, rest, e, h, end) =
          stage_events_until-IsBatched [] events failed start_staging IsBatched-start in
        let k = flush_rest-IsBatched taken s h in
        let t = (flush_rest policy stage s).1 in
        >>=-cases Q (stage_events_until policy stage events failed) _ start_staging
          (λ _ done. (
            t.batch ++ rest,
            regroup t.staged t.batch rest taken events k.0.contents e,
            k.0.fits,
            λ flushed_too. (ap (λ l. l ++ rest) (k.1 flushed_too) ∙ (end done).0, (end done).1),
          ))
          (λ f _. (
            s.batch ++ rest,
            regroup s.staged s.batch rest taken events h.contents e,
            h.fits,
            λ x. cc x,
          ))

    -- The batches that the repository takes for a document are, in order and without a gap, the
    -- first events of the document, and each is not empty and within the policy's rows and bytes
    -- for one batch, which are positive. So it is however staging ends.
    pub stage_document-batches :
        (events : List ParsedEvent) (failed : Option Failure)
        → let s = (stage_document policy stage events failed start_staging).1 in
          (rest : List ParsedEvent) × (concat s.staged ++ rest ≡ events)
          × All (Fits policy) s.staged
    stage_document-batches events failed =
        let (rest, prefix, fits, _) = stage_document_cases events failed in (rest, prefix, fits)

    -- A document that is staged without an error is staged whole: the batches that the repository
    -- took are together the document's events, and the parser has not failed.
    pub stage_document-whole :
        (events : List ParsedEvent) (failed : Option Failure)
        → (stage_document policy stage events failed start_staging).0 ≡ ok tt
        → (concat (stage_document policy stage events failed start_staging).1.staged ≡ events)
          × (failed ≡ none)
    stage_document-whole events failed done =
        let (rest, prefix, _, whole) = stage_document_cases events failed in
        let taken = (stage_document policy stage events failed start_staging).1.staged in
        (
          sym (append-nil (concat taken))
              ∙ ap (λ l. concat taken ++ l) (sym (whole done).0)
              ∙ prefix,
          (whole done).1,
        )
