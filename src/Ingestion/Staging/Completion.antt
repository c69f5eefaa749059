-- ===== src/Ingestion/Staging/Completion.antt =====
-- When the loop of `_parse_validate_apply` stages a document.
use makolet.Prelude.{
  ℕ, ◌+◌, ◌≤◌, ◌≡◌, refl, Bool, true, false, none, List, [], ◌∷◌, All, sum_by, if◌then◌else◌, arith,
}
use makolet.Domain.Documents.{ParsedEvent, issue}
use makolet.Exec.{Result, ok, err, Exec, is_ok, >>=-cases, ◌>>◌}
use makolet.Ingestion.Policy.{IngestionPolicy}
use makolet.Ingestion.Charges.{stage_units, validation_issue_charge}
use makolet.Ingestion.Summary.{StageSummary}
use makolet.Ingestion.Staging.{
  Staging, start_staging, event_bytes, flushed, ensure_issues_within_limits,
  ensure_stage_event_within_limits, flush_batch, count_issue, check_event, make_room, append_event,
  flush_full, stage_event, stage_events_until, flush_rest, stage_document,
}

-- The evidence that an event adds.
abbrev pub issue_units : ParsedEvent → ℕ
issue_units (issue v) = 1
issue_units _ = 0

abbrev pub issue_charge : ParsedEvent → ℕ
issue_charge (issue v) = validation_issue_charge v
issue_charge _ = 0

-- An event that fits into a batch by itself.
pub record FitsAlone (policy : IngestionPolicy) (event : ParsedEvent) : Type 0 where
  pub units : stage_units event ≤ policy.stage_batch_size
  pub bytes : event_bytes event ≤ policy.maximum_stage_batch_bytes

-- A step that raises nothing and counts so much evidence.
record Returns (s : Staging) (count bytes : ℕ) (p : Result (Unit {0}) × Staging) : Type 0 where
  returned : p.0 ≡ ok tt
  counted : p.1.issue_count ≡ s.issue_count + count
  weighed : p.1.issue_bytes ≡ s.issue_bytes + bytes

>>-Returns :
    (m n : Exec Staging (Unit {0})) (s : Staging) (c b c' b' : ℕ)
    → Returns s c b (m s)
    → Returns (m s).1 c' b' (n (m s).1)
    → Returns s (c + c') (b + b') ((m >> n) s)
>>-Returns m n s c b c' b' first second =
    >>=-cases (Returns s (c + c') (b + b')) m (λ _. n) s
      (λ _ _. record {
        returned = second.returned;
        counted = omega (arith, first.counted, second.counted);
        weighed = omega (arith, first.weighed, second.weighed);
      })
      (λ e raised. cc (raised, first.returned))

module _ (policy : IngestionPolicy) (stage : List ParsedEvent → Result StageSummary)
    (accepts : (batch : List ParsedEvent) → is_ok (stage batch) ≡ true) where
  skipped : (s : Staging) → Returns s 0 0 (ok tt, s)
  skipped s = record { returned = refl; counted = omega arith; weighed = omega arith }

  flushed-Returns :
      (s : Staging) (r : Result StageSummary)
      → is_ok r ≡ true
      → Returns s 0 0 (flushed policy stage s r)
  flushed-Returns s (ok summary) h = record {
    returned = refl;
    counted = omega arith;
    weighed = omega arith;
  }
  flushed-Returns s (err e) h = cc h

  flush_batch-Returns : (s : Staging) → Returns s 0 0 (flush_batch policy stage s)
  unfolding flush_batch
  flush_batch-Returns s = flushed-Returns s (stage s.batch) (accepts s.batch)

  -- A batch that is flushed on a condition.
  when-Returns :
      (b : Bool) (s : Staging)
      → Returns s 0 0 (if b then flush_batch policy stage s else (ok tt, s))
  when-Returns true s = flush_batch-Returns s
  when-Returns false s = skipped s

  count_issue-Returns :
      (event : ParsedEvent) (s : Staging)
      → s.issue_count + issue_units event ≤ policy.maximum_validation_issues
      → s.issue_bytes + issue_charge event ≤ policy.maximum_validation_issue_bytes
      → Returns s (issue_units event) (issue_charge event) (count_issue policy stage event s)
  unfolding count_issue ensure_issues_within_limits
  count_issue-Returns (issue v) s count bytes = record {
    returned = ground arith;
    counted = refl;
    weighed = refl;
  }
  count_issue-Returns _ s count bytes = skipped s

  check_event-Returns :
      (event : ParsedEvent) (s : Staging)
      → FitsAlone policy event
      → Returns s 0 0 (check_event policy stage event s)
  unfolding check_event ensure_stage_event_within_limits
  check_event-Returns event s fits =
      let u = fits.units in
      let b = fits.bytes in
      record { returned = ground arith; counted = omega arith; weighed = omega arith }

  append_event-Returns :
      (event : ParsedEvent) (s : Staging) → Returns s 0 0 (append_event policy stage event s)
  unfolding append_event
  append_event-Returns event s = record {
    returned = refl;
    counted = omega arith;
    weighed = omega arith;
  }

  make_room-Returns :
      (event : ParsedEvent) (s : Staging) → Returns s 0 0 (make_room policy stage event s)
  unfolding make_room
  make_room-Returns event s = when-Returns _ s

  flush_full-Returns : (s : Staging) → Returns s 0 0 (flush_full policy stage s)
  unfolding flush_full
  flush_full-Returns s = when-Returns _ s

  unless-Returns :
      (b : Bool) (s : Staging)
      → Returns s 0 0 (if b then (ok tt, s) else flush_batch policy stage s)
  unless-Returns true s = skipped s
  unless-Returns false s = flush_batch-Returns s

  flush_rest-Returns : (s : Staging) → Returns s 0 0 (flush_rest policy stage s)
  unfolding flush_rest
  flush_rest-Returns s = unless-Returns _ s

  stage_event-Returns :
      (event : ParsedEvent) (s : Staging)
      → FitsAlone policy event
      → s.issue_count + issue_units event ≤ policy.maximum_validation_issues
      → s.issue_bytes + issue_charge event ≤ policy.maximum_validation_issue_bytes
      → Returns s
          (issue_units event + 0)
          (issue_charge event + 0)
          (stage_event policy stage event s)
  unfolding stage_event
  stage_event-Returns event s fits count bytes =
      let s₁ = (count_issue policy stage event s).1 in
      let s₂ = (check_event policy stage event s₁).1 in
      let s₃ = (make_room policy stage event s₂).1 in
      let s₄ = (append_event policy stage event s₃).1 in
      >>-Returns (count_issue policy stage event) _ s _ _ 0 0
        (count_issue-Returns event s count bytes)
        (>>-Returns (check_event policy stage event) _ s₁ 0 0 0 0
          (check_event-Returns event s₁ fits)
          (>>-Returns (make_room policy stage event) _ s₂ 0 0 0 0 (make_room-Returns event s₂) (
            >>-Returns (append_event policy stage event) (flush_full policy stage) s₃ 0 0 0 0
              (append_event-Returns event s₃) (flush_full-Returns s₄))))

  stage_events_until-Returns :
      (events : List ParsedEvent) (s : Staging)
      → All (FitsAlone policy) events
      → s.issue_count + sum_by issue_units events ≤ policy.maximum_validation_issues
      → s.issue_bytes + sum_by issue_charge events ≤ policy.maximum_validation_issue_bytes
      → Returns s
          (sum_by issue_units events)
          (sum_by issue_charge events)
          (stage_events_until policy stage events none s)
  unfolding stage_events_until
  stage_events_until-Returns [] s fits count bytes = skipped s
  stage_events_until-Returns (event ∷ events) s (fit, fits) count bytes =
      let first = stage_event-Returns event s fit (omega arith) (omega arith) in
      let s₁ = (stage_event policy stage event s).1 in
      >>=-cases
        (Returns s (sum_by issue_units (event ∷ events)) (sum_by issue_charge (event ∷ events)))
        (stage_event policy stage event) _ s
        (λ _ _.
          let rest =
            stage_events_until-Returns events s₁ fits (omega (arith, first.counted, count))
              (omega (arith, first.weighed, bytes)) in
          record {
            returned = rest.returned;
            counted = omega (arith, first.counted, rest.counted);
            weighed = omega (arith, first.weighed, rest.weighed);
          })
        (λ e raised. cc (raised, first.returned))

  -- Staging raises nothing if the repository takes every batch, every event of the document fits into
  -- a batch by itself, the evidence of its validation issues is within the policy's limits, and the
  -- parser does not fail.
  pub stage_document-returns :
      (events : List ParsedEvent)
      → All (FitsAlone policy) events
      → sum_by issue_units events ≤ policy.maximum_validation_issues
      → sum_by issue_charge events ≤ policy.maximum_validation_issue_bytes
      → (stage_document policy stage events none start_staging).0 ≡ ok tt
  unfolding stage_document
  stage_document-returns events fits count bytes =
      let loop = stage_events_until-Returns events start_staging fits (omega arith) (omega arith) in
      let whole =
        >>-Returns (stage_events_until policy stage events none) (flush_rest policy stage)
          start_staging _ _ 0 0 loop
          (flush_rest-Returns (stage_events_until policy stage events none start_staging).1) in
      whole.returned
