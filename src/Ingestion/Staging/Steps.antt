-- ===== src/Ingestion/Staging/Steps.antt =====
-- What each step of the loop of `_parse_validate_apply` does to the batches.
use makolet.Prelude.{
  ℕ, ◌+◌, ◌≤◌, ◌<◌, ◌≡◌, ◌≢◌, inl, inr, refl, sym, ap, ◌∙◌, Bool, true, false, ◌&&◌, ◌||◌, not,
  List, [], ◌∷◌, ◌++◌, append_assoc, append-nil, All, All-append, concat, concat-append, sum_by,
  sum_by-append, ltb, leb, Bool-cases, arith,
}
use makolet.Domain.Documents.{ParsedEvent, issue}
use makolet.Exec.{Result, ok, err}
use makolet.Ingestion.Policy.{IngestionPolicy}
use makolet.Ingestion.Charges.{stage_units}
use makolet.Ingestion.Summary.{StageSummary}
use makolet.Ingestion.Staging.{
  Staging, event_bytes, is_empty, flushed, flush_batch, count_issue, check_event, make_room,
  append_event, flush_full,
}

-- A batch that the repository may be given.
pub record Fits (policy : IngestionPolicy) (batch : List ParsedEvent) : Type 0 where
  pub not_empty : batch ≢ []
  pub units : sum_by stage_units batch ≤ policy.stage_batch_size
  pub bytes : sum_by event_bytes batch ≤ policy.maximum_stage_batch_bytes

-- What holds between two events, `seen` being those that the loop has taken in.
pub record IsBatched (policy : IngestionPolicy) (seen : List ParsedEvent) (s : Staging)
    : Type 0 where
  pub contents : concat s.staged ++ s.batch ≡ seen
  pub units : s.batch_units ≡ sum_by stage_units s.batch
  pub bytes : s.batch_bytes ≡ sum_by event_bytes s.batch
  pub units_fit : s.batch_units ≤ policy.stage_batch_size
  pub bytes_fit : s.batch_bytes ≤ policy.maximum_stage_batch_bytes
  pub fits : All (Fits policy) s.staged

-- The event can be added to the pending batch.
pub record HasRoom (policy : IngestionPolicy) (event : ParsedEvent) (s : Staging) : Type 0 where
  pub units : s.batch_units + stage_units event ≤ policy.stage_batch_size
  pub bytes : s.batch_bytes + event_bytes event ≤ policy.maximum_stage_batch_bytes

pub empty-of_is_empty : (l : List ParsedEvent) → is_empty l ≡ true → l ≡ []
empty-of_is_empty [] h = refl
empty-of_is_empty (x ∷ xs) h = cc

module _ (policy : IngestionPolicy) (stage : List ParsedEvent → Result StageSummary) where
  flushed-contents :
      (batches : List (List ParsedEvent)) (batch : List ParsedEvent)
      → concat (batches ++ batch ∷ []) ++ [] ≡ concat batches ++ batch
  flushed-contents batches batch = rw (
    append-nil (concat (batches ++ batch ∷ [])),
    concat-append batches (batch ∷ []),
    append-nil batch,
  )

  pub flushed-IsBatched :
      (seen : List ParsedEvent) (s : Staging) (r : Result StageSummary)
      → s.batch ≢ []
      → IsBatched policy seen s
      → IsBatched policy seen (flushed policy stage s r).1
  flushed-IsBatched seen s (ok summary) some_event h = record {
    contents = flushed-contents s.staged s.batch ∙ h.contents;
    units = refl;
    bytes = refl;
    units_fit = omega arith;
    bytes_fit = omega arith;
    fits = All-append (Fits policy) s.staged (s.batch ∷ []) h.fits (
      record {
        not_empty = some_event;
        units = omega (arith, h.units, h.units_fit);
        bytes = omega (arith, h.bytes, h.bytes_fit);
      },
      tt,
    );
  }
  flushed-IsBatched seen s (err e) some_event h = h

  pub flush_batch-IsBatched :
      (seen : List ParsedEvent) (s : Staging)
      → s.batch ≢ []
      → IsBatched policy seen s
      → IsBatched policy seen (flush_batch policy stage s).1
  unfolding flush_batch
  flush_batch-IsBatched seen s = flushed-IsBatched seen s (stage s.batch)

  pub count_issue-IsBatched :
      (seen : List ParsedEvent) (event : ParsedEvent) (s : Staging)
      → IsBatched policy seen s
      → IsBatched policy seen (count_issue policy stage event s).1
  unfolding count_issue
  count_issue-IsBatched seen (issue v) s h = record {
    contents = h.contents;
    units = h.units;
    bytes = h.bytes;
    units_fit = h.units_fit;
    bytes_fit = h.bytes_fit;
    fits = h.fits;
  }
  count_issue-IsBatched seen _ s h = h

  -- The test of `make_room`.
  abbrev must_flush : ParsedEvent → Staging → Bool
  must_flush event s =
      not (is_empty s.batch)
      && (ltb policy.stage_batch_size (s.batch_units + stage_units event)
          || ltb policy.maximum_stage_batch_bytes (s.batch_bytes + event_bytes event))

  not_empty-of_must_flush :
      (event : ParsedEvent) (s : Staging) → must_flush event s ≡ true → s.batch ≢ []
  not_empty-of_must_flush event s h e = cc (ap is_empty e, h)

  pub make_room-IsBatched :
      (seen : List ParsedEvent) (event : ParsedEvent) (s : Staging)
      → IsBatched policy seen s
      → IsBatched policy seen (make_room policy stage event s).1
  make_room-IsBatched seen event s h = elim (Bool-cases (must_flush event s)) [
    | inl full ↦
        unfold make_room in
        rw full (flush_batch-IsBatched seen s (not_empty-of_must_flush event s full) h)
    | inr room ↦ unfold make_room in rw room h
  ]

  pub check_event-fits :
      (event : ParsedEvent) (s : Staging)
      → (check_event policy stage event s).0 ≡ ok tt
      → (stage_units event ≤ policy.stage_batch_size)
        × (event_bytes event ≤ policy.maximum_stage_batch_bytes)
  unfolding check_event
  check_event-fits event s h = ground arith

  flushed-HasRoom :
      (event : ParsedEvent) (s : Staging) (r : Result StageSummary)
      → stage_units event ≤ policy.stage_batch_size
      → event_bytes event ≤ policy.maximum_stage_batch_bytes
      → (flushed policy stage s r).0 ≡ ok tt
      → HasRoom policy event (flushed policy stage s r).1
  flushed-HasRoom event s (ok summary) u b h = record { units = omega arith; bytes = omega arith }
  flushed-HasRoom event s (err e) u b h = cc

  no_flush :
      (event : ParsedEvent) (batch : List ParsedEvent) (units bytes : ℕ)
      → not (is_empty batch)
          && (ltb policy.stage_batch_size (units + stage_units event)
              || ltb policy.maximum_stage_batch_bytes (bytes + event_bytes event))
        ≡ false
      → units ≡ sum_by stage_units batch
      → bytes ≡ sum_by event_bytes batch
      → stage_units event ≤ policy.stage_batch_size
      → event_bytes event ≤ policy.maximum_stage_batch_bytes
      → (units + stage_units event ≤ policy.stage_batch_size)
        × (bytes + event_bytes event ≤ policy.maximum_stage_batch_bytes)
  no_flush event [] units bytes room hu hb u b = omega arith
  no_flush event (x ∷ xs) units bytes room hu hb u b = ground arith

  pub make_room-HasRoom :
      (seen : List ParsedEvent) (event : ParsedEvent) (s : Staging)
      → IsBatched policy seen s
      → stage_units event ≤ policy.stage_batch_size
      → event_bytes event ≤ policy.maximum_stage_batch_bytes
      → (make_room policy stage event s).0 ≡ ok tt
      → HasRoom policy event (make_room policy stage event s).1
  make_room-HasRoom seen event s h u b done = elim (Bool-cases (must_flush event s)) [
    | inl full ↦
        unfold make_room flush_batch in
        rw full (
          flushed-HasRoom event s (stage s.batch) u b
            (unfold make_room flush_batch in rw full at done))
    | inr room ↦
        let r = no_flush event s.batch s.batch_units s.batch_bytes room h.units h.bytes u b in
        unfold make_room in rw room (record { units = r.0; bytes = r.1 })
  ]

  pub append_event-IsBatched :
      (seen : List ParsedEvent) (event : ParsedEvent) (s : Staging)
      → HasRoom policy event s
      → IsBatched policy seen s
      → IsBatched policy (seen ++ event ∷ []) (append_event policy stage event s).1
  unfolding append_event
  append_event-IsBatched seen event s room h = record {
    contents =
        sym (append_assoc (concat s.staged) s.batch (event ∷ []))
        ∙ ap (λ l. l ++ event ∷ []) h.contents;
    units = omega (arith, h.units, sum_by-append stage_units s.batch (event ∷ []));
    bytes = omega (arith, h.bytes, sum_by-append event_bytes s.batch (event ∷ []));
    units_fit = room.units;
    bytes_fit = room.bytes;
    fits = h.fits;
  }

  -- The test of `flush_full`.
  abbrev is_full : Staging → Bool
  is_full s =
      leb policy.stage_batch_size s.batch_units
      || leb policy.maximum_stage_batch_bytes s.batch_bytes

  not_empty-of_full :
      (seen : List ParsedEvent) (s : Staging)
      → 0 < policy.stage_batch_size
      → 0 < policy.maximum_stage_batch_bytes
      → IsBatched policy seen s
      → is_full s ≡ true
      → s.batch ≢ []
  not_empty-of_full seen s p q h full e =
      let u : s.batch_units ≡ 0 = h.units ∙ ap (sum_by stage_units) e in
      let b : s.batch_bytes ≡ 0 = h.bytes ∙ ap (sum_by event_bytes) e in ground arith

  pub flush_full-IsBatched :
      (seen : List ParsedEvent) (s : Staging)
      → 0 < policy.stage_batch_size
      → 0 < policy.maximum_stage_batch_bytes
      → IsBatched policy seen s
      → IsBatched policy seen (flush_full policy stage s).1
  flush_full-IsBatched seen s p q h = elim (Bool-cases (is_full s)) [
    | inl full ↦
        unfold flush_full in
        rw full (flush_batch-IsBatched seen s (not_empty-of_full seen s p q h full) h)
    | inr room ↦ unfold flush_full in rw room h
  ]
