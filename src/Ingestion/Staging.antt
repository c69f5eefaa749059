-- ===== src/Ingestion/Staging.antt =====
-- application/ingestion.py, `_parse_validate_apply`: the loop that reads the parser's events and
-- hands them to the repository in batches.
pub mod Batches
pub mod Steps
pub mod Completion
use makolet.Prelude.{
  ℕ, ◌+◌, Bool, true, false, ◌&&◌, ◌||◌, not, Option, none, some, List, [], ◌∷◌, ◌++◌, ltb, leb,
  if◌then◌else◌,
}
use makolet.Domain.Errors.{ErrorKind, Failure, failure}
use makolet.Domain.Documents.{ParsedEvent, issue}
use makolet.Exec.{Result, ok, err, Exec, pure, raise, ◌>>=◌, ◌>>◌}
use makolet.Ingestion.Policy.{IngestionPolicy}
use makolet.Ingestion.Charges.{stage_units, stage_memory_charge, validation_issue_charge}
use makolet.Ingestion.Summary.{StageSummary, empty_summary, combine_stage}

-- The loop's variables. `staged` holds the batches that the repository took, oldest first.
pub record Staging : Type 0 where
  pub summary : StageSummary
  pub batch : List ParsedEvent
  pub batch_units : ℕ
  pub batch_bytes : ℕ
  pub issue_count : ℕ
  pub issue_bytes : ℕ
  pub staged : List (List ParsedEvent)

abbrev pub start_staging : Staging
start_staging = record {
  summary = empty_summary;
  batch = [];
  batch_units = 0;
  batch_bytes = 0;
  issue_count = 0;
  issue_bytes = 0;
  staged = [];
}

-- What `event` costs, as the loop computes it.
abbrev pub event_bytes : ParsedEvent → ℕ
event_bytes event = stage_memory_charge event (stage_units event)

-- `_ensure_validation_issue_attempt_within_limits`.
unfoldable pub ensure_issues_within_limits : ℕ → ℕ → IngestionPolicy → Result (Unit {0})
unfolding failure
ensure_issues_within_limits count bytes policy =
    if ltb policy.maximum_validation_issues count || ltb policy.maximum_validation_issue_bytes bytes
    then err (failure ErrorKind.quarantined_file)
    else ok tt

-- `_ensure_stage_event_within_limits`.
unfoldable pub ensure_stage_event_within_limits : ℕ → ℕ → IngestionPolicy → Result (Unit {0})
unfolding failure
ensure_stage_event_within_limits units bytes policy =
    if ltb policy.stage_batch_size units
    then err (failure ErrorKind.quarantined_file)
    else if ltb policy.maximum_stage_batch_bytes bytes
    then err (failure ErrorKind.quarantined_file)
    else ok tt

abbrev is_empty {ℓ} : {A : Type ℓ} → List A → Bool
is_empty [] = true
is_empty (_ ∷ _) = false

-- The policy, and `stage` of the repository: what it answers to a batch.
module _ (policy : IngestionPolicy) (stage : List ParsedEvent → Result StageSummary) where
  -- `flush_batch`.
  abbrev flushed : Staging → Result StageSummary → Result (Unit {0}) × Staging
  flushed s (ok summary) = (
    ok tt,
    record s {
      summary = combine_stage s.summary summary;
      batch = [];
      batch_units = 0;
      batch_bytes = 0;
      staged = s.staged ++ s.batch ∷ [];
    },
  )
  flushed s (err e) = (err e, s)

  unfoldable pub flush_batch : Exec Staging (Unit {0})
  flush_batch s = flushed s (stage s.batch)

  -- The evidence of a validation issue is counted, and checked, before the event is staged.
  unfoldable pub count_issue : ParsedEvent → Exec Staging (Unit {0})
  unfolding ensure_issues_within_limits
  count_issue (issue v) s =
      let count = s.issue_count + 1 in
      let bytes = s.issue_bytes + validation_issue_charge v in
      (
        ensure_issues_within_limits count bytes policy,
        record s { issue_count = count; issue_bytes = bytes },
      )
  count_issue _ s = (ok tt, s)

  unfoldable pub check_event : ParsedEvent → Exec Staging (Unit {0})
  unfolding ensure_stage_event_within_limits
  check_event event s =
      (ensure_stage_event_within_limits (stage_units event) (event_bytes event) policy, s)

  -- A batch that the event would take over a limit is flushed first.
  unfoldable pub make_room : ParsedEvent → Exec Staging (Unit {0})
  unfolding flush_batch
  make_room event s =
      if not (is_empty s.batch)
        && (ltb policy.stage_batch_size (s.batch_units + stage_units event)
            || ltb policy.maximum_stage_batch_bytes (s.batch_bytes + event_bytes event))
      then flush_batch s
      else (ok tt, s)

  unfoldable pub append_event : ParsedEvent → Exec Staging (Unit {0})
  append_event event s = (
    ok tt,
    record s {
      batch = s.batch ++ event ∷ [];
      batch_units = s.batch_units + stage_units event;
      batch_bytes = s.batch_bytes + event_bytes event;
    },
  )

  unfoldable pub flush_full : Exec Staging (Unit {0})
  unfolding flush_batch
  flush_full s =
      if leb policy.stage_batch_size s.batch_units
        || leb policy.maximum_stage_batch_bytes s.batch_bytes
      then flush_batch s
      else (ok tt, s)

  -- The body of the loop over the parser's events.
  unfoldable pub stage_event : ParsedEvent → Exec Staging (Unit {0})
  unfolding ◌>>=◌
  stage_event event = do
    count_issue event
    check_event event
    make_room event
    append_event event
    flush_full

  -- The loop. The parser may raise after its last event.
  unfoldable pub stage_events_until : List ParsedEvent → Option Failure → Exec Staging (Unit {0})
  unfolding ◌>>=◌
  stage_events_until [] none = pure tt
  stage_events_until [] (some e) = raise e
  stage_events_until (event ∷ events) failed = do
    stage_event event
    stage_events_until events failed

  -- `if batch: await flush_batch()`.
  unfoldable pub flush_rest : Exec Staging (Unit {0})
  unfolding flush_batch
  flush_rest s = if is_empty s.batch then (ok tt, s) else flush_batch s

  unfoldable pub stage_document : List ParsedEvent → Option Failure → Exec Staging (Unit {0})
  unfolding stage_events_until flush_rest ◌>>=◌
  stage_document events failed = do stage_events_until events failed; flush_rest
