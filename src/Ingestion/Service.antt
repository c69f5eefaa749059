-- ===== src/Ingestion/Service.antt =====
-- application/ingestion.py: `_ingest`, `_archive_only`, `_replay_registered` and what they call, over
-- one source file. Logged events and metrics are left out: no result depends on them.
pub mod Keeping
pub mod History
pub mod Outcomes
pub mod Settling
use makolet.Prelude.{
  ℕ, ◌+◌, Bool, true, false, ◌&&◌, ◌||◌, not, Option, none, some, List, [], ◌∷◌, ltb, leb, ◌==◌,
  max, if◌then◌else◌,
}
use makolet.Domain.Errors.{ErrorKind, Failure, failure, failure_after, is_makolet, retryable}
use makolet.Domain.Values.{Text}
use makolet.Domain.Status.{
  IngestionStatus, archived, parsing, staged, validating, applying, completed, quarantined,
  failed_retryable, failed_terminal, is_status, in_statuses,
}
use makolet.Exec.{Result, ok, err, Exec, pure, raise, lift, check, try_bind, ◌>>=◌, ◌>>◌}
use makolet.Ingestion.Policy.{IngestionPolicy, minimum_full_records_for}
use makolet.Ingestion.Summary.{StageSummary, accepted_records}
use makolet.Ingestion.Staging.{start_staging, stage_document}
use makolet.Ingestion.Ports.{Ports, RegisteredSourceFile, ApplySummary}
use makolet.Ingestion.World.{World, transition, registered_source_file, get}
use makolet.Ingestion.Download.{is_exception, download_and_archive}

pub record IngestionResult : Type 0 where
  pub status : IngestionStatus
  pub content_sha256 : Option Text
  pub stage : Option StageSummary
  pub apply : Option ApplySummary
  pub duplicate : Bool
  pub replayed : Bool
  pub transferred_bytes : ℕ

-- `_duplicate_result`.
unfoldable pub duplicate_result : Option Text → IngestionResult
duplicate_result digest = record {
  status = completed;
  content_sha256 = digest;
  stage = none;
  apply = none;
  duplicate = true;
  replayed = false;
  transferred_bytes = 0;
}

-- `_validate_archive_byte_limit`.
unfoldable pub validate_archive_byte_limit : Option ℕ → Result (Unit {0})
unfolding failure
validate_archive_byte_limit none = ok tt
validate_archive_byte_limit (some n) = if n == 0 then err (failure ErrorKind.value_error) else ok tt

-- `_ensure_archive_length`.
unfoldable pub ensure_archive_length : Option ℕ → ℕ → Result (Unit {0})
unfolding failure
ensure_archive_length none verified = ok tt
ensure_archive_length (some expected) verified =
    if verified == expected then ok tt else err (failure ErrorKind.archive_integrity)

-- `x or y` of an optional text: an empty text is false.
unfoldable pub text_or {ℓ} : {A : Type ℓ} → (Text → A) → Option Text → A → A
text_or f none other = other
text_or f (some []) other = other
text_or f (some (c ∷ cs)) other = f (c ∷ cs)

-- The kinds that say that the document is at fault.
unfoldable pub is_quarantine_error : ErrorKind → Bool
is_quarantine_error ErrorKind.malformed_document = true
is_quarantine_error ErrorKind.unsafe_archive = true
is_quarantine_error ErrorKind.quarantined_file = true
is_quarantine_error _ = false

abbrev pub finished_statuses : List IngestionStatus
finished_statuses = completed ∷ quarantined ∷ failed_terminal ∷ []

abbrev pub quarantine_statuses : List IngestionStatus
quarantine_statuses = archived ∷ parsing ∷ staged ∷ validating ∷ applying ∷ []

-- The target of `_record_failure`.
unfoldable pub failure_target : IngestionStatus → ErrorKind → IngestionStatus
unfolding is_quarantine_error is_makolet retryable in_statuses
failure_target status kind =
    if is_quarantine_error kind && in_statuses status quarantine_statuses
    then quarantined
    else if is_makolet kind && retryable kind
    then failed_retryable
    else failed_terminal

-- What `_ensure_archived` returns.
pub record Archived : Type 0 where
  pub object_key : Text
  pub content_sha256 : Text
  pub duplicate : Bool
  pub transferred_bytes : ℕ

module _ (ports : Ports) (policy : IngestionPolicy) where
  -- `_record_failure`.
  unfoldable pub record_failure : ErrorKind → Exec World (Unit {0})
  unfolding ◌>>=◌ in_statuses
  record_failure kind = do
    current ← get ports
    if in_statuses current.status finished_statuses
        then pure tt
        else transition ports (current.status ∷ []) (failure_target current.status kind)

  -- `_ensure_archived`, of a file with and without an archived object.
  unfoldable pub verify_archived : Text → RegisteredSourceFile → Exec World Archived
  unfolding ◌>>=◌
  verify_archived key registered = do
    digest ← lift (text_or ok registered.content_sha256 ports.archive_sha256)
    verified ← lift (ports.verify key digest)
    lift (ensure_archive_length registered.archive_content_length verified)
    pure (record {
      object_key = key;
      content_sha256 = digest;
      duplicate = false;
      transferred_bytes = 0;
    })

  unfoldable pub fetch_archived : Option ℕ → Exec World Archived
  unfolding ◌>>=◌
  fetch_archived limit = do
    (download, duplicate) ← download_and_archive ports limit policy.download_attempts
    pure (record {
      object_key = download.archive.object_key;
      content_sha256 = download.archive.content_sha256;
      duplicate = duplicate;
      transferred_bytes = download.transferred_bytes;
    })

  unfoldable pub ensure_archived : Option ℕ → RegisteredSourceFile → Exec World Archived
  ensure_archived limit registered = elim registered.archive_object_key [
    | some key ↦ verify_archived key registered
    | none ↦ fetch_archived limit
  ]

  -- `if transition_states: await self._repository.transition(...)`.
  unfoldable pub move_if : Bool → List IngestionStatus → IngestionStatus → Exec World (Unit {0})
  move_if true expected target = transition ports expected target
  move_if false expected target = pure tt

  -- The parser's events are staged, unless an earlier attempt's staging can be used again.
  unfoldable pub stage_or_reuse : Option StageSummary → Exec World (Unit {0})
  stage_or_reuse (some summary) w = (ok tt, w)
  stage_or_reuse none w =
      let (r, s) =
        stage_document policy ports.stage ports.parsed ports.parse_failure start_staging in
      (r, record w { staged = s.staged })

  unfoldable pub finalize_staging : Exec World StageSummary
  finalize_staging w = (ports.finalize_staging w.staged, w)

  unfoldable pub rejects_too_many : StageSummary → Bool
  unfolding accepted_records
  rejects_too_many s =
      ltb 0 s.rejected_records
      && (accepted_records s == 0
          || policy.rejection_exceeds s.rejected_records (accepted_records s + s.rejected_records))

  abbrev refuse_if : Bool → Exec World (Unit {0})
  refuse_if true = raise (failure ErrorKind.quarantined_file)
  refuse_if false = pure tt

  abbrev applied : Result ApplySummary → Exec World ApplySummary
  applied (ok summary) w = (ok summary, record w { applies = w.applies + 1 })
  applied (err e) w = (err e, w)

  unfoldable pub apply : Exec World ApplySummary
  apply w = applied (ports.apply (minimum_full_records_for policy ports.document_type)) w

  -- `_parse_validate_apply`: parsing and staging, validation, and the apply.
  unfoldable pub parse_and_stage : Bool → Exec World StageSummary
  unfolding ◌>>=◌
  parse_and_stage transition_states = do
    move_if transition_states (archived ∷ failed_retryable ∷ []) parsing
    reused ← lift ports.reuse_validated_staging
    stage_or_reuse reused
    finalize_staging

  unfoldable pub validate : Bool → StageSummary → Exec World (Unit {0})
  unfolding ◌>>=◌ failure
  validate transition_states summary = do
    move_if transition_states (parsing ∷ []) staged
    move_if transition_states (staged ∷ []) validating
    flagged ← lift ports.has_file_quarantine_issue
    refuse_if flagged
    refuse_if (rejects_too_many summary)

  unfoldable pub apply_staged : Bool → Exec World ApplySummary
  unfolding ◌>>=◌
  apply_staged transition_states = do
    move_if transition_states (validating ∷ []) applying
    summary ← apply
    move_if transition_states (applying ∷ []) completed
    pure summary

  unfoldable pub parse_validate_apply : Bool → Exec World (StageSummary × ApplySummary)
  unfolding ◌>>=◌
  parse_validate_apply transition_states = do
    summary ← parse_and_stage transition_states
    validate transition_states summary
    applied ← apply_staged transition_states
    pure (summary, applied)

  -- The `except` clause: bytes that were transferred are reported with the failure, which is
  -- recorded and raised again. It does not see a cancellation.
  unfoldable pub attributed : ℕ → Failure → Failure
  unfolding is_makolet failure_after
  attributed transferred e =
      if ltb 0 transferred
      then if is_makolet e.kind
        then record e { transferred_bytes = max e.transferred_bytes transferred }
        else failure_after ErrorKind.repository_error transferred
      else e

  unfoldable pub fail_ingestion {ℓ} : {A : Type ℓ} → ℕ → Failure → World → Result A × World
  unfolding is_exception
  fail_ingestion transferred e w =
      if is_exception e.kind
      then (let (r, w') = record_failure (attributed transferred e).kind w in
          (elim r [ ok _ ↦ err (attributed transferred e) | err f ↦ err f ], w'))
      else (err e, w)

  ingested : Archived → StageSummary → ApplySummary → IngestionResult
  ingested a stage apply = record {
    status = completed;
    content_sha256 = some a.content_sha256;
    stage = some stage;
    apply = some apply;
    duplicate = a.duplicate;
    replayed = false;
    transferred_bytes = a.transferred_bytes;
  }

  -- `_ingest`, from the row that is read under the file's lease.
  unfoldable pub ingest_pending : Option ℕ → Exec World IngestionResult
  unfolding ingested
  ingest_pending limit w =
      try_bind (ensure_archived limit (registered_source_file w)) (fail_ingestion 0)
        (λ a.
          try_bind (parse_validate_apply true) (fail_ingestion a.transferred_bytes)
            (λ done. pure (ingested a done.0 done.1)))
        w

  unfoldable pub ingest_owned : Option ℕ → Exec World IngestionResult
  unfolding is_status duplicate_result
  ingest_owned limit w =
      if is_status w.status completed
      then (ok (duplicate_result (registered_source_file w).content_sha256), w)
      else ingest_pending limit w

  -- The part of `_ingest` and `_archive_only` before the file is owned.
  unfoldable pub enter : Exec World IngestionResult → Exec World IngestionResult
  unfolding ◌>>=◌ is_status duplicate_result failure
  enter owned = do
    lift ports.assert_ingestion_allowed
    registered ← lift ports.register_discovery
    if is_status registered.status completed
        then pure (
            duplicate_result
              (text_or some registered.content_sha256 registered.completed_content_sha256))
        else if ports.acquire
        then (do lift ports.refresh_discovery; owned)
        else raise (failure ErrorKind.lease_unavailable)

  -- `ingest`.
  unfoldable pub ingest : Option ℕ → Exec World IngestionResult
  unfolding ◌>>=◌
  ingest limit = do lift (validate_archive_byte_limit limit); enter (ingest_owned limit)

  -- `_archive_only`: an object that was there already takes the file back to `archived`.
  unfoldable pub rearchive : RegisteredSourceFile → Exec World (Unit {0})
  unfolding is_status
  rearchive current = elim current.archive_object_key [
    | none ↦ pure tt
    | some key ↦
        if is_status current.status archived
        then pure tt
        else transition ports (failed_retryable ∷ []) archived
  ]

  archived_result : Archived → IngestionResult
  archived_result a = record {
    status = archived;
    content_sha256 = some a.content_sha256;
    stage = none;
    apply = none;
    duplicate = a.duplicate;
    replayed = false;
    transferred_bytes = a.transferred_bytes;
  }

  unfoldable pub archive_owned : Option ℕ → Exec World IngestionResult
  unfolding archived_result
  archive_owned limit w =
      try_bind (ensure_archived limit (registered_source_file w)) (fail_ingestion 0)
        (λ a.
          try_bind (rearchive (registered_source_file w)) (fail_ingestion a.transferred_bytes)
            (λ _. pure (archived_result a)))
        w

  unfoldable pub archive_only : Option ℕ → Exec World IngestionResult
  unfolding ◌>>=◌
  archive_only limit = do lift (validate_archive_byte_limit limit); enter (archive_owned limit)

  -- `_replay_registered`: the archived bytes are parsed and applied again.
  replay_result : Text → StageSummary → ApplySummary → IngestionResult
  replay_result digest stage apply = record {
    status = completed;
    content_sha256 = some digest;
    stage = some stage;
    apply = some apply;
    duplicate = false;
    replayed = true;
    transferred_bytes = 0;
  }

  -- The failure is recorded in the replay's row. A cancellation is not.
  unfoldable pub fail_replay {ℓ} : {A : Type ℓ} → Failure → World → Result A × World
  unfolding is_exception
  fail_replay e w =
      if is_exception e.kind
      then (elim (ports.finish_replay false) [ ok _ ↦ err e | err f ↦ err f ], w)
      else (err e, w)

  unfoldable pub replay_archived : Option ℕ → Text → Text → Exec World IngestionResult
  unfolding ◌>>=◌ replay_result
  replay_archived length key digest = do
    verified ← lift (ports.verify key digest)
    lift (ensure_archive_length length verified)
    lift ports.begin_replay
    try_bind (parse_validate_apply false) fail_replay
        (λ done. do lift (ports.finish_replay true); pure (replay_result digest done.0 done.1))

  replay_row : Option ℕ → Option Text → Option Text → Exec World IngestionResult
  unfolding failure
  replay_row length (some key) (some digest) = replay_archived length key digest
  replay_row length (some key) none = raise (failure ErrorKind.malformed_document)
  replay_row length none digest = raise (failure ErrorKind.malformed_document)

  unfoldable pub replay : Exec World IngestionResult
  unfolding ◌>>=◌ replay_row failure
  replay = do
    lift ports.assert_ingestion_allowed
    registered ← get ports
    if ports.acquire
        then (do
          current ← get ports
          replay_row current.archive_content_length current.archive_object_key
              current.content_sha256)
        else raise (failure ErrorKind.lease_unavailable)
