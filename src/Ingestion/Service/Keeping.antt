-- ===== src/Ingestion/Service/Keeping.antt =====
-- A rule for invariants of the source file's row: what the repository's writes keep, every handler
-- of the ingestion service keeps, on every path and whatever its collaborators answer.
use makolet.Prelude.{
  ℕ, Bool, true, false, Option, none, some, List, [], ◌∷◌, inl, inr, Bool-cases, if◌then◌else◌,
}
use makolet.Domain.Errors.{ErrorKind, Failure}
use makolet.Domain.Values.{Text}
use makolet.Domain.Status.{
  IngestionStatus, is_status, in_statuses, completed, archived, failed_retryable,
}
use makolet.Exec.{Result, ok, err, Exec, pure, lift, Keeps, >>=-Keeps, try_bind-Keeps}
use makolet.Ingestion.Policy.{IngestionPolicy}
use makolet.Ingestion.Summary.{StageSummary}
use makolet.Ingestion.Ports.{Ports, RegisteredSourceFile, ApplySummary}
use makolet.Ingestion.World.{World, transition, registered_source_file, get}
use makolet.Ingestion.World.Stable.{Quiet, Stable, get-Keeps}
use makolet.Ingestion.Download.Keeping.{download_and_archive-Keeps}
use makolet.Ingestion.Download.{download_and_archive, is_exception}
use makolet.Ingestion.Service.{
  IngestionResult, validate_archive_byte_limit, text_or, ensure_archive_length, record_failure,
  verify_archived, fetch_archived, ensure_archived, move_if, stage_or_reuse, finalize_staging,
  refuse_if, applied, apply, parse_and_stage, validate, apply_staged, parse_validate_apply,
  fail_ingestion, attributed, ingest_pending, ingest_owned, enter, ingest, rearchive, archive_owned,
  archive_only, finished_statuses,
}

module _ (ports : Ports) (policy : IngestionPolicy) (P : World → Type 0)
    (quiet : Quiet ports P) where
  open quiet use {on_transition, on_staged, on_applies}

  record_failure-Keeps : (kind : ErrorKind) → Keeps P (record_failure ports policy kind)
  unfolding record_failure
  record_failure-Keeps kind = >>=-Keeps P (get ports) _ (get-Keeps ports P) (λ current w h.
      elim (Bool-cases (in_statuses current.status finished_statuses)) [
        | inl finished ↦ rw finished h
        | inr open_ ↦ rw open_ (on_transition _ _ w h)
      ])

  move_if-Keeps :
      (b : Bool) (expected : List IngestionStatus) (target : IngestionStatus)
      → Keeps P (move_if ports policy b expected target)
  unfolding move_if
  move_if-Keeps true expected target w h = on_transition expected target w h
  move_if-Keeps false expected target w h = h

  stage_or_reuse-Keeps :
      (reused : Option StageSummary) → Keeps P (stage_or_reuse ports policy reused)
  unfolding stage_or_reuse
  stage_or_reuse-Keeps (some summary) w h = h
  stage_or_reuse-Keeps none w h = on_staged _ w h

  parse_and_stage-Keeps : (b : Bool) → Keeps P (parse_and_stage ports policy b)
  unfolding parse_and_stage finalize_staging
  parse_and_stage-Keeps b = >>=-Keeps P (move_if ports policy b _ _) _ (move_if-Keeps b _ _) (λ _.
      >>=-Keeps P (lift ports.reuse_validated_staging) _ (λ _ h. h)
        (λ reused.
          >>=-Keeps P (stage_or_reuse ports policy reused) _ (stage_or_reuse-Keeps reused)
            (λ _ w h. h)))

  refuse_if-Keeps : (b : Bool) → Keeps P (refuse_if ports policy b)
  refuse_if-Keeps true w h = h
  refuse_if-Keeps false w h = h

  validate-Keeps : (b : Bool) (s : StageSummary) → Keeps P (validate ports policy b s)
  unfolding validate
  validate-Keeps b s = >>=-Keeps P (move_if ports policy b _ _) _ (move_if-Keeps b _ _) (λ _.
      >>=-Keeps P (move_if ports policy b _ _) _ (move_if-Keeps b _ _) (λ _.
        >>=-Keeps P (lift ports.has_file_quarantine_issue) _ (λ _ h. h)
          (λ flagged.
            >>=-Keeps P (refuse_if ports policy flagged) _ (refuse_if-Keeps flagged)
              (λ _. refuse_if-Keeps _))))

  applied-Keeps : (r : Result ApplySummary) → Keeps P (applied ports policy r)
  applied-Keeps (ok summary) w h = on_applies _ w h
  applied-Keeps (err e) w h = h

  apply-Keeps : Keeps P (apply ports policy)
  unfolding apply
  apply-Keeps = applied-Keeps _

  apply_staged-Keeps : (b : Bool) → Keeps P (apply_staged ports policy b)
  unfolding apply_staged
  apply_staged-Keeps b = >>=-Keeps P (move_if ports policy b _ _) _ (move_if-Keeps b _ _) (λ _.
      >>=-Keeps P (apply ports policy) _ apply-Keeps
        (λ summary. >>=-Keeps P (move_if ports policy b _ _) _ (move_if-Keeps b _ _) (λ _ w h. h)))

  pub parse_validate_apply-Keeps : (b : Bool) → Keeps P (parse_validate_apply ports policy b)
  unfolding parse_validate_apply
  parse_validate_apply-Keeps b =
      >>=-Keeps P (parse_and_stage ports policy b) _ (parse_and_stage-Keeps b) (λ summary.
        >>=-Keeps P (validate ports policy b summary) _ (validate-Keeps b summary)
          (λ _. >>=-Keeps P (apply_staged ports policy b) _ (apply_staged-Keeps b) (λ _ w h. h)))

  pub fail_ingestion-Keeps :
      (n : ℕ) (e : Failure) → Keeps P (fail_ingestion ports policy {A = IngestionResult} n e)
  fail_ingestion-Keeps n e w h = elim (Bool-cases (is_exception e.kind)) [
    | inl seen ↦
        unfold fail_ingestion in
        rw seen (record_failure-Keeps (attributed ports policy n e).kind w h)
    | inr unseen ↦ unfold fail_ingestion in rw unseen h
  ]

  rearchive-Keeps : (r : RegisteredSourceFile) → Keeps P (rearchive ports policy r)
  unfolding rearchive
  rearchive-Keeps r w h = go r.archive_object_key
    where
      go :
          (key : Option Text)
          → P
              ((elim key as (λ _. Exec World (Unit {0})) [
                | none ↦ pure tt
                | some k ↦
                    if is_status r.status archived
                    then pure tt
                    else transition ports (failed_retryable ∷ []) archived
              ])
                w).1
      go none = h
      go (some k) = elim (Bool-cases (is_status r.status archived)) [
        | inl there ↦ rw there h
        | inr elsewhere ↦ rw elsewhere (on_transition _ _ w h)
      ]

  pub verify_archived-Keeps :
      (key : Text) (r : RegisteredSourceFile) → Keeps P (verify_archived ports policy key r)
  unfolding verify_archived
  verify_archived-Keeps key r =
      >>=-Keeps P (lift (text_or ok r.content_sha256 ports.archive_sha256)) _ (λ _ h. h)
        (λ digest.
          >>=-Keeps P (lift (ports.verify key digest)) _ (λ _ h. h)
            (λ verified.
              >>=-Keeps P (lift (ensure_archive_length r.archive_content_length verified)) _
                (λ _ h. h) (λ _ w h. h)))

module _ (ports : Ports) (policy : IngestionPolicy) (P : World → Type 0)
    (stable : Stable ports P) where
  open stable use {quiet}

  fetch_archived-Keeps : (limit : Option ℕ) → Keeps P (fetch_archived ports policy limit)
  unfolding fetch_archived
  fetch_archived-Keeps limit =
      >>=-Keeps P (download_and_archive ports limit policy.download_attempts) _
        (download_and_archive-Keeps ports P stable limit policy.download_attempts) (λ _ w h. h)

  ensure_archived-Keeps :
      (limit : Option ℕ) (r : RegisteredSourceFile) → Keeps P (ensure_archived ports policy limit r)
  unfolding ensure_archived
  ensure_archived-Keeps limit r = go r.archive_object_key
    where
      go :
          (key : Option Text)
          → Keeps P (elim key [
            | some k ↦ verify_archived ports policy k r
            | none ↦ fetch_archived ports policy limit
          ])
      go (some key) = verify_archived-Keeps ports policy P quiet key r
      go none = fetch_archived-Keeps limit

  ingest_owned-Keeps : (limit : Option ℕ) → Keeps P (ingest_owned ports policy limit)
  ingest_owned-Keeps limit w h = elim (Bool-cases (is_status w.status completed)) [
    | inl finished ↦ unfold ingest_owned in rw finished h
    | inr pending ↦
        unfold ingest_owned ingest_pending in
        rw pending (
          try_bind-Keeps P (ensure_archived ports policy limit (registered_source_file w))
            (fail_ingestion ports policy 0) _ (ensure_archived-Keeps limit _)
            (fail_ingestion-Keeps ports policy P quiet 0)
            (λ a.
              try_bind-Keeps P (parse_validate_apply ports policy true)
                (fail_ingestion ports policy a.transferred_bytes) _
                (parse_validate_apply-Keeps ports policy P quiet true)
                (fail_ingestion-Keeps ports policy P quiet a.transferred_bytes) (λ _ _ k. k))
            w h)
  ]

  archive_owned-Keeps : (limit : Option ℕ) → Keeps P (archive_owned ports policy limit)
  unfolding archive_owned
  archive_owned-Keeps limit w h =
      try_bind-Keeps P (ensure_archived ports policy limit (registered_source_file w))
        (fail_ingestion ports policy 0) _ (ensure_archived-Keeps limit _)
        (fail_ingestion-Keeps ports policy P quiet 0)
        (λ a.
          try_bind-Keeps P (rearchive ports policy (registered_source_file w))
            (fail_ingestion ports policy a.transferred_bytes) _
            (rearchive-Keeps ports policy P quiet _)
            (fail_ingestion-Keeps ports policy P quiet a.transferred_bytes) (λ _ _ k. k))
        w h

  enter-Keeps :
      (owned : Exec World IngestionResult) → Keeps P owned → Keeps P (enter ports policy owned)
  unfolding enter
  enter-Keeps owned kept =
      >>=-Keeps P (lift ports.assert_ingestion_allowed) _ (λ _ h. h)
        (λ _.
          >>=-Keeps P (lift ports.register_discovery) _ (λ _ h. h)
            (λ registered w h. elim (Bool-cases (is_status registered.status completed)) [
              | inl finished ↦ rw finished h
              | inr pending ↦ rw pending (elim (Bool-cases ports.acquire) [
                | inl acquired ↦
                    rw acquired
                      (>>=-Keeps P (lift ports.refresh_discovery) _ (λ _ k. k) (λ _. kept) w h)
                | inr taken ↦ rw taken h
              ])
            ]))

  pub ingest-Keeps : (limit : Option ℕ) → Keeps P (ingest ports policy limit)
  unfolding ingest
  ingest-Keeps limit =
      >>=-Keeps P (lift (validate_archive_byte_limit limit)) _ (λ _ h. h)
        (λ _. enter-Keeps (ingest_owned ports policy limit) (ingest_owned-Keeps limit))

  pub archive_only-Keeps : (limit : Option ℕ) → Keeps P (archive_only ports policy limit)
  unfolding archive_only
  archive_only-Keeps limit =
      >>=-Keeps P (lift (validate_archive_byte_limit limit)) _ (λ _ h. h)
        (λ _. enter-Keeps (archive_owned ports policy limit) (archive_owned-Keeps limit))
