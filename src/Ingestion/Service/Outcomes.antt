-- ===== src/Ingestion/Service/Outcomes.antt =====
-- How a run of the ingestion service ends.
use makolet.Prelude.{
  ◌≡◌, inl, inr, refl, ap, ◌∙◌, Bool, true, false, ◌&&◌, none, [], ◌∷◌, arith, Bool-cases,
  if◌then◌else◌,
}
use makolet.Domain.Errors.{ErrorKind, failure, is_makolet, retryable}
use makolet.Domain.Status.{
  IngestionStatus, quarantined, failed_retryable, failed_terminal, is_status, in_statuses,
  ensure_ingestion_transition,
}
use makolet.Exec.{ok, err, pure, ◌>>=◌}
use makolet.Ingestion.Policy.{IngestionPolicy}
use makolet.Ingestion.Ports.{Ports}
use makolet.Ingestion.World.{
  World, transition, checked_transition, moved, get, registered_source_file,
}
use makolet.Ingestion.Service.{
  failure_target, is_quarantine_error, finished_statuses, quarantine_statuses, record_failure,
}

-- The database answers.
pub record Answers (ports : Ports) : Type 0 where
  pub reads : ports.get_failure ≡ none
  pub writes : (s t : IngestionStatus) → ports.database_failure s t ≡ none

-- The transitions of `_record_failure` are allowed but for one: a retryable failure of a file that
-- waits for a retry.
target_allowed :
    (s : IngestionStatus) (at_fault may_retry : Bool)
    → in_statuses s finished_statuses ≡ false
    → (s ≡ failed_retryable → may_retry ≡ false)
    → ensure_ingestion_transition s (
        if at_fault && in_statuses s quarantine_statuses
        then quarantined
        else if may_retry
        then failed_retryable
        else failed_terminal)
      ≡ ok tt
unfolding ensure_ingestion_transition
target_allowed failed_retryable at_fault may_retry h once =
    let e : may_retry ≡ false = once refl in ground arith
target_allowed _ at_fault may_retry h once = ground arith

pub failure_target_allowed :
    (s : IngestionStatus) (kind : ErrorKind)
    → in_statuses s finished_statuses ≡ false
    → (s ≡ failed_retryable → is_makolet kind && retryable kind ≡ false)
    → ensure_ingestion_transition s (failure_target s kind) ≡ ok tt
failure_target_allowed s kind h once =
    let k =
      target_allowed s (is_quarantine_error kind) (is_makolet kind && retryable kind) h once in
    unfold failure_target in k

failure_target_refused :
    (kind : ErrorKind)
    → is_makolet kind && retryable kind ≡ true
    → ensure_ingestion_transition failed_retryable (failure_target failed_retryable kind)
      ≡ err (failure ErrorKind.invalid_state_transition)
unfolding failure_target ensure_ingestion_transition
failure_target_refused kind h = ground arith

if_apply :
    {A B : Type 0} (b : Bool) (f g : A → B) (x : A)
    → (if b then f else g) x ≡ (if b then f x else g x)
if_apply true f g x = refl
if_apply false f g x = refl

in_itself : (s : IngestionStatus) → in_statuses s (s ∷ []) ≡ true
unfolding in_statuses
in_itself s = ground arith

module _ (ports : Ports) (policy : IngestionPolicy) (answers : Answers ports) (w : World) where
  get-answers : get ports w ≡ (ok (registered_source_file w), w)
  unfolding get
  get-answers = rw answers.reads

  status-registered : (registered_source_file w).status ≡ w.status
  unfolding registered_source_file
  status-registered = refl

  transition-answers :
      (target : IngestionStatus)
      → transition ports (w.status ∷ []) target w
        ≡ checked_transition (ensure_ingestion_transition w.status target) none target w
  transition-answers target =
      unfold transition in rw (in_itself w.status) (rw (answers.writes w.status target))

  pub record_failure-answers :
      (kind : ErrorKind)
      → record_failure ports policy kind w ≡ (
          if in_statuses w.status finished_statuses
          then (ok tt, w)
          else checked_transition
              (ensure_ingestion_transition w.status (failure_target w.status kind))
              none
              (failure_target w.status kind)
              w)
  unfolding record_failure ◌>>=◌ registered_source_file
  record_failure-answers kind = rw get-answers (
      if_apply (in_statuses w.status finished_statuses) (pure tt)
        (transition ports (w.status ∷ []) (failure_target w.status kind)) w
      ∙ ap (λ x. if in_statuses w.status finished_statuses then (ok tt, w) else x)
          (transition-answers (failure_target w.status kind)))

masked :
    (s : IngestionStatus) (kind : ErrorKind) (t : IngestionStatus) (w : World)
    → s ≡ failed_retryable
    → is_makolet kind && retryable kind ≡ true
    → (if in_statuses s finished_statuses
        then (ok tt, w)
        else checked_transition (ensure_ingestion_transition s (failure_target s kind)) none t w)
      ≡ (err (failure ErrorKind.invalid_state_transition), w)
unfolding in_statuses is_status
masked failed_retryable kind t w e may_retry = rw (failure_target_refused kind may_retry) refl
masked _ kind t w e may_retry = cc e

-- With a database that answers, `_record_failure` returns for every failure, unless the file waits
-- for a retry and the failure is a retryable one. A file that is completed, quarantined or terminally
-- failed is left as it is, and any other is moved to the status that the failure calls for.
pub record_failure-ok :
    (ports : Ports) (policy : IngestionPolicy) (kind : ErrorKind) (w : World)
    → Answers ports
    → (w.status ≡ failed_retryable → is_makolet kind && retryable kind ≡ false)
    → record_failure ports policy kind w ≡ (
        if in_statuses w.status finished_statuses
        then (ok tt, w)
        else (ok tt, moved w (failure_target w.status kind)))
record_failure-ok ports policy kind w answers once =
    elim (Bool-cases (in_statuses w.status finished_statuses)) [
      | inl finished ↦
          rw finished (record_failure-answers ports policy answers w kind ∙ rw finished refl)
      | inr pending ↦ rw pending (
          record_failure-answers ports policy answers w kind
          ∙ rw pending (rw (failure_target_allowed w.status kind pending once) refl))
    ]

-- With a database that answers, `_record_failure` of a retryable failure of a file that waits for a
-- retry changes nothing and raises `InvalidStateTransitionError`, whatever the failure was.
pub record_failure-masks :
    (ports : Ports) (policy : IngestionPolicy) (kind : ErrorKind) (w : World)
    → Answers ports
    → w.status ≡ failed_retryable
    → is_makolet kind && retryable kind ≡ true
    → record_failure ports policy kind w ≡ (err (failure ErrorKind.invalid_state_transition), w)
record_failure-masks ports policy kind w answers waiting may_retry =
    record_failure-answers ports policy answers w kind
    ∙ masked w.status kind (failure_target w.status kind) w waiting may_retry
