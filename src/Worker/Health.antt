-- ===== src/Worker/Health.antt =====
-- application/worker.py: `_run_source`, one run of a source and what it leaves of the source's health.
pub mod Settling
use makolet.Prelude.{ℕ, ◌+◌, Bool, true, false, Option, none, some, String, if◌then◌else◌, text_eq}
use makolet.Domain.Errors.{ErrorKind, Failure, error_code}
use makolet.Domain.Values.{Text, Instant}
use makolet.Exec.{Result, ok, err, Exec, raise, lift, try_bind, ◌>>=◌, ◌>>◌}
use makolet.Ingestion.Download.{is_exception}

pub record SourceHealth : Type 0 where
  pub in_flight : Bool
  pub successful_runs : ℕ
  pub failed_runs : ℕ
  pub consecutive_failures : ℕ
  pub last_started_at : Option Instant
  pub last_succeeded_at : Option Instant
  pub last_failed_at : Option Instant
  pub last_error_code : Option String

pub record SourceRunOutcome : Type 0 where
  pub source_id : Text
  pub succeeded : Bool
  pub started_at : Instant
  pub finished_at : Instant
  pub error_code : Option String

-- `self._health`.
abbrev pub HealthMap : Type 0
HealthMap = Text → Option SourceHealth

-- `SourceHealth(source_id=source_id)`.
abbrev pub new_health : SourceHealth
new_health = record {
  in_flight = false;
  successful_runs = 0;
  failed_runs = 0;
  consecutive_failures = 0;
  last_started_at = none;
  last_succeeded_at = none;
  last_failed_at = none;
  last_error_code = none;
}

abbrev pub or_new : Option SourceHealth → SourceHealth
or_new none = new_health
or_new (some h) = h

abbrev pub health_of : Text → HealthMap → SourceHealth
health_of id m = or_new (m id)

abbrev pub put : Text → SourceHealth → HealthMap → HealthMap
put id h m other = if text_eq other id then some h else m other

-- `_worker_error_code`.
unfoldable pub worker_error_code : ErrorKind → String
unfolding error_code
worker_error_code ErrorKind.cancelled = "worker_shutdown"
worker_error_code kind = error_code kind

-- The clock, the backend and the telemetry of one run. A cancellation is the failure of the kind
-- `cancelled`.
pub record RunPorts : Type 0 where
  pub started_at : Instant
  pub finished_at : Instant
  pub report_started : Result (Unit {0})
  pub ingest_source : Result (Unit {0})
  pub report_ended : SourceHealth → Result (Unit {0})

abbrev pub start_health : Instant → SourceHealth → SourceHealth
start_health at h = record h { in_flight = true; last_started_at = some at }

abbrev pub stop_health : SourceHealth → SourceHealth
stop_health h = record h { in_flight = false; last_error_code = some "worker_shutdown" }

abbrev pub fail_health : Instant → String → SourceHealth → SourceHealth
fail_health at code h = record h {
  in_flight = false;
  failed_runs = h.failed_runs + 1;
  consecutive_failures = h.consecutive_failures + 1;
  last_failed_at = some at;
  last_error_code = some code;
}

abbrev pub succeed_health : Instant → SourceHealth → SourceHealth
succeed_health at h = record h {
  in_flight = false;
  successful_runs = h.successful_runs + 1;
  consecutive_failures = 0;
  last_succeeded_at = some at;
  last_error_code = none;
}

abbrev store : Text → SourceHealth → Exec HealthMap (Unit {0})
store id h m = (ok tt, put id h m)

-- `with suppress(CancelledError)` around the last report, and the cancellation raised again.
abbrev suppressed : Failure → Result (Unit {0}) → Failure
suppressed cancelled (ok _) = cancelled
suppressed cancelled (err e) = if is_exception e.kind then e else cancelled

module _ (ports : RunPorts) (id : Text) where
  abbrev outcome : Bool → Option String → SourceRunOutcome
  outcome succeeded code = record {
    source_id = id;
    succeeded = succeeded;
    started_at = ports.started_at;
    finished_at = ports.finished_at;
    error_code = code;
  }

  -- The `except` clauses.
  unfoldable pub run_stopped : SourceHealth → Failure → Exec HealthMap SourceRunOutcome
  unfolding ◌>>=◌ is_exception
  run_stopped started e = do
    store id (stop_health started)
    raise (suppressed e (ports.report_ended (stop_health started)))

  unfoldable pub run_failed : SourceHealth → Failure → Exec HealthMap SourceRunOutcome
  unfolding ◌>>=◌ worker_error_code
  run_failed started e = do
    let code = worker_error_code e.kind
    store id (fail_health ports.finished_at code started)
    lift (ports.report_ended (fail_health ports.finished_at code started))
    λ m. (ok (outcome false (some code)), m)

  unfoldable pub run_succeeded : SourceHealth → Exec HealthMap SourceRunOutcome
  unfolding ◌>>=◌
  run_succeeded started = do
    store id (succeed_health ports.finished_at started)
    lift (ports.report_ended (succeed_health ports.finished_at started))
    λ m. (ok (outcome true none), m)

  unfoldable pub handle_run : SourceHealth → Failure → Exec HealthMap SourceRunOutcome
  unfolding is_exception
  handle_run started e = if is_exception e.kind then run_failed started e else run_stopped started e

  -- `_run_source`.
  unfoldable pub run_source : Exec HealthMap SourceRunOutcome
  unfolding ◌>>=◌
  run_source m =
      let started = start_health ports.started_at (health_of id m) in
      (store id started
          >> lift ports.report_started
          >> try_bind (lift ports.ingest_source) (handle_run started) (λ _. run_succeeded started))
        m
