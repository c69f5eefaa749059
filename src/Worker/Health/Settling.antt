-- ===== src/Worker/Health/Settling.antt =====
-- What a run of `_run_source` leaves of the health of its source and of the others.
use makolet.Prelude.{
  ℕ, ◌+◌, ◌≡◌, refl, sym, ap, subst, Bool, true, false, if_cases, text_eq, text_eq_refl, arith,
}
use makolet.Domain.Errors.{Failure}
use makolet.Domain.Values.{Text}
use makolet.Exec.{Result, ok, err, Exec, lift, >>=-cases, try_bind, rescue}
use makolet.Ingestion.Download.{is_exception}
use makolet.Worker.Health.{
  SourceHealth, SourceRunOutcome, HealthMap, health_of, put, worker_error_code, RunPorts,
  start_health, stop_health, fail_health, succeed_health, run_stopped, run_failed, run_succeeded,
  handle_run, run_source,
}

-- The runs that an answer of `ingest_source` counts: a cancellation counts as neither.
abbrev pub successes : Result (Unit {0}) → ℕ
successes (ok _) = 1
successes (err _) = 0

abbrev pub one_if : Bool → ℕ
one_if true = 1
one_if false = 0

abbrev pub failures : Result (Unit {0}) → ℕ
failures (ok _) = 0
failures (err e) = one_if (is_exception e.kind)

-- The failures in a row after that answer.
abbrev pub failures_in_a_row : Result (Unit {0}) → ℕ → ℕ
failures_in_a_row (ok _) n = 0
failures_in_a_row (err e) n = n + failures (err e)

-- The source is out of flight, and its counts are those that the answer calls for.
pub record IsCounted (answer : Result (Unit {0})) (before after : SourceHealth) : Type 0 where
  pub landed : after.in_flight ≡ false
  pub succeeded : after.successful_runs ≡ before.successful_runs + successes answer
  pub failed : after.failed_runs ≡ before.failed_runs + failures answer
  pub in_a_row : after.consecutive_failures ≡ failures_in_a_row answer before.consecutive_failures

module _ (id : Text) (m : HealthMap) where
  health_of-put : (h : SourceHealth) (n : HealthMap) → health_of id (put id h n) ≡ h
  health_of-put h n = rw (text_eq_refl id) refl

  abbrev before : SourceHealth
  before = health_of id m

  module _ (other : Text) (apart : text_eq other id ≡ false) where
    -- What the run leaves for the answer.
    abbrev IsSettled : Result (Unit {0}) → HealthMap → Type 0
    IsSettled answer n = IsCounted answer before (health_of id n) × (n other ≡ m other)

    -- A run that ends with the health `h`.
    ends_with :
        (answer : Result (Unit {0})) (started h : SourceHealth)
        → IsCounted answer before h
        → IsSettled answer (put id h (put id started m))
    ends_with answer started h counts = (
      subst (IsCounted answer before) (sym (health_of-put h (put id started m))) counts,
      rw apart refl,
    )

    module _ (ports : RunPorts) where
      abbrev started_health : SourceHealth
      started_health = start_health ports.started_at before

      abbrev started_map : HealthMap
      started_map = put id started_health m

      run_stopped-IsSettled :
          (e : Failure)
          → is_exception e.kind ≡ false
          → IsSettled (err e) (run_stopped ports id started_health e started_map).1
      unfolding run_stopped
      run_stopped-IsSettled e cancelled =
          ends_with (err e) started_health (stop_health started_health) (record {
            landed = refl;
            succeeded = omega arith;
            failed = omega (arith, ap one_if cancelled);
            in_a_row = omega (arith, ap one_if cancelled);
          })

      run_failed-IsSettled :
          (e : Failure)
          → is_exception e.kind ≡ true
          → IsSettled (err e) (run_failed ports id started_health e started_map).1
      unfolding run_failed
      run_failed-IsSettled e seen =
          let h = fail_health ports.finished_at (worker_error_code e.kind) started_health in
          let counts : IsCounted (err e) before h = record {
            landed = refl;
            succeeded = omega arith;
            failed = omega (arith, ap one_if seen);
            in_a_row = omega (arith, ap one_if seen);
          } in
          >>=-cases (λ p. IsSettled (err e) p.1) (lift (ports.report_ended h)) _
            (put id h started_map) (λ _ _. ends_with (err e) started_health h counts)
            (λ _ _. ends_with (err e) started_health h counts)

      run_succeeded-IsSettled :
          IsSettled (ok tt) (run_succeeded ports id started_health started_map).1
      unfolding run_succeeded
      run_succeeded-IsSettled =
          let h = succeed_health ports.finished_at started_health in
          let counts : IsCounted (ok tt) before h = record {
            landed = refl;
            succeeded = refl;
            failed = omega arith;
            in_a_row = refl;
          } in
          >>=-cases (λ p. IsSettled (ok tt) p.1) (lift (ports.report_ended h)) _
            (put id h started_map) (λ _ _. ends_with (ok tt) started_health h counts)
            (λ _ _. ends_with (ok tt) started_health h counts)

      handle_run-IsSettled :
          (e : Failure) → IsSettled (err e) (handle_run ports id started_health e started_map).1
      unfolding handle_run
      handle_run-IsSettled e =
          if_cases {A = Exec HealthMap SourceRunOutcome} (λ x. IsSettled (err e) (x started_map).1)
            (is_exception e.kind) _ _ (run_failed-IsSettled e) (run_stopped-IsSettled e)

      ended :
          (answer : Result (Unit {0}))
          → IsSettled answer
              (rescue answer
                (handle_run ports id started_health)
                (λ _. run_succeeded ports id started_health)
                started_map).1
      ended (ok tt) = run_succeeded-IsSettled
      ended (err e) = handle_run-IsSettled e

-- A run of a source whose start is reported leaves the source out of flight with one more successful
-- run, one more failed run or, after a cancellation, neither, as `ingest_source` answers, and its
-- failures in a row are none, one more or as many; this also holds where the end cannot be reported.
-- The health of any other source stays as it was.
pub run_source-IsSettled :
    (ports : RunPorts) (id other : Text) (m : HealthMap)
    → text_eq other id ≡ false
    → ports.report_started ≡ ok tt
    → let p = run_source ports id m in
      IsCounted ports.ingest_source (health_of id m) (health_of id p.1) × (p.1 other ≡ m other)
unfolding run_source try_bind
run_source-IsSettled ports id other m apart reported =
    >>=-cases (λ p. IsSettled id m other apart ports.ingest_source p.1) (lift ports.report_started)
      _ (put id (start_health ports.started_at (health_of id m)) m)
      (λ _ _. ended id m other apart ports ports.ingest_source)
      (λ e refused. cc (reported, refused))
