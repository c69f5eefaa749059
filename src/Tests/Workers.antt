-- ===== src/Tests/Workers.antt =====
-- Keys of the archive, and a worker with two sources.
use makolet.Prelude.{ℕ, ◌≡◌, ◌↔◌, refl, true, none, List, [], ◌∷◌, map, arith, text_eq}
use makolet.Domain.Errors.{ErrorKind, failure}
use makolet.Domain.Values.{Text, literal}
use makolet.Domain.Documents.{text_in, from_keys}
use makolet.Exec.{ok, err}
use makolet.Archive.Keys.{
  key_for_digest, digest_for_key, service_key_for_object, object_key_from_service_key,
}
use makolet.Archive.Keys.RoundTrips.{key_for_digest_iff, service_key_for_object_iff}
use makolet.Worker.Sources.{SourceSchedule, source_ids, strip}
use makolet.Worker.Sources.Selection.{selected_of, source_ids-selected}
use makolet.Worker.Scheduler.{
  WorkerPolicy, Scheduler, new_scheduler, enqueue_due, start_source, initially, then_step, enqueued,
  started,
}
use makolet.Worker.Scheduler.Invariant.{IsSound, IsHandled, reached-IsSound, enqueue_due-all}
use makolet.Worker.Health.{RunPorts, HealthMap, health_of, run_source}
use makolet.Worker.Health.Settling.{IsCounted, run_source-IsSettled}
use makolet.Tests.Ports.{digest, object_key}

key_for_digest_iff_example :
    (key_for_digest digest ≡ ok object_key) ↔ (digest_for_key object_key none ≡ ok digest)
key_for_digest_iff_example = key_for_digest_iff digest object_key

abbrev service_key : Text
service_key =
    literal "raw/sha256/9f/86/9f86d081884c7d659a2feaa0c55ad015a3bf4f1b2b0b822cd15d6c15b0f00a08"

service_key_for_object_iff_example :
    (service_key_for_object object_key (literal "/raw") ≡ ok service_key)
    ↔ (object_key_from_service_key service_key (literal "/raw") none ≡ ok object_key)
service_key_for_object_iff_example =
    service_key_for_object_iff object_key service_key (literal "/raw")

abbrev mentions : List Text
mentions = literal " b " ∷ literal "a" ∷ literal "b" ∷ []

source_ids-selected_example :
    source_ids 2 mentions ≡ selected_of 2 (map strip mentions) (from_keys [] (map strip mentions))
source_ids-selected_example = source_ids-selected 2 mentions

abbrev limits : WorkerPolicy
limits = record { concurrency = 1; queue_capacity = 2 }

abbrev hourly : Text → SourceSchedule
hourly id = record { source_id = id; interval = 3600; run_immediately = true }

abbrev sources : List SourceSchedule
sources = hourly (literal "a") ∷ hourly (literal "b") ∷ []

abbrev delay : SourceSchedule → ℕ
delay s = s.interval

abbrev idle : Scheduler
idle = new_scheduler 100 delay sources

-- Both sources are queued, and one is taken.
abbrev filled : Scheduler
filled = enqueue_due limits 100 delay sources idle

filled-queue : filled.queue ≡ literal "a" ∷ literal "b" ∷ []
unfolding enqueue_due new_scheduler text_eq
filled-queue = refl

filled-running : filled.running ≡ []
unfolding enqueue_due new_scheduler text_eq
filled-running = refl

abbrev busy : Scheduler
busy = start_source (literal "a") (literal "b" ∷ []) filled

reached-IsSound_example : IsSound limits busy
reached-IsSound_example = reached-IsSound limits sources 100 delay busy (
    then_step (then_step initially (enqueued 100 delay))
      (started filled-queue (rw filled-running (omega arith))))

enqueue_due-all_example : IsHandled limits 100 (literal "b") filled
enqueue_due-all_example =
    enqueue_due-all limits 100 delay (literal "b") sources idle (unfold text_in text_eq in refl)

abbrev refused : RunPorts
refused = record {
  started_at = 5;
  finished_at = 9;
  report_started = ok tt;
  ingest_source = err (failure ErrorKind.lease_unavailable);
  report_ended = λ h. err (failure ErrorKind.runtime_error);
}

abbrev unknown_health : HealthMap
unknown_health id = none

run_source-IsSettled_example :
    let p = run_source refused (literal "a") unknown_health in
    IsCounted refused.ingest_source
      (health_of (literal "a") unknown_health)
      (health_of (literal "a") p.1)
    × (p.1 (literal "b") ≡ none)
run_source-IsSettled_example =
    run_source-IsSettled refused (literal "a") (literal "b") unknown_health (unfold text_eq in refl)
      refl
