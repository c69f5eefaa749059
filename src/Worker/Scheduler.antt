-- ===== src/Worker/Scheduler.antt =====
-- application/worker.py, `run_forever`: the queue of due sources, the consumers that take from it, and
-- the sources that are pending. A reading of the monotonic clock is a natural number: the scheduler
-- compares and adds such readings only.
pub mod Invariant
use makolet.Prelude.{
  ℕ, ◌+◌, ◌<◌, ◌≡◌, Bool, true, false, ◌||◌, ◌&&◌, not, List, [], ◌∷◌, ◌++◌, length, ltb, leb,
  if◌then◌else◌, text_eq,
}
use makolet.Domain.Documents.{text_in}
use makolet.Domain.Values.{Text}
use makolet.Worker.Sources.{SourceSchedule}

-- The limits of `WorkerPolicy` on the queue and the consumers.
pub record WorkerPolicy : Type 0 where
  pub concurrency : ℕ
  pub queue_capacity : ℕ

-- `running` holds the source of each consumer that is in `_run_source`; `pending` is a set.
pub record Scheduler : Type 0 where
  pub queue : List Text
  pub pending : Text → Bool
  pub running : List Text
  pub next_due : Text → ℕ

-- Before the loop.
unfoldable pub new_scheduler : ℕ → (SourceSchedule → ℕ) → List SourceSchedule → Scheduler
new_scheduler now delay schedules = record {
  queue = [];
  pending = λ id. false;
  running = [];
  next_due = λ id. first_due id schedules;
}
  where
    first_due : Text → List SourceSchedule → ℕ
    first_due id [] = now
    first_due id (s ∷ rest) =
        let later = first_due id rest in
        if text_eq id s.source_id then (if s.run_immediately then now else now + delay s) else later

abbrev enqueue : ℕ → Text → Scheduler → Scheduler
enqueue due id s = record {
  queue = s.queue ++ (id ∷ []);
  pending = λ other. text_eq other id || s.pending other;
  running = s.running;
  next_due = λ other. if text_eq other id then due else s.next_due other;
}

-- The loop over the schedules. A full queue ends it.
module _ (policy : WorkerPolicy) (now : ℕ) (delay : SourceSchedule → ℕ) where
  unfoldable pub enqueue_due : List SourceSchedule → Scheduler → Scheduler
  enqueue_due [] s = s
  enqueue_due (schedule ∷ schedules) s =
      let id = schedule.source_id in
      let skipped = enqueue_due schedules s in
      let taken = enqueue_due schedules (enqueue (now + delay schedule) id s) in
      if ltb now (s.next_due id) || s.pending id
      then skipped
      else if leb policy.queue_capacity (length s.queue)
      then s
      else taken

unfoldable pub without : Text → List Text → List Text
without id [] = []
without id (x ∷ xs) = let rest = without id xs in if text_eq id x then xs else x ∷ rest

-- `queue.get()`, by a consumer that was waiting.
abbrev pub start_source : Text → List Text → Scheduler → Scheduler
start_source id rest s = record {
  queue = rest;
  pending = s.pending;
  running = id ∷ s.running;
  next_due = s.next_due;
}

-- `pending.discard(source_id)`, when `_run_source` returned, failed or was cancelled.
unfoldable pub finish_source : Text → Scheduler → Scheduler
unfolding without
finish_source id s = record {
  queue = s.queue;
  pending = λ other. not (text_eq other id) && s.pending other;
  running = without id s.running;
  next_due = s.next_due;
}

-- What happens between two points at which the tasks may change over.
pub data Step (policy : WorkerPolicy) (schedules : List SourceSchedule)
    : Scheduler → Scheduler → Type 0 where
  enqueued :
      {s : Scheduler} (now : ℕ) (delay : SourceSchedule → ℕ)
      → Step policy schedules s (enqueue_due policy now delay schedules s)
  started :
      {s : Scheduler} {id : Text} {rest : List Text}
      → s.queue ≡ id ∷ rest
      → length s.running < policy.concurrency
      → Step policy schedules s (start_source id rest s)
  finished :
      {s : Scheduler} (id : Text)
      → text_in id s.running ≡ true
      → Step policy schedules s (finish_source id s)

pub data Reaches (policy : WorkerPolicy) (schedules : List SourceSchedule) (start : Scheduler)
    : Scheduler → Type 0 where
  initially : Reaches policy schedules start start
  then_step :
      {s t : Scheduler}
      → Reaches policy schedules start s
      → Step policy schedules s t
      → Reaches policy schedules start t
