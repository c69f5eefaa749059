-- ===== src/Ingestion/Download.antt =====
-- application/ingestion.py: `_download_and_archive`, its retries and its byte budget.
pub mod Budget
pub mod Keeping
use makolet.Prelude.{
  ℕ, zero, suc, ◌+◌, ◌-◌, Bool, true, false, ◌&&◌, not, Option, none, some, List, [], ◌∷◌, max, leb,
  ltb, is_none, if◌then◌else◌,
}
use makolet.Domain.Errors.{
  ErrorKind, Failure, failure, failure_after, is_makolet, retryable, error_bytes,
}
use makolet.Domain.Values.{Instant}
use makolet.Domain.Status.{discovered, downloading, failed_retryable}
use makolet.Domain.Remote.{is_sha256, last_segment}
use makolet.Exec.{Result, ok, err, Exec, ◌>>=◌, ◌>>◌}
use makolet.Ingestion.Ports.{Ports, Attachment, Attempt, Put}
use makolet.Ingestion.World.{World, transition, record_archive}

-- `ArchivedDownload`, as far as the service uses it.
pub record ArchivedDownload : Type 0 where
  pub archive : Attachment
  pub created : Bool
  pub transferred_bytes : ℕ

-- `isinstance(error, Exception)`.
unfoldable pub is_exception : ErrorKind → Bool
is_exception ErrorKind.cancelled = false
is_exception _ = true

-- `_is_retryable`.
unfoldable pub is_retryable : Failure → Bool
unfolding is_makolet retryable
is_retryable e = elim e.kind [
  | ErrorKind.charge_budget_exceeded ↦ false
  | ErrorKind.archive_capacity ↦ false
  | kind ↦ is_makolet kind && retryable kind
]

-- What the handlers of an attempt see: its outcome, the bytes of the object that was archived, and
-- the bytes of its session, if there was one.
pub record Body : Type 0 where
  pub outcome : Result (ArchivedDownload × Bool)
  pub attempt_transferred_bytes : ℕ
  pub session_bytes : ℕ

abbrev failed_body : Failure → ℕ → ℕ → Body
failed_body e archived_bytes session_bytes = record {
  outcome = err e;
  attempt_transferred_bytes = archived_bytes;
  session_bytes = session_bytes;
}

-- `remaining_bytes`.
abbrev remaining_bytes : Option ℕ → ℕ → Option ℕ
remaining_bytes none transferred = none
remaining_bytes (some maximum) transferred = some (maximum - transferred)

-- `remaining_bytes is not None and remaining_bytes <= 0`.
abbrev is_exhausted : Option ℕ → ℕ → Bool
is_exhausted none transferred = false
is_exhausted (some maximum) transferred = leb maximum transferred

-- The archived object, as the row of the file will refer to it.
abbrev object_of : Put → Attachment
object_of put = record {
  object_key = put.object_key;
  content_sha256 = last_segment put.object_key;
  content_length = put.content_length;
}

-- `attempt_transferred_bytes`, once the archive has the object.
abbrev put_bytes : Attempt → Put → ℕ
put_bytes attempt put = max put.content_length attempt.put_bytes

module _ (ports : Ports) where
  abbrev recorded_body : Attachment → Put → ℕ → Attempt → Result Bool → Body
  recorded_body object put archived_bytes attempt (ok duplicate) = record {
    outcome =
        ok (record { archive = object; created = put.created; transferred_bytes = 0 }, duplicate);
    attempt_transferred_bytes = archived_bytes;
    session_bytes = attempt.final_bytes;
  }
  recorded_body object put archived_bytes attempt (err e) =
      failed_body e archived_bytes attempt.final_bytes

  -- From the end of `archive.put` to `record_archive`.
  abbrev after_finish : Attempt → Put → Result Instant → World → Body × World
  after_finish attempt put (err e) w =
      (failed_body e (put_bytes attempt put) attempt.final_bytes, w)
  after_finish attempt put (ok _) w =
      let recorded = record_archive ports (object_of put) put.created w in
      if is_sha256 (last_segment put.object_key)
      then (
        recorded_body (object_of put) put (put_bytes attempt put) attempt recorded.0,
        recorded.1,
      )
      else (
        failed_body (failure ErrorKind.domain_validation) (put_bytes attempt put)
            attempt.final_bytes,
        w,
      )

  abbrev after_put : Attempt → Result Put → World → Body × World
  after_put attempt (err e) w = (failed_body e 0 attempt.final_bytes, w)
  after_put attempt (ok put) w = after_finish attempt put attempt.finished w

  abbrev after_open : Attempt → Result (Unit {0}) → World → Body × World
  after_open attempt (err e) w = (failed_body e 0 0, w)
  after_open attempt (ok _) w = after_put attempt attempt.put w

  -- The body of the `try`, of the attempt `number` after `transferred` bytes.
  unfoldable pub attempt_body : Option ℕ → ℕ → ℕ → World → Body × World
  unfolding record_archive is_sha256 last_segment failure
  attempt_body limit number transferred w =
      let open_bytes = remaining_bytes limit transferred in
      if is_exhausted limit transferred
      then (failed_body (failure ErrorKind.charge_budget_exceeded) 0 0, w)
      else (let attempt = ports.download number open_bytes in
          after_open attempt attempt.opened (record w { opened = open_bytes ∷ w.opened }))

-- The two handlers: the failure that leaves the attempt, after `transferred` bytes in all.
abbrev handled_exception : Failure → ℕ → Failure
handled_exception e transferred =
    if is_makolet e.kind
    then record e { transferred_bytes = transferred }
    else if ltb 0 transferred
    then failure_after ErrorKind.repository_error transferred
    else e

unfoldable pub handled_failure : Failure → ℕ → Failure
unfolding is_makolet failure_after
handled_failure e transferred = elim e.kind [
  | ErrorKind.cancelled ↦ e
  | ErrorKind.download_limit ↦
      if e.budget_limited
      then failure_after ErrorKind.charge_budget_exceeded transferred
      else record e { transferred_bytes = transferred }
  | _ ↦ handled_exception e transferred
]

-- The bytes that a failed attempt adds. A cancellation passes both handlers by.
unfoldable pub failed_bytes : Body → Failure → ℕ
unfolding error_bytes is_exception
failed_bytes body e =
    if is_exception e.kind
    then max body.attempt_transferred_bytes (max (error_bytes e) body.session_bytes)
    else 0

-- What follows an attempt. tenacity raises the failure again where it may not be retried or no
-- attempt is left; `again` makes the attempts that are left.
unfoldable pub after_attempt :
    (ℕ → Exec World (ArchivedDownload × Bool))
    → ℕ
    → ℕ
    → Body
    → Result (ArchivedDownload × Bool)
    → Exec World (ArchivedDownload × Bool)
unfolding handled_failure failed_bytes is_retryable
after_attempt again fuel transferred body (ok (archived, duplicate)) w = (
  ok (
    record archived { transferred_bytes = transferred + body.attempt_transferred_bytes },
    duplicate,
  ),
  w,
)
after_attempt again fuel transferred body (err e) w =
    let total = transferred + failed_bytes body e in
    let raised = handled_failure e total in
    let retried = again total w in
    if is_retryable raised && ltb 0 fuel then retried else (err raised, w)

-- The retry loop, with `fuel` attempts left.
module _ (ports : Ports) (limit : Option ℕ) where
  unfoldable pub download_attempts : ℕ → ℕ → ℕ → Exec World (ArchivedDownload × Bool)
  unfolding attempt_body after_attempt failure
  download_attempts zero number transferred w = (err (failure ErrorKind.other), w)
  download_attempts (suc fuel) number transferred w =
      let (body, w') = attempt_body ports limit number transferred w in
      after_attempt (download_attempts fuel (number + 1)) fuel transferred body body.outcome w'

  -- `_download_and_archive`.
  unfoldable pub download_and_archive : ℕ → Exec World (ArchivedDownload × Bool)
  download_and_archive attempts = do
    transition ports (discovered ∷ failed_retryable ∷ []) downloading
    download_attempts attempts 1 0
