-- ===== src/Ingestion/Download/Budget.antt =====
-- The byte budget of `_download_and_archive` holds over all its retries.
use makolet.Prelude.{
  ℕ, zero, suc, ◌+◌, ◌-◌, ◌≤◌, ◌<◌, ◌≡◌, refl, Bool, false, ◌&&◌, ◌||◌, not, ap, Option, none, some,
  [], ◌∷◌, max, length, ltb, leb, Bool-cases, inl, inr, arith,
}
use makolet.Domain.Errors.{ErrorKind, Failure, failure, error_bytes}
use makolet.Domain.Status.{IngestionStatus, discovered, downloading, failed_retryable, is_status}
use makolet.Domain.Values.{Instant}
use makolet.Domain.Remote.{is_sha256, last_segment}
use makolet.Exec.{Result, ok, err, Exec, >>=-cases}
use makolet.Ingestion.Ports.{Ports, Attachment, Attempt, Put}
use makolet.Ingestion.World.{World, record_archive, attach, transition}
use makolet.Ingestion.World.History.{transition-Transitioned, opened-of, bytes-of}
use makolet.Ingestion.Download.{
  ArchivedDownload, Body, failed_bytes, handled_failure, is_retryable, attempt_body, after_attempt,
  download_attempts, download_and_archive, after_finish, after_put, after_open, recorded_body,
  object_of, failed_body,
}

-- The documented contract of a downloader: over `maximum_bytes` it raises, and it has then moved
-- at most one transfer frame more. The database raises no error that carries bytes.
pub record Obeys (ports : Ports) (frame : ℕ) : Type 0 where
  pub put_bytes : (n r : ℕ) → (ports.download n (some r)).put_bytes ≤ r + frame
  pub final_bytes : (n r : ℕ) → (ports.download n (some r)).final_bytes ≤ r + frame
  pub object_bytes :
      (n r : ℕ) (p : Put) → (ports.download n (some r)).put ≡ ok p → p.content_length ≤ r + frame
  pub open_error :
      (n r : ℕ) (e : Failure)
      → (ports.download n (some r)).opened ≡ err e
      → error_bytes e ≤ r + frame
  pub put_error :
      (n r : ℕ) (e : Failure) → (ports.download n (some r)).put ≡ err e → error_bytes e ≤ r + frame
  pub finish_error :
      (n r : ℕ) (e : Failure)
      → (ports.download n (some r)).finished ≡ err e
      → error_bytes e ≤ r + frame
  pub transition_error :
      (s t : IngestionStatus) (e : Failure)
      → ports.database_failure s t ≡ some e
      → error_bytes e ≡ 0
  pub database_error : (e : Failure) → ports.record_archive_failure ≡ some e → error_bytes e ≡ 0

leb-false : (a b : ℕ) → leb a b ≡ false → b < a
leb-false a b h = ground arith

-- What an attempt adds to the bytes transferred.
abbrev charge : Body → Result (ArchivedDownload × Bool) → ℕ
charge body (ok _) = body.attempt_transferred_bytes
charge body (err e) = failed_bytes body e

-- The failure that leaves an attempt carries no more than the bytes transferred so far.
error_bytes-handled_failure :
    (e : Failure) (total : ℕ) → error_bytes (handled_failure e total) ≤ total
unfolding error_bytes handled_failure
error_bytes-handled_failure e total = ground arith

-- The bytes that the caller is told of.
abbrev pub reported_bytes : Result (ArchivedDownload × Bool) → ℕ
reported_bytes (ok (a, _)) = a.transferred_bytes
reported_bytes (err e) = error_bytes e

other_bytes : error_bytes (failure ErrorKind.other) ≡ 0
unfolding error_bytes failure
other_bytes = refl

-- What the caller learns of the bytes, and what was opened.
pub record Within (bound opens : ℕ) (before : World) (p : Result (ArchivedDownload × Bool) × World)
    : Type 0 where
  pub reported : reported_bytes p.0 ≤ bound
  pub few_opened : length p.1.opened ≤ length before.opened + opens

record_archive_opened :
    (ports : Ports) (object : Attachment) (created : Bool) (w : World)
    → (record_archive ports object created w).1.opened ≡ w.opened
unfolding record_archive
record_archive_opened ports object created w = ground arith

attach_error :
    (failed : Option Failure) (reused : Bool) (object : Attachment) (w : World)
    → ((e : Failure) → failed ≡ some e → error_bytes e ≡ 0)
    → (e : Failure) → (attach failed reused object w).0 ≡ err e
    → error_bytes e ≡ 0
attach_error none reused object w quiet e h = cc
attach_error (some f) reused object w quiet e h = quiet e (cc h)

validation_bytes : {bound : ℕ} → error_bytes (failure ErrorKind.domain_validation) ≤ bound
unfolding error_bytes failure
validation_bytes = omega arith

conflict_bytes : (e : Failure) → failure ErrorKind.persistence_conflict ≡ e → error_bytes e ≡ 0
unfolding error_bytes failure
conflict_bytes e h = rw (← h)

record_archive_error :
    (ports : Ports) (object : Attachment) (created : Bool) (w : World)
    → ((e : Failure) → ports.record_archive_failure ≡ some e → error_bytes e ≡ 0)
    → (e : Failure) → (record_archive ports object created w).0 ≡ err e
    → error_bytes e ≡ 0
unfolding record_archive
record_archive_error ports object created w quiet e h =
    elim (Bool-cases (is_status w.status downloading)) [
      | inl now ↦
          attach_error ports.record_archive_failure (not created || ports.archive_known) object w
            quiet e (rw now at h)
      | inr not_now ↦ conflict_bytes e (cc (rw not_now at h))
    ]

-- An attempt's failure adds no more than the largest of its counts.
failed_bytes-le :
    (archived_bytes session_bytes bound : ℕ) (e : Failure)
    → archived_bytes ≤ bound
    → session_bytes ≤ bound
    → error_bytes e ≤ bound
    → failed_bytes (failed_body e archived_bytes session_bytes) e ≤ bound
unfolding failed_bytes
failed_bytes-le a s bound e ha hs he = ground arith

module _ (ports : Ports) (bound : ℕ) (attempt : Attempt) (final : attempt.final_bytes ≤ bound) where
  recorded-charge :
      (object : Attachment) (put : Put) (archived_bytes : ℕ) (r : Result Bool)
      → archived_bytes ≤ bound
      → ((e : Failure) → r ≡ err e → error_bytes e ≤ bound)
      → let b = recorded_body ports object put archived_bytes attempt r in
        charge b b.outcome ≤ bound
  recorded-charge object put n (ok duplicate) h q = h
  recorded-charge object put n (err e) h q =
      failed_bytes-le n attempt.final_bytes bound e h final (q e refl)

  after_finish-charge :
      (put : Put) (r : Result Instant) (w : World)
      → attempt.put_bytes ≤ bound
      → put.content_length ≤ bound
      → ((e : Failure) → r ≡ err e → error_bytes e ≤ bound)
      → ((e : Failure) → ports.record_archive_failure ≡ some e → error_bytes e ≡ 0)
      → let b = (after_finish ports attempt put r w).0 in charge b b.outcome ≤ bound
  after_finish-charge put (err e) w hp hc hf hq =
      failed_bytes-le (max put.content_length attempt.put_bytes) attempt.final_bytes bound e
        (omega arith) final (hf e refl)
  after_finish-charge put (ok _) w hp hc hf hq =
      elim (Bool-cases (is_sha256 (last_segment put.object_key))) [
        | inl sha ↦ rw sha (
            recorded-charge (object_of put) put (max put.content_length attempt.put_bytes)
              (record_archive ports (object_of put) put.created w).0 (omega arith)
              (λ e h.
                omega (arith, record_archive_error ports (object_of put) put.created w hq e h)))
        | inr not_sha ↦ rw not_sha (
            failed_bytes-le (max put.content_length attempt.put_bytes) attempt.final_bytes bound
              (failure ErrorKind.domain_validation) (omega arith) final validation_bytes)
      ]

  after_put-charge :
      (r : Result Put) (w : World)
      → attempt.put_bytes ≤ bound
      → ((p : Put) → r ≡ ok p → p.content_length ≤ bound)
      → ((e : Failure) → r ≡ err e → error_bytes e ≤ bound)
      → ((e : Failure) → attempt.finished ≡ err e → error_bytes e ≤ bound)
      → ((e : Failure) → ports.record_archive_failure ≡ some e → error_bytes e ≡ 0)
      → let b = (after_put ports attempt r w).0 in charge b b.outcome ≤ bound
  after_put-charge (err e) w hp hc he hf hq =
      failed_bytes-le 0 attempt.final_bytes bound e (omega arith) final (he e refl)
  after_put-charge (ok put) w hp hc he hf hq =
      after_finish-charge put attempt.finished w hp (hc put refl) hf hq

  after_open-charge :
      (r : Result (Unit {0})) (w : World)
      → ((e : Failure) → r ≡ err e → error_bytes e ≤ bound)
      → (let b = (after_put ports attempt attempt.put w).0 in charge b b.outcome ≤ bound)
      → let b = (after_open ports attempt r w).0 in charge b b.outcome ≤ bound
  after_open-charge (err e) w he put_charge =
      failed_bytes-le 0 0 bound e (omega arith) (omega arith) (he e refl)
  after_open-charge (ok _) w he put_charge = put_charge

-- An attempt opens nothing more than its own download.
module _ (ports : Ports) (attempt : Attempt) (w : World) where
  after_finish-opened :
      (put : Put) (r : Result Instant) → (after_finish ports attempt put r w).1.opened ≡ w.opened
  after_finish-opened put (err e) = refl
  after_finish-opened put (ok _) = elim (Bool-cases (is_sha256 (last_segment put.object_key))) [
    | inl sha ↦ rw sha (record_archive_opened ports (object_of put) put.created w)
    | inr not_sha ↦ rw not_sha
  ]

  after_put-opened : (r : Result Put) → (after_put ports attempt r w).1.opened ≡ w.opened
  after_put-opened (err e) = refl
  after_put-opened (ok put) = after_finish-opened put attempt.finished

  after_open-opened : (r : Result (Unit {0})) → (after_open ports attempt r w).1.opened ≡ w.opened
  after_open-opened (err e) = refl
  after_open-opened (ok _) = after_put-opened attempt.put

module _ (ports : Ports) (m frame : ℕ) (obeys : Obeys ports frame) where
  open_charge :
      (number r : ℕ) (w : World)
      → let a = ports.download number (some r) in
        let b = (after_open ports a a.opened w).0 in charge b b.outcome ≤ r + frame
  open_charge number r w =
      let a = ports.download number (some r) in
      after_open-charge ports (r + frame) a (obeys.final_bytes number r) a.opened w
        (obeys.open_error number r)
        (after_put-charge ports (r + frame) a (obeys.final_bytes number r) a.put w
          (obeys.put_bytes number r) (obeys.object_bytes number r) (obeys.put_error number r)
          (obeys.finish_error number r) obeys.database_error)

  -- One attempt stays within the budget that is left, but for one frame, and opens one download.
  attempt_body-charge :
      (number transferred : ℕ) (w : World)
      → transferred ≤ m + frame
      → let b = attempt_body ports (some m) number transferred w in
        (transferred + charge b.0 b.0.outcome ≤ m + frame)
        × (length b.1.opened ≤ length w.opened + 1)
  attempt_body-charge number transferred w h = elim (Bool-cases (leb m transferred)) [
    | inl spent ↦ unfold attempt_body failed_bytes error_bytes in rw spent (omega arith)
    | inr left ↦
        unfold attempt_body in
        rw left (
          let v = record w { opened = some (m - transferred) ∷ w.opened } in
          let a = ports.download number (some (m - transferred)) in
          (
            omega (arith, open_charge number (m - transferred) v, leb-false m transferred left),
            omega (arith, ap (length {A = Option ℕ}) (after_open-opened ports a v a.opened)),
          ))
  ]

  -- What the rest of the attempts keep to.
  abbrev KeepsWithin : ℕ → (ℕ → Exec World (ArchivedDownload × Bool)) → Type 0
  KeepsWithin opens again =
      (transferred : ℕ) (w : World)
      → transferred ≤ m + frame
      → Within (m + frame) opens w (again transferred w)

  after_attempt-Within :
      (again : ℕ → Exec World (ArchivedDownload × Bool)) (fuel transferred : ℕ) (body : Body)
      (o : Result (ArchivedDownload × Bool)) (before w : World)
      → KeepsWithin fuel again
      → transferred + charge body o ≤ m + frame
      → length w.opened ≤ length before.opened + 1
      → Within (m + frame) (suc fuel) before (after_attempt again fuel transferred body o w)
  after_attempt-Within again fuel transferred body (ok (a, d)) before w keeps h few =
      unfold after_attempt in record { reported = omega arith; few_opened = omega arith }
  after_attempt-Within again fuel transferred body (err e) before w keeps h few =
      let total = transferred + failed_bytes body e in
      let raised = handled_failure e total in
      elim (Bool-cases (is_retryable raised && ltb 0 fuel)) [
        | inl retry ↦
            let k = keeps total w h in
            unfold after_attempt in
            rw retry (record { reported = k.reported; few_opened = omega (arith, k.few_opened) })
        | inr stop ↦
            unfold after_attempt in
            rw stop (record {
              reported = omega (arith, error_bytes-handled_failure e total);
              few_opened = omega arith;
            })
      ]

  download_attempts-Within :
      (fuel number transferred : ℕ) (w : World)
      → transferred ≤ m + frame
      → Within (m + frame) fuel w (download_attempts ports (some m) fuel number transferred w)
  unfolding download_attempts
  download_attempts-Within zero number transferred w h = record {
    reported = omega (arith, other_bytes);
    few_opened = omega arith;
  }
  download_attempts-Within (suc fuel) number transferred w h =
      let (body, w') = attempt_body ports (some m) number transferred w in
      let k = attempt_body-charge number transferred w h in
      after_attempt-Within (download_attempts ports (some m) fuel (number + 1)) fuel transferred
        body body.outcome w w' (λ t v. download_attempts-Within fuel (number + 1) t v) k.0 k.1

  -- However often a download is retried, and however it ends, the bytes that the caller is told of
  -- are at most `maximum_charged_bytes` and one transfer frame, if the downloader keeps to the
  -- `maximum_bytes` that it is given but for one frame, and the database reports no bytes; and at
  -- most `download_attempts` downloads are opened.
  pub download_and_archive-Within :
      (attempts : ℕ) (w : World)
      → Within (m + frame) attempts w (download_and_archive ports (some m) attempts w)
  unfolding download_and_archive
  download_and_archive-Within attempts w =
      let step = transition ports (discovered ∷ failed_retryable ∷ []) downloading in
      let t = transition-Transitioned ports (discovered ∷ failed_retryable ∷ []) downloading w in
      let v = (step w).1 in
      >>=-cases (Within (m + frame) attempts w) step
        (λ _. download_attempts ports (some m) attempts 1 0) w
        (λ _ _.
          let k = download_attempts-Within attempts 1 0 v (omega arith) in
          record {
            reported = k.reported;
            few_opened = omega (arith, k.few_opened, ap (length {A = Option ℕ}) (opened-of t));
          })
        (λ e h. record {
          reported = omega (arith, bytes-of t e h (obeys.transition_error w.status downloading));
          few_opened = omega (arith, ap (length {A = Option ℕ}) (opened-of t));
        })
