-- ===== src/Ingestion/Download/Keeping.antt =====
-- What the repository's writes keep, the download keeps.
use makolet.Prelude.{ℕ, zero, suc, ◌+◌, Bool, ◌&&◌, Option, ◌∷◌, ltb, inl, inr, Bool-cases}
use makolet.Domain.Values.{Instant}
use makolet.Domain.Remote.{is_sha256, last_segment}
use makolet.Exec.{Result, ok, err, Exec, Keeps, >>=-Keeps}
use makolet.Ingestion.Ports.{Ports, Attempt, Put}
use makolet.Ingestion.World.{World, transition}
use makolet.Ingestion.World.Stable.{Stable}
use makolet.Ingestion.Download.{
  ArchivedDownload, Body, after_finish, after_put, after_open, object_of, attempt_body,
  after_attempt, is_exhausted, remaining_bytes, is_retryable, handled_failure, failed_bytes,
  download_attempts, download_and_archive,
}

module _ (ports : Ports) (P : World → Type 0) (stable : Stable ports P) where
  open stable use {on_archive, on_opened}

  after_finish-Keeps :
      (a : Attempt) (put : Put) (r : Result Instant) (w : World)
      → P w
      → P (after_finish ports a put r w).1
  after_finish-Keeps a put (err e) w h = h
  after_finish-Keeps a put (ok _) w h =
      elim (Bool-cases (is_sha256 (last_segment put.object_key))) [
        | inl sha ↦ rw sha (on_archive (object_of put) put.created w h)
        | inr not_sha ↦ rw not_sha h
      ]

  after_put-Keeps : (a : Attempt) (r : Result Put) (w : World) → P w → P (after_put ports a r w).1
  after_put-Keeps a (err e) w h = h
  after_put-Keeps a (ok put) w h = after_finish-Keeps a put a.finished w h

  after_open-Keeps :
      (a : Attempt) (r : Result (Unit {0})) (w : World) → P w → P (after_open ports a r w).1
  after_open-Keeps a (err e) w h = h
  after_open-Keeps a (ok _) w h = after_put-Keeps a a.put w h

  attempt_body-Keeps :
      (limit : Option ℕ) (number transferred : ℕ) (w : World)
      → P w
      → P (attempt_body ports limit number transferred w).1
  attempt_body-Keeps limit number transferred w h =
      elim (Bool-cases (is_exhausted limit transferred)) [
        | inl spent ↦ unfold attempt_body in rw spent h
        | inr left ↦
            unfold attempt_body in
            rw left (
              let o = remaining_bytes limit transferred in
              let a = ports.download number o in
              after_open-Keeps a a.opened (record w { opened = o ∷ w.opened }) (on_opened o w h))
      ]

  after_attempt-Keeps :
      (again : ℕ → Exec World (ArchivedDownload × Bool)) (fuel transferred : ℕ) (body : Body)
      (r : Result (ArchivedDownload × Bool))
      → ((t : ℕ) → Keeps P (again t))
      → Keeps P (after_attempt again fuel transferred body r)
  after_attempt-Keeps again fuel transferred body (ok (a, d)) kept w h = unfold after_attempt in h
  after_attempt-Keeps again fuel transferred body (err e) kept w h =
      let total = transferred + failed_bytes body e in
      elim (Bool-cases (is_retryable (handled_failure e total) && ltb 0 fuel)) [
        | inl retry ↦ unfold after_attempt in rw retry (kept total w h)
        | inr stop ↦ unfold after_attempt in rw stop h
      ]

  download_attempts-Keeps :
      (limit : Option ℕ) (fuel number transferred : ℕ)
      → Keeps P (download_attempts ports limit fuel number transferred)
  unfolding download_attempts
  download_attempts-Keeps limit zero number transferred w h = h
  download_attempts-Keeps limit (suc fuel) number transferred w h =
      let b = attempt_body ports limit number transferred w in
      after_attempt-Keeps (download_attempts ports limit fuel (number + 1)) fuel transferred b.0
        b.0.outcome (λ t. download_attempts-Keeps limit fuel (number + 1) t) b.1
        (attempt_body-Keeps limit number transferred w h)

  pub download_and_archive-Keeps :
      (limit : Option ℕ) (attempts : ℕ) → Keeps P (download_and_archive ports limit attempts)
  unfolding download_and_archive
  download_and_archive-Keeps limit attempts =
      >>=-Keeps P (transition ports _ _) _ (stable.quiet.on_transition _ _)
        (λ _. download_attempts-Keeps limit attempts 1 0)
