-- ===== src/Ingestion/Service/History.antt =====
-- What a run of the ingestion service leaves in the history of a source file, and what an archived
-- object spares it.
use makolet.Prelude.{ℕ, ◌≡◌, true, refl, Option, none, some, List, inl, inr, Bool-cases, arith}
use makolet.Domain.Status.{IngestionStatus, is_status, completed}
use makolet.Exec.{Exec, Keeps, try_bind-Keeps}
use makolet.Ingestion.Policy.{IngestionPolicy}
use makolet.Ingestion.Ports.{Ports, Attachment, RegisteredSourceFile}
use makolet.Domain.Values.{Text}
use makolet.Ingestion.World.{World, transition, moved, registered_source_file}
use makolet.Ingestion.World.Stable.{Quiet}
use makolet.Ingestion.World.History.{
  IsHistory, IsHistory-Stable, refused, made, transition-Transitioned,
}
use makolet.Ingestion.Service.{
  ingest, archive_only, ingest_owned, ingest_pending, verify_archived, ensure_archived,
  fail_ingestion, parse_validate_apply, Archived, fetch_archived,
}
use makolet.Ingestion.Service.Keeping.{
  ingest-Keeps, archive_only-Keeps, verify_archived-Keeps, fail_ingestion-Keeps,
  parse_validate_apply-Keeps,
}

-- Whatever the collaborators answer, `ingest` and `archive_only` keep the history of a file whole: if
-- its recorded events lead from `start` to its status along allowed transitions, they do so after.
pub ingest-IsHistory :
    (ports : Ports) (policy : IngestionPolicy) (limit : Option ℕ) (start : IngestionStatus)
    (w : World)
    → IsHistory start w
    → IsHistory start (ingest ports policy limit w).1
      × IsHistory start (archive_only ports policy limit w).1
ingest-IsHistory ports policy limit start w h = (
  ingest-Keeps ports policy (IsHistory start) (IsHistory-Stable ports start) limit w h,
  archive_only-Keeps ports policy (IsHistory start) (IsHistory-Stable ports start) limit w h,
)

-- No download was opened since, and the object is the same.
abbrev IsSpared : List (Option ℕ) → Option Attachment → World → Type 0
IsSpared opened object w = (w.opened ≡ opened) × (w.attachment ≡ object)

transition-IsSpared :
    (ports : Ports) (opened : List (Option ℕ)) (object : Option Attachment)
    (expected : List IngestionStatus) (target : IngestionStatus)
    → Keeps (IsSpared opened object) (transition ports expected target)
transition-IsSpared ports opened object expected target w h =
    elim (transition-Transitioned ports expected target w) as (λ p _. IsSpared opened object p.1) [
      | refused e why ↦ h
      | made member allowed ↦ unfold moved in h
    ]

IsSpared-Quiet :
    (ports : Ports) (opened : List (Option ℕ)) (object : Option Attachment)
    → Quiet ports (IsSpared opened object)
IsSpared-Quiet ports opened object = record {
  on_transition = transition-IsSpared ports opened object;
  on_staged = λ b w h. h;
  on_applies = λ n w h. h;
}

attached_key :
    (w : World) (object : Attachment)
    → w.attachment ≡ some object
    → (registered_source_file w).archive_object_key ≡ some object.object_key
unfolding registered_source_file
attached_key w object attached = ground arith

attached-Keeps :
    (ports : Ports) (policy : IngestionPolicy) (P : World → Type 0) (quiet : Quiet ports P)
    (limit : Option ℕ) (r : RegisteredSourceFile) (key : Text)
    → r.archive_object_key ≡ some key
    → Keeps P (ensure_archived ports policy limit r)
unfolding ensure_archived
attached-Keeps ports policy P quiet limit r key attached w h = go r.archive_object_key attached
  where
    go :
        (k : Option Text)
        → k ≡ some key
        → P
            ((elim k as (λ _. Exec World Archived) [
              | some key' ↦ verify_archived ports policy key' r
              | none ↦ fetch_archived ports policy limit
            ])
              w).1
    go (some key') e = verify_archived-Keeps ports policy P quiet key' r w h
    go none e = cc e

-- A run of `_ingest` over an owned file that has its archived object opens no download and leaves the
-- file with the same object, however the run ends.
pub ingest_owned_attached :
    (ports : Ports) (policy : IngestionPolicy) (limit : Option ℕ) (w : World) (object : Attachment)
    → w.attachment ≡ some object
    → ((ingest_owned ports policy limit w).1.opened ≡ w.opened)
      × ((ingest_owned ports policy limit w).1.attachment ≡ some object)
ingest_owned_attached ports policy limit w object attached =
    let P = IsSpared w.opened (some object) in
    let quiet = IsSpared-Quiet ports w.opened (some object) in
    elim (Bool-cases (is_status w.status completed)) [
      | inl finished ↦ unfold ingest_owned in rw finished (refl, attached)
      | inr pending ↦
          unfold ingest_owned ingest_pending in
          rw pending (
            try_bind-Keeps P (ensure_archived ports policy limit (registered_source_file w))
              (fail_ingestion ports policy 0) _
              (attached-Keeps ports policy P quiet limit (registered_source_file w)
                object.object_key (attached_key w object attached))
              (fail_ingestion-Keeps ports policy P quiet 0)
              (λ a.
                try_bind-Keeps P (parse_validate_apply ports policy true)
                  (fail_ingestion ports policy a.transferred_bytes) _
                  (parse_validate_apply-Keeps ports policy P quiet true)
                  (fail_ingestion-Keeps ports policy P quiet a.transferred_bytes) (λ _ _ k. k))
              w (refl, attached))
    ]
