-- ===== src/Ingestion/World/Stable.antt =====
-- A rule for invariants of a source file's row: what the repository's writes keep.
use makolet.Prelude.{ℕ, Bool, Option, List, ◌∷◌}
use makolet.Domain.Status.{IngestionStatus}
use makolet.Domain.Documents.{ParsedEvent}
use makolet.Exec.{Keeps}
use makolet.Ingestion.Ports.{Ports, Attachment}
use makolet.Ingestion.World.{World, transition, record_archive, get}

-- The property outlasts the writes that follow the archive.
pub record Quiet (ports : Ports) (P : World → Type 0) : Type 0 where
  pub on_transition :
      (expected : List IngestionStatus) (target : IngestionStatus)
      → Keeps P (transition ports expected target)
  pub on_staged : (b : List (List ParsedEvent)) (w : World) → P w → P (record w { staged = b })
  pub on_applies : (n : ℕ) (w : World) → P w → P (record w { applies = n })

-- The property outlasts every write.
pub record Stable (ports : Ports) (P : World → Type 0) : Type 0 where
  pub quiet : Quiet ports P
  pub on_archive :
      (object : Attachment) (created : Bool) → Keeps P (record_archive ports object created)
  pub on_opened : (o : Option ℕ) (w : World) → P w → P (record w { opened = o ∷ w.opened })

module _ (ports : Ports) (P : World → Type 0) where
  pub get-Keeps : Keeps P (get ports)
  unfolding get
  get-Keeps w h = h
