-- ===== src/Domain/Status/Laws.antt =====
-- The lifecycle table of domain/enums.py: its edges, and the paths along them.
use makolet.Prelude.{◌≡◌, ◌↔◌, ◌⊎◌, refl, subst, inl, inr, true, arith}
use makolet.Exec.{ok}
use makolet.Domain.Status.{
  IngestionStatus, discovered, downloading, archived, parsing, staged, validating, applying,
  completed, quarantined, failed_retryable, failed_terminal, is_status, in_statuses,
  allowed_transitions, ensure_ingestion_transition,
}

-- No status follows these.
pub data IsTerminal : IngestionStatus → Type 0 where
  done : IsTerminal completed
  rejected : IsTerminal quarantined
  dead : IsTerminal failed_terminal

-- The stages between the archive and the end of the apply, where a bad document is set aside.
pub data HasDocument : IngestionStatus → Type 0 where
  at_archived : HasDocument archived
  at_parsing : HasDocument parsing
  at_staged : HasDocument staged
  at_validating : HasDocument validating
  at_applying : HasDocument applying

-- The stages that wait for or move the bytes of the file.
pub data AwaitsDocument : IngestionStatus → Type 0 where
  at_discovered : AwaitsDocument discovered
  at_downloading : AwaitsDocument downloading

-- The next stage of the pipeline.
pub data Advances : IngestionStatus → IngestionStatus → Type 0 where
  download : Advances discovered downloading
  store : Advances downloading archived
  parse : Advances archived parsing
  stage : Advances parsing staged
  validate : Advances staged validating
  apply : Advances validating applying
  complete : Advances applying completed

-- Where a retry takes the file up again.
pub data Resumes : IngestionStatus → Type 0 where
  to_archived : Resumes archived
  to_downloading : Resumes downloading
  to_parsing : Resumes parsing
  to_validating : Resumes validating
  to_applying : Resumes applying

infix 40 ◌⟶◌
-- The transitions by their purpose.
pub data ◌⟶◌ : IngestionStatus → IngestionStatus → Type 0 where
  advance : {s t : IngestionStatus} → Advances s t → s ⟶ t
  set_aside : {s : IngestionStatus} → HasDocument s → s ⟶ quarantined
  defer : {s : IngestionStatus} → HasDocument s → s ⟶ failed_retryable
  defer_early : {s : IngestionStatus} → AwaitsDocument s → s ⟶ failed_retryable
  give_up : {s : IngestionStatus} → HasDocument s → s ⟶ failed_terminal
  give_up_early : {s : IngestionStatus} → AwaitsDocument s → s ⟶ failed_terminal
  give_up_retry : failed_retryable ⟶ failed_terminal
  resume : {t : IngestionStatus} → Resumes t → failed_retryable ⟶ t

pub ruleset stages = (
  done, rejected, dead, at_archived, at_parsing, at_staged, at_validating, at_applying,
  at_discovered, at_downloading, download, store, parse, stage, validate, apply, complete,
  to_archived, to_downloading, to_parsing, to_validating, to_applying,
)

pub ruleset edges =
    (stages, advance, set_aside, defer, defer_early, give_up, give_up_early, give_up_retry, resume)

pub status_eq : (a b : IngestionStatus) → is_status a b ≡ true → a ≡ b
unfolding is_status
status_eq a b h = ground arith

edge-of_allowed : (s t : IngestionStatus) → in_statuses t (allowed_transitions s) ≡ true → s ⟶ t
unfolding in_statuses allowed_transitions
edge-of_allowed discovered t h = grind (arith, edges)
edge-of_allowed s t h = grind (arith, edges)

in_statuses-edge : {s t : IngestionStatus} → s ⟶ t → in_statuses t (allowed_transitions s) ≡ true
unfolding in_statuses allowed_transitions
in_statuses-edge (advance download) = refl
in_statuses-edge (advance _) = refl
in_statuses-edge (set_aside at_archived) = refl
in_statuses-edge (set_aside _) = refl
in_statuses-edge (defer at_archived) = refl
in_statuses-edge (defer _) = refl
in_statuses-edge (defer_early at_discovered) = refl
in_statuses-edge (defer_early _) = refl
in_statuses-edge (give_up at_archived) = refl
in_statuses-edge (give_up _) = refl
in_statuses-edge (give_up_early at_discovered) = refl
in_statuses-edge (give_up_early _) = refl
in_statuses-edge give_up_retry = refl
in_statuses-edge (resume to_archived) = refl
in_statuses-edge (resume _) = refl

-- `ensure_ingestion_transition` returns exactly for the edges of the lifecycle: the next stage of
-- the pipeline, a quarantine or a failure from a stage that has the document, a failure from a
-- stage before that, and, from a retryable failure, a resumption or the terminal failure.
pub ensure_ingestion_transition_iff :
    (s t : IngestionStatus) → (ensure_ingestion_transition s t ≡ ok tt) ↔ (s ⟶ t)
unfolding ensure_ingestion_transition
ensure_ingestion_transition_iff s t =
    (λ h. edge-of_allowed s t (ground arith), λ e. ground (arith, in_statuses-edge e))

infix 40 ◌⟶*◌
-- A path of transitions that the check lets pass.
pub data ◌⟶*◌ : IngestionStatus → IngestionStatus → Type 0 where
  here : {s : IngestionStatus} → s ⟶* s
  then : {s t u : IngestionStatus} → ensure_ingestion_transition s t ≡ ok tt → t ⟶* u → s ⟶* u

terminal_edge : {s t : IngestionStatus} → IsTerminal s → s ⟶ t → ⊥
unfolding in_statuses allowed_transitions
terminal_edge done e = cc (in_statuses-edge e)
terminal_edge rejected e = cc (in_statuses-edge e)
terminal_edge dead e = cc (in_statuses-edge e)

-- A path of allowed transitions from a completed, quarantined or terminally failed file stays there.
pub terminal_absorbs : {s t : IngestionStatus} → IsTerminal s → s ⟶* t → t ≡ s
terminal_absorbs d here = refl
terminal_absorbs {s} d (then {t = t} h p) =
    absurd (terminal_edge d ((ensure_ingestion_transition_iff s t).0 h))

from_applying : applying ⟶* completed
unfolding ensure_ingestion_transition
from_applying = then refl here

from_validating : validating ⟶* completed
unfolding ensure_ingestion_transition
from_validating = then refl from_applying

from_staged : staged ⟶* completed
unfolding ensure_ingestion_transition
from_staged = then refl from_validating

from_parsing : parsing ⟶* completed
unfolding ensure_ingestion_transition
from_parsing = then refl from_staged

from_archived : archived ⟶* completed
unfolding ensure_ingestion_transition
from_archived = then refl from_parsing

from_downloading : downloading ⟶* completed
unfolding ensure_ingestion_transition
from_downloading = then refl from_archived

pub from_discovered : discovered ⟶* completed
unfolding ensure_ingestion_transition
from_discovered = then refl from_downloading

from_failed_retryable : failed_retryable ⟶* completed
unfolding ensure_ingestion_transition
from_failed_retryable = then refl from_archived

-- Every status is terminal or has a path of allowed transitions to `completed`.
pub completes : (s : IngestionStatus) → IsTerminal s ⊎ (s ⟶* completed)
completes completed = inl done
completes quarantined = inl rejected
completes failed_terminal = inl dead
completes applying = inr from_applying
completes validating = inr from_validating
completes staged = inr from_staged
completes parsing = inr from_parsing
completes archived = inr from_archived
completes downloading = inr from_downloading
completes discovered = inr from_discovered
completes failed_retryable = inr from_failed_retryable

before_completed :
    (t : IngestionStatus) → ensure_ingestion_transition t completed ≡ ok tt → t ≡ applying
unfolding ensure_ingestion_transition
before_completed t h = ground arith

-- A path that is at the status at its start or further on.
abbrev pub Visits : (v : IngestionStatus) {s t : IngestionStatus} → s ⟶* t → Type 0
Visits v {s} here = s ≡ v
Visits v {s} (then h p) = (s ≡ v) ⊎ Visits v p

passed_on_way :
    {s u : IngestionStatus} (p : s ⟶* u) → u ≡ completed → (s ≡ completed) ⊎ Visits applying p
passed_on_way here e = inl e
passed_on_way {s} (then {t = t} h p) e = elim (passed_on_way p e) [
  | inl at ↦
      inr (inl (before_completed s (subst (λ v. ensure_ingestion_transition s v ≡ ok tt) at h)))
  | inr later ↦ inr (inr later)
]

-- Every path of allowed transitions to `completed` starts there or is at `applying` on its way.
pub completed_predecessor :
    {s : IngestionStatus} (p : s ⟶* completed) → (s ≡ completed) ⊎ Visits applying p
completed_predecessor p = passed_on_way p refl
