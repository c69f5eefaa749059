-- ===== src/Domain/Status/Diagram.antt =====
-- domain/enums.py and the state diagram of docs/ingestion-lifecycle.md, under "Happy path and duplicate
-- path".
use makolet.Prelude.{◌≡◌, ◌↔◌, refl, sym, ◌∙◌, Bool, true, ◌&&◌, ◌||◌, not, List, [], ◌∷◌, arith}
use makolet.Exec.{ok}
use makolet.Domain.Status.{
  IngestionStatus, discovered, downloading, archived, parsing, staged, validating, applying,
  completed, quarantined, failed_retryable, failed_terminal, is_status, in_statuses,
  allowed_transitions, ensure_ingestion_transition,
}

-- The arrows of the diagram, by where they start.
abbrev pub drawn : IngestionStatus → List IngestionStatus
drawn discovered = downloading ∷ failed_retryable ∷ failed_terminal ∷ []
drawn downloading = archived ∷ failed_retryable ∷ failed_terminal ∷ []
drawn archived = staged ∷ parsing ∷ failed_retryable ∷ quarantined ∷ []
drawn parsing = staged ∷ failed_retryable ∷ quarantined ∷ []
drawn staged = validating ∷ failed_retryable ∷ quarantined ∷ []
drawn validating = applying ∷ failed_retryable ∷ quarantined ∷ []
drawn applying = completed ∷ failed_retryable ∷ quarantined ∷ []
drawn failed_retryable = downloading ∷ parsing ∷ validating ∷ applying ∷ failed_terminal ∷ []
drawn completed = []
drawn quarantined = []
drawn failed_terminal = []

-- The stages that the diagram draws no terminal failure from.
abbrev pub stored_stages : List IngestionStatus
stored_stages = archived ∷ parsing ∷ staged ∷ validating ∷ applying ∷ []

-- The arrow for staging that is used again, which the code does not follow.
abbrev pub reuses_staging : IngestionStatus → IngestionStatus → Bool
reuses_staging s t = is_status s archived && is_status t staged

-- The transitions that are not drawn.
abbrev pub undrawn : IngestionStatus → IngestionStatus → Bool
undrawn s t =
    (is_status s failed_retryable && is_status t archived)
    || (in_statuses s stored_stages && is_status t failed_terminal)

abbrev pub as_drawn : IngestionStatus → IngestionStatus → Bool
as_drawn s t = (in_statuses t (drawn s) && not (reuses_staging s t)) || undrawn s t

allowed-as_drawn : (s t : IngestionStatus) → in_statuses t (allowed_transitions s) ≡ as_drawn s t
unfolding in_statuses allowed_transitions is_status
allowed-as_drawn discovered discovered = refl
allowed-as_drawn discovered _ = refl
allowed-as_drawn downloading discovered = refl
allowed-as_drawn downloading _ = refl
allowed-as_drawn archived discovered = refl
allowed-as_drawn archived _ = refl
allowed-as_drawn parsing discovered = refl
allowed-as_drawn parsing _ = refl
allowed-as_drawn staged discovered = refl
allowed-as_drawn staged _ = refl
allowed-as_drawn validating discovered = refl
allowed-as_drawn validating _ = refl
allowed-as_drawn applying discovered = refl
allowed-as_drawn applying _ = refl
allowed-as_drawn completed discovered = refl
allowed-as_drawn completed _ = refl
allowed-as_drawn quarantined discovered = refl
allowed-as_drawn quarantined _ = refl
allowed-as_drawn failed_retryable discovered = refl
allowed-as_drawn failed_retryable _ = refl
allowed-as_drawn failed_terminal discovered = refl
allowed-as_drawn failed_terminal _ = refl

-- `ensure_ingestion_transition` returns exactly for the arrows of the diagram, but for that from
-- `archived` to `staged`, and for two kinds of transitions that are not drawn: from
-- `failed_retryable` to `archived`, and from the stages `archived` to `applying` to
-- `failed_terminal`.
pub ensure_ingestion_transition-as_drawn :
    (s t : IngestionStatus) → (ensure_ingestion_transition s t ≡ ok tt) ↔ (as_drawn s t ≡ true)
unfolding ensure_ingestion_transition
ensure_ingestion_transition-as_drawn s t =
    let same = allowed-as_drawn s t in
    (λ h. sym same ∙ ground arith, λ h. let e = same ∙ h in ground arith)
