-- ===== src/Domain/Status.antt =====
-- domain/enums.py: the lifecycle of a source file and the table of its transitions.
pub mod Laws
pub mod Diagram
use makolet.Prelude.{ℕ, ◌≡◌, Bool, true, false, ◌||◌, List, [], ◌∷◌, arith, ◌==◌, if◌then◌else◌}
use makolet.Domain.Errors.{ErrorKind, Failure, failure}
use makolet.Exec.{Result, ok, err}

pub data IngestionStatus : Type 0 where
  discovered downloading archived parsing staged validating applying : IngestionStatus
  completed quarantined failed_retryable failed_terminal : IngestionStatus

-- The position of a status in the enumeration; `==` on statuses compares it.
abbrev rank : IngestionStatus → ℕ
rank discovered = 0
rank downloading = 1
rank archived = 2
rank parsing = 3
rank staged = 4
rank validating = 5
rank applying = 6
rank completed = 7
rank quarantined = 8
rank failed_retryable = 9
rank failed_terminal = 10

-- `a is b`.
unfoldable pub is_status : IngestionStatus → IngestionStatus → Bool
is_status a b = rank a == rank b

-- `s in statuses`.
unfoldable pub in_statuses : IngestionStatus → List IngestionStatus → Bool
unfolding is_status
in_statuses s [] = false
in_statuses s (t ∷ ts) = is_status s t || in_statuses s ts

-- `_ALLOWED_TRANSITIONS`.
unfoldable pub allowed_transitions : IngestionStatus → List IngestionStatus
allowed_transitions discovered = downloading ∷ failed_retryable ∷ failed_terminal ∷ []
allowed_transitions downloading = archived ∷ failed_retryable ∷ failed_terminal ∷ []
allowed_transitions archived = parsing ∷ quarantined ∷ failed_retryable ∷ failed_terminal ∷ []
allowed_transitions parsing = staged ∷ quarantined ∷ failed_retryable ∷ failed_terminal ∷ []
allowed_transitions staged = validating ∷ quarantined ∷ failed_retryable ∷ failed_terminal ∷ []
allowed_transitions validating = applying ∷ quarantined ∷ failed_retryable ∷ failed_terminal ∷ []
allowed_transitions applying = completed ∷ quarantined ∷ failed_retryable ∷ failed_terminal ∷ []
allowed_transitions failed_retryable =
    archived ∷ downloading ∷ parsing ∷ validating ∷ applying ∷ failed_terminal ∷ []
allowed_transitions completed = []
allowed_transitions quarantined = []
allowed_transitions failed_terminal = []

-- `ensure_ingestion_transition`.
unfoldable pub ensure_ingestion_transition : IngestionStatus → IngestionStatus → Result (Unit {0})
unfolding allowed_transitions in_statuses failure
ensure_ingestion_transition current target =
    if in_statuses target (allowed_transitions current)
    then ok tt
    else err (failure ErrorKind.invalid_state_transition)
