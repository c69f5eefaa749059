-- ===== src/Ingestion/Service/Settling.antt =====
-- Where a run of `_ingest` leaves its file.
use makolet.Prelude.{
  ℕ, ◌≡◌, ◌⊎◌, inl, inr, refl, ap, ◌∙◌, true, false, Option, none, List, [], ◌∷◌, arith, Bool-cases,
}
use makolet.Domain.Errors.{ErrorKind, Failure}
use makolet.Domain.Status.{
  IngestionStatus, completed, quarantined, failed_retryable, failed_terminal, applying, is_status,
  in_statuses, ensure_ingestion_transition,
}
use makolet.Exec.{Result, ok, err, >>=-cases, try_bind-cases}
use makolet.Ingestion.Policy.{IngestionPolicy}
use makolet.Ingestion.Ports.{Ports}
use makolet.Ingestion.World.{World, checked_transition, moved, registered_source_file}
use makolet.Ingestion.World.History.{Transitioned, refused, made, transition-Transitioned}
use makolet.Ingestion.Download.{is_exception}
use makolet.Ingestion.Service.{
  IngestionResult, failure_target, finished_statuses, record_failure, ingest_owned, ingest_pending,
  fail_ingestion, ensure_archived, move_if, apply, apply_staged, parse_validate_apply,
  parse_and_stage, validate, attributed, duplicate_result,
}
use makolet.Ingestion.Service.Outcomes.{Answers, failure_target_allowed, record_failure-answers}

abbrev settled_statuses : List IngestionStatus
settled_statuses = completed ∷ quarantined ∷ failed_retryable ∷ failed_terminal ∷ []

-- How a run ends: completed, or with an error, and then settled or cancelled.
abbrev pub Ends : Result IngestionResult × World → Type 0
Ends (ok r, w) = (w.status ≡ completed) × (r.status ≡ completed)
Ends (err e, w) = (is_exception e.kind ≡ false) ⊎ (in_statuses w.status settled_statuses ≡ true)

target_settled :
    (s : IngestionStatus) (kind : ErrorKind)
    → in_statuses (failure_target s kind) settled_statuses ≡ true
unfolding failure_target in_statuses is_status
target_settled s kind = ground arith

finished_settled :
    (s : IngestionStatus)
    → in_statuses s finished_statuses ≡ true
    → in_statuses s settled_statuses ≡ true
unfolding in_statuses is_status
finished_settled s h = ground arith

waiting_settled :
    (s : IngestionStatus)
    → is_status s failed_retryable ≡ true
    → in_statuses s settled_statuses ≡ true
unfolding in_statuses is_status
waiting_settled s h = ground arith

not_waiting :
    (s : IngestionStatus) → is_status s failed_retryable ≡ false → ¬ (s ≡ failed_retryable)
unfolding is_status
not_waiting s h e = cc (ap (λ x. is_status x failed_retryable) e, h)

-- A failure that the state machine refuses finds the file settled.
refused_settled :
    (s : IngestionStatus) (kind : ErrorKind) (e : Failure)
    → in_statuses s finished_statuses ≡ false
    → ensure_ingestion_transition s (failure_target s kind) ≡ err e
    → in_statuses s settled_statuses ≡ true
refused_settled s kind e h refusal = elim (Bool-cases (is_status s failed_retryable)) [
  | inl waits ↦ waiting_settled s waits
  | inr other ↦ cc (failure_target_allowed s kind h (λ w. absurd (not_waiting s other w)), refusal)
]

checked_settled :
    (r : Result (Unit {0})) (target : IngestionStatus) (w : World)
    → in_statuses target settled_statuses ≡ true
    → ((e : Failure) → r ≡ err e → in_statuses w.status settled_statuses ≡ true)
    → in_statuses (checked_transition r none target w).1.status settled_statuses ≡ true
unfolding moved
checked_settled (ok _) target w settles stays = settles
checked_settled (err e) target w settles stays = stays e refl

module _ (ports : Ports) (policy : IngestionPolicy) (answers : Answers ports) where
  -- With a database that answers, a recorded failure settles its file.
  record_failure-settles :
      (kind : ErrorKind) (w : World)
      → in_statuses (record_failure ports policy kind w).1.status settled_statuses ≡ true
  record_failure-settles kind w =
      ap (λ p. in_statuses p.1.status settled_statuses)
        (record_failure-answers ports policy answers w kind)
      ∙ elim (Bool-cases (in_statuses w.status finished_statuses)) [
        | inl finished ↦ rw finished (finished_settled w.status finished)
        | inr pending ↦ rw pending (
            checked_settled _ (failure_target w.status kind) w (target_settled w.status kind)
              (λ e. refused_settled w.status kind e pending))
      ]

  fail_ingestion-Ends : (n : ℕ) (e : Failure) (w : World) → Ends (fail_ingestion ports policy n e w)
  fail_ingestion-Ends n e w = elim (Bool-cases (is_exception e.kind)) [
    | inl seen ↦
        unfold fail_ingestion in
        rw seen (
          go (record_failure ports policy (attributed ports policy n e).kind w)
            (record_failure-settles (attributed ports policy n e).kind w))
    | inr unseen ↦ unfold fail_ingestion in rw unseen (inl unseen)
  ]
    where
      go :
          (p : Result (Unit {0}) × World)
          → in_statuses p.1.status settled_statuses ≡ true
          → Ends (elim p.0 [ ok _ ↦ err (attributed ports policy n e) | err f ↦ err f ], p.1)
      go (ok _, w') h = inr h
      go (err f, w') h = inr h

-- An action that returns has left the file completed.
abbrev Done {ℓ} : {A : Type ℓ} → Result A × World → Type 0
Done (ok _, w) = w.status ≡ completed
Done (err e, w) = Unit

Done-ok {ℓ} :
    {A : Type ℓ} (p : Result A × World) (a : A) → Done p → p.0 ≡ ok a → p.1.status ≡ completed
Done-ok (ok _, w) a h e = h
Done-ok (err f, w) a h e = cc e

module _ (ports : Ports) (policy : IngestionPolicy) where
  move-Done :
      (expected : List IngestionStatus) (w : World)
      → Done (move_if ports policy true expected completed w)
  unfolding move_if
  move-Done expected w = go (transition-Transitioned ports expected completed w)
    where
      go : {p : Result (Unit {0}) × World} → Transitioned ports expected completed w p → Done p
      go (refused e h) = tt
      go (made m a) = unfold moved in refl

  apply_staged-Done : (w : World) → Done (apply_staged ports policy true w)
  unfolding apply_staged
  apply_staged-Done w =
      >>=-cases Done (move_if ports policy true _ _) _ w
        (λ _ _.
          >>=-cases Done (apply ports policy) _ _
            (λ _ _.
              >>=-cases Done (move_if ports policy true (applying ∷ []) completed) _ _
                (λ _ h. Done-ok _ _ (move-Done (applying ∷ []) _) h) (λ _ _. tt))
            (λ _ _. tt))
        (λ _ _. tt)

  parse_validate_apply-Done : (w : World) → Done (parse_validate_apply ports policy true w)
  unfolding parse_validate_apply
  parse_validate_apply-Done w =
      >>=-cases Done (parse_and_stage ports policy true) _ w
        (λ summary _.
          >>=-cases Done (validate ports policy true summary) _ _
            (λ _ _.
              >>=-cases Done (apply_staged ports policy true) _ _
                (λ _ h. Done-ok _ _ (apply_staged-Done _) h) (λ _ _. tt))
            (λ _ _. tt))
        (λ _ _. tt)

is_status-≡ : (s : IngestionStatus) → is_status s completed ≡ true → s ≡ completed
unfolding is_status
is_status-≡ s h = ground arith

-- With a database that answers, and whatever else fails, a run of `_ingest` over an owned file that
-- returns leaves the file completed and says so. A run that raises something other than a
-- cancellation leaves the file completed, quarantined, waiting for a retry or terminally failed.
pub ingest_owned-Ends :
    (ports : Ports) (policy : IngestionPolicy) (limit : Option ℕ) (w : World)
    → Answers ports
    → Ends (ingest_owned ports policy limit w)
ingest_owned-Ends ports policy limit w answers = elim (Bool-cases (is_status w.status completed)) [
  | inl finished ↦
      unfold ingest_owned duplicate_result in rw finished (is_status-≡ w.status finished, refl)
  | inr pending ↦
      unfold ingest_owned ingest_pending in
      rw pending (
        try_bind-cases Ends (ensure_archived ports policy limit (registered_source_file w))
          (fail_ingestion ports policy 0) _ w
          (λ a _.
            try_bind-cases Ends (parse_validate_apply ports policy true)
              (fail_ingestion ports policy a.transferred_bytes) _ _
              (λ done h. (Done-ok _ _ (parse_validate_apply-Done ports policy _) h, refl))
              (λ e _. fail_ingestion-Ends ports policy answers a.transferred_bytes e _))
          (λ e _. fail_ingestion-Ends ports policy answers 0 e _))
]
