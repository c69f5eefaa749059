-- ===== src/Ingestion/World/History.antt =====
-- `transition` of adapters/persistence/ingestion.py: what it does to the row and to its history.
use makolet.Prelude.{
  ◌≡◌, ◌⊎◌, inl, inr, refl, ap, sym, ◌∙◌, Bool, true, Option, none, some, List, [], ◌∷◌, arith,
  Bool-cases,
}
use makolet.Domain.Errors.{ErrorKind, Failure, failure, error_bytes}
use makolet.Domain.Status.{
  IngestionStatus, archived, downloading, is_status, in_statuses, ensure_ingestion_transition,
}
use makolet.Exec.{Result, ok, err, Keeps}
use makolet.Ingestion.World.Stable.{Stable}
use makolet.Ingestion.Ports.{Ports, Attachment}
use makolet.Ingestion.World.{World, moved, transition, checked_transition, record_archive, attach}

-- How a transition ends: refused, and then by the checks or by the database, or made.
pub data Transitioned (ports : Ports) (expected : List IngestionStatus) (target : IngestionStatus)
    (w : World) : Result (Unit {0}) × World → Type 0 where
  refused :
      (e : Failure)
      → (error_bytes e ≡ 0) ⊎ (ports.database_failure w.status target ≡ some e)
      → Transitioned ports expected target w (err e, w)
  made :
      in_statuses w.status expected ≡ true
      → ensure_ingestion_transition w.status target ≡ ok tt
      → Transitioned ports expected target w (ok tt, moved w target)

same_failure : {f e : Failure} → ◌≡◌ {A = Result (Unit {0})} (err f) (err e) → e ≡ f
same_failure x = cc x

refusal_bytes :
    (s t : IngestionStatus) (e : Failure)
    → ensure_ingestion_transition s t ≡ err e
    → error_bytes e ≡ 0
unfolding ensure_ingestion_transition error_bytes
refusal_bytes s t e h = ground arith

plain_bytes : (k : ErrorKind) → error_bytes (failure k) ≡ 0
unfolding error_bytes failure
plain_bytes k = ground arith

module _ (ports : Ports) (target : IngestionStatus) (w : World) where
  checked :
      (expected : List IngestionStatus) (r : Result (Unit {0})) (failed : Option Failure)
      → in_statuses w.status expected ≡ true
      → ensure_ingestion_transition w.status target ≡ r
      → ports.database_failure w.status target ≡ failed
      → Transitioned ports expected target w (checked_transition r failed target w)
  checked expected (ok _) none member allowed quiet = made member allowed
  checked expected (ok _) (some e) member allowed fails = refused e (inr fails)
  checked expected (err e) failed member allowed quiet =
      refused e (inl (refusal_bytes w.status target e allowed))

  -- `transition` makes the move, or leaves everything as it was.
  transition_cases :
      (expected : List IngestionStatus)
      → Transitioned ports expected target w (transition ports expected target w)
  transition_cases [] =
      unfold transition in
      refused (failure ErrorKind.value_error) (inl (plain_bytes ErrorKind.value_error))
  transition_cases (x ∷ xs) = elim (Bool-cases (in_statuses w.status (x ∷ xs))) [
    | inl member ↦
        unfold transition in
        rw member (
          checked (x ∷ xs) (ensure_ingestion_transition w.status target)
            (ports.database_failure w.status target) member refl refl)
    | inr stranger ↦
        unfold transition in
        rw stranger (
          refused (failure ErrorKind.persistence_conflict)
            (inl (plain_bytes ErrorKind.persistence_conflict)))
  ]

pub transition-Transitioned :
    (ports : Ports) (expected : List IngestionStatus) (target : IngestionStatus) (w : World)
    → Transitioned ports expected target w (transition ports expected target w)
transition-Transitioned ports expected target w = transition_cases ports target w expected

module _ {ports : Ports} {expected : List IngestionStatus} {target : IngestionStatus}
    {w : World} where
  pub opened-of :
      {p : Result (Unit {0}) × World}
      → Transitioned ports expected target w p
      → p.1.opened ≡ w.opened
  unfolding moved
  opened-of (refused e h) = refl
  opened-of (made m a) = refl

  pub bytes-of :
      {p : Result (Unit {0}) × World}
      → Transitioned ports expected target w p
      → (e : Failure) → p.0 ≡ err e
      → ((f : Failure) → ports.database_failure w.status target ≡ some f → error_bytes f ≡ 0)
      → error_bytes e ≡ 0
  bytes-of (refused f (inl none_moved)) e x quiet = ap error_bytes (same_failure x) ∙ none_moved
  bytes-of (refused f (inr fails)) e x quiet = quiet e (fails ∙ ap some (sym (same_failure x)))
  bytes-of (made m a) e x quiet = cc x

-- The recorded events lead from `start` to the status, newest first, each along an allowed
-- transition.
abbrev Leads : IngestionStatus → List (IngestionStatus × IngestionStatus) → IngestionStatus → Type 0
Leads start [] s = s ≡ start
Leads start ((a, b) ∷ older) s =
    (s ≡ b) × (ensure_ingestion_transition a b ≡ ok tt) × Leads start older a

-- The row's status is where its recorded history ends.
abbrev pub IsHistory : IngestionStatus → World → Type 0
IsHistory start w = Leads start w.events w.status

transition-IsHistory :
    (ports : Ports) (start : IngestionStatus) (expected : List IngestionStatus)
    (target : IngestionStatus)
    → Keeps (IsHistory start) (transition ports expected target)
transition-IsHistory ports start expected target w h =
    go (transition-Transitioned ports expected target w)
  where
    go :
        {p : Result (Unit {0}) × World}
        → Transitioned ports expected target w p
        → IsHistory start p.1
    go (refused e why) = h
    go (made member allowed) = unfold moved in (refl, allowed, h)

attach-IsHistory :
    (start : IngestionStatus) (failed : Option Failure) (reused : Bool) (object : Attachment)
    (w : World)
    → ensure_ingestion_transition w.status archived ≡ ok tt
    → IsHistory start w
    → IsHistory start (attach failed reused object w).1
attach-IsHistory start (some e) reused object w allowed h = h
attach-IsHistory start none reused object w allowed h = (refl, allowed, h)

archive_allowed :
    (s : IngestionStatus)
    → is_status s downloading ≡ true
    → ensure_ingestion_transition s archived ≡ ok tt
unfolding is_status ensure_ingestion_transition
archive_allowed s h = ground arith

record_archive-IsHistory :
    (ports : Ports) (start : IngestionStatus) (object : Attachment) (created : Bool)
    → Keeps (IsHistory start) (record_archive ports object created)
record_archive-IsHistory ports start object created w h =
    elim (Bool-cases (is_status w.status downloading)) [
      | inl now ↦
          unfold record_archive in
          rw now (attach-IsHistory start _ _ object w (archive_allowed w.status now) h)
      | inr not_now ↦ unfold record_archive in rw not_now h
    ]

-- Every write of the repository keeps the history whole.
pub IsHistory-Stable : (ports : Ports) (start : IngestionStatus) → Stable ports (IsHistory start)
IsHistory-Stable ports start = record {
  quiet = record {
    on_transition = transition-IsHistory ports start;
    on_staged = λ b w h. h;
    on_applies = λ n w h. h;
  };
  on_archive = record_archive-IsHistory ports start;
  on_opened = λ o w h. h;
}
