-- ===== src/Worker/Scheduler/Invariant.antt =====
-- What every interleaving of the scheduler and its consumers keeps, and what a pass over the schedules
-- does for the sources that are due.
use makolet.Prelude.{
  ℕ, suc, ◌+◌, ◌≤◌, ◌<◌, ◌≡◌, ◌⊎◌, inl, inr, refl, sym, ap, ◌∙◌, subst, Bool, true, false, ◌||◌,
  ◌&&◌, not, List, [], ◌∷◌, ◌++◌, length, length-append, ltb, leb, leb→le, map, if_cases, text_eq,
  text_eq_iff, Bool-cases, arith,
}
use makolet.Domain.Documents.{text_in}
use makolet.Domain.Values.{Text}
use makolet.Worker.Sources.{SourceSchedule}
use makolet.Worker.Scheduler.{
  WorkerPolicy, Scheduler, new_scheduler, enqueue, enqueue_due, without, start_source,
  finish_source, Step, enqueued, started, finished, Reaches, initially, then_step,
}

-- How often a source stands in a list.
abbrev one_if : Bool → ℕ
one_if true = 1
one_if false = 0

abbrev pub count : Text → List Text → ℕ
count id [] = 0
count id (x ∷ xs) = one_if (text_eq id x) + count id xs

count-append : (id : Text) (xs ys : List Text) → count id (xs ++ ys) ≡ count id xs + count id ys
count-append id [] ys = omega arith
count-append id (x ∷ xs) ys = omega (arith, count-append id xs ys)

count-without :
    (id x : Text) (xs : List Text)
    → text_in x xs ≡ true
    → count id (without x xs) + one_if (text_eq id x) ≡ count id xs
unfolding text_in without
count-without id x [] h = cc h
count-without id x (y ∷ ys) h =
    if_cases (λ zs. count id zs + one_if (text_eq id x) ≡ one_if (text_eq id y) + count id ys)
      (text_eq x y) ys (y ∷ without x ys) (λ same. same_count same)
      (λ other. omega (arith, count-without id x ys (ground (arith, h, other))))
  where
    same_count :
        text_eq x y ≡ true
        → count id ys + one_if (text_eq id x) ≡ one_if (text_eq id y) + count id ys
    same_count same = omega (arith, ap (λ z. one_if (text_eq id z)) ((text_eq_iff x y).0 same))

length-without : (x : Text) (xs : List Text) → length (without x xs) ≤ length xs
unfolding without
length-without x [] = omega arith
length-without x (y ∷ ys) =
    if_cases (λ zs. length zs ≤ suc (length ys)) (text_eq x y) ys (y ∷ without x ys)
      (λ _. omega arith) (λ _. omega (arith, length-without x ys))

-- A source that is pending stands once in the queue or with a consumer, any other nowhere, and neither
-- the queue nor the consumers hold more than they may.
pub record IsSound (policy : WorkerPolicy) (s : Scheduler) : Type 0 where
  pub placed : (id : Text) → count id s.queue + count id s.running ≡ one_if (s.pending id)
  pub queued : length s.queue ≤ policy.queue_capacity
  pub consumed : length s.running ≤ policy.concurrency

placed_now :
    (is_new pending : Bool) (a b : ℕ)
    → (is_new ≡ true → pending ≡ false)
    → a + b ≡ one_if pending
    → a + (one_if is_new + 0) + b ≡ one_if (is_new || pending)
placed_now true pending a b idle h = omega (arith, h, ap one_if (idle refl))
placed_now false pending a b idle h = omega (arith, h)

placed_less :
    (is_done pending : Bool) (a b c : ℕ)
    → a + b ≡ one_if pending
    → c + one_if is_done ≡ b
    → a + c ≡ one_if (not is_done && pending)
placed_less true true a b c h less = omega (arith, h, less)
placed_less true false a b c h less = omega (arith, h, less)
placed_less false pending a b c h less = omega (arith, h, less)

module _ (policy : WorkerPolicy) where
  enqueue-IsSound :
      (later : ℕ) (id : Text) (s : Scheduler)
      → s.pending id ≡ false
      → length s.queue < policy.queue_capacity
      → IsSound policy s
      → IsSound policy (enqueue later id s)
  enqueue-IsSound later id s idle room h = record {
    placed = λ other.
        ap (λ n. n + count other s.running) (count-append other s.queue (id ∷ []))
        ∙ placed_now (text_eq other id) (s.pending other) (count other s.queue)
            (count other s.running) (λ same. ap s.pending ((text_eq_iff other id).0 same) ∙ idle)
            (h.placed other);
    queued = omega (arith, length-append s.queue (id ∷ []), room);
    consumed = h.consumed;
  }

  enqueue_due-IsSound :
      (now : ℕ) (delay : SourceSchedule → ℕ) (schedules : List SourceSchedule) (s : Scheduler)
      → IsSound policy s
      → IsSound policy (enqueue_due policy now delay schedules s)
  unfolding enqueue_due
  enqueue_due-IsSound now delay [] s h = h
  enqueue_due-IsSound now delay (x ∷ xs) s h =
      if_cases (IsSound policy) (ltb now (s.next_due x.source_id) || s.pending x.source_id) _ _
        (λ _. enqueue_due-IsSound now delay xs s h)
        (λ wanted.
          if_cases (IsSound policy) (leb policy.queue_capacity (length s.queue)) _ _ (λ _. h)
            (λ room. enqueue_due-IsSound now delay xs (enqueue (now + delay x) x.source_id s) (
              enqueue-IsSound (now + delay x) x.source_id s (ground (arith, wanted))
                (ground (arith, room)) h)))

  start_source-IsSound :
      (id : Text) (rest : List Text) (s : Scheduler)
      → s.queue ≡ id ∷ rest
      → length s.running < policy.concurrency
      → IsSound policy s
      → IsSound policy (start_source id rest s)
  start_source-IsSound id rest s head room h = record {
    placed = λ other. omega (arith, h.placed other, ap (count other) head);
    queued = omega (arith, h.queued, ap length head);
    consumed = omega (arith, room);
  }

  finish_source-IsSound :
      (id : Text) (s : Scheduler)
      → text_in id s.running ≡ true
      → IsSound policy s
      → IsSound policy (finish_source id s)
  unfolding finish_source
  finish_source-IsSound id s busy h = record {
    placed = λ other.
        placed_less (text_eq other id) (s.pending other) (count other s.queue)
          (count other s.running) (count other (without id s.running)) (h.placed other)
          (count-without other id s.running busy);
    queued = h.queued;
    consumed = omega (arith, h.consumed, length-without id s.running);
  }

  Step-IsSound :
      (schedules : List SourceSchedule) (s t : Scheduler)
      → Step policy schedules s t
      → IsSound policy s
      → IsSound policy t
  Step-IsSound schedules s t (enqueued now delay) h = enqueue_due-IsSound now delay schedules s h
  Step-IsSound schedules s t (started {id = id} {rest = rest} head room) h =
      start_source-IsSound id rest s head room h
  Step-IsSound schedules s t (finished id busy) h = finish_source-IsSound id s busy h

  -- Whatever the schedules, the clock and the order in which the tasks change over: from the start on,
  -- a source that is pending stands exactly once in the queue or with one consumer, any other source
  -- in neither, and the queue and the consumers stay within `queue_capacity` and `concurrency`. So no
  -- source is ever collected twice at a time.
  pub reached-IsSound :
      (schedules : List SourceSchedule) (now : ℕ) (delay : SourceSchedule → ℕ) (s : Scheduler)
      → Reaches policy schedules (new_scheduler now delay schedules) s
      → IsSound policy s
  unfolding new_scheduler
  reached-IsSound schedules now delay s initially = record {
    placed = λ id. refl;
    queued = omega arith;
    consumed = omega arith;
  }
  reached-IsSound schedules now delay t (then_step {s = s} before step) =
      Step-IsSound schedules s t step (reached-IsSound schedules now delay s before)

  -- The source is pending or not yet due, or the queue is full.
  abbrev pub IsHandled : ℕ → Text → Scheduler → Type 0
  IsHandled now id s =
      (s.pending id ≡ true) ⊎ ((now < s.next_due id) ⊎ (policy.queue_capacity ≤ length s.queue))

  module _ (now : ℕ) (delay : SourceSchedule → ℕ) where
    enqueue-IsHandled :
        (later : ℕ) (id new : Text) (s : Scheduler)
        → IsHandled now id s
        → IsHandled now id (enqueue later new s)
    enqueue-IsHandled later id new s (inl pending) = inl (ground (arith, pending))
    enqueue-IsHandled later id new s (inr (inr full)) =
        inr (inr (omega (arith, full, length-append s.queue (new ∷ []))))
    enqueue-IsHandled later id new s (inr (inl early)) = elim (Bool-cases (text_eq id new)) [
      | inl same ↦ inl (ground (arith, same))
      | inr other ↦ inr (inl (rw other early))
    ]

    enqueue_due-IsHandled :
        (id : Text) (xs : List SourceSchedule) (s : Scheduler)
        → IsHandled now id s
        → IsHandled now id (enqueue_due policy now delay xs s)
    unfolding enqueue_due
    enqueue_due-IsHandled id [] s h = h
    enqueue_due-IsHandled id (x ∷ xs) s h =
        if_cases (IsHandled now id) (ltb now (s.next_due x.source_id) || s.pending x.source_id) _ _
          (λ _. enqueue_due-IsHandled id xs s h)
          (λ _.
            if_cases (IsHandled now id) (leb policy.queue_capacity (length s.queue)) _ _ (λ _. h)
              (λ _.
                enqueue_due-IsHandled id xs (enqueue (now + delay x) x.source_id s)
                  (enqueue-IsHandled (now + delay x) id x.source_id s h)))

    skipped-IsHandled :
        (id : Text) (s : Scheduler)
        → (ltb now (s.next_due id) || s.pending id) ≡ true
        → IsHandled now id s
    skipped-IsHandled id s h = ground (arith, h)

    -- A pass over the schedules passes over no source: afterwards each scheduled source is pending or
    -- not yet due, or the queue is full.
    pub enqueue_due-all :
        (id : Text) (xs : List SourceSchedule) (s : Scheduler)
        → text_in id (map (λ x. x.source_id) xs) ≡ true
        → IsHandled now id (enqueue_due policy now delay xs s)
    unfolding enqueue_due text_in
    enqueue_due-all id [] s h = cc h
    enqueue_due-all id (x ∷ xs) s h =
        if_cases (IsHandled now id) (ltb now (s.next_due x.source_id) || s.pending x.source_id) _ _
          (λ skipped. elim (Bool-cases (text_eq id x.source_id)) [
            | inl same ↦ enqueue_due-IsHandled id xs s (
                subst (λ i. IsHandled now i s) (sym ((text_eq_iff id x.source_id).0 same))
                  (skipped-IsHandled x.source_id s skipped))
            | inr other ↦ enqueue_due-all id xs s (ground (arith, h, other))
          ])
          (λ wanted.
            if_cases (IsHandled now id) (leb policy.queue_capacity (length s.queue)) _ _
              (λ full. inr (inr (leb→le policy.queue_capacity (length s.queue) full)))
              (λ room.
                let t = enqueue (now + delay x) x.source_id s in
                elim (Bool-cases (text_eq id x.source_id)) [
                  | inl same ↦ enqueue_due-IsHandled id xs t (inl (ground (arith, same)))
                  | inr other ↦ enqueue_due-all id xs t (ground (arith, h, other))
                ]))
