-- ===== src/Collection/Budget/Bounds.antt =====
-- What a discovery budget lets through over a whole run.
use makolet.Prelude.{
  ℕ, ◌+◌, ◌≤◌, ◌<◌, ◌≡◌, ◌↔◌, refl, sym, ◌∙◌, Bool, true, false, List, [], ◌∷◌, arith,
  if◌then◌else◌, Bool-cases, inl, inr,
}
use makolet.Domain.Errors.{Failure}
use makolet.Exec.{Result, ok, err, Exec, is_ok, ◌>>=◌}
use makolet.Collection.Budget.{
  DiscoveryRunBudget, create, checkpoint, take_request, begin_request, take_bytes, consume_bytes,
}

-- A call of the budget. Whether it raises or not, the next call finds the budget as it left it.
pub data Call : Type 0 where
  request : (elapsed_exhausted : Bool) (minimum_bytes : ℕ) → Call
  consume : (elapsed_exhausted : Bool) (byte_count : ℕ) → Call

unfoldable pub perform : Call → Exec DiscoveryRunBudget (Unit {0})
perform (request elapsed minimum) = begin_request elapsed minimum
perform (consume elapsed count) = consume_bytes elapsed count

abbrev pub requests_of : Call → ℕ
requests_of (request _ _) = 1
requests_of (consume _ _) = 0

abbrev pub bytes_of : Call → ℕ
bytes_of (request _ _) = 0
bytes_of (consume _ count) = count

-- The requests and the bytes of the calls that return.
unfoldable pub granted : (Call → ℕ) → List Call → DiscoveryRunBudget → ℕ
unfolding perform
granted measure [] b = 0
granted measure (call ∷ calls) b =
    let rest = granted measure calls (perform call b).1 in
    if is_ok (perform call b).0 then measure call + rest else rest

-- What one call does to the counts.
record Counted (call : Call) (b : DiscoveryRunBudget) (p : Result (Unit {0}) × DiscoveryRunBudget)
    : Type 0 where
  same_requests : p.1.maximum_requests ≡ b.maximum_requests
  same_bytes : p.1.maximum_bytes ≡ b.maximum_bytes
  requests : p.1.request_count ≡ b.request_count + (if is_ok p.0 then requests_of call else 0)
  bytes : p.1.consumed_bytes ≡ b.consumed_bytes + (if is_ok p.0 then bytes_of call else 0)
  requests_fit : p.1.request_count ≤ b.maximum_requests
  bytes_fit : p.1.consumed_bytes ≤ b.maximum_bytes

Counted-refused :
    (call : Call) (b : DiscoveryRunBudget) (e : Failure)
    → b.request_count ≤ b.maximum_requests
    → b.consumed_bytes ≤ b.maximum_bytes
    → Counted call b (err e, b)
Counted-refused call b e r c = record {
  same_requests = refl;
  same_bytes = refl;
  requests = omega arith;
  bytes = omega arith;
  requests_fit = r;
  bytes_fit = c;
}

perform-Counted :
    (call : Call) (b : DiscoveryRunBudget)
    → b.request_count ≤ b.maximum_requests
    → b.consumed_bytes ≤ b.maximum_bytes
    → Counted call b (perform call b)
unfolding perform begin_request consume_bytes checkpoint take_request take_bytes ◌>>=◌
perform-Counted (request true minimum) b r c = Counted-refused (request true minimum) b _ r c
perform-Counted (request false minimum) b r c = record {
  same_requests = ground arith;
  same_bytes = ground arith;
  requests = ground arith;
  bytes = ground arith;
  requests_fit = ground arith;
  bytes_fit = ground arith;
}
perform-Counted (consume true count) b r c = Counted-refused (consume true count) b _ r c
perform-Counted (consume false count) b r c = record {
  same_requests = ground arith;
  same_bytes = ground arith;
  requests = ground arith;
  bytes = ground arith;
  requests_fit = ground arith;
  bytes_fit = ground arith;
}

-- The calls that return add up to no more than what is left.
granted_fits :
    (calls : List Call) (b : DiscoveryRunBudget)
    → b.request_count ≤ b.maximum_requests
    → b.consumed_bytes ≤ b.maximum_bytes
    → (b.request_count + granted requests_of calls b ≤ b.maximum_requests)
      × (b.consumed_bytes + granted bytes_of calls b ≤ b.maximum_bytes)
unfolding granted
granted_fits [] b r c = (omega arith, omega arith)
granted_fits (call ∷ calls) b r c =
    let k = perform-Counted call b r c in
    let v = (perform call b).1 in
    let (rest_requests, rest_bytes) =
      granted_fits calls v (omega (arith, k.requests_fit, k.same_requests))
        (omega (arith, k.bytes_fit, k.same_bytes)) in
    elim (Bool-cases (is_ok (perform call b).0)) [
      | inl returned ↦
          let q : v.request_count ≡ b.request_count + requests_of call =
            rw returned at k.requests in
          let n : v.consumed_bytes ≡ b.consumed_bytes + bytes_of call = rw returned at k.bytes in
          rw returned (
            omega (arith, q, rest_requests, k.same_requests),
            omega (arith, n, rest_bytes, k.same_bytes),
          )
      | inr raised ↦
          let q : v.request_count ≡ b.request_count + 0 = rw raised at k.requests in
          let n : v.consumed_bytes ≡ b.consumed_bytes + 0 = rw raised at k.bytes in
          rw raised (
            omega (arith, q, rest_requests, k.same_requests),
            omega (arith, n, rest_bytes, k.same_bytes),
          )
    ]

created_counts :
    (maximum_requests maximum_bytes : ℕ) (b : DiscoveryRunBudget)
    → create maximum_requests maximum_bytes ≡ ok b
    → (b.maximum_requests ≡ maximum_requests)
      × (b.maximum_bytes ≡ maximum_bytes)
      × (b.request_count ≡ 0)
      × (b.consumed_bytes ≡ 0)
unfolding create
created_counts r m b h = ground arith

-- Of the calls of a new budget, in any order and with callers that go on after an exception, at most
-- `maximum_requests` requests return, and the bytes whose charges return are at most
-- `maximum_bytes` in all.
pub granted-create :
    (maximum_requests maximum_bytes : ℕ) (b : DiscoveryRunBudget) (calls : List Call)
    → create maximum_requests maximum_bytes ≡ ok b
    → (granted requests_of calls b ≤ maximum_requests) × (granted bytes_of calls b ≤ maximum_bytes)
granted-create r m b calls h =
    let (same_requests, same_bytes, no_requests, no_bytes) = created_counts r m b h in
    let (requests, bytes) =
      granted_fits calls b (omega (arith, no_requests)) (omega (arith, no_bytes)) in
    (
      omega (arith, requests, same_requests, no_requests),
      omega (arith, bytes, same_bytes, no_bytes),
    )

-- The budget that calls leave.
abbrev pub after_calls : List Call → DiscoveryRunBudget → DiscoveryRunBudget
after_calls [] b = b
after_calls (call ∷ calls) b = after_calls calls (perform call b).1

-- Its counts are those of the calls that have returned.
record Tallied (calls : List Call) (b : DiscoveryRunBudget) : Type 0 where
  same_requests : (after_calls calls b).maximum_requests ≡ b.maximum_requests
  same_bytes : (after_calls calls b).maximum_bytes ≡ b.maximum_bytes
  requests : (after_calls calls b).request_count ≡ b.request_count + granted requests_of calls b
  bytes : (after_calls calls b).consumed_bytes ≡ b.consumed_bytes + granted bytes_of calls b

after_calls-Tallied :
    (calls : List Call) (b : DiscoveryRunBudget)
    → b.request_count ≤ b.maximum_requests
    → b.consumed_bytes ≤ b.maximum_bytes
    → Tallied calls b
unfolding granted
after_calls-Tallied [] b r c = record {
  same_requests = refl;
  same_bytes = refl;
  requests = omega arith;
  bytes = omega arith;
}
after_calls-Tallied (call ∷ calls) b r c =
    let k = perform-Counted call b r c in
    let t =
      after_calls-Tallied calls (perform call b).1 (omega (arith, k.requests_fit, k.same_requests))
        (omega (arith, k.bytes_fit, k.same_bytes)) in
    record {
      same_requests = t.same_requests ∙ k.same_requests;
      same_bytes = t.same_bytes ∙ k.same_bytes;
      requests = elim (Bool-cases (is_ok (perform call b).0)) [
        | inl e ↦ let q = rw e at k.requests in rw e (omega (arith, q, t.requests))
        | inr e ↦ let q = rw e at k.requests in rw e (omega (arith, q, t.requests))
      ];
      bytes = elim (Bool-cases (is_ok (perform call b).0)) [
        | inl e ↦ let q = rw e at k.bytes in rw e (omega (arith, q, t.bytes))
        | inr e ↦ let q = rw e at k.bytes in rw e (omega (arith, q, t.bytes))
      ];
    }

request_left :
    (elapsed_exhausted : Bool) (minimum_bytes : ℕ) (b : DiscoveryRunBudget)
    → ((begin_request elapsed_exhausted minimum_bytes b).0 ≡ ok tt) ↔ (
        (elapsed_exhausted ≡ false)
        × (b.request_count < b.maximum_requests)
        × (b.consumed_bytes + minimum_bytes ≤ b.maximum_bytes)
        × (b.consumed_bytes < b.maximum_bytes))
unfolding begin_request checkpoint take_request ◌>>=◌
request_left true minimum b = (λ h. cc h, λ h. cc (h.0))
request_left false minimum b = ground arith

-- After any calls of a new budget, a request returns exactly if time is left, fewer than
-- `maximum_requests` requests have returned so far, and the bytes whose charges have returned leave
-- at least one byte and the minimum of the request.
pub begin_request-granted :
    (maximum_requests maximum_bytes : ℕ) (b : DiscoveryRunBudget) (calls : List Call)
    (elapsed_exhausted : Bool) (minimum_bytes : ℕ)
    → create maximum_requests maximum_bytes ≡ ok b
    → ((begin_request elapsed_exhausted minimum_bytes (after_calls calls b)).0 ≡ ok tt) ↔ (
        (elapsed_exhausted ≡ false)
        × (granted requests_of calls b < maximum_requests)
        × (granted bytes_of calls b + minimum_bytes ≤ maximum_bytes)
        × (granted bytes_of calls b < maximum_bytes))
begin_request-granted r m b calls elapsed minimum h =
    let (same_requests, same_bytes, no_requests, no_bytes) = created_counts r m b h in
    let t = after_calls-Tallied calls b (omega (arith, no_requests)) (omega (arith, no_bytes)) in
    let q = request_left elapsed minimum (after_calls calls b) in
    let more_requests : (after_calls calls b).request_count ≡ granted requests_of calls b =
      omega (arith, t.requests, no_requests) in
    let more_bytes : (after_calls calls b).consumed_bytes ≡ granted bytes_of calls b =
      omega (arith, t.bytes, no_bytes) in
    rw
      (
        sym more_requests,
        sym more_bytes,
        sym (t.same_requests ∙ same_requests),
        sym (t.same_bytes ∙ same_bytes),
      )
      q
