-- ===== src/Collection/Policy/Sufficiency.antt =====
-- A policy that `CollectionPolicy` accepts lets a run start: its listing budget can be made, and a file of
-- any protocol can be reserved for in full.
use makolet.Prelude.{
  ℕ, ◌≤◌, ◌<◌, ◌≡◌, refl, ap, ◌∙◌, Bool, true, ◌&&◌, none, some, leb, if_cases, arith,
}
use makolet.Domain.Documents.{SourceProtocol}
use makolet.Exec.{Result, ok, err, is_ok}
use makolet.Collection.Budget.{DiscoveryRunBudget, create}
use makolet.Collection.Ledger.{CollectionChargeBudget}
use makolet.Collection.Reservation.{
  charge_budget_reason, remaining_bytes, protocol_overhead, full_reservation, reservation_within,
  reserved_bytes,
}
use makolet.Collection.Traversal.{TraversalPolicy}
use makolet.Collection.Policy.{
  valid_counts, valid_bytes, valid_day, after_budget, check_collection_policy,
}

-- What a day has charged before its first run.
abbrev pub new_day : CollectionChargeBudget
new_day = record {
  run_charged_bytes = 0;
  day_charged_bytes = 0;
  day_source_identities = 0;
  day_transfer_attempts = 0;
  day_successes = 0;
}

module _ (policy : TraversalPolicy) where
  open policy use {charges}

  accepted :
      (budget : Result DiscoveryRunBudget) (elapsed lease : Bool)
      → after_budget policy budget
          (elapsed && valid_counts policy && valid_bytes policy && lease && valid_day policy)
        ≡ ok tt
      → (is_ok budget ≡ true) × (valid_bytes policy ≡ true) × (valid_day policy ≡ true)
  accepted (err e) elapsed lease h = cc h
  accepted (ok b) elapsed lease h =
      if_cases
        (λ r.
          r ≡ ok tt
          → (is_ok (ok b) ≡ true) × (valid_bytes policy ≡ true) × (valid_day policy ≡ true))
        (elapsed && valid_counts policy && valid_bytes policy && lease && valid_day policy) _ _
        (λ valid _. (refl, ground (arith, valid), ground (arith, valid))) (λ _ k. cc k) h

  full_fits :
      (protocol : SourceProtocol)
      → valid_bytes policy ≡ true
      → (full_reservation charges protocol ≤ charges.maximum_charged_bytes_per_source_run)
        × (charges.maximum_charged_bytes_per_source_run
            ≤ charges.maximum_charged_bytes_per_source_day)
        × (charges.maximum_transfer_chunk_bytes < full_reservation charges protocol)
  unfolding valid_bytes full_reservation protocol_overhead
  full_fits SourceProtocol.ftp h = ground (arith, h)
  full_fits SourceProtocol.ftps h = ground (arith, h)
  full_fits SourceProtocol.http h = ground (arith, h)
  full_fits SourceProtocol.https h = ground (arith, h)
  full_fits SourceProtocol.fixture h = ground (arith, h)

  -- A new day is not over.
  open_day :
      valid_day policy ≡ true
      → 1 ≤ charges.maximum_charged_bytes_per_source_run
      → charges.maximum_charged_bytes_per_source_run ≤ charges.maximum_charged_bytes_per_source_day
      → charge_budget_reason charges new_day ≡ none
  unfolding valid_day charge_budget_reason
  open_day day run ordered = ground (arith, day, run, ordered)

  reserves :
      (protocol : SourceProtocol)
      → (full_reservation charges protocol ≤ charges.maximum_charged_bytes_per_source_run)
        × (charges.maximum_charged_bytes_per_source_run
            ≤ charges.maximum_charged_bytes_per_source_day)
        × (charges.maximum_transfer_chunk_bytes < full_reservation charges protocol)
      → reservation_within charges protocol new_day none ≡ some (full_reservation charges protocol)
  unfolding remaining_bytes
  reserves protocol (fits, ordered, more) = ground (arith, fits, ordered, more)

  full_reserved :
      (protocol : SourceProtocol)
      → valid_bytes policy ≡ true
      → valid_day policy ≡ true
      → reserved_bytes charges protocol new_day ≡ some (full_reservation charges protocol)
  unfolding reserved_bytes
  full_reserved protocol bytes day =
      let (fits, ordered, more) = full_fits protocol bytes in
      ap (reservation_within charges protocol new_day)
        (open_day day (omega (arith, fits, more)) ordered)
      ∙ reserves protocol (fits, ordered, more)

  -- With a policy that its own checks accept, `_collect_with_context` can always make its listing budget,
  -- and for the first file of a source's day, whatever its protocol, a whole archive object with its
  -- overhead is reserved.
  pub accepted_policy_suffices :
      (discovery_page_size : ℕ) (valid_elapsed valid_lease : Bool) (protocol : SourceProtocol)
      → check_collection_policy policy discovery_page_size valid_elapsed valid_lease ≡ ok tt
      → (is_ok (
            create policy.maximum_listing_requests_per_source_run
              policy.maximum_listing_bytes_per_source_run)
          ≡ true)
        × (reserved_bytes charges protocol new_day ≡ some (full_reservation charges protocol))
  unfolding check_collection_policy
  accepted_policy_suffices discovery_page_size valid_elapsed valid_lease protocol h =
      if_cases
        (λ r.
          r ≡ ok tt
          → (is_ok (
                create policy.maximum_listing_requests_per_source_run
                  policy.maximum_listing_bytes_per_source_run)
              ≡ true)
            × (reserved_bytes charges protocol new_day ≡ some (full_reservation charges protocol)))
        (leb 1 discovery_page_size && leb discovery_page_size 500) _ _
        (λ _ k.
          let (made, bytes, day) = accepted _ valid_elapsed valid_lease k in
          (made, full_reserved protocol bytes day))
        (λ _ k. cc k) h
