-- ===== src/Collection/Budget.antt =====
-- application/models.py: `DiscoveryRunBudget`, the requests and bytes that the listings of one run
-- may take. The clock is a float: an operation is told whether the time is used up.
pub mod Bounds
use makolet.Prelude.{
  ℕ, ◌+◌, ◌-◌, Bool, true, false, ◌&&◌, ◌||◌, List, [], ◌∷◌, ltb, leb, if◌then◌else◌,
}
use makolet.Domain.Errors.{ErrorKind, failure}
use makolet.Exec.{Result, ok, err, Exec, pure, raise, is_ok, ◌>>=◌, ◌>>◌}

pub record DiscoveryRunBudget : Type 0 where
  pub maximum_requests : ℕ
  pub maximum_bytes : ℕ
  pub request_count : ℕ
  pub consumed_bytes : ℕ

-- The constructor and `__post_init__`.
unfoldable pub create : ℕ → ℕ → Result DiscoveryRunBudget
unfolding failure
create maximum_requests maximum_bytes =
    if leb 1 maximum_requests && leb maximum_requests 1000000
    then if leb 1 maximum_bytes && leb maximum_bytes 1073741824
      then ok (record {
        maximum_requests = maximum_requests;
        maximum_bytes = maximum_bytes;
        request_count = 0;
        consumed_bytes = 0;
      })
      else err (failure ErrorKind.value_error)
    else err (failure ErrorKind.value_error)

abbrev pub remaining_bytes : DiscoveryRunBudget → ℕ
remaining_bytes b = b.maximum_bytes - b.consumed_bytes

unfoldable pub checkpoint : Bool → Exec DiscoveryRunBudget (Unit {0})
unfolding failure
checkpoint elapsed_exhausted b =
    if elapsed_exhausted then (err (failure ErrorKind.discovery_budget_exceeded), b) else (ok tt, b)

-- `begin_request`, after the checkpoint.
unfoldable pub take_request : ℕ → Exec DiscoveryRunBudget (Unit {0})
unfolding failure
take_request minimum_bytes b =
    if leb b.maximum_requests b.request_count
    then (err (failure ErrorKind.discovery_budget_exceeded), b)
    else if ltb (remaining_bytes b) minimum_bytes || leb (remaining_bytes b) 0
    then (err (failure ErrorKind.discovery_budget_exceeded), b)
    else (ok tt, record b { request_count = b.request_count + 1 })

unfoldable pub begin_request : Bool → ℕ → Exec DiscoveryRunBudget (Unit {0})
unfolding checkpoint take_request ◌>>=◌
begin_request elapsed_exhausted minimum_bytes = do
  checkpoint elapsed_exhausted
  take_request minimum_bytes

-- `consume_bytes`, after the checkpoint.
unfoldable pub take_bytes : ℕ → Exec DiscoveryRunBudget (Unit {0})
unfolding failure
take_bytes byte_count b =
    if ltb (remaining_bytes b) byte_count
    then (err (failure ErrorKind.discovery_budget_exceeded), b)
    else (ok tt, record b { consumed_bytes = b.consumed_bytes + byte_count })

unfoldable pub consume_bytes : Bool → ℕ → Exec DiscoveryRunBudget (Unit {0})
unfolding checkpoint take_bytes ◌>>=◌
consume_bytes elapsed_exhausted byte_count = do checkpoint elapsed_exhausted; take_bytes byte_count
