-- ===== src/Ingestion/Policy.antt =====
-- application/ingestion.py: `IngestionPolicy`. Its integers are natural numbers here, so that the
-- checks against negative values have nothing left to refuse. A fraction is a Python float: the
-- policy holds the test that the service makes with it.
use makolet.Prelude.{ℕ, Bool, ◌&&◌, Option, none, some, ltb, if◌then◌else◌}
use makolet.Domain.Errors.{ErrorKind, failure}
use makolet.Domain.Documents.{DocumentType, is_price}
use makolet.Exec.{Result, ok, err}

pub record IngestionPolicy : Type 0 where
  pub stage_batch_size : ℕ
  pub maximum_stage_batch_bytes : ℕ
  pub download_attempts : ℕ
  pub minimum_full_records : Option ℕ
  pub minimum_full_store_records : ℕ
  pub minimum_full_price_records : ℕ
  pub minimum_full_promotion_records : ℕ
  -- `rejected / evaluated > self.maximum_record_rejection_fraction`
  pub rejection_exceeds : ℕ → ℕ → Bool
  pub maximum_validation_issues : ℕ
  pub maximum_validation_issue_bytes : ℕ

-- `__post_init__`, as far as the fields above go.
unfoldable pub check_policy : IngestionPolicy → Result (Unit {0})
unfolding failure
check_policy p =
    if ltb 0 p.stage_batch_size
      && (ltb 0 p.maximum_stage_batch_bytes
          && (ltb 0 p.download_attempts
              && (ltb 0 p.maximum_validation_issues && ltb 0 p.maximum_validation_issue_bytes)))
    then ok tt
    else err (failure ErrorKind.value_error)

abbrev family_minimum : IngestionPolicy → DocumentType → ℕ
family_minimum p DocumentType.stores = p.minimum_full_store_records
family_minimum p t =
    if is_price t then p.minimum_full_price_records else p.minimum_full_promotion_records

unfoldable pub minimum_full_records_for : IngestionPolicy → DocumentType → ℕ
unfolding is_price
minimum_full_records_for p t = elim p.minimum_full_records [
  | some n ↦ n
  | none ↦ family_minimum p t
]
