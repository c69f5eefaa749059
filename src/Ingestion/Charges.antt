-- ===== src/Ingestion/Charges.antt =====
-- application/ingestion.py and application/models.py: what an event costs, in staged rows, in
-- retained memory and, for a validation issue, in evidence.
use makolet.Prelude.{ℕ, ◌+◌, ◌*◌, ◌/◌, Option, none, some, length}
use makolet.Domain.Values.{
  Text, Value, Values, end, item, text, tuple, decimal, integer, dataclass, other, utf8_length,
  bit_length,
}
use makolet.Domain.Documents.{
  ParsedEvent, promotion, ValidationIssue, effective_promotion_store_ids,
}
use makolet.Domain.Documents.Fields.{event_value}

abbrev pub stage_container_overhead_bytes : ℕ
stage_container_overhead_bytes = 256

abbrev pub stage_scalar_overhead_bytes : ℕ
stage_scalar_overhead_bytes = 128

abbrev pub stage_persistence_row_overhead_bytes : ℕ
stage_persistence_row_overhead_bytes = 512

-- `_stage_units`.
unfoldable pub stage_units : ParsedEvent → ℕ
stage_units (promotion p) =
    1 + length p.items + length (effective_promotion_store_ids p) + length p.club_ids
stage_units _ = 1

-- `_retained_value_charge`.
unfoldable mutual
  pub retained_value_charge : Value → ℕ
  retained_value_charge (text s) = stage_scalar_overhead_bytes + 4 * length s
  retained_value_charge (tuple vs) = stage_container_overhead_bytes + retained_values_charge vs
  retained_value_charge (decimal d) = stage_scalar_overhead_bytes + 4 * length d.digits
  retained_value_charge (integer n) = stage_scalar_overhead_bytes + (bit_length n + 7) / 8
  retained_value_charge (dataclass vs) = stage_container_overhead_bytes + retained_values_charge vs
  retained_value_charge other = stage_scalar_overhead_bytes

  pub retained_values_charge : Values → ℕ
  retained_values_charge end = 0
  retained_values_charge (item v vs) = retained_value_charge v + retained_values_charge vs

-- `_stage_memory_charge`.
unfoldable pub stage_memory_charge : ParsedEvent → ℕ → ℕ
unfolding retained_value_charge retained_values_charge event_value
stage_memory_charge event units =
    retained_value_charge (event_value event) + units * stage_persistence_row_overhead_bytes

abbrev optional_utf8_length : Option Text → ℕ
optional_utf8_length none = 0
optional_utf8_length (some s) = utf8_length s

-- `validation_issue_charge`.
unfoldable pub validation_issue_charge : ValidationIssue → ℕ
unfolding utf8_length
validation_issue_charge v =
    64
    + (utf8_length v.code
        + utf8_length v.message
        + optional_utf8_length v.field_name
        + optional_utf8_length v.rejected_value)
