-- ===== src/Domain/Documents/Fields.antt =====
-- `dataclasses.fields` of the parsed events, in the order of domain/models.py: what the ingestion
-- service charges for. A `StrEnum` member is a `str`.
use makolet.Prelude.{ℕ}
use makolet.Domain.Values.{
  Text, pos, Value, Values, end, text, tuple, decimal, integer, dataclass, literal, optional,
  opaque, bool_value, tuple_of, ◌▹◌,
}
use makolet.Domain.Documents.{
  DocumentType, IssueCategory, DiscountKind, DocumentMetadata, StoreRecord, PriceRecord,
  PromotionItem, PromotionRecord, ValidationIssue, ParsedEvent, metadata, store, price, promotion,
  issue,
}

unfoldable pub document_type_value : DocumentType → Text
document_type_value DocumentType.stores = literal "stores"
document_type_value DocumentType.price_full = literal "price_full"
document_type_value DocumentType.price_delta = literal "price_delta"
document_type_value DocumentType.promotion_full = literal "promotion_full"
document_type_value DocumentType.promotion_delta = literal "promotion_delta"
document_type_value DocumentType.unknown = literal "unknown"

unfoldable pub issue_category_value : IssueCategory → Text
issue_category_value IssueCategory.warning = literal "warning"
issue_category_value IssueCategory.record_rejection = literal "record_rejection"
issue_category_value IssueCategory.file_quarantine = literal "file_quarantine"
issue_category_value IssueCategory.source_failure = literal "source_failure"
issue_category_value IssueCategory.system_failure = literal "system_failure"

unfoldable pub discount_kind_value : DiscountKind → Text
discount_kind_value DiscountKind.fixed_price = literal "fixed_price"
discount_kind_value DiscountKind.percentage = literal "percentage"
discount_kind_value DiscountKind.amount = literal "amount"
discount_kind_value DiscountKind.quantity = literal "quantity"
discount_kind_value DiscountKind.second_item = literal "second_item"
discount_kind_value DiscountKind.mix_and_match = literal "mix_and_match"
discount_kind_value DiscountKind.conditional = literal "conditional"
discount_kind_value DiscountKind.unknown = literal "unknown"

abbrev index : ℕ → Value
index n = integer (pos n)

metadata_fields : DocumentMetadata → Values
unfolding document_type_value
metadata_fields m =
    opaque m.source_file_id
    ▹ text (document_type_value m.document_type)
    ▹ optional text m.chain_id
    ▹ optional text m.subchain_id
    ▹ optional text m.store_id
    ▹ optional text m.audit_number
    ▹ optional opaque m.source_updated_at
    ▹ end

store_fields : StoreRecord → Values
store_fields s =
    opaque s.source_file_id
    ▹ index s.record_index
    ▹ text s.chain_id
    ▹ text s.subchain_id
    ▹ text s.store_id
    ▹ optional text s.audit_number
    ▹ optional text s.store_type
    ▹ optional text s.chain_name
    ▹ optional text s.subchain_name
    ▹ text s.store_name
    ▹ optional text s.address
    ▹ optional text s.city
    ▹ optional text s.postal_code
    ▹ end

price_fields : PriceRecord → Values
price_fields p =
    opaque p.source_file_id
    ▹ index p.record_index
    ▹ text p.chain_id
    ▹ text p.subchain_id
    ▹ text p.store_id
    ▹ text p.item_code
    ▹ optional integer p.item_type
    ▹ text p.item_name
    ▹ optional text p.manufacturer_name
    ▹ optional text p.manufacturer_country
    ▹ optional text p.manufacturer_description
    ▹ optional text p.unit_quantity
    ▹ optional decimal p.quantity
    ▹ optional text p.unit_of_measure
    ▹ optional bool_value p.is_weighted
    ▹ optional decimal p.quantity_in_package
    ▹ decimal p.item_price
    ▹ optional decimal p.unit_of_measure_price
    ▹ optional bool_value p.allow_discount
    ▹ optional integer p.item_status
    ▹ optional opaque p.price_updated_at
    ▹ optional opaque p.last_sale_at
    ▹ optional text p.audit_number
    ▹ end

item_value : PromotionItem → Value
item_value i =
    dataclass (text i.item_code ▹ optional integer i.item_type ▹ bool_value i.is_gift ▹ end)

promotion_fields : PromotionRecord → Values
unfolding discount_kind_value item_value
promotion_fields p =
    opaque p.source_file_id
    ▹ index p.record_index
    ▹ text p.chain_id
    ▹ text p.subchain_id
    ▹ optional text p.source_store_id
    ▹ text p.promotion_id
    ▹ optional text p.description
    ▹ text (discount_kind_value p.discount_kind)
    ▹ optional opaque p.starts_at
    ▹ optional opaque p.ends_at
    ▹ tuple (tuple_of item_value p.items)
    ▹ tuple (tuple_of text p.store_ids)
    ▹ tuple (tuple_of text p.club_ids)
    ▹ optional integer p.reward_type
    ▹ optional bool_value p.allows_multiple_discounts
    ▹ optional decimal p.minimum_quantity
    ▹ optional decimal p.maximum_quantity
    ▹ optional decimal p.discount_rate
    ▹ optional decimal p.minimum_purchase
    ▹ optional decimal p.discounted_price
    ▹ optional decimal p.discounted_unit_price
    ▹ optional integer p.minimum_items_offered
    ▹ optional text p.additional_restrictions
    ▹ optional text p.remarks
    ▹ optional bool_value p.is_active
    ▹ end

issue_fields : ValidationIssue → Values
unfolding issue_category_value
issue_fields v =
    opaque v.source_file_id
    ▹ text (issue_category_value v.severity)
    ▹ text v.code
    ▹ text v.message
    ▹ optional index v.record_index
    ▹ optional text v.field_name
    ▹ optional text v.rejected_value
    ▹ end

-- The event as a dataclass instance.
unfoldable pub event_value : ParsedEvent → Value
unfolding metadata_fields store_fields price_fields promotion_fields issue_fields
event_value (metadata m) = dataclass (metadata_fields m)
event_value (store s) = dataclass (store_fields s)
event_value (price p) = dataclass (price_fields p)
event_value (promotion p) = dataclass (promotion_fields p)
event_value (issue v) = dataclass (issue_fields v)
