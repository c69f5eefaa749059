-- ===== src/Domain/Documents.antt =====
-- domain/enums.py and domain/models.py: the kinds of documents and the records parsed from them.
pub mod Fields
use makolet.Prelude.{
  ℕ, Bool, true, false, ◌||◌, Option, none, some, List, [], ◌∷◌, ◌++◌, if◌then◌else◌, text_eq,
}
use makolet.Domain.Values.{Text, ℤ, Decimal, Instant, Uuid}

pub data DocumentType : Type 0 where
  stores price_full price_delta promotion_full promotion_delta unknown : DocumentType

unfoldable pub is_full_snapshot : DocumentType → Bool
is_full_snapshot DocumentType.stores = true
is_full_snapshot DocumentType.price_full = true
is_full_snapshot DocumentType.promotion_full = true
is_full_snapshot _ = false

unfoldable pub is_price : DocumentType → Bool
is_price DocumentType.price_full = true
is_price DocumentType.price_delta = true
is_price _ = false

unfoldable pub is_promotion : DocumentType → Bool
is_promotion DocumentType.promotion_full = true
is_promotion DocumentType.promotion_delta = true
is_promotion _ = false

pub data CompressionFormat : Type 0 where
  plain gzip zip zstandard unknown : CompressionFormat

pub data SourceProtocol : Type 0 where
  https http ftp ftps fixture : SourceProtocol

pub data IssueCategory : Type 0 where
  warning record_rejection file_quarantine source_failure system_failure : IssueCategory

pub data DiscountKind : Type 0 where
  fixed_price percentage amount quantity second_item mix_and_match : DiscountKind
  conditional unknown : DiscountKind

pub record DocumentMetadata : Type 0 where
  pub source_file_id : Uuid
  pub document_type : DocumentType
  pub chain_id : Option Text
  pub subchain_id : Option Text
  pub store_id : Option Text
  pub audit_number : Option Text
  pub source_updated_at : Option Instant

pub record StoreRecord : Type 0 where
  pub source_file_id : Uuid
  pub record_index : ℕ
  pub chain_id : Text
  pub subchain_id : Text
  pub store_id : Text
  pub audit_number : Option Text
  pub store_type : Option Text
  pub chain_name : Option Text
  pub subchain_name : Option Text
  pub store_name : Text
  pub address : Option Text
  pub city : Option Text
  pub postal_code : Option Text

pub record PriceRecord : Type 0 where
  pub source_file_id : Uuid
  pub record_index : ℕ
  pub chain_id : Text
  pub subchain_id : Text
  pub store_id : Text
  pub item_code : Text
  pub item_type : Option ℤ
  pub item_name : Text
  pub manufacturer_name : Option Text
  pub manufacturer_country : Option Text
  pub manufacturer_description : Option Text
  pub unit_quantity : Option Text
  pub quantity : Option Decimal
  pub unit_of_measure : Option Text
  pub is_weighted : Option Bool
  pub quantity_in_package : Option Decimal
  pub item_price : Decimal
  pub unit_of_measure_price : Option Decimal
  pub allow_discount : Option Bool
  pub item_status : Option ℤ
  pub price_updated_at : Option Instant
  pub last_sale_at : Option Instant
  pub audit_number : Option Text

pub record PromotionItem : Type 0 where
  pub item_code : Text
  pub item_type : Option ℤ
  pub is_gift : Bool

pub record PromotionRecord : Type 0 where
  pub source_file_id : Uuid
  pub record_index : ℕ
  pub chain_id : Text
  pub subchain_id : Text
  pub source_store_id : Option Text
  pub promotion_id : Text
  pub description : Option Text
  pub discount_kind : DiscountKind
  pub starts_at : Option Instant
  pub ends_at : Option Instant
  pub items : List PromotionItem
  pub store_ids : List Text
  pub club_ids : List Text
  pub reward_type : Option ℤ
  pub allows_multiple_discounts : Option Bool
  pub minimum_quantity : Option Decimal
  pub maximum_quantity : Option Decimal
  pub discount_rate : Option Decimal
  pub minimum_purchase : Option Decimal
  pub discounted_price : Option Decimal
  pub discounted_unit_price : Option Decimal
  pub minimum_items_offered : Option ℤ
  pub additional_restrictions : Option Text
  pub remarks : Option Text
  pub is_active : Option Bool

pub record ValidationIssue : Type 0 where
  pub source_file_id : Uuid
  pub severity : IssueCategory
  pub code : Text
  pub message : Text
  pub record_index : Option ℕ
  pub field_name : Option Text
  pub rejected_value : Option Text

pub data ParsedEvent : Type 0 where
  metadata : DocumentMetadata → ParsedEvent
  store : StoreRecord → ParsedEvent
  price : PriceRecord → ParsedEvent
  promotion : PromotionRecord → ParsedEvent
  issue : ValidationIssue → ParsedEvent

-- `value in values`.
unfoldable pub text_in : Text → List Text → Bool
text_in v [] = false
text_in v (w ∷ ws) = text_eq v w || text_in v ws

-- `tuple(dict.fromkeys(values))`: the first of equal values is kept. `seen` holds the keys so far.
unfoldable pub from_keys : List Text → List Text → List Text
unfolding text_in
from_keys seen [] = []
from_keys seen (v ∷ vs) =
    let old = from_keys seen vs in
    let new = v ∷ from_keys (v ∷ seen) vs in if text_in v seen then old else new

-- An empty or absent store is false in Python's conditional.
unfoldable pub scoped_store_ids : Option Text → List Text
scoped_store_ids none = []
scoped_store_ids (some []) = []
scoped_store_ids (some (c ∷ cs)) = (c ∷ cs) ∷ []

unfoldable pub effective_promotion_store_ids : PromotionRecord → List Text
unfolding from_keys scoped_store_ids
effective_promotion_store_ids event =
    from_keys [] (event.store_ids ++ scoped_store_ids event.source_store_id)
