-- ===== src/Ingestion/Summary.antt =====
-- application/models.py: `StageSummary`; application/ingestion.py: `stage_events` and
-- `_combine_stage`.
use makolet.Prelude.{ℕ, ◌+◌, List, [], ◌∷◌, ◌++◌, ◌≡◌, refl, arith, ap, sym, ◌∙◌}
use makolet.Domain.Documents.{ParsedEvent, metadata, store, price, promotion, issue, IssueCategory}
use makolet.Ingestion.Charges.{validation_issue_charge}

pub record StageSummary : Type 0 where
  pub metadata_records : ℕ
  pub store_records : ℕ
  pub price_records : ℕ
  pub promotion_records : ℕ
  pub warnings : ℕ
  pub rejected_records : ℕ
  pub file_quarantines : ℕ
  pub validation_issue_bytes : ℕ
  pub sampled_validation_issues : ℕ

-- `StageSummary()`.
abbrev pub empty_summary : StageSummary
empty_summary = record {
  metadata_records = 0;
  store_records = 0;
  price_records = 0;
  promotion_records = 0;
  warnings = 0;
  rejected_records = 0;
  file_quarantines = 0;
  validation_issue_bytes = 0;
  sampled_validation_issues = 0;
}

unfoldable pub accepted_records : StageSummary → ℕ
accepted_records s = s.store_records + s.price_records + s.promotion_records

-- `_combine_stage`.
unfoldable pub combine_stage : StageSummary → StageSummary → StageSummary
combine_stage left right = record {
  metadata_records = left.metadata_records + right.metadata_records;
  store_records = left.store_records + right.store_records;
  price_records = left.price_records + right.price_records;
  promotion_records = left.promotion_records + right.promotion_records;
  warnings = left.warnings + right.warnings;
  rejected_records = left.rejected_records + right.rejected_records;
  file_quarantines = left.file_quarantines + right.file_quarantines;
  validation_issue_bytes = left.validation_issue_bytes + right.validation_issue_bytes;
  sampled_validation_issues = left.sampled_validation_issues + right.sampled_validation_issues;
}

-- The loop's counters, in a record.
record Counts : Type 0 where
  metadata : ℕ
  stores : ℕ
  prices : ℕ
  promotions : ℕ
  warnings : ℕ
  rejected : ℕ
  quarantines : ℕ
  issue_bytes : ℕ

count_issue : Counts → IssueCategory → Counts
count_issue c IssueCategory.warning = record c { warnings = c.warnings + 1 }
count_issue c IssueCategory.record_rejection = record c { rejected = c.rejected + 1 }
count_issue c IssueCategory.file_quarantine = record c { quarantines = c.quarantines + 1 }
count_issue c _ = c

-- The body of the loop of `stage_events`.
count_event : Counts → ParsedEvent → Counts
unfolding count_issue
count_event c (metadata _) = record c { metadata = c.metadata + 1 }
count_event c (store _) = record c { stores = c.stores + 1 }
count_event c (price _) = record c { prices = c.prices + 1 }
count_event c (promotion _) = record c { promotions = c.promotions + 1 }
count_event c (issue v) =
    count_issue (record c { issue_bytes = c.issue_bytes + validation_issue_charge v }) v.severity

count_events : Counts → List ParsedEvent → Counts
count_events c [] = c
count_events c (e ∷ es) = count_events (count_event c e) es

abbrev zero_counts : Counts
zero_counts = record {
  metadata = 0;
  stores = 0;
  prices = 0;
  promotions = 0;
  warnings = 0;
  rejected = 0;
  quarantines = 0;
  issue_bytes = 0;
}

abbrev summary_of : Counts → StageSummary
summary_of c = record {
  metadata_records = c.metadata;
  store_records = c.stores;
  price_records = c.prices;
  promotion_records = c.promotions;
  warnings = c.warnings;
  rejected_records = c.rejected;
  file_quarantines = c.quarantines;
  validation_issue_bytes = c.issue_bytes;
  sampled_validation_issues = c.warnings + c.rejected + c.quarantines;
}

unfoldable pub stage_events : List ParsedEvent → StageSummary
unfolding count_events count_event
stage_events events = summary_of (count_events zero_counts events)

combine_assoc :
    (a b c : StageSummary)
    → combine_stage (combine_stage a b) c ≡ combine_stage a (combine_stage b c)
unfolding combine_stage
combine_assoc a b c = ground arith

pub combine-empty : (a : StageSummary) → combine_stage empty_summary a ≡ a
unfolding combine_stage
combine-empty a = ground arith

count_event-from :
    (c : Counts) (e : ParsedEvent)
    → summary_of (count_event c e)
      ≡ combine_stage (summary_of c) (summary_of (count_event zero_counts e))
unfolding count_event combine_stage
count_event-from c e = ground arith

-- Counting on from counters adds to them what counting from nothing gives.
count_events-from :
    (c : Counts) (es : List ParsedEvent)
    → summary_of (count_events c es)
      ≡ combine_stage (summary_of c) (summary_of (count_events zero_counts es))
unfolding count_events
count_events-from c [] = unfold combine_stage in ground arith
count_events-from c (e ∷ es) =
    count_events-from (count_event c e) es
    ∙ ap (λ s. combine_stage s (summary_of (count_events zero_counts es))) (count_event-from c e)
    ∙ combine_assoc (summary_of c) (summary_of (count_event zero_counts e))
        (summary_of (count_events zero_counts es))
    ∙ ap (combine_stage (summary_of c)) (sym (count_events-from (count_event zero_counts e) es))

count_events-append :
    (c : Counts) (xs ys : List ParsedEvent)
    → count_events c (xs ++ ys) ≡ count_events (count_events c xs) ys
unfolding count_events
count_events-append c [] ys = refl
count_events-append c (x ∷ xs) ys = count_events-append (count_event c x) xs ys

-- Counting two batches and adding up the counts is counting the events of both.
pub stage_events-append :
    (xs ys : List ParsedEvent)
    → stage_events (xs ++ ys) ≡ combine_stage (stage_events xs) (stage_events ys)
stage_events-append xs ys =
    unfold stage_events in
    ap summary_of (count_events-append zero_counts xs ys)
    ∙ count_events-from (count_events zero_counts xs) ys
