-- ===== src/Accounting.antt =====
-- internal/repository/usage_accounting.go and internal/entities/usage_accounting.go: the canonical
-- token facts of one attempt and their validator.
pub mod Sums
pub mod Sound
use cpa_usage.Base.{
  ℕ, ◌+◌, ◌-◌, Bool, true, false, not, ◌&&◌, ◌||◌, Option, none, some, List, [], ◌∷◌, ltb,
  if◌then◌else◌,
}
use cpa_usage.Int.{
  ℤ, pos, negsuc, max_int64, is_negative, int_eq, optional_value, add_int64, exceeds,
}
use cpa_usage.Text.{Text, codes, text_eq}

pub record UsageAccounting : Type 0 where
  pub accounting_state : Text
  pub token_quality : Option Text
  pub canonical_total_tokens : Option ℤ
  pub canonical_input_tokens : Option ℤ
  pub canonical_uncached_tokens : Option ℤ
  pub canonical_cache_read_tokens : Option ℤ
  pub canonical_cache_write_tokens : Option ℤ
  pub canonical_output_tokens : Option ℤ
  pub canonical_non_reasoning_tokens : Option ℤ
  pub canonical_reasoning_tokens : Option ℤ
  pub canonical_unclassified_tokens : Option ℤ

abbrev pub accounting_absent : Text
accounting_absent = codes "absent"

abbrev pub accounting_valid : Text
accounting_valid = codes "valid"

abbrev pub complete : Text
complete = codes "complete"

abbrev pub inconsistent : Text
inconsistent = codes "inconsistent"

abbrev pub unclassified : Text
unclassified = codes "unclassified"

pub data AccountingError : Type 0 where
  quality_required unsupported_quality buckets_required negative_bucket : AccountingError
  input_sum output_sum total_sum complete_unclassified : AccountingError

unfoldable pub supported_quality : Text → Bool
supported_quality q = text_eq q complete || text_eq q inconsistent || text_eq q unclassified

-- The slice `values` of the validator.
abbrev pub buckets : UsageAccounting → List (Option ℤ)
buckets f =
    f.canonical_total_tokens ∷ f.canonical_input_tokens ∷ f.canonical_uncached_tokens
    ∷ f.canonical_cache_read_tokens ∷ f.canonical_cache_write_tokens ∷ f.canonical_output_tokens
    ∷ f.canonical_non_reasoning_tokens ∷ f.canonical_reasoning_tokens
    ∷ f.canonical_unclassified_tokens ∷ []

unfoldable pub any_nil : List (Option ℤ) → Bool
any_nil [] = false
any_nil (none ∷ vs) = true
any_nil (some v ∷ vs) = any_nil vs

unfoldable pub any_negative : List (Option ℤ) → Bool
any_negative [] = false
any_negative (v ∷ vs) = is_negative (optional_value v) || any_negative vs

-- The loop of `accountingSumEquals`. `none`: a value is negative, or adding it would pass the range of
-- int64.
unfoldable pub checked_sum : ℤ → List ℤ → Option ℤ
checked_sum sum [] = some sum
checked_sum sum (negsuc n ∷ vs) = none
checked_sum sum (pos v ∷ vs) =
    let rest = checked_sum (add_int64 sum v) vs in
    if exceeds sum (max_int64 - v) then none else rest

unfoldable pub accounting_sum_equals : ℤ → List ℤ → Bool
unfolding checked_sum
accounting_sum_equals total vs = elim (checked_sum (pos 0) vs) [
  | none ↦ false
  | some sum ↦ int_eq total sum
]

-- The checks behind the one on the quality.
unfoldable pub validate_buckets : Text → UsageAccounting → Option AccountingError
validate_buckets q f =
    if any_nil (buckets f)
    then some buckets_required
    else if any_negative (buckets f)
    then some negative_bucket
    else if not (
        accounting_sum_equals (optional_value f.canonical_input_tokens) (
          optional_value f.canonical_uncached_tokens
          ∷ optional_value f.canonical_cache_read_tokens
          ∷ optional_value f.canonical_cache_write_tokens
          ∷ []))
    then some input_sum
    else if not (
        accounting_sum_equals (optional_value f.canonical_output_tokens) (
          optional_value f.canonical_non_reasoning_tokens
          ∷ optional_value f.canonical_reasoning_tokens
          ∷ []))
    then some output_sum
    else if not (
        accounting_sum_equals (optional_value f.canonical_total_tokens) (
          optional_value f.canonical_input_tokens
          ∷ optional_value f.canonical_output_tokens
          ∷ optional_value f.canonical_unclassified_tokens
          ∷ []))
    then some total_sum
    else if text_eq q complete
        && not (int_eq (optional_value f.canonical_unclassified_tokens) (pos 0))
    then some complete_unclassified
    else none

-- `ValidateUsageAccounting`; `none` is the nil error.
unfoldable pub validate_usage_accounting : UsageAccounting → Option AccountingError
unfolding validate_buckets
validate_usage_accounting f = elim f.token_quality [
  | none ↦ some quality_required
  | some q ↦ if supported_quality q then validate_buckets q f else some unsupported_quality
]

abbrev is_nil {ℓ} : {A : Type ℓ} → Option A → Bool
is_nil none = true
is_nil (some a) = false

unfoldable pub all_nil : List (Option ℤ) → Bool
all_nil [] = true
all_nil (v ∷ vs) = is_nil v && all_nil vs

-- `accountingFactsAbsent`.
unfoldable pub accounting_facts_absent : UsageAccounting → Bool
unfolding all_nil
accounting_facts_absent f = is_nil f.token_quality && all_nil (buckets f)

-- `usageAccountingState`.
unfoldable pub usage_accounting_state : UsageAccounting → Text
unfolding accounting_facts_absent
usage_accounting_state f = if accounting_facts_absent f then accounting_absent else accounting_valid
