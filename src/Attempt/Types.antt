-- ===== src/Attempt/Types.antt =====
-- The payload types of internal/cpa/usage_accounting.go and internal/service/redis_usage.go, and the
-- event of internal/entities/usage_event.go.
use cpa_usage.Base.{Bool, Option}
use cpa_usage.Clock.{Time}
use cpa_usage.Int.{ℤ}
use cpa_usage.Text.{Text}
use cpa_usage.Accounting.{UsageAccounting}

pub record TokenInput : Type 0 where
  pub total_tokens : Option ℤ
  pub uncached_tokens : Option ℤ
  pub cache_read_tokens : Option ℤ
  pub cache_write_tokens : Option ℤ

pub record TokenOutput : Type 0 where
  pub total_tokens : Option ℤ
  pub non_reasoning_tokens : Option ℤ
  pub reasoning_tokens : Option ℤ

pub record TokenBreakdown : Type 0 where
  pub schema_version : Option ℤ
  pub quality : Option Text
  pub total_tokens : Option ℤ
  pub input : Option TokenInput
  pub output : Option TokenOutput
  pub unclassified_tokens : Option ℤ

pub record AccountingFields : Type 0 where
  pub accounting_version : Option ℤ
  pub token_breakdown : Option TokenBreakdown
  pub generate : Option Bool
  pub stream : Option Bool
  pub response_service_tier : Option Text

pub record Fail : Type 0 where
  pub status_code : ℤ

-- `queuedUsageDetail`.
pub record Detail : Type 0 where
  pub accounting : AccountingFields
  pub timestamp : Option Time
  pub latency_ms : ℤ
  pub ttft_ms : Option ℤ
  pub source : Text
  pub auth_index : Text
  pub failed : Bool
  pub fail : Option Fail
  pub provider : Text
  pub executor_type : Text
  pub model : Text
  pub alias : Option Text
  pub endpoint : Text
  pub auth_type : Text
  pub api_key : Text
  pub request_id : Text
  pub reasoning_effort : Text
  pub service_tier : Text

pub record UsageEvent : Type 0 where
  pub event_key : Text
  pub api_group_key : Text
  pub provider : Text
  pub endpoint : Text
  pub auth_type : Text
  pub request_id : Text
  pub model : Text
  pub model_alias : Option Text
  pub timestamp : Time
  pub source : Text
  pub auth_index : Text
  pub failed : Bool
  pub status_code : ℤ
  pub executor_type : Text
  pub reasoning_effort : Text
  pub service_tier : Text
  pub latency_ms : ℤ
  pub ttft_ms : Option ℤ
  pub accounting : UsageAccounting
  pub generate : Option Bool
  pub stream : Option Bool
  pub response_service_tier : Option Text

-- The errors of `validateQueuedAccounting`.
pub data QueuedError : Type 0 where
  incomplete_envelope schema_version invalid_facts : QueuedError
