-- ===== src/Throughput.antt =====
-- `InterpretUsageAttempt` of internal/repository/usage_accounting.go and the throughput rules of
-- internal/repository/usage_events.go. A throughput stands as the two numbers that the code divides; the
-- dereference of a nil pointer is `none`.
pub mod Rates
use cpa_usage.Base.{
  ℕ, zero, suc, ◌-◌, Bool, true, false, not, ◌&&◌, ◌||◌, Option, none, some, leb, if◌then◌else◌,
}
use cpa_usage.Int.{ℤ, pos, negsuc, int_eq}
use cpa_usage.Text.{Text, codes, text_eq, is_empty}
use cpa_usage.Text.Trim.{trim_space}
use cpa_usage.Accounting.{UsageAccounting, accounting_valid, complete, usage_accounting_state}
use cpa_usage.Attempt.Types.{UsageEvent}

-- Tokens per second: `tokens * 1000 / over_ms`.
pub record Rate : Type 0 where
  pub rate_tokens : ℕ
  pub over_ms : ℕ

-- `usageEventOutputTPS`.
unfoldable pub usage_event_output_tps : ℤ → ℤ → Option ℤ → Option Rate
usage_event_output_tps (pos (suc o)) (pos l) (some (pos (suc t))) =
    if leb l (suc t) then none else some (record { rate_tokens = suc o; over_ms = l - suc t })
usage_event_output_tps _ _ _ = none

-- `usageEventEndToEndOutputTPS`.
unfoldable pub usage_event_end_to_end_output_tps : ℤ → ℤ → Option Rate
usage_event_end_to_end_output_tps (pos (suc o)) (pos (suc l)) =
    some (record { rate_tokens = suc o; over_ms = suc l })
usage_event_end_to_end_output_tps _ _ = none

-- `UsageAttemptFacts`; the accounting record holds the facts of the event and their state.
pub record AttemptFacts : Type 0 where
  pub facts : UsageAccounting
  pub generate : Option Bool
  pub stream : Option Bool
  pub request_service_tier : Option Text
  pub response_service_tier : Option Text
  pub output_tps : Option Rate
  pub end_to_end_output_tps : Option Rate

abbrev pub is_true : Option Bool → Bool
is_true (some true) = true
is_true _ = false

abbrev pub is_complete : Option Text → Bool
is_complete none = false
is_complete (some q) = text_eq q complete

abbrev pub tier_of : Text → Option Text
tier_of t = if is_empty (trim_space t) then none else some (trim_space t)

unfoldable pub plain_facts : UsageEvent → AttemptFacts
plain_facts e = record {
  facts = record e.accounting { accounting_state = usage_accounting_state e.accounting };
  generate = e.generate;
  stream = e.stream;
  request_service_tier = tier_of e.service_tier;
  response_service_tier = e.response_service_tier;
  output_tps = none;
  end_to_end_output_tps = none;
}

-- The facts have a throughput: valid, complete, and of a generation that was streamed.
unfoldable pub has_throughput : UsageEvent → Bool
has_throughput e =
    text_eq (usage_accounting_state e.accounting) accounting_valid
    && is_complete e.accounting.token_quality
    && is_true e.generate
    && is_true e.stream

abbrev pub timed_facts : UsageEvent → Option ℤ → Option ℤ → Option AttemptFacts
timed_facts e none reasoning = none
timed_facts e (some output) none = none
timed_facts e (some output) (some reasoning) = some (record (plain_facts e) {
  end_to_end_output_tps = usage_event_end_to_end_output_tps output e.latency_ms;
  output_tps =
      if int_eq reasoning (pos 0)
      then usage_event_output_tps output e.latency_ms e.ttft_ms
      else none;
})

-- `InterpretUsageAttempt`.
unfoldable pub interpret_usage_attempt : UsageEvent → Option AttemptFacts
interpret_usage_attempt e =
    if has_throughput e
    then timed_facts e e.accounting.canonical_output_tokens e.accounting.canonical_reasoning_tokens
    else some (plain_facts e)
