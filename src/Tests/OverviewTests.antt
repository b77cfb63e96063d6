-- ===== src/Tests/OverviewTests.antt =====
-- internal/repository/usage_overview.go over two events.
use cpa_usage.Base.{[], ◌∷◌, weigh, ◌≡◌, refl, some, none, true, inr, arith}
use cpa_usage.Int.{pos}
use cpa_usage.Clock.{Time}
use cpa_usage.Text.{Text, codes, text_eq}
use cpa_usage.Attempt.Types.{UsageEvent}
use cpa_usage.Overview.{build_usage_snapshot_from_events}
use cpa_usage.Overview.Sums.{
  tokens, share, snapshot_count, AddsUp, ◌≈◌, build_usage_snapshot_from_events-AddsUp,
}
use cpa_usage.Accounting.{
  validate_usage_accounting, validate_buckets, supported_quality, any_nil, any_negative,
  accounting_sum_equals, checked_sum, usage_accounting_state, accounting_facts_absent, all_nil,
}
use cpa_usage.Throughput.{
  AttemptFacts, plain_facts, has_throughput, interpret_usage_attempt, usage_event_output_tps,
  usage_event_end_to_end_output_tps,
}
use cpa_usage.Throughput.Rates.{
  Paired, interpret_usage_attempt-total, interpret_usage_attempt-Paired,
}
use cpa_usage.Tests.AttemptTests.{event}

abbrev day_text : Time → Text
day_text t = codes "2025-01-01"

abbrev hour_text : Time → Text
hour_text t = codes "2025-01-01T00:00:00Z"

build_usage_snapshot_from_events-AddsUp_example :
    (snapshot_count tokens (
        build_usage_snapshot_from_events day_text hour_text
          (event (codes "a") ∷ event (codes "b") ∷ []))
      ≈ weigh (share tokens) (event (codes "a") ∷ event (codes "b") ∷ []))
    × AddsUp tokens (
        build_usage_snapshot_from_events day_text hour_text
          (event (codes "a") ∷ event (codes "b") ∷ []))
build_usage_snapshot_from_events-AddsUp_example =
    build_usage_snapshot_from_events-AddsUp day_text hour_text tokens
      (event (codes "a") ∷ event (codes "b") ∷ [])

-- An attempt that was streamed, with 4 tokens of output.
abbrev streamed : UsageEvent
streamed = record (event (codes "c")) {
  latency_ms = pos 100;
  ttft_ms = some (pos 20);
  stream = some true;
  accounting = record {
    accounting_state = [];
    token_quality = some (codes "complete");
    canonical_total_tokens = some (pos 10);
    canonical_input_tokens = some (pos 6);
    canonical_uncached_tokens = some (pos 6);
    canonical_cache_read_tokens = some (pos 0);
    canonical_cache_write_tokens = some (pos 0);
    canonical_output_tokens = some (pos 4);
    canonical_non_reasoning_tokens = some (pos 4);
    canonical_reasoning_tokens = some (pos 0);
    canonical_unclassified_tokens = some (pos 0);
  };
}

streamed-valid : validate_usage_accounting streamed.accounting ≡ none
unfolding validate_usage_accounting validate_buckets supported_quality any_nil any_negative
    accounting_sum_equals checked_sum text_eq
streamed-valid = refl

interpret_usage_attempt-total_example :
    (f : AttemptFacts) × (interpret_usage_attempt streamed ≡ some f)
interpret_usage_attempt-total_example =
    interpret_usage_attempt-total streamed (ground arith) (inr streamed-valid)

abbrev timed : AttemptFacts
timed = record (plain_facts streamed) {
  end_to_end_output_tps = some (record { rate_tokens = 4; over_ms = 100 });
  output_tps = some (record { rate_tokens = 4; over_ms = 80 });
}

streamed-timed : interpret_usage_attempt streamed ≡ some timed
unfolding interpret_usage_attempt has_throughput plain_facts usage_event_output_tps
    usage_event_end_to_end_output_tps usage_accounting_state accounting_facts_absent all_nil text_eq
streamed-timed = refl

interpret_usage_attempt-Paired_example :
    Paired (record { rate_tokens = 4; over_ms = 80 }) timed.end_to_end_output_tps
interpret_usage_attempt-Paired_example =
    interpret_usage_attempt-Paired streamed timed (record { rate_tokens = 4; over_ms = 80 })
      streamed-timed refl
