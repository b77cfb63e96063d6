-- ===== src/Overview.antt =====
-- internal/repository/usage_overview.go and internal/repository/dto/usage_snapshot.go: the snapshot of
-- statistics over events. An `int64` stands as its 64 bits, on which addition wraps around. The texts of
-- a local day and of an hour are arguments; the sorting of details at the end is left out.
pub mod Sums
use cpa_usage.Base.{
  ℕ, ◌+◌, ◌-◌, ◌%◌, ◌^◌, Bool, true, false, not, Option, none, some, List, [], ◌∷◌, ◌++◌,
  if◌then◌else◌,
}
use cpa_usage.Clock.{Time}
use cpa_usage.Int.{ℤ, pos, negsuc, optional_value}
use cpa_usage.Text.{Text, codes, is_empty, text_eq}
use cpa_usage.Text.Trim.{trim_space}
use cpa_usage.Dict.{Dict, find, put}
use cpa_usage.Accounting.{UsageAccounting, accounting_valid, usage_accounting_state}
use cpa_usage.Attempt.Types.{UsageEvent}

abbrev pub Bits : Type 0
Bits = ℕ

pub record ModelSnapshot (D : Type 0) : Type 0 where
  pub total_requests : Bits
  pub success_count : Bits
  pub failure_count : Bits
  pub total_tokens : Bits
  pub canonical_valid_attempts : Bits
  pub details : List D

pub record ApiSnapshot (D : Type 0) : Type 0 where
  pub display_name : Text
  pub total_requests : Bits
  pub success_count : Bits
  pub failure_count : Bits
  pub total_tokens : Bits
  pub canonical_valid_attempts : Bits
  pub models : Dict (ModelSnapshot D)

pub record StatisticsSnapshot (D : Type 0) : Type 0 where
  pub total_requests : Bits
  pub success_count : Bits
  pub failure_count : Bits
  pub total_tokens : Bits
  pub canonical_valid_attempts : Bits
  pub apis : Dict (ApiSnapshot D)
  pub requests_by_day : Dict Bits
  pub requests_by_hour : Dict Bits
  pub tokens_by_day : Dict Bits
  pub tokens_by_hour : Dict Bits

-- `TokenStats`.
pub record TokenStats : Type 0 where
  pub input_tokens : ℤ
  pub output_tokens : ℤ
  pub reasoning_tokens : ℤ
  pub cached_tokens : ℤ
  pub total_tokens : ℤ

-- `RequestDetail`, with the fields that are set.
pub record RequestDetail : Type 0 where
  pub timestamp : Time
  pub latency_ms : ℤ
  pub source : Text
  pub auth_index : Text
  pub failed : Bool
  pub tokens : TokenStats
  pub canonical_tokens_available : Bool

abbrev no_tokens : TokenStats
no_tokens = record {
  input_tokens = pos 0;
  output_tokens = pos 0;
  reasoning_tokens = pos 0;
  cached_tokens = pos 0;
  total_tokens = pos 0;
}

abbrev tokens_of : UsageAccounting → TokenStats
tokens_of f = record {
  input_tokens = optional_value f.canonical_input_tokens;
  output_tokens = optional_value f.canonical_output_tokens;
  reasoning_tokens = optional_value f.canonical_reasoning_tokens;
  cached_tokens = optional_value f.canonical_cache_read_tokens;
  total_tokens = optional_value f.canonical_total_tokens;
}

-- `usageEventCanonicalTokenStats`; `InterpretUsageAttempt` copies the facts and their state. It reads nil
-- pointers as 0 here, where the code fails on facts that lack some although their state is valid.
unfoldable pub usage_event_canonical_token_stats : UsageEvent → TokenStats × Bool
usage_event_canonical_token_stats e =
    if text_eq (usage_accounting_state e.accounting) accounting_valid
    then (tokens_of e.accounting, true)
    else (no_tokens, false)

-- `normalizeUsageOverviewDimension`.
unfoldable pub normalize_usage_overview_dimension : Text → Text
normalize_usage_overview_dimension value =
    if is_empty (trim_space value) then codes "unknown" else trim_space value

-- The 64 bits of an `int64`, and sums of them.
abbrev pub bits : ℤ → Bits
bits (pos n) = n % 2 ^ 64
bits (negsuc n) = 2 ^ 64 - 1 - n % 2 ^ 64

abbrev pub add : Bits → Bits → Bits
add a b = (a + b) % 2 ^ 64

abbrev pub add_if : Bool → Bits → Bits
add_if b a = if b then add a 1 else a

abbrev no_model : ModelSnapshot RequestDetail
no_model = record {
  total_requests = 0;
  success_count = 0;
  failure_count = 0;
  total_tokens = 0;
  canonical_valid_attempts = 0;
  details = [];
}

abbrev no_api : ApiSnapshot RequestDetail
no_api = record {
  display_name = [];
  total_requests = 0;
  success_count = 0;
  failure_count = 0;
  total_tokens = 0;
  canonical_valid_attempts = 0;
  models = [];
}

-- The value of a map at a key, or the zero value.
abbrev pub or_zero {ℓ} : {V : Type ℓ} → V → Option V → V
or_zero zero_value none = zero_value
or_zero zero_value (some v) = v

abbrev pub detail_of : UsageEvent → RequestDetail
detail_of e =
    let (tokens, available) = usage_event_canonical_token_stats e in
    record {
      timestamp = e.timestamp;
      latency_ms = e.latency_ms;
      source = trim_space e.source;
      auth_index = trim_space e.auth_index;
      failed = e.failed;
      tokens = tokens;
      canonical_tokens_available = available;
    }

abbrev pub event_tokens : UsageEvent → Bits
event_tokens e = bits (usage_event_canonical_token_stats e).0.total_tokens

abbrev pub event_counted : UsageEvent → Bool
event_counted e = (usage_event_canonical_token_stats e).1

-- What `applyUsageEventToSnapshot` does to the snapshot of a model, of an API and of everything.
unfoldable pub apply_to_model :
    Bool → UsageEvent → ModelSnapshot RequestDetail → ModelSnapshot RequestDetail
apply_to_model include_details e m = record {
  total_requests = add m.total_requests 1;
  success_count = add_if (not e.failed) m.success_count;
  failure_count = add_if e.failed m.failure_count;
  total_tokens = add m.total_tokens (event_tokens e);
  canonical_valid_attempts = add_if (event_counted e) m.canonical_valid_attempts;
  details = if include_details then m.details ++ detail_of e ∷ [] else m.details;
}

unfoldable pub apply_to_api :
    Bool → UsageEvent → ApiSnapshot RequestDetail → ApiSnapshot RequestDetail
apply_to_api include_details e a =
    let name = normalize_usage_overview_dimension e.model in
    record {
      display_name = a.display_name;
      total_requests = add a.total_requests 1;
      success_count = add_if (not e.failed) a.success_count;
      failure_count = add_if e.failed a.failure_count;
      total_tokens = add a.total_tokens (event_tokens e);
      canonical_valid_attempts = add_if (event_counted e) a.canonical_valid_attempts;
      models =
          put name (apply_to_model include_details e (or_zero no_model (find name a.models)))
            a.models;
    }

abbrev pub add_at : Text → Bits → Dict Bits → Dict Bits
add_at k n m = put k (add (or_zero 0 (find k m)) n) m

module _ (day_key hour_key : Time → Text) where
  -- `applyUsageEventToSnapshot`.
  unfoldable pub apply_usage_event_to_snapshot :
      Bool → UsageEvent → StatisticsSnapshot RequestDetail → StatisticsSnapshot RequestDetail
  apply_usage_event_to_snapshot include_details e s =
      let key = normalize_usage_overview_dimension e.api_group_key in
      record {
        total_requests = add s.total_requests 1;
        success_count = add_if (not e.failed) s.success_count;
        failure_count = add_if e.failed s.failure_count;
        total_tokens = add s.total_tokens (event_tokens e);
        canonical_valid_attempts = add_if (event_counted e) s.canonical_valid_attempts;
        apis = put key (apply_to_api include_details e (or_zero no_api (find key s.apis))) s.apis;
        requests_by_day = add_at (day_key e.timestamp) 1 s.requests_by_day;
        requests_by_hour = add_at (hour_key e.timestamp) 1 s.requests_by_hour;
        tokens_by_day = add_at (day_key e.timestamp) (event_tokens e) s.tokens_by_day;
        tokens_by_hour = add_at (hour_key e.timestamp) (event_tokens e) s.tokens_by_hour;
      }

  abbrev pub empty_snapshot : StatisticsSnapshot RequestDetail
  empty_snapshot = record {
    total_requests = 0;
    success_count = 0;
    failure_count = 0;
    total_tokens = 0;
    canonical_valid_attempts = 0;
    apis = [];
    requests_by_day = [];
    requests_by_hour = [];
    tokens_by_day = [];
    tokens_by_hour = [];
  }

  abbrev pub apply_events :
      List UsageEvent → StatisticsSnapshot RequestDetail → StatisticsSnapshot RequestDetail
  apply_events [] s = s
  apply_events (e ∷ es) s = apply_events es (apply_usage_event_to_snapshot true e s)

  -- `buildUsageSnapshotFromEvents`, before the details are sorted.
  unfoldable pub build_usage_snapshot_from_events :
      List UsageEvent → StatisticsSnapshot RequestDetail
  build_usage_snapshot_from_events es = apply_events es empty_snapshot
