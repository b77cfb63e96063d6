-- ===== src/Attempt.antt =====
-- internal/service/redis_usage.go, internal/service/redis_usage_accounting.go,
-- internal/cpa/usage_accounting.go, internal/entities/usage_event.go and the name rules of
-- internal/entities/usage_identity.go: one queued usage record, its decoder, its projection for
-- replay, and the event that it becomes. The archival token columns of an event, its row id and its
-- creation time are left out: this path never writes them.
pub mod Types
pub mod Codec
pub mod Replay
pub mod Valid
use cpa_usage.Base.{
  ℕ, ◌+◌, ◌==◌, Bool, true, false, not, ◌&&◌, ◌||◌, Option, none, some, List, [], ◌∷◌, ◌++◌, leb,
  ltb, if◌then◌else◌, length,
}
use cpa_usage.Clock.{Time, is_zero}
use cpa_usage.Int.{ℤ, pos, negsuc, int_eq, optional_value}
use cpa_usage.Result.{Result, ok, err, ◌>>=◌}
use cpa_usage.Text.{Text, codes, text_eq, is_empty}
use cpa_usage.Text.Trim.{trim_space}
use cpa_usage.Text.Decimal.{format_uint}
use cpa_usage.Accounting.{UsageAccounting, validate_usage_accounting}
use cpa_usage.Attempt.Types.{
  TokenInput, TokenOutput, TokenBreakdown, AccountingFields, Fail, Detail, UsageEvent, QueuedError,
  incomplete_envelope, schema_version, invalid_facts,
}

-- `*d.AccountingVersion != 2` and the like; a nil pointer is no version.
abbrev is_version_2 : Option ℤ → Bool
is_version_2 none = false
is_version_2 (some v) = int_eq v (pos 2)

-- The facts of a breakdown whose two parts are there.
abbrev pub breakdown_facts : TokenBreakdown → TokenInput → TokenOutput → UsageAccounting
breakdown_facts b i o = record {
  accounting_state = [];
  token_quality = b.quality;
  canonical_total_tokens = b.total_tokens;
  canonical_input_tokens = i.total_tokens;
  canonical_uncached_tokens = i.uncached_tokens;
  canonical_cache_read_tokens = i.cache_read_tokens;
  canonical_cache_write_tokens = i.cache_write_tokens;
  canonical_output_tokens = o.total_tokens;
  canonical_non_reasoning_tokens = o.non_reasoning_tokens;
  canonical_reasoning_tokens = o.reasoning_tokens;
  canonical_unclassified_tokens = b.unclassified_tokens;
}

abbrev parts_facts :
    TokenBreakdown → Option TokenInput → Option TokenOutput → Option UsageAccounting
parts_facts b (some i) (some o) = some (breakdown_facts b i o)
parts_facts b _ _ = none

abbrev facts_of : Option TokenBreakdown → Option UsageAccounting
facts_of none = none
facts_of (some b) = parts_facts b b.input b.output

-- `queuedAccountingFacts`. `none` is the nil dereference of an incomplete envelope.
unfoldable pub queued_accounting_facts : AccountingFields → Option UsageAccounting
queued_accounting_facts d = facts_of d.token_breakdown

abbrev is_nil {ℓ} : {A : Type ℓ} → Option A → Bool
is_nil none = true
is_nil (some a) = false

abbrev breakdown_schema : Option TokenBreakdown → Option ℤ
breakdown_schema none = none
breakdown_schema (some b) = b.schema_version

abbrev checked_facts : Option UsageAccounting → Option QueuedError
checked_facts none = some incomplete_envelope
checked_facts (some f) = elim (validate_usage_accounting f) [
  | none ↦ none
  | some e ↦ some invalid_facts
]

-- `validateQueuedAccounting`; `none` is the nil error. The breakdown and both its parts are there
-- exactly when there are facts.
unfoldable pub validate_queued_accounting : AccountingFields → Option QueuedError
unfolding queued_accounting_facts
validate_queued_accounting d =
    if is_nil d.generate || is_nil d.stream || is_nil (queued_accounting_facts d)
    then some incomplete_envelope
    else if not (is_version_2 d.accounting_version)
        || not (is_version_2 (breakdown_schema d.token_breakdown))
    then some schema_version
    else checked_facts (queued_accounting_facts d)

abbrev pub error_text : QueuedError → Text
error_text incomplete_envelope = codes "complete Accounting v2 envelope is required"
error_text schema_version = codes "Accounting and token schema versions must both be 2"
error_text invalid_facts = codes "canonical Accounting v2 facts are invalid"

-- `trimRedisOptionalString`.
unfoldable pub trim_optional : Option Text → Option Text
trim_optional none = none
trim_optional (some s) = if is_empty (trim_space s) then none else some (trim_space s)

-- `firstNonEmpty` of internal/service/sync.go.
unfoldable pub first_non_empty : List Text → Text
first_non_empty [] = []
first_non_empty (v ∷ vs) =
    let rest = first_non_empty vs in if is_empty (trim_space v) then rest else trim_space v

pub data AuthType : Type 0 where
  auth_file ai_provider : AuthType

-- `CanonicalName` of the two valid kinds.
abbrev pub canonical_name : AuthType → Text
canonical_name auth_file = codes "oauth"
canonical_name ai_provider = codes "apikey"

-- `ParseUsageIdentityAuthType`.
unfoldable pub parse_auth_type : Text → Option AuthType
parse_auth_type name =
    if text_eq (trim_space name) (codes "oauth")
    then some auth_file
    else if text_eq (trim_space name) (codes "apikey")
    then some ai_provider
    else none

-- `compactQueuedUsageDetail`.
abbrev non_zero_time : Option Time → Option Time
non_zero_time none = none
non_zero_time (some t) = if is_zero t then none else some t

abbrev non_zero_fail : Option Fail → Option Fail
non_zero_fail none = none
non_zero_fail (some f) = if int_eq f.status_code (pos 0) then none else some f

unfoldable pub compact : Detail → Detail
unfolding trim_optional
compact d = record d {
  timestamp = non_zero_time d.timestamp;
  fail = non_zero_fail d.fail;
  source = trim_space d.source;
  auth_index = trim_space d.auth_index;
  provider = trim_space d.provider;
  executor_type = trim_space d.executor_type;
  model = trim_space d.model;
  endpoint = trim_space d.endpoint;
  auth_type = trim_space d.auth_type;
  api_key = trim_space d.api_key;
  request_id = trim_space d.request_id;
  reasoning_effort = trim_space d.reasoning_effort;
  service_tier = trim_space d.service_tier;
  alias = trim_optional d.alias;
}

-- `statusCode`.
abbrev pub status_code : Option Fail → ℤ
status_code none = pos 0
status_code (some f) = f.status_code

-- `max(d.LatencyMS, 0)`.
abbrev pub non_negative : ℤ → ℤ
non_negative (pos n) = pos n
non_negative (negsuc n) = pos 0

abbrev event_time : Option Time → Time → Time
event_time none fallback = fallback
event_time (some t) fallback = if is_zero t then fallback else t

-- An upper-case ASCII letter in lower case.
abbrev lower_byte : ℕ → ℕ
lower_byte c = if leb b'A' c && leb c b'Z' then c + 32 else c

unfoldable pub lower_ascii : Text → Text
lower_ascii [] = []
lower_ascii (c ∷ s) = lower_byte c ∷ lower_ascii s

unfoldable pub is_ascii : Text → Bool
is_ascii [] = true
is_ascii (c ∷ s) = ltb c 0x80 && is_ascii s

-- Beyond ASCII, `strings.ToLower` reads Unicode's tables.
module _ (unicode_lower : Text → Text) where
  unfoldable pub to_lower : Text → Text
  unfolding is_ascii lower_ascii
  to_lower s = if is_ascii s then lower_ascii s else unicode_lower s

  abbrev with_api_key : Text → Text
  with_api_key s = if text_eq s (codes "api_key") then codes "apikey" else s

  abbrev canonical_or : Text → Option AuthType → Text
  canonical_or s none = s
  canonical_or s (some a) = canonical_name a

  -- `normalizeRedisAuthType`.
  unfoldable pub normalize_auth_type : Text → Text
  unfolding to_lower
  normalize_auth_type v =
      let trimmed = with_api_key (to_lower (trim_space v)) in
      canonical_or trimmed (parse_auth_type trimmed)

  -- `toUsageEvent`, of a payload with the facts `f`.
  unfoldable pub event_of : Detail → UsageAccounting → Time → UsageEvent
  event_of d f fallback = record {
    event_key = [];
    api_group_key = first_non_empty (d.api_key ∷ d.provider ∷ d.endpoint ∷ codes "unknown" ∷ []);
    provider = trim_space d.provider;
    endpoint = trim_space d.endpoint;
    auth_type = normalize_auth_type d.auth_type;
    request_id = trim_space d.request_id;
    model = first_non_empty (d.model ∷ codes "unknown" ∷ []);
    model_alias = trim_optional d.alias;
    timestamp = event_time d.timestamp fallback;
    source = trim_space d.source;
    auth_index = trim_space d.auth_index;
    failed = d.failed;
    status_code = status_code d.fail;
    executor_type = trim_space d.executor_type;
    reasoning_effort = trim_space d.reasoning_effort;
    service_tier = trim_space d.service_tier;
    latency_ms = non_negative d.latency_ms;
    ttft_ms = d.ttft_ms;
    accounting = f;
    generate = d.accounting.generate;
    stream = d.accounting.stream;
    response_service_tier = trim_optional d.accounting.response_service_tier;
  }

  abbrev pub with_facts : Detail → Time → Option UsageAccounting → Option UsageEvent
  with_facts d fallback none = none
  with_facts d fallback (some f) = some (event_of d f fallback)

  -- `none` is the nil dereference.
  unfoldable pub to_usage_event : Detail → Time → Option UsageEvent
  to_usage_event d fallback = with_facts d fallback (queued_accounting_facts d.accounting)
