-- ===== src/Tests/AttemptTests.antt =====
-- internal/service/redis_usage.go and the accounting of one attempt, on a payload with a toy JSON of
-- two documents; and the insertion of its event.
use cpa_usage.Base.{
  ℕ, ◌+◌, ◌-◌, ◌≡◌, ◌↔◌, refl, sym, ap, ◌∙◌, true, false, none, some, List, [], ◌∷◌, ◌++◌, arith,
  length, if◌then◌else◌, Bool-cases, inl, inr,
}
use cpa_usage.Int.{pos, negsuc}
use cpa_usage.Result.{Result, ok, err, ok_injective}
use cpa_usage.Text.{Text, codes, text_eq}
use cpa_usage.Text.Trim.{trim_space}
use cpa_usage.Accounting.{
  UsageAccounting, validate_usage_accounting, validate_buckets, supported_quality, any_nil,
  any_negative, accounting_sum_equals,
}
use cpa_usage.Accounting.Sound.{IsCanonical, validate_usage_accounting_iff}
use cpa_usage.Attempt.{validate_queued_accounting, breakdown_facts, compact, trim_optional}
use cpa_usage.Attempt.Types.{
  TokenInput, TokenOutput, TokenBreakdown, AccountingFields, Detail, UsageEvent,
}
use cpa_usage.Attempt.Codec.{Platform, decode_message, replay_safe_message, project_detail}
use cpa_usage.Attempt.Replay.{JsonLaws, SameOutcome, replay_safe_message-decodes}
use cpa_usage.Events.{Store, new_events, insert_admitted}
use cpa_usage.Events.Insert.{add_events, insert_admitted_lem}

abbrev input : TokenInput
input = record {
  total_tokens = some (pos 100);
  uncached_tokens = some (pos 60);
  cache_read_tokens = some (pos 30);
  cache_write_tokens = some (pos 10);
}

abbrev output : TokenOutput
output = record {
  total_tokens = some (pos 25);
  non_reasoning_tokens = some (pos 20);
  reasoning_tokens = some (pos 5);
}

abbrev breakdown : TokenBreakdown
breakdown = record {
  schema_version = some (pos 2);
  quality = some (codes "complete");
  total_tokens = some (pos 125);
  input = some input;
  output = some output;
  unclassified_tokens = some (pos 0);
}

abbrev pub fields : AccountingFields
fields = record {
  accounting_version = some (pos 2);
  token_breakdown = some breakdown;
  generate = some true;
  stream = some false;
  response_service_tier = none;
}

abbrev pub facts : UsageAccounting
facts = breakdown_facts breakdown input output

validate_usage_accounting_iff_example : (validate_usage_accounting facts ≡ none) ↔ IsCanonical facts
validate_usage_accounting_iff_example = validate_usage_accounting_iff facts (
  omega arith,
  (
    omega arith,
    (
      omega arith,
      (omega arith, (omega arith, (omega arith, (omega arith, (omega arith, (omega arith, tt)))))),
    ),
  ),
)

facts_test : validate_queued_accounting fields ≡ none
unfolding validate_queued_accounting validate_usage_accounting validate_buckets supported_quality
    any_nil any_negative accounting_sum_equals text_eq
facts_test = refl

abbrev pub detail : Detail
detail = record {
  accounting = fields;
  timestamp = some 0;
  latency_ms = negsuc 3;
  ttft_ms = none;
  source = codes " cli ";
  auth_index = codes "a1";
  failed = false;
  fail = none;
  provider = codes "Codex ";
  executor_type = [];
  model = codes "gpt";
  alias = some (codes "  ");
  endpoint = codes "/v1";
  auth_type = codes "API_KEY";
  api_key = [];
  request_id = [];
  reasoning_effort = [];
  service_tier = [];
}

-- Two documents: the popped record and its compacted form.
unfoldable pub toy_unmarshal : Text → Result Detail
toy_unmarshal m =
    if text_eq m (codes "popped")
    then ok detail
    else if text_eq m (codes "compact")
    then ok (compact detail)
    else err (codes "syntax")

abbrev pub toy : Platform
toy = record {
  unmarshal = toy_unmarshal;
  marshal = λ d. ok (codes "compact");
  marshal_string = λ s. codes "'" ++ s;
  sha256_hex = λ s. [];
  unicode_lower = λ s. s;
}

compact_twice : compact (compact detail) ≡ compact detail
unfolding compact trim_space trim_optional
compact_twice = refl

toy_compact : toy_unmarshal (codes "compact") ≡ ok (compact detail)
unfolding toy_unmarshal text_eq
toy_compact = refl

toy_known : (m : Text) (d : Detail) → toy_unmarshal m ≡ ok d → compact d ≡ compact detail
unfolding toy_unmarshal
toy_known m d h = elim (Bool-cases (text_eq m (codes "popped"))) [
  | inl e ↦ ap compact (sym (ok_injective (cc)))
  | inr e ↦ elim (Bool-cases (text_eq m (codes "compact"))) [
    | inl f ↦ ap compact (sym (ok_injective (ground arith))) ∙ compact_twice
    | inr f ↦ absurd (ground arith)
  ]
]

toy_strings : (t : Text) → (e : Text) × (toy_unmarshal (codes "'" ++ t) ≡ err e)
unfolding toy_unmarshal text_eq
toy_strings t = (codes "syntax", refl)

pub toy_laws : JsonLaws toy
toy_laws = record {
  compacted = λ m d s h k.
      ap toy_unmarshal (sym (ok_injective k)) ∙ toy_compact ∙ ap ok (sym (toy_known m d h));
  strings = toy_strings;
}

toy_replay : replay_safe_message toy (codes "popped") ≡ ok (codes "compact")
unfolding replay_safe_message project_detail toy_unmarshal validate_queued_accounting
    validate_usage_accounting validate_buckets supported_quality any_nil any_negative
    accounting_sum_equals text_eq
toy_replay = refl

replay_safe_message-decodes_example :
    SameOutcome (decode_message toy (codes "compact") 7) (decode_message toy (codes "popped") 7)
replay_safe_message-decodes_example =
    replay_safe_message-decodes toy (codes "popped") 7 (codes "compact") toy_laws toy_replay

abbrev pub event : Text → UsageEvent
event key = record {
  event_key = key;
  api_group_key = codes "Codex";
  provider = codes "Codex";
  endpoint = codes "/v1";
  auth_type = codes "apikey";
  request_id = [];
  model = codes "gpt";
  model_alias = none;
  timestamp = 7;
  source = codes "cli";
  auth_index = codes "a1";
  failed = false;
  status_code = pos 0;
  executor_type = [];
  reasoning_effort = [];
  service_tier = [];
  latency_ms = pos 0;
  ttft_ms = none;
  accounting = facts;
  generate = some true;
  stream = some false;
  response_service_tier = none;
}

abbrev store : Store ℕ
store = record { events = event (codes "redis-inbox:1") ∷ []; rollups = 1 }

abbrev incoming : List UsageEvent
incoming =
    event (codes "redis-inbox:2")
    ∷ event (codes "redis-inbox:1")
    ∷ event (codes "redis-inbox:2")
    ∷ []

abbrev pub count_events : List UsageEvent → ℕ → ℕ
count_events es n = n + length es

-- In batches of one.
insert_admitted_lem_example : insert_admitted count_events none 1 incoming store ≡ (
  record {
    events = store.events ++ new_events store.events incoming;
    rollups = add_events count_events (new_events store.events incoming) 1;
  },
  ok (length (new_events store.events incoming), 3 - length (new_events store.events incoming)),
)
unfolding trim_space
insert_admitted_lem_example =
    insert_admitted_lem count_events 0 incoming store
      ((refl, refl), ((refl, refl), ((refl, refl), tt)))
