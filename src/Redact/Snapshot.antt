-- ===== src/Redact/Snapshot.antt =====
-- internal/redact/redact.go (`UsageSnapshot`) and the payload of internal/api/usage_overview.go. The details
-- of a request are carried along and stand as a type.
use cpa_usage.Base.{◌≡◌, refl, [], ◌∷◌, All}
use cpa_usage.Text.{Text}
use cpa_usage.Dict.{All-put, Dict, put}
use cpa_usage.Overview.{Bits, ModelSnapshot, ApiSnapshot, StatisticsSnapshot}
use cpa_usage.Redact.{api_alias, api_key_display_name}

module _ {D : Type 0} where
  -- `cloneModelSnapshot`: a field that the literal leaves out is zero.
  abbrev pub clone_model_snapshot : ModelSnapshot D → ModelSnapshot D
  clone_model_snapshot m = record {
    total_requests = m.total_requests;
    success_count = m.success_count;
    failure_count = m.failure_count;
    total_tokens = m.total_tokens;
    canonical_valid_attempts = 0;
    details = m.details;
  }

  abbrev pub clone_models : Dict (ModelSnapshot D) → Dict (ModelSnapshot D)
  clone_models [] = []
  clone_models ((name, m) ∷ ms) = (name, clone_model_snapshot m) ∷ clone_models ms

  -- `cloneAPISnapshot`.
  abbrev pub clone_api_snapshot : ApiSnapshot D → ApiSnapshot D
  clone_api_snapshot a = record {
    display_name = a.display_name;
    total_requests = a.total_requests;
    success_count = a.success_count;
    failure_count = a.failure_count;
    total_tokens = a.total_tokens;
    canonical_valid_attempts = 0;
    models = clone_models a.models;
  }

  -- The loop over the keys, in the order of the list.
  unfoldable pub redact_apis :
      (Text → Text) → Dict (ApiSnapshot D) → Dict (ApiSnapshot D) → Dict (ApiSnapshot D)
  redact_apis hash [] apis = apis
  redact_apis hash ((key, a) ∷ rest) apis = redact_apis hash rest (
      put (api_alias hash key)
        (record (clone_api_snapshot a) { display_name = api_key_display_name key }) apis)

  -- `UsageSnapshot`, of a snapshot that is not nil; `cloneIntMap` makes the same map.
  unfoldable pub usage_snapshot : (Text → Text) → StatisticsSnapshot D → StatisticsSnapshot D
  usage_snapshot hash s = record {
    total_requests = s.total_requests;
    success_count = s.success_count;
    failure_count = s.failure_count;
    total_tokens = s.total_tokens;
    canonical_valid_attempts = 0;
    apis = redact_apis hash s.apis [];
    requests_by_day = s.requests_by_day;
    requests_by_hour = s.requests_by_hour;
    tokens_by_day = s.tokens_by_day;
    tokens_by_hour = s.tokens_by_hour;
  }

-- `usageOverviewModelSnapshot`, `usageOverviewAPISnapshot` and `usageOverviewPayload`.
pub record ModelPayload : Type 0 where
  pub total_requests : Bits
  pub success_count : Bits
  pub failure_count : Bits
  pub total_tokens : Bits
  pub canonical_valid_attempts : Bits

pub record ApiPayload : Type 0 where
  pub display_name : Text
  pub total_requests : Bits
  pub success_count : Bits
  pub failure_count : Bits
  pub total_tokens : Bits
  pub canonical_valid_attempts : Bits
  pub models : Dict ModelPayload

pub record Payload : Type 0 where
  pub total_requests : Bits
  pub success_count : Bits
  pub failure_count : Bits
  pub total_tokens : Bits
  pub canonical_valid_attempts : Bits
  pub apis : Dict ApiPayload
  pub requests_by_day : Dict Bits
  pub requests_by_hour : Dict Bits
  pub tokens_by_day : Dict Bits
  pub tokens_by_hour : Dict Bits

module _ {D : Type 0} where
  abbrev pub model_payloads : Dict (ModelSnapshot D) → Dict ModelPayload
  model_payloads [] = []
  model_payloads ((name, m) ∷ ms) =
      (
        name,
        record {
          total_requests = m.total_requests;
          success_count = m.success_count;
          failure_count = m.failure_count;
          total_tokens = m.total_tokens;
          canonical_valid_attempts = m.canonical_valid_attempts;
        },
      )
      ∷ model_payloads ms

  abbrev pub api_payloads : Dict (ApiSnapshot D) → Dict ApiPayload
  api_payloads [] = []
  api_payloads ((name, a) ∷ rest) =
      (
        name,
        record {
          display_name = a.display_name;
          total_requests = a.total_requests;
          success_count = a.success_count;
          failure_count = a.failure_count;
          total_tokens = a.total_tokens;
          canonical_valid_attempts = a.canonical_valid_attempts;
          models = model_payloads a.models;
        },
      )
      ∷ api_payloads rest

  -- `buildUsageOverviewPayload`, of a snapshot that is not nil.
  unfoldable pub build_usage_overview_payload : StatisticsSnapshot D → Payload
  build_usage_overview_payload s = record {
    total_requests = s.total_requests;
    success_count = s.success_count;
    failure_count = s.failure_count;
    total_tokens = s.total_tokens;
    canonical_valid_attempts = s.canonical_valid_attempts;
    apis = api_payloads s.apis;
    requests_by_day = s.requests_by_day;
    requests_by_hour = s.requests_by_hour;
    tokens_by_day = s.tokens_by_day;
    tokens_by_hour = s.tokens_by_hour;
  }

abbrev pub NoneCounted : Text × ApiPayload → Type 0
NoneCounted (name, a) =
    (a.canonical_valid_attempts ≡ 0)
    × All (λ (m : Text × ModelPayload). m.1.canonical_valid_attempts ≡ 0) a.models

module _ {D : Type 0} where
  abbrev Uncounted : Text × ApiSnapshot D → Type 0
  Uncounted (name, a) =
      (a.canonical_valid_attempts ≡ 0)
      × All (λ (m : Text × ModelSnapshot D). m.1.canonical_valid_attempts ≡ 0) a.models

  clone_models-uncounted :
      (ms : Dict (ModelSnapshot D))
      → All (λ (m : Text × ModelSnapshot D). m.1.canonical_valid_attempts ≡ 0) (clone_models ms)
  clone_models-uncounted [] = tt
  clone_models-uncounted ((name, m) ∷ ms) = (refl, clone_models-uncounted ms)

  redact_apis-Uncounted :
      (hash : Text → Text) (rest apis : Dict (ApiSnapshot D))
      → All Uncounted apis
      → All Uncounted (redact_apis hash rest apis)
  unfolding redact_apis
  redact_apis-Uncounted hash [] apis h = h
  redact_apis-Uncounted hash ((key, a) ∷ rest) apis h = redact_apis-Uncounted hash rest _ (
      All-put Uncounted (api_alias hash key)
        (record (clone_api_snapshot a) { display_name = api_key_display_name key }) apis
        (refl, clone_models-uncounted a.models) h)

  model_payloads-uncounted :
      (ms : Dict (ModelSnapshot D))
      → All (λ (m : Text × ModelSnapshot D). m.1.canonical_valid_attempts ≡ 0) ms
      → All (λ (m : Text × ModelPayload). m.1.canonical_valid_attempts ≡ 0) (model_payloads ms)
  model_payloads-uncounted [] h = tt
  model_payloads-uncounted ((name, m) ∷ ms) (h, hs) = (h, model_payloads-uncounted ms hs)

  api_payloads-NoneCounted :
      (apis : Dict (ApiSnapshot D)) → All Uncounted apis → All NoneCounted (api_payloads apis)
  api_payloads-NoneCounted [] h = tt
  api_payloads-NoneCounted ((name, a) ∷ rest) ((h, ms), hs) =
      ((h, model_payloads-uncounted a.models ms), api_payloads-NoneCounted rest hs)

  -- The overview that is built from a redacted snapshot says of everything, of each API and of each model
  -- that no attempt had valid accounting, whatever the snapshot counted.
  pub build_usage_overview_payload-redacted :
      (hash : Text → Text) (s : StatisticsSnapshot D)
      → ((build_usage_overview_payload (usage_snapshot hash s)).canonical_valid_attempts ≡ 0)
        × All NoneCounted (build_usage_overview_payload (usage_snapshot hash s)).apis
  unfolding build_usage_overview_payload usage_snapshot
  build_usage_overview_payload-redacted hash s =
      (refl, api_payloads-NoneCounted _ (redact_apis-Uncounted hash s.apis [] tt))
