-- ===== src/Tests/RedactTests.antt =====
-- internal/redact/redact.go on small keys.
use cpa_usage.Base.{ℕ, ◌<◌, ◌≡◌, refl, [], ◌∷◌, All}
use cpa_usage.Text.{Text, codes, text_eq}
use cpa_usage.Text.Utf8.{lead}
use cpa_usage.Text.Trim.{trim_space, trim_left, trim_back, is_space1, is_space2, is_space3}
use cpa_usage.Redact.{api_key_display_name, runes_from, following}
use cpa_usage.Redact.Hidden.{ends_shown, key_runes, api_key_display_name-hides}
use cpa_usage.Overview.{StatisticsSnapshot, ModelSnapshot}
use cpa_usage.Redact.Snapshot.{
  usage_snapshot, build_usage_overview_payload, NoneCounted, build_usage_overview_payload-redacted,
}

api_key_display_name-hides_example :
    (api_key_display_name (codes " axxxxb") ≡ ends_shown 1 (key_runes (codes "axxxxb")))
    × (2 < 6)
    × (api_key_display_name (codes " axxxxb") ≡ api_key_display_name (codes "ayyyyb"))
unfolding runes_from lead following text_eq trim_space trim_left trim_back is_space1 is_space2
    is_space3
api_key_display_name-hides_example =
    api_key_display_name-hides (codes " axxxxb") (codes "ayyyyb") (refl, refl) (refl, refl) refl
      refl refl

abbrev hash : Text → Text
hash s = codes "0123456789abcdef"

abbrev model : ModelSnapshot ℕ
model = record {
  total_requests = 2;
  success_count = 2;
  failure_count = 0;
  total_tokens = 30;
  canonical_valid_attempts = 2;
  details = [];
}

abbrev counted_usage : StatisticsSnapshot ℕ
counted_usage = record {
  total_requests = 2;
  success_count = 2;
  failure_count = 0;
  total_tokens = 30;
  canonical_valid_attempts = 2;
  apis =
      (
        codes "sk-1",
        record {
          display_name = [];
          total_requests = 2;
          success_count = 2;
          failure_count = 0;
          total_tokens = 30;
          canonical_valid_attempts = 2;
          models = (codes "m", model) ∷ [];
        },
      )
      ∷ [];
  requests_by_day = [];
  requests_by_hour = [];
  tokens_by_day = [];
  tokens_by_hour = [];
}

build_usage_overview_payload-redacted_example :
    ((build_usage_overview_payload (usage_snapshot hash counted_usage)).canonical_valid_attempts
      ≡ 0)
    × All NoneCounted (build_usage_overview_payload (usage_snapshot hash counted_usage)).apis
build_usage_overview_payload-redacted_example =
    build_usage_overview_payload-redacted hash counted_usage
