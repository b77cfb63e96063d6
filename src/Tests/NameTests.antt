-- ===== src/Tests/NameTests.antt =====
-- `DisplayName` of a provider's identity.
use cpa_usage.Base.{◌≡◌}
use cpa_usage.Text.{codes, is_empty}
use cpa_usage.Attempt.{ai_provider}
use cpa_usage.DisplayName.{Labels, display_name}
use cpa_usage.DisplayName.Blank.{is_blank, display_name-blank}

abbrev labels : Labels
labels = record {
  name = codes " Claude ";
  auth_type = ai_provider;
  type_name = codes "claude";
  provider = codes "claude";
  prefix = codes "team";
  base_url = codes "https://example.org/";
}

display_name-blank_example :
    is_empty (display_name (λ s. s) labels) ≡ is_blank (λ s. s) ai_provider labels
display_name-blank_example = display_name-blank (λ s. s) labels
