-- ===== src/DisplayName.antt =====
-- internal/entities/usage_identity.go: `DisplayName`, the name that people see for an identity.
pub mod Blank
use cpa_usage.Base.{Bool, true, false, ◌&&◌, not, List, [], ◌∷◌, ◌++◌, length, drop, if◌then◌else◌}
use cpa_usage.Text.{Text, codes, is_empty, text_eq, has_prefix}
use cpa_usage.Text.Trim.{trim_space}
use cpa_usage.Attempt.{AuthType, auth_file, ai_provider, to_lower}

-- The fields of `UsageIdentity` that `DisplayName` reads.
pub record Labels : Type 0 where
  pub name : Text
  pub auth_type : AuthType
  pub type_name : Text
  pub provider : Text
  pub prefix : Text
  pub base_url : Text

abbrev pub contains_text : Text → List Text → Bool
contains_text v [] = false
contains_text v (x ∷ xs) = if text_eq v x then true else contains_text v xs

-- `usageIdentityDisplayQualifiers`, on what was kept.
unfoldable pub display_qualifiers : List Text → List Text → List Text
display_qualifiers seen [] = []
display_qualifiers seen (v ∷ vs) =
    let value = trim_space v in
    let skipped = display_qualifiers seen vs in
    let kept = display_qualifiers (value ∷ seen) vs in
    if is_empty value then skipped else if contains_text value seen then skipped else value ∷ kept

-- `strings.TrimRight(s, "/")`.
abbrev pub trim_right_slashes : Text → Text
trim_right_slashes [] = []
trim_right_slashes (c ∷ s) =
    let rest = trim_right_slashes s in if text_eq (c ∷ rest) (codes "/") then [] else c ∷ rest

-- `strings.Join(qualifiers, " @ ")`.
abbrev pub joined : List Text → Text
joined [] = []
joined (q ∷ []) = q
joined (q ∷ r ∷ qs) = q ++ codes " @ " ++ joined (r ∷ qs)

abbrev pub no_qualifiers : List Text → Bool
no_qualifiers [] = true
no_qualifiers (q ∷ qs) = false

abbrev pub bracketed : Text → Text → Text
bracketed outer inner = outer ++ codes "(" ++ inner ++ codes ")"

module _ (unicode_lower : Text → Text) where
  abbrev without_scheme : Text → Text
  without_scheme s =
      if has_prefix (to_lower unicode_lower s) (codes "https://")
      then drop (length (codes "https://")) s
      else if has_prefix (to_lower unicode_lower s) (codes "http://")
      then drop (length (codes "http://")) s
      else s

  -- `formatUsageIdentityBaseURLDisplay`.
  unfoldable pub base_url_display : Text → Text
  base_url_display raw =
      if is_empty (trim_space raw) then [] else trim_right_slashes (without_scheme (trim_space raw))

  -- The `switch` of `DisplayName`, on the trimmed name, provider and prefix, the base URL and the
  -- qualifiers.
  unfoldable pub qualified_name : Text → Text → Text → Text → List Text → Text
  qualified_name name provider prefix base_url qualifiers =
      if not (is_empty name) && not (no_qualifiers qualifiers)
      then bracketed name (joined qualifiers)
      else if not (is_empty name)
      then name
      else if not (is_empty prefix) && not (is_empty base_url)
      then bracketed prefix base_url
      else if not (is_empty prefix)
      then prefix
      else if not (is_empty provider) && not (is_empty base_url)
      then bracketed provider base_url
      else if not (is_empty base_url)
      then base_url
      else provider

  abbrev pub display_name_for : AuthType → Labels → Text
  display_name_for auth_file l =
      if not (is_empty (trim_space l.name)) then trim_space l.name else trim_space l.provider
  display_name_for ai_provider l =
      if text_eq (trim_space l.type_name) (codes "openai")
        && not (is_empty (trim_space l.name))
        && not (text_eq (trim_space l.name) (codes "openai"))
        && text_eq (trim_space l.provider) (trim_space l.name)
      then trim_space l.name
      else qualified_name (trim_space l.name) (trim_space l.provider) (trim_space l.prefix)
          (base_url_display l.base_url)
          (display_qualifiers [] (trim_space l.prefix ∷ base_url_display l.base_url ∷ []))

  -- `DisplayName`.
  unfoldable pub display_name : Labels → Text
  display_name l = display_name_for l.auth_type l
