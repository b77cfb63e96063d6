-- ===== src/Redact.antt =====
-- internal/redact/redact.go: the alias and the display name of an API key. SHA-256 in hexadecimal is an
-- argument. A rune is the text of its encoding; a byte that belongs to no encoding is U+FFFD.
pub mod Hidden
pub mod Snapshot
use cpa_usage.Base.{
  ℕ, zero, suc, ◌-◌, ◌≡◌, refl, Bool, true, false, ◌&&◌, ◌||◌, Option, none, some, List, [], ◌∷◌,
  ◌++◌, leb, if◌then◌else◌, length, take, drop,
}
use cpa_usage.Text.{Text, codes, is_empty, text_eq, has_prefix}
use cpa_usage.Text.Trim.{trim_space}
use cpa_usage.Text.Utf8.{lead}

abbrev pub api_alias_prefix : Text
api_alias_prefix = codes "redacted_api_"

abbrev pub unknown : Text
unknown = codes "unknown"

abbrev pub alias_of : (Text → Text) → Text → Text
alias_of hash trimmed =
    if is_empty trimmed
    then unknown
    else if text_eq trimmed unknown || has_prefix trimmed api_alias_prefix
    then trimmed
    else api_alias_prefix ++ take 12 (hash trimmed)

-- `APIAlias`.
unfoldable pub api_alias : (Text → Text) → Text → Text
api_alias hash value = alias_of hash (trim_space value)

abbrev pub replacement : Text
replacement = 0xef ∷ 0xbf ∷ 0xbd ∷ []

-- The bytes that follow a lead byte, and the rest.
unfoldable pub following : ℕ → ℕ → ℕ → Text → Option (Text × Text)
following zero low high s = some ([], s)
following (suc more) low high [] = none
following (suc more) low high (c ∷ s) = elim (leb low c && leb c high) [
  | false ↦ none
  | true ↦ elim (following more 0x80 0xbf s) [ none ↦ none | some r ↦ some (c ∷ r.0, r.1) ]
]

abbrev pub led : ℕ → Text → Option (Text × Text) → Text × Text
led c s none = (replacement, s)
led c s (some r) = (c ∷ r.0, r.1)

-- The first rune of a text that begins with the byte `c`, and the rest.
abbrev pub first_rune : ℕ → Text → Option (ℕ × ℕ × ℕ) → Text × Text
first_rune c s none = (replacement, s)
first_rune c s (some (more, low, high)) = led c s (following more low high s)

-- `[]rune(s)`; each round takes a byte at least.
unfoldable pub runes_from : ℕ → Text → List Text
runes_from zero s = []
runes_from (suc fuel) [] = []
runes_from (suc fuel) (c ∷ s) = let (r, rest) = first_rune c s (lead c) in r ∷ runes_from fuel rest

abbrev pub runes : Text → List Text
runes s = runes_from (length s) s

-- `string(runes)`.
abbrev pub joined : List Text → Text
joined [] = []
joined (r ∷ rs) = r ++ joined rs

-- `strings.Repeat("*", n)`.
abbrev pub stars : ℕ → Text
stars zero = []
stars (suc n) = b'*' ∷ stars n

unfoldable pub masked : List Text → Text
masked rs =
    if leb (length rs) 4
    then stars (length rs)
    else if leb (length rs) 8
    then joined (take 1 rs) ++ stars (length rs - 2) ++ joined (drop (length rs - 1) rs)
    else joined (take 4 rs) ++ stars (length rs - 8) ++ joined (drop (length rs - 4) rs)

abbrev pub display_of : Text → Text
display_of trimmed =
    if is_empty trimmed || text_eq trimmed unknown then unknown else masked (runes trimmed)

-- `APIKeyDisplayName`.
unfoldable pub api_key_display_name : Text → Text
api_key_display_name value = display_of (trim_space value)

display_test : api_key_display_name (codes " sk-1234567890 ") ≡ codes "sk-1*****7890"
unfolding api_key_display_name masked runes_from following lead trim_space text_eq
display_test = refl
