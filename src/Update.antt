-- ===== src/Update.antt =====
-- internal/updatecheck/checker.go: stable versions, their order, and what an update check answers. What
-- GitHub answers to the two requests is an argument.
pub mod Order
pub mod Latest
use cpa_usage.Base.{
  ℕ, ◌+◌, ◌*◌, ◌-◌, ◌==◌, Bool, true, false, not, ◌&&◌, ◌||◌, Option, none, some, List, [], ◌∷◌,
  ◌++◌, ltb, leb, if◌then◌else◌, ◌≡◌, refl,
}
use cpa_usage.Int.{max_int64}
use cpa_usage.Result.{Result, ok, err}
use cpa_usage.Text.{Text, codes, is_empty}
use cpa_usage.Text.Trim.{trim_space}
use cpa_usage.Text.Decimal.{digits_value}

infixl 5 ◌>>=◌
abbrev pub ◌>>=◌ {ℓ κ} : {A : Type ℓ} {B : Type κ} → Option A → (A → Option B) → Option B
none >>= f = none
some a >>= f = f a

-- The parts of the pattern `^v(\d+)\.(\d+)\.(\d+)$`.
unfoldable pub literal : ℕ → Text → Option Text
literal c [] = none
literal c (d ∷ s) = if d == c then some s else none

abbrev pub is_digit : ℕ → Bool
is_digit c = leb b'0' c && leb c b'9'

-- The longest prefix of digits, and the rest.
unfoldable pub digits : Text → Text × Text
digits [] = ([], [])
digits (c ∷ s) = let (ds, rest) = digits s in if is_digit c then (c ∷ ds, rest) else ([], c ∷ s)

abbrev pub some_digits : Text × Text → Option (Text × Text)
some_digits ([], rest) = none
some_digits (d ∷ ds, rest) = some (d ∷ ds, rest)

abbrev pub at_end : Text × Text × Text → Text → Option (Text × Text × Text)
at_end groups [] = some groups
at_end groups (c ∷ s) = none

-- `stableVersionPattern.FindStringSubmatch`: the three groups.
unfoldable pub stable_groups : Text → Option (Text × Text × Text)
stable_groups s = do
  s1 ← literal b'v' s
  a ← some_digits (digits s1)
  s2 ← literal b'.' a.1
  b ← some_digits (digits s2)
  s3 ← literal b'.' b.1
  c ← some_digits (digits s3)
  at_end (a.0, b.0, c.0) c.1

abbrev pub is_some : {A : Type 0} → Option A → Bool
is_some none = false
is_some (some a) = true

-- `IsStableVersion`.
unfoldable pub is_stable_version : Text → Bool
is_stable_version value = is_some (stable_groups (trim_space value))

-- `strconv.Atoi` of digits.
abbrev pub atoi : Text → Option ℕ
atoi ds = if leb (digits_value 0 ds) max_int64 then some (digits_value 0 ds) else none

abbrev pub Version : Type 0
Version = ℕ × ℕ × ℕ

unfoldable pub parts_of : Text × Text × Text → Option Version
parts_of (a, b, c) = do x ← atoi a; y ← atoi b; z ← atoi c; some (x, y, z)

-- `parseStableVersion`.
unfoldable pub parse_stable_version : Text → Option Version
parse_stable_version value = stable_groups (trim_space value) >>= parts_of

-- The results -1, 0 and 1.
pub data Comparison : Type 0 where
  below same above : Comparison

abbrev pub compare_part : ℕ → ℕ → Comparison → Comparison
compare_part a b rest = if ltb a b then below else if ltb b a then above else rest

unfoldable pub compare_parts : Version → Version → Comparison
compare_parts (a, b, c) (x, y, z) = compare_part a x (compare_part b y (compare_part c z same))

-- `CompareStableVersions`; `none` for versions that are not stable.
unfoldable pub compare_stable_versions : Text → Text → Option Comparison
compare_stable_versions left right = do
  l ← parse_stable_version left
  r ← parse_stable_version right
  some (compare_parts l r)

abbrev pub is_below : Option Comparison → Bool
is_below (some below) = true
is_below _ = false

abbrev pub next_latest : Text → Text → Text
next_latest latest tag =
    if not (is_stable_version tag)
    then latest
    else if is_empty latest || is_below (compare_stable_versions latest tag)
    then tag
    else latest

-- The loop over the tags of `latestStableVersion`.
unfoldable pub latest_tag : Text → List Text → Text
latest_tag latest [] = latest
latest_tag latest (tag ∷ tags) = latest_tag (next_latest latest tag) tags

-- `fetchLatestRelease`, of the status and of what `getJSON` answers.
abbrev pub fetch_latest_release : ℕ × Result Text → Result Text
fetch_latest_release (status, err e) = if status == 404 then ok [] else err e
fetch_latest_release (status, ok tag_name) = ok (trim_space tag_name)

abbrev pub tag_names : List Text → List Text
tag_names [] = []
tag_names (n ∷ ns) =
    let rest = tag_names ns in if is_empty (trim_space n) then rest else trim_space n ∷ rest

-- `fetchTags`.
abbrev pub fetch_tags : Result (List Text) → Result (List Text)
fetch_tags (err e) = err e
fetch_tags (ok names) = ok (tag_names names)

abbrev pub unless_empty : Text → Option Text
unless_empty t = if is_empty t then none else some t

abbrev pub latest_of_tags : Result (List Text) → Result (Option Text)
latest_of_tags (err e) = err e
latest_of_tags (ok tags) = ok (unless_empty (latest_tag [] tags))

abbrev pub latest_of_release : Result Text → Result (List Text) → Result (Option Text)
latest_of_release (err e) tags = latest_of_tags tags
latest_of_release (ok release) tags =
    if is_stable_version release then ok (some release) else latest_of_tags tags

-- `latestStableVersion`.
unfoldable pub latest_stable_version : ℕ × Result Text → Result (List Text) → Result (Option Text)
latest_stable_version release tags =
    latest_of_release (fetch_latest_release release) (fetch_tags tags)

-- `Result` of the check.
pub record Update : Type 0 where
  pub current_version : Text
  pub latest_version : Text
  pub update_available : Bool
  pub can_compare : Bool
  pub message : Text

abbrev pub not_comparable : Text → Text → Text → Update
not_comparable current latest why = record {
  current_version = current;
  latest_version = latest;
  update_available = false;
  can_compare = false;
  message = why;
}

abbrev pub compared : Text → Text → Option Comparison → Update
compared current latest none =
    not_comparable current latest (codes "current build is not comparable")
compared current latest (some below) = record {
  current_version = current;
  latest_version = latest;
  update_available = true;
  can_compare = true;
  message = codes "new version available: " ++ latest;
}
compared current latest (some _) = record {
  current_version = current;
  latest_version = latest;
  update_available = false;
  can_compare = true;
  message = codes "already on the latest version";
}

abbrev pub answered : Text → Result (Option Text) → Result Update
answered current (err e) = err e
answered current (ok none) = ok (not_comparable current [] (codes "no comparable release found"))
answered current (ok (some latest)) =
    ok (compared current latest (compare_stable_versions current latest))

-- `Check` of a checker for the current version.
unfoldable pub check_update : Text → ℕ × Result Text → Result (List Text) → Result Update
check_update current release tags =
    if is_stable_version current
    then answered current (latest_stable_version release tags)
    else ok (not_comparable current [] (codes "current build is not comparable"))
