-- ===== src/Tests/UpdateTests.antt =====
-- internal/updatecheck/checker.go on a few tags.
use mathlib.Core.List.{Memᴰ}
use cpa_usage.Base.{◌≡◌, ◌↔◌, refl, true, some, [], ◌∷◌, inr}
use cpa_usage.Result.{ok}
use cpa_usage.Text.{Text, codes}
use cpa_usage.Text.Trim.{trim_space, trim_left, trim_back, is_space1, is_space2, is_space3}
use cpa_usage.Text.Decimal.{digits_value}
use cpa_usage.Update.{
  Version, below, above, same, compare_parts, literal, digits, stable_groups, parts_of,
  parse_stable_version, is_stable_version, compare_stable_versions, latest_tag,
  latest_stable_version, Update, check_update,
}
use cpa_usage.Update.Order.{Less, compare_parts_iff}
use cpa_usage.Update.Latest.{Covers, Outdated, latest_tag-greatest, check_update-Outdated}

compare_parts_iff_example :
    ((compare_parts (1, 2, 3) (1, 10, 0) ≡ below) ↔ Less (1, 2, 3) (1, 10, 0))
    × ((compare_parts (1, 2, 3) (1, 10, 0) ≡ above) ↔ Less (1, 10, 0) (1, 2, 3))
    × ((compare_parts (1, 2, 3) (1, 10, 0) ≡ same) ↔ (◌≡◌ {A = Version} (1, 2, 3) (1, 10, 0)))
compare_parts_iff_example = compare_parts_iff (1, 2, 3) (1, 10, 0)

abbrev old : Text
old = codes "v1.2.3"

abbrev new : Text
new = codes "v1.10.0"

old-parsed : parse_stable_version old ≡ some (1, 2, 3)
unfolding parse_stable_version parts_of stable_groups literal digits digits_value trim_space
    trim_left trim_back is_space1 is_space2 is_space3
old-parsed = refl

new-parsed : parse_stable_version new ≡ some (1, 10, 0)
unfolding parse_stable_version parts_of stable_groups literal digits digits_value trim_space
    trim_left trim_back is_space1 is_space2 is_space3
new-parsed = refl

latest_tag-greatest_example : Covers (1, 10, 0) (latest_tag [] (old ∷ new ∷ []))
latest_tag-greatest_example =
    latest_tag-greatest new (1, 10, 0) (old ∷ new ∷ []) (Memᴰ.tail (Memᴰ.head refl)) new-parsed
      (inr ((1, 2, 3), old-parsed), (inr ((1, 10, 0), new-parsed), tt))

abbrev huge : Text
huge = codes "v99999999999999999999.0.0"

abbrev answer : Update
answer = record {
  current_version = old;
  latest_version = new;
  update_available = true;
  can_compare = true;
  message = codes "new version available: v1.10.0";
}

update_found : check_update old (200, ok (codes " v1.10.0 ")) (ok []) ≡ ok answer
unfolding check_update latest_stable_version compare_stable_versions compare_parts is_stable_version
    parse_stable_version parts_of stable_groups literal digits digits_value trim_space trim_left
    trim_back is_space1 is_space2 is_space3
update_found = refl

check_update-Outdated_example : Outdated old answer
check_update-Outdated_example =
    check_update-Outdated old (200, ok (codes " v1.10.0 ")) (ok []) answer update_found refl
