-- ===== src/Update/Order.antt =====
-- internal/updatecheck/checker.go: the comparison of versions is the lexicographic order.
use cpa_usage.Base.{subst, ℕ, ◌<◌, ◌≡◌, ◌⊎◌, ◌↔◌, arith, false, some, ◌≤◌}
use cpa_usage.Update.{Version, below, same, above, compare_parts, is_below}

-- The first part that differs decides.
abbrev pub Less : Version → Version → Type 0
Less (a, b, c) (x, y, z) = (a < x) ⊎ ((a ≡ x) × ((b < y) ⊎ ((b ≡ y) × (c < z))))

compare_parts-below : (v w : Version) → (compare_parts v w ≡ below) ↔ Less v w
unfolding compare_parts
compare_parts-below (a, b, c) (x, y, z) = ground arith

compare_parts-above : (v w : Version) → (compare_parts v w ≡ above) ↔ Less w v
unfolding compare_parts
compare_parts-above (a, b, c) (x, y, z) = ground arith

parts_equal :
    (a b c x y z : ℕ) → compare_parts (a, b, c) (x, y, z) ≡ same → (a ≡ x) × (b ≡ y) × (c ≡ z)
unfolding compare_parts
parts_equal a b c x y z h = ground arith

equal_parts : (v : Version) → compare_parts v v ≡ same
unfolding compare_parts
equal_parts (a, b, c) = ground arith

triple_eq : (a b c x y z : ℕ) → (a ≡ x) × (b ≡ y) × (c ≡ z) → ◌≡◌ {A = Version} (a, b, c) (x, y, z)
triple_eq a b c x y z (p, q, r) = cc

-- Comparing two versions gives -1 exactly if the first part that differs is less, 1 exactly if it is
-- greater, and 0 exactly if no part differs.
pub compare_parts_iff :
    (v w : Version)
    → ((compare_parts v w ≡ below) ↔ Less v w)
      × ((compare_parts v w ≡ above) ↔ Less w v)
      × ((compare_parts v w ≡ same) ↔ (v ≡ w))
compare_parts_iff (a, b, c) (x, y, z) = (
  compare_parts-below (a, b, c) (x, y, z),
  compare_parts-above (a, b, c) (x, y, z),
  (
    λ h. triple_eq a b c x y z (parts_equal a b c x y z h),
    λ e. subst (λ w. compare_parts (a, b, c) w ≡ same) e (equal_parts (a, b, c)),
  ),
)

-- Less or the same.
abbrev pub AtMost : Version → Version → Type 0
AtMost (a, b, c) (x, y, z) = (a < x) ⊎ ((a ≡ x) × ((b < y) ⊎ ((b ≡ y) × (c ≤ z))))

pub AtMost-refl : (v : Version) → AtMost v v
AtMost-refl (a, b, c) = ground arith

pub AtMost-trans : (u v w : Version) → AtMost u v → AtMost v w → AtMost u w
AtMost-trans (a, b, c) (d, e, f) (x, y, z) h k = ground arith

pub compare_parts_cases :
    (v w : Version)
    → ((compare_parts v w ≡ below) × AtMost v w)
      ⊎ ((is_below (some (compare_parts v w)) ≡ false) × AtMost w v)
unfolding compare_parts
compare_parts_cases (a, b, c) (x, y, z) = ground arith
