-- ===== src/Text/Trim/Visible.antt =====
-- A text of visible ASCII has nothing to trim.
use mathlib.Core.List.{reverse, reverse_aux, reverse-reverse}
use cpa_usage.Base.{◌≡◌, refl, ap, ◌∙◌, [], ◌∷◌, arith, All}
use cpa_usage.Text.Bytes.{Text, IsVisible}
use cpa_usage.Text.Trim.{is_space1, is_space2, is_space3, trim_left, trim_back, trim_space}

trim_left_visible : (s : Text) → All IsVisible s → trim_left s ≡ s
unfolding trim_left is_space1 is_space2 is_space3
trim_left_visible [] h = refl
trim_left_visible (a ∷ []) h = ground arith
trim_left_visible (a ∷ b ∷ []) h = ground arith
trim_left_visible (a ∷ b ∷ c ∷ s) h = ground arith

trim_back_visible : (s : Text) → All IsVisible s → trim_back s ≡ s
unfolding trim_back is_space1 is_space2 is_space3
trim_back_visible [] h = refl
trim_back_visible (a ∷ []) h = ground arith
trim_back_visible (b ∷ a ∷ []) h = ground arith
trim_back_visible (c ∷ b ∷ a ∷ s) h = ground arith

All-reverse_aux : (s t : Text) → All IsVisible s → All IsVisible t → All IsVisible (reverse_aux s t)
All-reverse_aux [] t h k = k
All-reverse_aux (c ∷ s) t (v, h) k = All-reverse_aux s (c ∷ t) h (v, k)

pub trim_space_visible : (s : Text) → All IsVisible s → trim_space s ≡ s
unfolding trim_space
trim_space_visible s h =
    ap (λ t. reverse (trim_back (reverse t))) (trim_left_visible s h)
    ∙ ap reverse (trim_back_visible (reverse s) (All-reverse_aux s [] h tt))
    ∙ reverse-reverse s
