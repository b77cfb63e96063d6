-- ===== src/Text/Trim.antt =====
-- `strings.TrimSpace`: Unicode white space, in its UTF-8 encodings, is cut at both ends.
pub mod Idempotent
pub mod Visible
use mathlib.Core.List.{reverse}
use cpa_usage.Base.{ℕ, ◌≡◌, refl, Bool, ◌&&◌, ◌||◌, [], ◌∷◌, leb, ◌==◌, if◌then◌else◌}
use cpa_usage.Text.Bytes.{Text, codes}

-- One byte: \t \n \v \f \r and the space.
unfoldable pub is_space1 : ℕ → Bool
is_space1 a = (leb 9 a && leb a 13) || a == 32

-- Two bytes: U+0085 and U+00A0.
unfoldable pub is_space2 : ℕ → ℕ → Bool
is_space2 a b = a == 0xc2 && (b == 0x85 || b == 0xa0)

-- Three bytes: U+1680, U+2000 to U+200A, U+2028, U+2029, U+202F, U+205F and U+3000.
unfoldable pub is_space3 : ℕ → ℕ → ℕ → Bool
is_space3 a b c =
    (a == 0xe1 && b == 0x9a && c == 0x80)
    || (a == 0xe2
        && b == 0x80
        && ((leb 0x80 c && leb c 0x8a) || c == 0xa8 || c == 0xa9 || c == 0xaf))
    || (a == 0xe2 && b == 0x81 && c == 0x9f)
    || (a == 0xe3 && b == 0x80 && c == 0x80)

unfoldable pub trim_left : Text → Text
trim_left [] = []
trim_left (a ∷ []) = if is_space1 a then [] else a ∷ []
trim_left (a ∷ b ∷ []) =
    let one = trim_left (b ∷ []) in
    if is_space1 a then one else if is_space2 a b then [] else a ∷ b ∷ []
trim_left (a ∷ b ∷ c ∷ s) =
    let one = trim_left (b ∷ c ∷ s) in
    let two = trim_left (c ∷ s) in
    let three = trim_left s in
    if is_space1 a
    then one
    else if is_space2 a b
    then two
    else if is_space3 a b c
    then three
    else a ∷ b ∷ c ∷ s

-- The same from the right end, over the reversed text: the last byte of an encoding comes first.
unfoldable pub trim_back : Text → Text
trim_back [] = []
trim_back (a ∷ []) = if is_space1 a then [] else a ∷ []
trim_back (b ∷ a ∷ []) =
    let one = trim_back (a ∷ []) in
    if is_space1 b then one else if is_space2 a b then [] else b ∷ a ∷ []
trim_back (c ∷ b ∷ a ∷ s) =
    let one = trim_back (b ∷ a ∷ s) in
    let two = trim_back (a ∷ s) in
    let three = trim_back s in
    if is_space1 c
    then one
    else if is_space2 b c
    then two
    else if is_space3 a b c
    then three
    else c ∷ b ∷ a ∷ s

unfoldable pub trim_space : Text → Text
unfolding trim_left trim_back is_space1 is_space2 is_space3
trim_space s = reverse (trim_back (reverse (trim_left s)))

trim_test :
    trim_space (32 ∷ 0xe3 ∷ 0x80 ∷ 0x80 ∷ b'a' ∷ 32 ∷ b'b' ∷ 0xc2 ∷ 0xa0 ∷ 10 ∷ []) ≡ codes "a b"
unfolding trim_space
trim_test = refl
