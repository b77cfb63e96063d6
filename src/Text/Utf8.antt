-- ===== src/Text/Utf8.antt =====
-- `utf8.ValidString`: the table of lead bytes and accepted ranges of Unicode's well-formed sequences.
use cpa_usage.Base.{
  ℕ, zero, suc, ◌≡◌, refl, Bool, true, false, ◌&&◌, Option, none, some, [], ◌∷◌, ltb, leb, ◌==◌,
  if◌then◌else◌,
}
use cpa_usage.Text.Bytes.{Text}

-- How many bytes follow a lead byte, and the range of the first of them.
unfoldable pub lead : ℕ → Option (ℕ × ℕ × ℕ)
lead c =
    if ltb c 0x80
    then some (0, 0, 0)
    else if leb 0xc2 c && leb c 0xdf
    then some (1, 0x80, 0xbf)
    else if c == 0xe0
    then some (2, 0xa0, 0xbf)
    else if c == 0xed
    then some (2, 0x80, 0x9f)
    else if leb 0xe1 c && leb c 0xef
    then some (2, 0x80, 0xbf)
    else if c == 0xf0
    then some (3, 0x90, 0xbf)
    else if leb 0xf1 c && leb c 0xf3
    then some (3, 0x80, 0xbf)
    else if c == 0xf4
    then some (3, 0x80, 0x8f)
    else none

-- `more` bytes are still to come, the first of them between `low` and `high`.
scan : ℕ → ℕ → ℕ → Text → Bool
scan zero low high [] = true
scan (suc more) low high [] = false
scan zero low high (c ∷ s) = elim (lead c) [
  | none ↦ false
  | some (more, low', high') ↦ scan more low' high' s
]
scan (suc more) low high (c ∷ s) = elim (leb low c && leb c high) [
  | true ↦ scan more 0x80 0xbf s
  | false ↦ false
]

unfoldable pub valid_string : Text → Bool
unfolding scan lead
valid_string s = scan 0 0 0 s

valid_test : valid_string (b'a' ∷ 0xe2 ∷ 0x82 ∷ 0xac ∷ []) ≡ true
unfolding valid_string
valid_test = refl

cut_test : valid_string (b'a' ∷ 0xe2 ∷ 0x82 ∷ []) ≡ false
unfolding valid_string
cut_test = refl
