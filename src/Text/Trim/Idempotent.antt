-- ===== src/Text/Trim/Idempotent.antt =====
-- Trimming a trimmed text changes nothing.
use mathlib.Core.List.{reverse, reverse-append, reverse-reverse}
use cpa_usage.Base.{
  ℕ, ◌≡◌, refl, sym, ap, ◌∙◌, Bool, true, false, ◌||◌, [], ◌∷◌, ◌++◌, arith, if◌then◌else◌, subst,
  append-nil,
}
use cpa_usage.Text.Bytes.{Text}
use cpa_usage.Text.Trim.{is_space1, is_space2, is_space3, trim_left, trim_back, trim_space}

-- A text that begins with white space.
starts : Text → Bool
starts [] = false
starts (a ∷ []) = is_space1 a
starts (a ∷ b ∷ []) = is_space1 a || is_space2 a b
starts (a ∷ b ∷ c ∷ s) = is_space1 a || is_space2 a b || is_space3 a b c

-- A reversed text that ends in white space.
ends : Text → Bool
ends [] = false
ends (a ∷ []) = is_space1 a
ends (b ∷ a ∷ []) = is_space1 b || is_space2 a b
ends (c ∷ b ∷ a ∷ s) = is_space1 c || is_space2 b c || is_space3 a b c

trim_left_stop : (s : Text) → starts s ≡ false → trim_left s ≡ s
unfolding starts trim_left
trim_left_stop [] h = refl
trim_left_stop (a ∷ []) h = ground arith
trim_left_stop (a ∷ b ∷ []) h = ground arith
trim_left_stop (a ∷ b ∷ c ∷ s) h = ground arith

trim_back_stop : (s : Text) → ends s ≡ false → trim_back s ≡ s
unfolding ends trim_back
trim_back_stop [] h = refl
trim_back_stop (a ∷ []) h = ground arith
trim_back_stop (b ∷ a ∷ []) h = ground arith
trim_back_stop (c ∷ b ∷ a ∷ s) h = ground arith

starts-trim_left : (s : Text) → starts (trim_left s) ≡ false
unfolding starts trim_left
starts-trim_left [] = refl
starts-trim_left (a ∷ []) = ground arith
starts-trim_left (a ∷ b ∷ []) = ground (arith, starts-trim_left (b ∷ []))
starts-trim_left (a ∷ b ∷ c ∷ s) =
    ground (arith, starts-trim_left (b ∷ c ∷ s), starts-trim_left (c ∷ s), starts-trim_left s)

ends-trim_back : (s : Text) → ends (trim_back s) ≡ false
unfolding ends trim_back
ends-trim_back [] = refl
ends-trim_back (a ∷ []) = ground arith
ends-trim_back (b ∷ a ∷ []) = ground (arith, ends-trim_back (a ∷ []))
ends-trim_back (c ∷ b ∷ a ∷ s) =
    ground (arith, ends-trim_back (b ∷ a ∷ s), ends-trim_back (a ∷ s), ends-trim_back s)

-- A text begins with white space if a prefix of it does.
starts-append : (s r : Text) → starts (s ++ r) ≡ false → starts s ≡ false
unfolding starts
starts-append [] r h = refl
starts-append (a ∷ []) [] h = h
starts-append (a ∷ []) (b ∷ []) h = ground arith
starts-append (a ∷ []) (b ∷ c ∷ r) h = ground arith
starts-append (a ∷ b ∷ []) [] h = h
starts-append (a ∷ b ∷ []) (c ∷ r) h = ground arith
starts-append (a ∷ b ∷ c ∷ s) r h = h

-- `r` is what is left of `s` when a prefix is cut.
abbrev Suffix : Text → Text → Type 0
Suffix r s = (p : Text) × (p ++ r ≡ s)

Suffix-if : (b : Bool) (x y s : Text) → Suffix x s → Suffix y s → Suffix (if b then x else y) s
Suffix-if true x y s f g = f
Suffix-if false x y s f g = g

Suffix-cons : (a : ℕ) (r s : Text) → Suffix r s → Suffix r (a ∷ s)
Suffix-cons a r s (p, e) = (a ∷ p, ap (◌∷◌ a) e)

Suffix-refl : (s : Text) → Suffix s s
Suffix-refl s = ([], refl)

Suffix-nil : (s : Text) → Suffix [] s
Suffix-nil s = (s, append-nil s)

trim_back-Suffix : (s : Text) → Suffix (trim_back s) s
unfolding trim_back
trim_back-Suffix [] = Suffix-refl []
trim_back-Suffix (a ∷ []) = Suffix-if _ _ _ _ (Suffix-nil _) (Suffix-refl _)
trim_back-Suffix (b ∷ a ∷ []) =
    Suffix-if _ _ _ _ (Suffix-cons b _ _ (trim_back-Suffix (a ∷ [])))
      (Suffix-if _ _ _ _ (Suffix-nil _) (Suffix-refl _))
trim_back-Suffix (c ∷ b ∷ a ∷ s) =
    Suffix-if _ _ _ _ (Suffix-cons c _ _ (trim_back-Suffix (b ∷ a ∷ s))) (
      Suffix-if _ _ _ _ (Suffix-cons c _ _ (Suffix-cons b _ _ (trim_back-Suffix (a ∷ s)))) (
        Suffix-if _ _ _ _
          (Suffix-cons c _ _ (Suffix-cons b _ _ (Suffix-cons a _ _ (trim_back-Suffix s))))
          (Suffix-refl _)))

-- Trimming on the right keeps a prefix.
trim_right-prefix : (s : Text) → (r : Text) × (reverse (trim_back (reverse s)) ++ r ≡ s)
trim_right-prefix s =
    let (p, e) = trim_back-Suffix (reverse s) in
    (reverse p, sym (reverse-append p (trim_back (reverse s))) ∙ ap reverse e ∙ reverse-reverse s)

-- White space is gone from a trimmed text: trimming it again changes nothing.
pub trim_space_idem : (s : Text) → trim_space (trim_space s) ≡ trim_space s
unfolding trim_space
trim_space_idem s =
    let x = trim_left s in
    let y = reverse (trim_back (reverse x)) in
    let (r, e) = trim_right-prefix x in
    let plain : starts y ≡ false =
      starts-append y r (subst (λ t. starts t ≡ false) (sym e) (starts-trim_left s)) in
    ap (λ t. reverse (trim_back (reverse t))) (trim_left_stop y plain)
    ∙ ap (λ t. reverse (trim_back t)) (reverse-reverse (trim_back (reverse x)))
    ∙ ap reverse (trim_back_stop (trim_back (reverse x)) (ends-trim_back (reverse x)))
