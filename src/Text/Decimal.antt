-- ===== src/Text/Decimal.antt =====
-- `strconv.FormatUint(n, 10)` and the decimal value of a text of digits.
use cpa_usage.Base.{
  ℕ, zero, suc, ◌+◌, ◌-◌, ◌*◌, ◌/◌, ◌%◌, ◌<◌, ◌≡◌, refl, sym, ap, ◌∙◌, true, false, [], ◌∷◌, arith,
  ltb, All, Bool-cases, inl, inr,
}
use cpa_usage.Text.Bytes.{Text, codes, is_empty, IsVisible}

-- The loop fills the digits from the right. The fuel is one more than the number.
digits_from : ℕ → ℕ → Text → Text
digits_from zero n acc = acc
digits_from (suc fuel) n acc = elim (ltb n 10) [
  | true ↦ (48 + n) ∷ acc
  | false ↦ digits_from fuel (n / 10) ((48 + n % 10) ∷ acc)
]

unfoldable pub format_uint : ℕ → Text
unfolding digits_from
format_uint n = digits_from (suc n) n []

-- The value of a text of digits behind the number `n`.
unfoldable pub digits_value : ℕ → Text → ℕ
digits_value n [] = n
digits_value n (c ∷ s) = digits_value (n * 10 + (c - 48)) s

digits_value-digits_from :
    (fuel n : ℕ) (acc : Text)
    → n < fuel
    → digits_value 0 (digits_from fuel n acc) ≡ digits_value n acc
unfolding digits_from digits_value
digits_value-digits_from zero n acc h = elim h [ ]
digits_value-digits_from (suc fuel) n acc h =
    ground (arith, digits_value-digits_from fuel (n / 10) ((48 + n % 10) ∷ acc))

pub digits_value-format_uint : (n : ℕ) → digits_value 0 (format_uint n) ≡ n
unfolding format_uint digits_value
digits_value-format_uint n = digits_value-digits_from (suc n) n [] (omega arith)

-- Different numbers print differently.
pub format_uint_injective : (m n : ℕ) → format_uint m ≡ format_uint n → m ≡ n
format_uint_injective m n h =
    sym (digits_value-format_uint m) ∙ ap (digits_value 0) h ∙ digits_value-format_uint n

-- A predicate that holds of the ten digits holds of every byte of a number.
module _ (P : ℕ → Type 0) (digit : (d : ℕ) → d < 10 → P (48 + d)) where
  digits_from-All : (fuel n : ℕ) (acc : Text) → All P acc → All P (digits_from fuel n acc)
  unfolding digits_from
  digits_from-All zero n acc h = h
  digits_from-All (suc fuel) n acc h = elim (Bool-cases (ltb n 10)) [
    | inl small ↦ rw (small, digits_from) (digit n (ground arith), h)
    | inr large ↦
        rw (large, digits_from)
          (digits_from-All fuel (n / 10) ((48 + n % 10) ∷ acc) (digit (n % 10) (omega arith), h))
  ]

  pub format_uint-All : (n : ℕ) → All P (format_uint n)
  unfolding format_uint
  format_uint-All n = digits_from-All (suc n) n [] tt

pub format_uint-IsVisible : (n : ℕ) → All IsVisible (format_uint n)
format_uint-IsVisible n = format_uint-All IsVisible (λ d h. (omega arith, omega (arith, h))) n

digits_from-there : (fuel n c : ℕ) (acc : Text) → is_empty (digits_from fuel n (c ∷ acc)) ≡ false
unfolding digits_from
digits_from-there zero n c acc = refl
digits_from-there (suc fuel) n c acc = elim (Bool-cases (ltb n 10)) [
  | inl small ↦ rw (small, digits_from) refl
  | inr large ↦ rw (large, digits_from) (digits_from-there fuel (n / 10) (48 + n % 10) (c ∷ acc))
]

-- A number has a digit at least.
pub format_uint-there : (n : ℕ) → is_empty (format_uint n) ≡ false
unfolding format_uint digits_from
format_uint-there n = elim (Bool-cases (ltb n 10)) [
  | inl small ↦ rw (small, digits_from) refl
  | inr large ↦ rw (large, digits_from) (digits_from-there n (n / 10) (48 + n % 10) [])
]

format_test : format_uint 1024 ≡ codes "1024"
unfolding format_uint
format_test = refl
