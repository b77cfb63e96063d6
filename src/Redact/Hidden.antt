-- ===== src/Redact/Hidden.antt =====
-- internal/redact/redact.go: what a display name gives away, and that aliases are stable.
use cpa_usage.Base.{
  append-nil, ℕ, zero, suc, ◌-◌, ◌*◌, ◌<◌, ◌≡◌, refl, sym, ap, ap₂, ◌∙◌, subst, true, false, ◌||◌,
  List, [], ◌∷◌, ◌++◌, leb, if◌then◌else◌, length, take, drop, All, All-append, arith, Bool-cases,
  inl, inr,
}
use cpa_usage.Text.{Text, is_empty, text_eq, has_prefix, IsVisible}
use cpa_usage.Text.Trim.{trim_space}
use cpa_usage.Text.Trim.Visible.{trim_space_visible}
use cpa_usage.Text.Trim.Idempotent.{trim_space_idem}
use cpa_usage.Redact.{
  api_alias_prefix, unknown, alias_of, api_alias, joined, stars, masked, runes, runes_from,
  api_key_display_name,
}

-- How many runes are shown at each end, of a key with so many runes.
abbrev pub shown : ℕ → ℕ
shown n = if leb n 4 then 0 else if leb n 8 then 1 else 4

-- A key with a rune hides one at least.
shown-less : (n : ℕ) → 0 < n → 2 * shown n < n
shown-less n h = ground arith

-- The display with the number of runes as a variable.
abbrev masked_at : ℕ → List Text → Text
masked_at n rs =
    if leb n 4
    then stars n
    else if leb n 8
    then joined (take 1 rs) ++ stars (n - 2) ++ joined (drop (n - 1) rs)
    else joined (take 4 rs) ++ stars (n - 8) ++ joined (drop (n - 4) rs)

masked_at-hides :
    (n : ℕ) (rs ss : List Text)
    → take (shown n) rs ≡ take (shown n) ss
    → drop (n - shown n) rs ≡ drop (n - shown n) ss
    → masked_at n rs ≡ masked_at n ss
masked_at-hides n rs ss heads tails = elim (Bool-cases (leb n 4)) [
  | inl few ↦ rw few refl
  | inr more ↦ elim (Bool-cases (leb n 8)) [
    | inl some_more ↦
        let k = shown_one n more some_more in
        rw (more, some_more)
          (around (stars (n - 2)) (subst (λ m. take m rs ≡ take m ss) k heads)
            (subst (λ m. drop (n - m) rs ≡ drop (n - m) ss) k tails))
    | inr many ↦
        let k = shown_four n more many in
        rw (more, many)
          (around (stars (n - 8)) (subst (λ m. take m rs ≡ take m ss) k heads)
            (subst (λ m. drop (n - m) rs ≡ drop (n - m) ss) k tails))
  ]
]
  where
    shown_one : (n : ℕ) → leb n 4 ≡ false → leb n 8 ≡ true → shown n ≡ 1
    shown_one n h k = rw (h, k) refl

    shown_four : (n : ℕ) → leb n 4 ≡ false → leb n 8 ≡ false → shown n ≡ 4
    shown_four n h k = rw (h, k) refl

    around :
        {a b c d : List Text} (mid : Text)
        → a ≡ b
        → c ≡ d
        → joined a ++ mid ++ joined c ≡ joined b ++ mid ++ joined d
    around mid p q = ap₂ (λ x y. joined x ++ mid ++ joined y) p q

masked-hides :
    (rs ss : List Text)
    → length rs ≡ length ss
    → take (shown (length rs)) rs ≡ take (shown (length rs)) ss
    → drop (length rs - shown (length rs)) rs ≡ drop (length rs - shown (length rs)) ss
    → masked rs ≡ masked ss
unfolding masked
masked-hides rs ss same heads tails =
    masked_at-hides (length rs) rs ss heads tails ∙ ap (λ n. masked_at n ss) same

-- A key that is shown masked: trimmed, it is neither empty nor the word "unknown".
abbrev pub IsKey : Text → Type 0
IsKey value = (is_empty (trim_space value) ≡ false) × (text_eq (trim_space value) unknown ≡ false)

-- The runes of a key without the white space around it.
abbrev pub key_runes : Text → List Text
key_runes value = runes (trim_space value)

display_name-masked : (v : Text) → IsKey v → api_key_display_name v ≡ masked (key_runes v)
unfolding api_key_display_name
display_name-masked v (full, named) = rw (full, named) refl

length-runes : (t : Text) → is_empty t ≡ false → 0 < length (runes t)
unfolding runes_from
length-runes [] h = grind arith
length-runes (c ∷ s) h = omega arith

-- The first and the last `k` runes, with a star for each rune between.
abbrev pub ends_shown : ℕ → List Text → Text
ends_shown k rs =
    joined (take k rs) ++ stars (length rs - 2 * k) ++ joined (drop (length rs - k) rs)

drop-length : (rs : List Text) → drop (length rs) rs ≡ []
drop-length [] = refl
drop-length (r ∷ rs) = drop-length rs

minus_none : (n : ℕ) → n ≡ n - 0
minus_none n = omega arith

no_end_shown : (rs : List Text) → stars (length rs) ≡ ends_shown 0 rs
no_end_shown rs =
    sym (append-nil (stars (length rs)))
    ∙ ap (λ x. stars (length rs) ++ joined x) (sym (drop-length rs))
    ∙ ap (λ m. stars m ++ joined (drop m rs)) (minus_none (length rs))

masked-ends_shown : (rs : List Text) → masked rs ≡ ends_shown (shown (length rs)) rs
unfolding masked
masked-ends_shown rs = elim (Bool-cases (leb (length rs) 4)) [
  | inl few ↦ rw few (no_end_shown rs)
  | inr more ↦ elim (Bool-cases (leb (length rs) 8)) [
    | inl some_more ↦ rw (more, some_more) refl
    | inr many ↦ rw (more, many) refl
  ]
]

-- The display name of a key is made of the ends of its trimmed text (no rune of up to 4 runes, one at each
-- end of up to 8, and else four) with a star for each rune between, of which there is one at least. Another
-- key with as many runes and the same ends has the same display name. The word "unknown" and a blank text
-- are no keys.
pub api_key_display_name-hides :
    (v w : Text)
    → IsKey v
    → IsKey w
    → length (key_runes v) ≡ length (key_runes w)
    → take (shown (length (key_runes v))) (key_runes v)
      ≡ take (shown (length (key_runes v))) (key_runes w)
    → drop (length (key_runes v) - shown (length (key_runes v))) (key_runes v)
      ≡ drop (length (key_runes v) - shown (length (key_runes v))) (key_runes w)
    → (api_key_display_name v ≡ ends_shown (shown (length (key_runes v))) (key_runes v))
      × (2 * shown (length (key_runes v)) < length (key_runes v))
      × (api_key_display_name v ≡ api_key_display_name w)
api_key_display_name-hides v w a b same heads tails = (
  display_name-masked v a ∙ masked-ends_shown (key_runes v),
  shown-less (length (key_runes v)) (length-runes (trim_space v) a.0),
  display_name-masked v a
      ∙ masked-hides (key_runes v) (key_runes w) same heads tails
      ∙ sym (display_name-masked w b),
)

alias_fixed :
    (hash : Text → Text) (t : Text)
    → is_empty t ≡ false
    → (text_eq t unknown || has_prefix t api_alias_prefix) ≡ true
    → trim_space t ≡ t
    → api_alias hash t ≡ t
unfolding api_alias
alias_fixed hash t there known trimmed = ap (alias_of hash) trimmed ∙ rw (there, known) refl

All-take : (P : ℕ → Type 0) (n : ℕ) (s : Text) → All P s → All P (take n s)
All-take P zero s h = tt
All-take P (suc n) [] h = tt
All-take P (suc n) (c ∷ s) (h, hs) = (h, All-take P n s hs)

prefix-IsVisible : All IsVisible api_alias_prefix
prefix-IsVisible = ground arith

hashed-IsVisible : (s : Text) → All IsVisible s → All IsVisible (api_alias_prefix ++ take 12 s)
hashed-IsVisible s h =
    All-append IsVisible api_alias_prefix (take 12 s) prefix-IsVisible (All-take IsVisible 12 s h)

hashed-known :
    (s : Text)
    → (text_eq (api_alias_prefix ++ s) unknown
        || has_prefix (api_alias_prefix ++ s) api_alias_prefix)
      ≡ true
unfolding has_prefix text_eq
hashed-known s = refl

api_alias-unknown : (hash : Text → Text) → api_alias hash unknown ≡ unknown
unfolding text_eq
api_alias-unknown hash =
    alias_fixed hash unknown refl refl (trim_space_visible unknown (ground arith))

alias_of-again :
    (hash : Text → Text) (t : Text)
    → ((s : Text) → All IsVisible (hash s))
    → trim_space t ≡ t
    → api_alias hash (alias_of hash t) ≡ alias_of hash t
alias_of-again hash t visible trimmed = elim (Bool-cases (is_empty t)) [
  | inl blank ↦ rw blank (api_alias-unknown hash)
  | inr there ↦ elim (Bool-cases (text_eq t unknown || has_prefix t api_alias_prefix)) [
    | inl known ↦ rw (there, known) (alias_fixed hash t there known trimmed)
    | inr new ↦
        rw (there, new)
          (alias_fixed hash (api_alias_prefix ++ take 12 (hash t)) refl
            (hashed-known (take 12 (hash t)))
            (trim_space_visible _ (hashed-IsVisible (hash t) (visible t))))
  ]
]

-- The alias of an alias is the alias, if the hexadecimal digits of a hash are visible characters: redacting
-- twice is redacting once.
api_alias_idem :
    (hash : Text → Text) (value : Text)
    → ((s : Text) → All IsVisible (hash s))
    → api_alias hash (api_alias hash value) ≡ api_alias hash value
unfolding api_alias
api_alias_idem hash value visible =
    alias_of-again hash (trim_space value) visible (trim_space_idem value)
