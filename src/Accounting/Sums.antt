-- ===== src/Accounting/Sums.antt =====
-- The checks of the validator on nine buckets that are there: checked sums are sums.
use cpa_usage.Base.{
  ℕ, ◌+◌, ◌≤◌, ◌≡◌, refl, ◌↔◌, ◌⊎◌, true, false, Option, none, some, List, [], ◌∷◌, arith, All,
}
use cpa_usage.Int.{ℤ, pos, negsuc, max_int64}
use cpa_usage.Text.{Text, text_eq_iff}
use cpa_usage.Accounting.{
  UsageAccounting, complete, inconsistent, unclassified, supported_quality, any_nil, any_negative,
  accounting_sum_equals, validate_buckets,
}

-- A bucket that is present and not negative.
abbrev pub Counted : Option ℤ → Type 0
Counted v = (n : ℕ) × (v ≡ some (pos n))

pub Counted-of_checks :
    (vs : List (Option ℤ)) → any_nil vs ≡ false → any_negative vs ≡ false → All Counted vs
unfolding any_nil any_negative
Counted-of_checks [] h k = tt
Counted-of_checks (none ∷ vs) h k = cc
Counted-of_checks (some (pos n) ∷ vs) h k = ((n, refl), Counted-of_checks vs h k)
Counted-of_checks (some (negsuc n) ∷ vs) h k = cc

checks_of_Counted :
    (vs : List (Option ℤ)) → All Counted vs → (any_nil vs ≡ false) × (any_negative vs ≡ false)
unfolding any_nil any_negative
checks_of_Counted [] c = (refl, refl)
checks_of_Counted (none ∷ vs) ((n, e), c) = cc
checks_of_Counted (some v ∷ vs) ((n, e), c) = ground (arith, checks_of_Counted vs c)

-- On counts the checked sum is the sum, when the total is in range.
sum_of_two :
    (t a b : ℕ)
    → t ≤ max_int64
    → a ≤ max_int64
    → b ≤ max_int64
    → (accounting_sum_equals (pos t) (pos a ∷ pos b ∷ []) ≡ true) ↔ (t ≡ a + b)
unfolding accounting_sum_equals
sum_of_two t a b h ha hb = ground arith

sum_of_three :
    (t a b c : ℕ)
    → t ≤ max_int64
    → a ≤ max_int64
    → b ≤ max_int64
    → c ≤ max_int64
    → (accounting_sum_equals (pos t) (pos a ∷ pos b ∷ pos c ∷ []) ≡ true) ↔ (t ≡ a + b + c)
unfolding accounting_sum_equals
sum_of_three t a b c h ha hb hc = ground arith

pub supported_quality_iff :
    (q : Text)
    → (supported_quality q ≡ true) ↔ ((q ≡ complete) ⊎ ((q ≡ inconsistent) ⊎ (q ≡ unclassified)))
unfolding supported_quality
supported_quality_iff q =
    ground (arith, text_eq_iff q complete, text_eq_iff q inconsistent, text_eq_iff q unclassified)

-- The checks on the counts, once the nine buckets are known to be there.
abbrev pub Sums : (q : Text) (t i u cr cw o nr r x : ℕ) → Type 0
Sums q t i u cr cw o nr r x =
    (i ≡ u + cr + cw) × (o ≡ nr + r) × (t ≡ i + o + x) × (q ≡ complete → x ≡ 0)

unfoldable pub canonical_facts : (state q : Text) (t i u cr cw o nr r x : ℕ) → UsageAccounting
canonical_facts state q t i u cr cw o nr r x = record {
  accounting_state = state;
  token_quality = some q;
  canonical_total_tokens = some (pos t);
  canonical_input_tokens = some (pos i);
  canonical_uncached_tokens = some (pos u);
  canonical_cache_read_tokens = some (pos cr);
  canonical_cache_write_tokens = some (pos cw);
  canonical_output_tokens = some (pos o);
  canonical_non_reasoning_tokens = some (pos nr);
  canonical_reasoning_tokens = some (pos r);
  canonical_unclassified_tokens = some (pos x);
}

pub validate_counts :
    (state q : Text) (t i u cr cw o nr r x : ℕ)
    → All (λ (n : ℕ). n ≤ max_int64) (t ∷ i ∷ u ∷ cr ∷ cw ∷ o ∷ nr ∷ r ∷ x ∷ [])
    → (validate_buckets q (canonical_facts state q t i u cr cw o nr r x) ≡ none)
      ↔ Sums q t i u cr cw o nr r x
unfolding canonical_facts any_nil any_negative validate_buckets
validate_counts state q t i u cr cw o nr r x
      (ht, (hi, (hu, (hcr, (hcw, (ho, (hnr, (hr, (hx, end))))))))) =
    ground (
      arith,
      sum_of_three i u cr cw hi hu hcr hcw,
      sum_of_two o nr r ho hnr hr,
      sum_of_three t i o x ht hi ho hx,
      text_eq_iff q complete,
    )
