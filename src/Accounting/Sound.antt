-- ===== src/Accounting/Sound.antt =====
-- What the validator accepts: facts whose buckets add up exactly.
use cpa_usage.Base.{
  ℕ, ◌+◌, ◌≤◌, ◌≡◌, ◌↔◌, ◌⊎◌, inl, inr, true, false, Option, none, some, [], ◌∷◌, arith, All,
  Option-cases, subst, sym, ◌∙◌, ap,
}
use cpa_usage.Int.{ℤ, pos, negsuc, max_int64}
use cpa_usage.Text.{Text}
use cpa_usage.Accounting.{
  UsageAccounting, complete, inconsistent, unclassified, supported_quality, buckets, any_nil,
  any_negative, validate_usage_accounting,
}
use cpa_usage.Accounting.Sums.{
  Counted, Counted-of_checks, supported_quality_iff, Sums, canonical_facts, validate_counts,
}

-- A bucket in the range of `int64`.
abbrev pub InRange : Option ℤ → Type 0
InRange none = Unit
InRange (some (pos n)) = n ≤ max_int64
InRange (some (negsuc n)) = n ≤ max_int64

pub record IsCanonical (f : UsageAccounting) : Type 0 where
  pub quality : Text
  pub total : ℕ
  pub input : ℕ
  pub uncached : ℕ
  pub cache_read : ℕ
  pub cache_write : ℕ
  pub output : ℕ
  pub non_reasoning : ℕ
  pub reasoning : ℕ
  pub unclassified_tokens : ℕ
  pub quality_eq : f.token_quality ≡ some quality
  pub total_eq : f.canonical_total_tokens ≡ some (pos total)
  pub input_eq : f.canonical_input_tokens ≡ some (pos input)
  pub uncached_eq : f.canonical_uncached_tokens ≡ some (pos uncached)
  pub cache_read_eq : f.canonical_cache_read_tokens ≡ some (pos cache_read)
  pub cache_write_eq : f.canonical_cache_write_tokens ≡ some (pos cache_write)
  pub output_eq : f.canonical_output_tokens ≡ some (pos output)
  pub non_reasoning_eq : f.canonical_non_reasoning_tokens ≡ some (pos non_reasoning)
  pub reasoning_eq : f.canonical_reasoning_tokens ≡ some (pos reasoning)
  pub unclassified_eq : f.canonical_unclassified_tokens ≡ some (pos unclassified_tokens)
  pub known_quality : (quality ≡ complete) ⊎ ((quality ≡ inconsistent) ⊎ (quality ≡ unclassified))
  pub input_sum : input ≡ uncached + cache_read + cache_write
  pub output_sum : output ≡ non_reasoning + reasoning
  pub total_sum : total ≡ input + output + unclassified_tokens
  pub complete_classified : quality ≡ complete → unclassified_tokens ≡ 0

-- The facts of an attempt, with each field as an equation.
record Parts (f : UsageAccounting) : Type 0 where
  q : Text
  t : ℕ
  i : ℕ
  u : ℕ
  cr : ℕ
  cw : ℕ
  o : ℕ
  nr : ℕ
  r : ℕ
  x : ℕ
  eq : f ≡ canonical_facts f.accounting_state q t i u cr cw o nr r x

Parts_of_counts :
    (f : UsageAccounting) (q : Text) → f.token_quality ≡ some q → All Counted (buckets f) → Parts f
unfolding canonical_facts
Parts_of_counts f q e
      (
        (t, et),
        (
          (i, ei),
          ((u, eu), ((cr, ecr), ((cw, ecw), ((o, eo), ((nr, enr), ((r, er), ((x, ex), n))))))),
        ),
      ) =
    record {
      q = q;
      t = t;
      i = i;
      u = u;
      cr = cr;
      cw = cw;
      o = o;
      nr = nr;
      r = r;
      x = x;
      eq = λ k. record {
        accounting_state = f.accounting_state;
        token_quality = e k;
        canonical_total_tokens = et k;
        canonical_input_tokens = ei k;
        canonical_uncached_tokens = eu k;
        canonical_cache_read_tokens = ecr k;
        canonical_cache_write_tokens = ecw k;
        canonical_output_tokens = eo k;
        canonical_non_reasoning_tokens = enr k;
        canonical_reasoning_tokens = er k;
        canonical_unclassified_tokens = ex k;
      };
    }

validate_facts :
    (state q : Text) (t i u cr cw o nr r x : ℕ)
    → All (λ (n : ℕ). n ≤ max_int64) (t ∷ i ∷ u ∷ cr ∷ cw ∷ o ∷ nr ∷ r ∷ x ∷ [])
    → (validate_usage_accounting (canonical_facts state q t i u cr cw o nr r x) ≡ none)
      ↔ ((supported_quality q ≡ true) × Sums q t i u cr cw o nr r x)
unfolding canonical_facts validate_usage_accounting
validate_facts state q t i u cr cw o nr r x h =
    ground (arith, validate_counts state q t i u cr cw o nr r x h)

accepted_checks :
    (f : UsageAccounting)
    → validate_usage_accounting f ≡ none
    → (q : Text) × (f.token_quality ≡ some q)
      × (any_nil (buckets f) ≡ false)
      × (any_negative (buckets f) ≡ false)
accepted_checks f h = elim (Option-cases f.token_quality) [
  | inl e ↦ absurd (unfold validate_usage_accounting in cc)
  | inr (q, e) ↦ (
    q,
    e,
    unfold validate_usage_accounting in ground arith,
    unfold validate_usage_accounting in ground arith,
  )
]

validate-Parts : (f : UsageAccounting) → validate_usage_accounting f ≡ none → Parts f
validate-Parts f h =
    let (q, e, there, counted) = accepted_checks f h in
    Parts_of_counts f q e (Counted-of_checks (buckets f) there counted)

All-InRange :
    (f : UsageAccounting) (state q : Text) (t i u cr cw o nr r x : ℕ)
    → f ≡ canonical_facts state q t i u cr cw o nr r x
    → All InRange (buckets f)
    → All (λ (n : ℕ). n ≤ max_int64) (t ∷ i ∷ u ∷ cr ∷ cw ∷ o ∷ nr ∷ r ∷ x ∷ [])
unfolding canonical_facts
All-InRange f state q t i u cr cw o nr r x e h = subst (λ g. All InRange (buckets g)) e h

IsCanonical-of_validate :
    (f : UsageAccounting)
    → All InRange (buckets f)
    → validate_usage_accounting f ≡ none
    → IsCanonical f
unfolding canonical_facts
IsCanonical-of_validate f ranges h =
    let p : Parts f = validate-Parts f h in
    let et : f.canonical_total_tokens ≡ some (pos p.t) = ap (λ g. g.canonical_total_tokens) p.eq in
    let ei : f.canonical_input_tokens ≡ some (pos p.i) = ap (λ g. g.canonical_input_tokens) p.eq in
    let eo : f.canonical_output_tokens ≡ some (pos p.o) =
      ap (λ g. g.canonical_output_tokens) p.eq in
    let (known, (si, so, st, sx)) =
      (validate_facts f.accounting_state p.q p.t p.i p.u p.cr p.cw p.o p.nr p.r p.x (
          All-InRange f f.accounting_state p.q p.t p.i p.u p.cr p.cw p.o p.nr p.r p.x p.eq
            ranges)).0
        (ap validate_usage_accounting (sym p.eq) ∙ h) in
    record {
      quality = p.q;
      total = p.t;
      input = p.i;
      uncached = p.u;
      cache_read = p.cr;
      cache_write = p.cw;
      output = p.o;
      non_reasoning = p.nr;
      reasoning = p.r;
      unclassified_tokens = p.x;
      quality_eq = ap (λ g. g.token_quality) p.eq;
      total_eq = et;
      input_eq = ei;
      uncached_eq = ap (λ g. g.canonical_uncached_tokens) p.eq;
      cache_read_eq = ap (λ g. g.canonical_cache_read_tokens) p.eq;
      cache_write_eq = ap (λ g. g.canonical_cache_write_tokens) p.eq;
      output_eq = eo;
      non_reasoning_eq = ap (λ g. g.canonical_non_reasoning_tokens) p.eq;
      reasoning_eq = ap (λ g. g.canonical_reasoning_tokens) p.eq;
      unclassified_eq = ap (λ g. g.canonical_unclassified_tokens) p.eq;
      known_quality = (supported_quality_iff p.q).0 known;
      input_sum = si;
      output_sum = so;
      total_sum = st;
      complete_classified = sx;
    }

validate_of_canonical :
    (f : UsageAccounting)
    → All InRange (buckets f)
    → IsCanonical f
    → validate_usage_accounting f ≡ none
unfolding Parts_of_counts
validate_of_canonical f ranges c =
    let p : Parts f = Parts_of_counts f c.quality c.quality_eq (
      (c.total, c.total_eq),
      (
        (c.input, c.input_eq),
        (
          (c.uncached, c.uncached_eq),
          (
            (c.cache_read, c.cache_read_eq),
            (
              (c.cache_write, c.cache_write_eq),
              (
                (c.output, c.output_eq),
                (
                  (c.non_reasoning, c.non_reasoning_eq),
                  ((c.reasoning, c.reasoning_eq), ((c.unclassified_tokens, c.unclassified_eq), tt)),
                ),
              ),
            ),
          ),
        ),
      ),
    ) in
    ap validate_usage_accounting p.eq
    ∙ (validate_facts f.accounting_state c.quality c.total c.input c.uncached c.cache_read
          c.cache_write c.output c.non_reasoning c.reasoning c.unclassified_tokens
          (All-InRange f f.accounting_state c.quality c.total c.input c.uncached c.cache_read
            c.cache_write c.output c.non_reasoning c.reasoning c.unclassified_tokens p.eq ranges)).1
        (
          (supported_quality_iff c.quality).1 c.known_quality,
          (c.input_sum, c.output_sum, c.total_sum, c.complete_classified),
        )

-- For buckets in the range of `int64` the validator accepts exactly the canonical facts: a known
-- quality, nine counts, and the three sums exact, with nothing unclassified in a complete record.
pub validate_usage_accounting_iff :
    (f : UsageAccounting)
    → All InRange (buckets f)
    → (validate_usage_accounting f ≡ none) ↔ IsCanonical f
validate_usage_accounting_iff f r = (IsCanonical-of_validate f r, validate_of_canonical f r)
