-- ===== src/Throughput/Rates.antt =====
-- internal/repository/usage_accounting.go: the interpretation of an attempt is total on admitted facts, and
-- its two throughputs fit together.
use cpa_usage.Base.{
  ℕ, zero, suc, ◌-◌, ◌<◌, ◌≡◌, ◌⊎◌, refl, sym, ap, ap₂, ◌∙◌, subst, Bool, true, false, Option, none,
  some, leb, if◌then◌else◌, All, Bool-cases, inl, inr, arith, some_injective,
}
use cpa_usage.Int.{ℤ, pos, negsuc, int_eq}
use cpa_usage.Accounting.{
  buckets, accounting_facts_absent, usage_accounting_state, validate_usage_accounting,
}
use cpa_usage.Accounting.Sound.{InRange, validate_usage_accounting_iff}
use cpa_usage.Text.{text_eq}
use cpa_usage.Attempt.Types.{UsageEvent}
use cpa_usage.Throughput.{
  Rate, AttemptFacts, usage_event_output_tps, usage_event_end_to_end_output_tps, plain_facts,
  has_throughput, timed_facts, interpret_usage_attempt,
}

absent-plain :
    (e : UsageEvent) → accounting_facts_absent e.accounting ≡ true → has_throughput e ≡ false
unfolding has_throughput usage_accounting_state text_eq
absent-plain e h = rw h refl

-- An event whose facts are absent, or accepted by the validator, is interpreted: no pointer is nil where
-- the code follows it.
pub interpret_usage_attempt-total :
    (e : UsageEvent)
    → All InRange (buckets e.accounting)
    → (accounting_facts_absent e.accounting ≡ true)
      ⊎ (validate_usage_accounting e.accounting ≡ none)
    → (f : AttemptFacts) × (interpret_usage_attempt e ≡ some f)
unfolding interpret_usage_attempt
interpret_usage_attempt-total e r (inl absent) = (
  plain_facts e,
  ap
      (λ b.
        if b
        then timed_facts e e.accounting.canonical_output_tokens
            e.accounting.canonical_reasoning_tokens
        else some (plain_facts e))
      (absent-plain e absent),
)
interpret_usage_attempt-total e r (inr valid) = elim (Bool-cases (has_throughput e)) [
  | inl timed ↦
      let c = (validate_usage_accounting_iff e.accounting r).0 valid in
      (
        _,
        ap
              (λ b.
                if b
                then timed_facts e e.accounting.canonical_output_tokens
                    e.accounting.canonical_reasoning_tokens
                else some (plain_facts e))
              timed
            ∙ ap₂ (timed_facts e) c.output_eq c.reasoning_eq,
      )
  | inr plain ↦ (
    plain_facts e,
    ap
        (λ b.
          if b
          then timed_facts e e.accounting.canonical_output_tokens
              e.accounting.canonical_reasoning_tokens
          else some (plain_facts e))
        plain,
  )
]

-- Beside an output throughput stands an end-to-end throughput of the same tokens over a longer time.
abbrev pub Paired : Rate → Option Rate → Type 0
Paired r o =
    (q : Rate) × (o ≡ some q)
    × (q.rate_tokens ≡ r.rate_tokens)
    × (0 < r.over_ms)
    × (r.over_ms < q.over_ms)

abbrev rate_of : ℕ → ℕ → ℕ → Rate
rate_of o l t = record { rate_tokens = suc o; over_ms = suc l - suc t }

none_made :
    {A : Type 0} {b : A} (a : A) (late : Bool)
    → late ≡ true
    → (if late then none else some a) ≡ some b
    → ⊥
none_made a true is h = cc
none_made a false is h = cc

output_tps-Paired :
    (o l : ℤ) (t : Option ℤ) (r : Rate)
    → usage_event_output_tps o l t ≡ some r
    → Paired r (usage_event_end_to_end_output_tps o l)
unfolding usage_event_output_tps usage_event_end_to_end_output_tps
output_tps-Paired (pos zero) l t r h = cc
output_tps-Paired (negsuc o) l t r h = cc
output_tps-Paired (pos (suc o)) (negsuc l) t r h = cc
output_tps-Paired (pos (suc o)) (pos l) none r h = cc
output_tps-Paired (pos (suc o)) (pos l) (some (pos zero)) r h = cc
output_tps-Paired (pos (suc o)) (pos l) (some (negsuc t)) r h = cc
output_tps-Paired (pos (suc o)) (pos zero) (some (pos (suc t))) r h =
    elim (none_made _ (leb 0 (suc t)) (ground arith) h) [ ]
output_tps-Paired (pos (suc o)) (pos (suc l)) (some (pos (suc t))) r h =
    elim (Bool-cases (leb (suc l) (suc t))) [
      | inl late ↦ elim (none_made _ (leb (suc l) (suc t)) late h) [ ]
      | inr in_time ↦
          let made =
            some_injective (sym (ap (λ b. if b then none else some (rate_of o l t)) in_time) ∙ h) in
          (
            record { rate_tokens = suc o; over_ms = suc l },
            refl,
            ap (λ (x : Rate). x.rate_tokens) made,
            subst (λ (x : Rate). 0 < x.over_ms) made (ground arith),
            subst (λ (x : Rate). x.over_ms < suc l) made (omega arith),
          )
    ]

-- What an interpretation owes to its throughputs.
abbrev Shown : Option AttemptFacts → Type 0
Shown none = Unit
Shown (some f) = (r : Rate) → f.output_tps ≡ some r → Paired r f.end_to_end_output_tps

timed_facts-Shown :
    (e : UsageEvent) (output reasoning : Option ℤ) → Shown (timed_facts e output reasoning)
timed_facts-Shown e none reasoning = tt
timed_facts-Shown e (some o) none = tt
timed_facts-Shown e (some o) (some n) = λ r h. elim (Bool-cases (int_eq n (pos 0))) [
  | inl visible ↦ output_tps-Paired o e.latency_ms e.ttft_ms r (
      sym (ap (λ b. if b then usage_event_output_tps o e.latency_ms e.ttft_ms else none) visible)
      ∙ h)
  | inr hidden ↦
      let clash =
        sym (ap (λ b. if b then usage_event_output_tps o e.latency_ms e.ttft_ms else none) hidden)
        ∙ h in
      cc
]

interpreted : (e : UsageEvent) → Shown (interpret_usage_attempt e)
unfolding interpret_usage_attempt
interpreted e = elim (Bool-cases (has_throughput e)) [
  | inl timed ↦ rw timed (
      timed_facts-Shown e e.accounting.canonical_output_tokens
        e.accounting.canonical_reasoning_tokens)
  | inr plain ↦ rw plain (λ r h. unfold plain_facts in cc)
]

-- An output throughput of an attempt is shown only beside an end-to-end throughput of the same
-- tokens over a longer time, so it is the higher of the two, and neither divides by 0.
pub interpret_usage_attempt-Paired :
    (e : UsageEvent) (f : AttemptFacts) (r : Rate)
    → interpret_usage_attempt e ≡ some f
    → f.output_tps ≡ some r
    → Paired r f.end_to_end_output_tps
interpret_usage_attempt-Paired e f r h k = subst Shown h (interpreted e) r k
