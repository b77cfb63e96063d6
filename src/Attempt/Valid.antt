-- ===== src/Attempt/Valid.antt =====
-- What a decoded event carries: canonical facts.
use cpa_usage.Base.{◌≡◌, refl, sym, ◌∙◌, none, some, false, arith, Option-cases, inl, inr, subst}
use cpa_usage.Clock.{Time}
use cpa_usage.Result.{ok, Result-cases, ok_injective}
use cpa_usage.Text.{Text}
use cpa_usage.Accounting.{UsageAccounting, validate_usage_accounting, accounting_facts_absent}
use cpa_usage.Attempt.{
  queued_accounting_facts, validate_queued_accounting, to_usage_event, event_of,
}
use cpa_usage.Attempt.Types.{Detail, UsageEvent}
use cpa_usage.Attempt.Codec.{Platform, decode_detail, decode_message}
use cpa_usage.Attempt.Replay.{validate_queued_accounting-facts}

-- Facts that the insertion accepts: it stores them as valid.
pub record Accepted (f : UsageAccounting) : Type 0 where
  pub valid : validate_usage_accounting f ≡ none
  pub there : accounting_facts_absent f ≡ false

pub Accepted-valid : (f : UsageAccounting) → validate_usage_accounting f ≡ none → Accepted f
Accepted-valid f h = record {
  valid = h;
  there = elim (Option-cases f.token_quality) [
    | inl e ↦ absurd (unfold validate_usage_accounting in cc)
    | inr (q, e) ↦ unfold accounting_facts_absent in ground arith
  ];
}

module _ (p : Platform) where
  decode_detail_eq :
      (d : Detail) (fallback : Time) (f : UsageAccounting)
      → validate_queued_accounting d.accounting ≡ none
      → queued_accounting_facts d.accounting ≡ some f
      → decode_detail p d fallback ≡ ok (event_of p.unicode_lower d f fallback)
  unfolding decode_detail to_usage_event
  decode_detail_eq d fallback f good there = rw (good, there) refl

  decode_message_eq :
      (m : Text) (d : Detail) (fallback : Time)
      → p.unmarshal m ≡ ok d
      → decode_message p m fallback ≡ decode_detail p d fallback
  unfolding decode_message
  decode_message_eq m d fallback e = rw (e, decode_message) refl

  decode_detail-Accepted :
      (d : Detail) (fallback : Time) (e : UsageEvent)
      → decode_detail p d fallback ≡ ok e
      → Accepted e.accounting
  decode_detail-Accepted d fallback e h =
      elim (Option-cases (validate_queued_accounting d.accounting)) [
        | inr (q, bad) ↦ absurd (unfold decode_detail in ground arith)
        | inl good ↦
            let (f, there, valid) = validate_queued_accounting-facts d.accounting good in
            Accepted-valid e.accounting (
              subst (λ (x : UsageEvent). validate_usage_accounting x.accounting ≡ none)
                (ok_injective (sym (decode_detail_eq d fallback f good there) ∙ h))
                (unfold event_of in valid))
      ]

  -- A decoded event has facts that the insertion accepts.
  pub decode_message-Accepted :
      (m : Text) (fallback : Time) (e : UsageEvent)
      → decode_message p m fallback ≡ ok e
      → Accepted e.accounting
  decode_message-Accepted m fallback e h = elim (Result-cases (p.unmarshal m)) [
    | inl (d, good) ↦
        decode_detail-Accepted d fallback e (sym (decode_message_eq m d fallback good) ∙ h)
    | inr (x, bad) ↦ absurd (unfold decode_message in ground arith)
  ]
