-- ===== src/Attempt/Replay.antt =====
-- The projection that is persisted decodes to the event of the record that was popped.
use cpa_usage.Base.{
  ◌≡◌, refl, sym, ap, ap₂, ◌∙◌, Option, none, some, List, [], ◌∷◌, ◌++◌, arith, Bool-cases,
  Option-cases, inl, inr, subst, subst₂,
}
use cpa_usage.Clock.{Time}
use cpa_usage.Result.{Result, ok, err, Result-cases, ok_injective}
use cpa_usage.Text.{Text, codes, is_empty}
use cpa_usage.Text.Trim.{trim_space}
use cpa_usage.Text.Trim.Idempotent.{trim_space_idem}
use cpa_usage.Accounting.{UsageAccounting, validate_usage_accounting}
use cpa_usage.Attempt.{
  event_time, non_zero_time, non_zero_fail, non_negative, queued_accounting_facts,
  validate_queued_accounting, trim_optional, first_non_empty, error_text, with_facts, compact,
  normalize_auth_type, status_code, event_of, to_usage_event,
}
use cpa_usage.Attempt.Types.{AccountingFields, Fail, Detail, UsageEvent, QueuedError}
use cpa_usage.Attempt.Codec.{
  Platform, decode_prefix, outcome, decode_detail, decode_message, replay_safe_message, encoded,
  project_detail, redacted_invalid_message,
}

-- An accepted envelope has facts, and they are canonical: the conversion behind the validation
-- never dereferences a nil pointer.
pub validate_queued_accounting-facts :
    (d : AccountingFields)
    → validate_queued_accounting d ≡ none
    → (f : UsageAccounting) × (queued_accounting_facts d ≡ some f)
      × (validate_usage_accounting f ≡ none)
validate_queued_accounting-facts d h = elim (Option-cases (queued_accounting_facts d)) [
  | inl e ↦ absurd (unfold validate_queued_accounting in ground arith)
  | inr (f, e) ↦ (f, e, unfold validate_queued_accounting in ground arith)
]

trim_optional_idem : (o : Option Text) → trim_optional (trim_optional o) ≡ trim_optional o
unfolding trim_optional
trim_optional_idem none = refl
trim_optional_idem (some s) = elim (Bool-cases (is_empty (trim_space s))) [
  | inl e ↦ rw e
  | inr e ↦ simp (e, trim_space_idem)
]

first_non_empty-trim :
    (v : Text) (vs ws : List Text)
    → first_non_empty vs ≡ first_non_empty ws
    → first_non_empty (trim_space v ∷ vs) ≡ first_non_empty (v ∷ ws)
unfolding first_non_empty
first_non_empty-trim v vs ws h = simp (trim_space_idem, h)

normalize_auth_type-trim :
    (lower : Text → Text) (v : Text)
    → normalize_auth_type lower (trim_space v) ≡ normalize_auth_type lower v
unfolding normalize_auth_type
normalize_auth_type-trim lower v = simp trim_space_idem

event_time-non_zero :
    (t : Option Time) (fallback : Time)
    → event_time (non_zero_time t) fallback ≡ event_time t fallback
event_time-non_zero t fallback = ground arith

status_code-non_zero : (f : Option Fail) → status_code (non_zero_fail f) ≡ status_code f
status_code-non_zero f = ground arith

-- The event of a payload depends on its trimmed texts only.
event_of-compact :
    (lower : Text → Text) (d : Detail) (f : UsageAccounting) (fallback : Time)
    → event_of lower (compact d) f fallback ≡ event_of lower d f fallback
unfolding event_of compact
event_of-compact lower d f fallback = λ i. record {
  event_key = [];
  api_group_key =
      first_non_empty-trim d.api_key _ _
        (first_non_empty-trim d.provider _ _
          (first_non_empty-trim d.endpoint (codes "unknown" ∷ []) (codes "unknown" ∷ []) refl))
        i;
  provider = trim_space_idem d.provider i;
  endpoint = trim_space_idem d.endpoint i;
  auth_type = normalize_auth_type-trim lower d.auth_type i;
  request_id = trim_space_idem d.request_id i;
  model = first_non_empty-trim d.model (codes "unknown" ∷ []) (codes "unknown" ∷ []) refl i;
  model_alias = trim_optional_idem d.alias i;
  timestamp = event_time-non_zero d.timestamp fallback i;
  source = trim_space_idem d.source i;
  auth_index = trim_space_idem d.auth_index i;
  failed = d.failed;
  status_code = status_code-non_zero d.fail i;
  executor_type = trim_space_idem d.executor_type i;
  reasoning_effort = trim_space_idem d.reasoning_effort i;
  service_tier = trim_space_idem d.service_tier i;
  latency_ms = non_negative d.latency_ms;
  ttft_ms = d.ttft_ms;
  accounting = f;
  generate = d.accounting.generate;
  stream = d.accounting.stream;
  response_service_tier = trim_optional d.accounting.response_service_tier;
}

with_facts-compact :
    (lower : Text → Text) (d : Detail) (fallback : Time) (o : Option UsageAccounting)
    → with_facts lower (compact d) fallback o ≡ with_facts lower d fallback o
with_facts-compact lower d fallback none = refl
with_facts-compact lower d fallback (some f) = ap some (event_of-compact lower d f fallback)

to_usage_event-compact :
    (lower : Text → Text) (d : Detail) (fallback : Time)
    → to_usage_event lower (compact d) fallback ≡ to_usage_event lower d fallback
unfolding to_usage_event compact
to_usage_event-compact lower d fallback =
    with_facts-compact lower d fallback (queued_accounting_facts d.accounting)

-- What encoding/json promises for the payloads of this program: a payload that was decoded and
-- compacted, when it is encoded, decodes to itself; an encoded string is no payload.
pub record JsonLaws (p : Platform) : Type 0 where
  pub compacted :
      (m : Text) (d : Detail) (s : Text)
      → p.unmarshal m ≡ ok d
      → p.marshal (compact d) ≡ ok s
      → p.unmarshal s ≡ ok (compact d)
  pub strings : (t : Text) → (e : Text) × (p.unmarshal (p.marshal_string t) ≡ err e)

-- The same event, or an error on both sides.
abbrev pub SameOutcome : Result UsageEvent → Result UsageEvent → Type 0
SameOutcome (ok a) (ok b) = a ≡ b
SameOutcome (err _) (err _) = Unit
SameOutcome _ _ = ⊥

SameOutcome-refl : (r : Result UsageEvent) → SameOutcome r r
SameOutcome-refl (ok a) = refl
SameOutcome-refl (err e) = tt

accounting-compact : (d : Detail) → (compact d).accounting ≡ d.accounting
unfolding compact
accounting-compact d = refl

module _ (p : Platform) where
  decode_detail-compact :
      (d : Detail) (fallback : Time)
      → decode_detail p (compact d) fallback ≡ decode_detail p d fallback
  unfolding decode_detail
  decode_detail-compact d fallback =
      ap₂ (outcome p) (ap validate_queued_accounting (accounting-compact d))
        (to_usage_event-compact p.unicode_lower d fallback)

  decode_message-ok :
      (m : Text) (d : Detail) (fallback : Time)
      → p.unmarshal m ≡ ok d
      → decode_message p m fallback ≡ decode_detail p d fallback
  unfolding decode_message
  decode_message-ok m d fallback e = rw (e, decode_message)

  decode_message-err :
      (m e : Text) (fallback : Time)
      → p.unmarshal m ≡ err e
      → decode_message p m fallback ≡ err (decode_prefix ++ e)
  unfolding decode_message
  decode_message-err m e fallback h = rw (h, decode_message)

  -- Two messages that are not decoded have the same outcome.
  both_fail :
      (m s : Text) (fallback : Time) (a b : Text)
      → decode_message p s fallback ≡ err a
      → decode_message p m fallback ≡ err b
      → SameOutcome (decode_message p s fallback) (decode_message p m fallback)
  both_fail m s fallback a b ea eb = subst₂ SameOutcome (sym ea) (sym eb) tt

  decode_detail_bad :
      (d : Detail) (fallback : Time) (q : QueuedError)
      → validate_queued_accounting d.accounting ≡ some q
      → decode_detail p d fallback ≡ err (decode_prefix ++ error_text q)
  unfolding decode_detail
  decode_detail_bad d fallback q bad = rw bad

  project_bad :
      (m : Text) (d : Detail) (q : QueuedError)
      → validate_queued_accounting d.accounting ≡ some q
      → project_detail p m d ≡ ok (redacted_invalid_message p m)
  unfolding project_detail
  project_bad m d q bad = rw (bad, project_detail)

  project_good :
      (m : Text) (d : Detail) (r : Result Text)
      → validate_queued_accounting d.accounting ≡ none
      → p.marshal (compact d) ≡ r
      → project_detail p m d ≡ encoded p r
  unfolding project_detail
  project_good m d r good e = ground arith

  replay_ok :
      (m : Text) (d : Detail)
      → p.unmarshal m ≡ ok d
      → replay_safe_message p m ≡ project_detail p m d
  unfolding replay_safe_message
  replay_ok m d e = rw (e, replay_safe_message)

  replay_err :
      (m e : Text)
      → p.unmarshal m ≡ err e
      → replay_safe_message p m ≡ ok (redacted_invalid_message p m)
  unfolding replay_safe_message
  replay_err m e h = rw (h, replay_safe_message)

  decode_compact :
      (m s : Text) (d : Detail) (fallback : Time)
      → p.unmarshal m ≡ ok d
      → p.unmarshal s ≡ ok (compact d)
      → SameOutcome (decode_message p s fallback) (decode_message p m fallback)
  decode_compact m s d fallback em es =
      subst (λ r. SameOutcome r (decode_message p m fallback))
        (decode_message-ok m d fallback em
          ∙ sym (decode_detail-compact d fallback)
          ∙ sym (decode_message-ok s (compact d) fallback es))
        (SameOutcome-refl (decode_message p m fallback))

  module _ (laws : JsonLaws p) where
    redacted-err :
        (m : Text) (fallback : Time)
        → (e : Text) × (decode_message p (redacted_invalid_message p m) fallback ≡ err e)
    unfolding redacted_invalid_message
    redacted-err m fallback = let (e, h) = laws.strings _ in (_, decode_message-err _ e fallback h)

    -- The projection of a message that does not decode is the marker, which does not decode either.
    redacted-outcome :
        (m s : Text) (fallback : Time) (b : Text)
        → ok (redacted_invalid_message p m) ≡ ok s
        → decode_message p m fallback ≡ err b
        → SameOutcome (decode_message p s fallback) (decode_message p m fallback)
    redacted-outcome m s fallback b h eb =
        let (a, ea) = redacted-err m fallback in
        both_fail m s fallback a b
          (subst (λ t. decode_message p t fallback ≡ err a) (ok_injective h) ea) eb

    replay_detail :
        (m : Text) (d : Detail) (fallback : Time) (s : Text)
        → p.unmarshal m ≡ ok d
        → project_detail p m d ≡ ok s
        → SameOutcome (decode_message p s fallback) (decode_message p m fallback)
    replay_detail m d fallback s e h =
        elim (Option-cases (validate_queued_accounting d.accounting)) [
          | inr (q, bad) ↦
              redacted-outcome m s fallback (decode_prefix ++ error_text q)
                (sym (project_bad m d q bad) ∙ h)
                (decode_message-ok m d fallback e ∙ decode_detail_bad d fallback q bad)
          | inl good ↦ elim (Result-cases (p.marshal (compact d))) [
            | inr (x, fails) ↦ absurd (cc (project_good m d (err x) good fails))
            | inl (t, done) ↦
                decode_compact m s d fallback e
                  (laws.compacted m d s e (done ∙ sym (project_good m d (ok t) good done) ∙ h))
          ]
        ]

-- If encoding/json keeps its laws, whatever record was popped: if its projection is written to the
-- inbox, decoding the projection gives the event that decoding the record itself gives, and fails if
-- that fails.
pub replay_safe_message-decodes :
    (p : Platform) (m : Text) (fallback : Time) (s : Text)
    → JsonLaws p
    → replay_safe_message p m ≡ ok s
    → SameOutcome (decode_message p s fallback) (decode_message p m fallback)
replay_safe_message-decodes p m fallback s laws h = elim (Result-cases (p.unmarshal m)) [
  | inl (d, e) ↦ replay_detail p laws m d fallback s e (sym (replay_ok p m d e) ∙ h)
  | inr (x, e) ↦
      redacted-outcome p laws m s fallback (decode_prefix ++ x) (sym (replay_err p m x e) ∙ h)
        (decode_message-err p m x fallback e)
]
