-- ===== src/Attempt/Codec.antt =====
-- `DecodeRedisUsageMessage`, `replaySafeRedisUsageMessage` and `redactedInvalidRedisUsageMessage` of
-- internal/service/redis_usage.go. JSON, SHA-256 and Unicode's case tables are not the program's own:
-- they are the fields of `Platform`.
use cpa_usage.Base.{Option, none, some, ◌++◌, length}
use cpa_usage.Clock.{Time}
use cpa_usage.Result.{Result, ok, err}
use cpa_usage.Text.{Text, codes}
use cpa_usage.Text.Decimal.{format_uint}
use cpa_usage.Attempt.{validate_queued_accounting, error_text, compact, to_usage_event}
use cpa_usage.Attempt.Types.{Detail, UsageEvent, QueuedError}

pub record Platform : Type 0 where
  -- `json.Unmarshal` and `json.Marshal` of a `queuedUsageDetail`
  pub unmarshal : Text → Result Detail
  pub marshal : Detail → Result Text
  -- `json.Marshal` of a string
  pub marshal_string : Text → Text
  pub sha256_hex : Text → Text
  pub unicode_lower : Text → Text

abbrev pub decode_prefix : Text
decode_prefix = codes "decode redis usage message: "

module _ (p : Platform) where
  -- The nil dereference of `toUsageEvent` on an incomplete envelope stands as an error text; behind
  -- the validation it is not reached.
  abbrev pub converted : Option UsageEvent → Result UsageEvent
  converted none = err (codes "invalid memory address or nil pointer dereference")
  converted (some event) = ok event

  abbrev pub outcome : Option QueuedError → Option UsageEvent → Result UsageEvent
  outcome (some e) event = err (decode_prefix ++ error_text e)
  outcome none event = converted event

  unfoldable pub decode_detail : Detail → Time → Result UsageEvent
  decode_detail d fallback =
      outcome (validate_queued_accounting d.accounting) (to_usage_event p.unicode_lower d fallback)

  unfoldable pub decode_message : Text → Time → Result UsageEvent
  decode_message message fallback = elim (p.unmarshal message) [
    | err e ↦ err (decode_prefix ++ e)
    | ok d ↦ decode_detail d fallback
  ]

  unfoldable pub redacted_invalid_message : Text → Text
  redacted_invalid_message message = p.marshal_string (
      codes "redacted invalid CPA usage message sha256="
      ++ p.sha256_hex message
      ++ codes " bytes="
      ++ format_uint (length message))

  abbrev pub encoded : Result Text → Result Text
  encoded (ok s) = ok s
  encoded (err e) = err (codes "encode replay-safe redis usage message: " ++ e)

  unfoldable pub project_detail : Text → Detail → Result Text
  project_detail message d = elim (validate_queued_accounting d.accounting) [
    | some e ↦ ok (redacted_invalid_message message)
    | none ↦ encoded (p.marshal (compact d))
  ]

  unfoldable pub replay_safe_message : Text → Result Text
  replay_safe_message message = elim (p.unmarshal message) [
    | err e ↦ ok (redacted_invalid_message message)
    | ok d ↦ project_detail message d
  ]
