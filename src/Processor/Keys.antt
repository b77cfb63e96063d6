-- ===== src/Processor/Keys.antt =====
-- `redisUsageAttemptEventKey`: the keys of the events of a run.
use cpa_usage.Base.{All, All-append, false, refl, ℕ, ◌≡◌, ◌≢◌, arith}
use cpa_usage.Text.{codes, append-cancel}
use cpa_usage.Text.Decimal.{format_uint, format_uint_injective, format_uint-IsVisible}
use cpa_usage.Text.{is_empty, IsVisible}
use cpa_usage.Text.Trim.Visible.{trim_space_visible}
use cpa_usage.Events.Insert.{IsPlain}
use cpa_usage.Processor.{attempt_event_key}

pub attempt_event_key_injective : (i j : ℕ) → attempt_event_key i ≡ attempt_event_key j → i ≡ j
unfolding attempt_event_key
attempt_event_key_injective i j h =
    format_uint_injective i j
      (append-cancel (codes "redis-inbox:") (format_uint i) (format_uint j) h)

-- Rows of different ids have different event keys.
attempt_event_key-apart : (i j : ℕ) → i ≢ j → attempt_event_key i ≢ attempt_event_key j
attempt_event_key-apart i j apart h = apart (attempt_event_key_injective i j h)

prefix-IsVisible : All IsVisible (codes "redis-inbox:")
prefix-IsVisible = ground arith

attempt_event_key-IsVisible : (i : ℕ) → All IsVisible (attempt_event_key i)
unfolding attempt_event_key
attempt_event_key-IsVisible i =
    All-append IsVisible (codes "redis-inbox:") (format_uint i) prefix-IsVisible
      (format_uint-IsVisible i)

attempt_event_key-there : (i : ℕ) → is_empty (attempt_event_key i) ≡ false
unfolding attempt_event_key
attempt_event_key-there i = refl

-- Trimming leaves the key of a row alone.
pub attempt_event_key-IsPlain : (i : ℕ) → IsPlain (attempt_event_key i)
attempt_event_key-IsPlain i = (
  trim_space_visible (attempt_event_key i) (attempt_event_key-IsVisible i),
  attempt_event_key-there i,
)
