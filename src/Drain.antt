-- ===== src/Drain.antt =====
-- internal/poller/redis_drain.go: the background drain and its manual sync. A section under the mutex
-- is one step on the flags; what the syncer answers is an argument. Log lines and sleeping are left out.
pub mod Jobs
pub mod Exclusion
use cpa_usage.Base.{
  ℕ, zero, suc, ◌+◌, ◌%◌, ◌^◌, ◌==◌, Bool, true, false, not, ◌&&◌, ◌||◌, Option, none, some, List,
  [], ◌∷◌, ◌++◌, if◌then◌else◌,
}
use cpa_usage.Clock.{Time}
use cpa_usage.Text.{Text, codes}
use cpa_usage.Intake.{PullResult}
use cpa_usage.Processor.{
  BatchStatus, failed, empty, completed, completed_with_warnings, BatchResult,
}
use cpa_usage.ManualSync.{SyncOutcome, RedisError, redis_busy, redis_failed}

abbrev pub redis_inbox_process_burst_batches : ℕ
redis_inbox_process_burst_batches = 4

pub record Flags : Type 0 where
  pub manual_running : Bool
  pub pull_running : Bool
  pub process_running : Bool

abbrev pub all_flags : Bool → Flags
all_flags b = record { manual_running = b; pull_running = b; process_running = b }

-- `beginManualSync`: is the command let in?
unfoldable pub begin_manual_sync : Flags → Flags × Bool
begin_manual_sync f =
    if f.manual_running || f.pull_running || f.process_running
    then (f, false)
    else (all_flags true, true)

-- `endManualSync`.
unfoldable pub end_manual_sync : Flags → Flags
end_manual_sync f = all_flags false

-- The two sections of `runRedisPull`.
unfoldable pub begin_pull : Flags → Flags × Bool
begin_pull f = if f.pull_running then (f, false) else (record f { pull_running = true }, true)

unfoldable pub end_pull : Flags → Flags
end_pull f = record f { pull_running = false }

-- The two sections of `runRedisProcess`.
unfoldable pub begin_process : Flags → Flags × Bool
begin_process f =
    if f.process_running then (f, false) else (record f { process_running = true }, true)

unfoldable pub end_process : Flags → Flags
end_process f = record f { process_running = false }

-- `Status().SyncRunning`.
unfoldable pub sync_running : Flags → Bool
sync_running f = f.manual_running || f.pull_running || f.process_running

-- The counters of `RedisDrain`; an `atomic.Int64` wraps around, and stands here as its 64 bits.
pub record Metrics : Type 0 where
  pub events_total : ℕ
  pub batches_total : ℕ
  pub last_processed_at : Time

abbrev pub is_failed : BatchStatus → Bool
is_failed failed = true
is_failed _ = false

abbrev pub count_batch : Time → ℕ → Metrics → Metrics
count_batch now events m = if events == 0 then m else record {
  events_total = (m.events_total + events) % 2 ^ 64;
  batches_total = (m.batches_total + 1) % 2 ^ 64;
  last_processed_at = now;
}

-- `recordProcessMetrics`.
unfoldable pub record_process_metrics : Time → Option BatchResult → Metrics → Metrics
record_process_metrics now none m = m
record_process_metrics now (some r) m =
    if is_failed r.status then m else count_batch now (r.inserted_events + r.deduped_events) m

-- The error of a drain step. `with_warnings` wraps `ErrSyncCompletedWithWarnings`.
pub data DrainError : Type 0 where
  already_running : DrainError
  with_warnings plain : Text → DrainError

-- The statuses of a result are never the empty text.
abbrev pub status_text : BatchStatus → Text
status_text failed = codes "failed"
status_text empty = codes "empty"
status_text completed = codes "completed"
status_text completed_with_warnings = codes "completed_with_warnings"

-- The error that a process step returns for the result and the error of the syncer.
abbrev pub process_error : Option BatchResult → Option Text → Option DrainError
process_error r none = none
process_error none (some e) = some (plain e)
process_error (some r) (some e) = some (if is_failed r.status then plain e else with_warnings e)

abbrev pub text_or_empty : Option Text → Text
text_or_empty none = []
text_or_empty (some e) = e

abbrev pub pull_status : Option PullResult → Text
pull_status none = codes "failed"
pull_status (some r) = status_text r.status

-- `manualPullOutcome`.
unfoldable pub manual_pull_outcome : Option PullResult → Option Text → SyncOutcome
manual_pull_outcome r e = record { status = pull_status r; error = text_or_empty e; warning = [] }

abbrev pub process_status : Option BatchResult → Option Text → BatchStatus
process_status (some r) e = r.status
process_status none (some e) = failed
process_status none none = completed

-- `manualProcessOutcome`.
unfoldable pub manual_process_outcome : Option BatchResult → Option Text → SyncOutcome
manual_process_outcome r none = record {
  status = status_text (process_status r none);
  error = [];
  warning = [];
}
manual_process_outcome r (some e) =
    if is_failed (process_status r (some e))
    then record { status = codes "failed"; error = e; warning = [] }
    else record { status = status_text (process_status r (some e)); error = []; warning = e }

-- What the syncer answers to `PullRedisUsageInbox`, and then to `ProcessRedisUsageInbox`.
pub record Answers : Type 0 where
  pub pull_result : Option PullResult
  pub pull_error : Option Text
  pub process_result : Option BatchResult
  pub process_text : Option Text

-- `SyncNow` behind `beginManualSync`: the metrics, the outcome and the error.
unfoldable pub manual_stages : Time → Answers → Metrics → Metrics × SyncOutcome × Option DrainError
manual_stages now a m = elim a.pull_error [
  | some e ↦ (m, manual_pull_outcome a.pull_result (some e), some (plain e))
  | none ↦ (
    record_process_metrics now a.process_result m,
    manual_process_outcome a.process_result a.process_text,
    process_error a.process_result a.process_text,
  )
]

abbrev pub no_outcome : SyncOutcome
no_outcome = record { status = []; error = []; warning = [] }

abbrev pub admitted_sync :
    Time → Answers → Metrics → Flags × Bool → Flags × Metrics × SyncOutcome × Option DrainError
admitted_sync now a m (f, false) = (f, m, no_outcome, some already_running)
admitted_sync now a m (f, true) =
    let (m', outcome, e) = manual_stages now a m in (end_manual_sync f, m', outcome, e)

-- `SyncNow` that nothing interrupts, of a valid drain.
unfoldable pub drain_sync_now :
    Time → Answers → Flags → Metrics → Flags × Metrics × SyncOutcome × Option DrainError
drain_sync_now now a f m = admitted_sync now a m (begin_manual_sync f)

-- What the manual runner of internal/app/manual_sync.go makes of the error (`errors.Is`).
abbrev pub to_redis_error : DrainError → RedisError
to_redis_error already_running = redis_busy
to_redis_error (with_warnings e) = redis_failed (codes "sync completed with warnings: " ++ e)
to_redis_error (plain e) = redis_failed e

-- One turn of `runProcessLoop`: a batch is followed by another if it had no error and was full.
abbrev pub goes_on : Option BatchResult → Option DrainError → Bool
goes_on r (some e) = false
goes_on none none = false
goes_on (some r) none = r.batch_limit_reached

unfoldable pub burst {ℓ} :
    {S : Type ℓ} → (S → S × Option BatchResult × Option DrainError) → ℕ → S → S
burst run zero s = s
burst run (suc rounds) s =
    let (s', r, e) = run s in elim (goes_on r e) [ true ↦ burst run rounds s' | false ↦ s' ]
