-- ===== src/ManualSync.antt =====
-- internal/app/manual_sync.go: the runner of manual syncs. A section under its mutex is one step; the
-- calls of the queue syncer and of the metadata syncer are arguments by what they answer.
pub mod Exclusion
pub mod Release
use cpa_usage.Base.{Bool, true, false, Option, none, some, List, [], ◌∷◌, ◌++◌, if◌then◌else◌}
use cpa_usage.Clock.{Time}
use cpa_usage.Text.{Text, codes, is_empty}

pub data SyncError : Type 0 where
  sync_unavailable sync_already_running : SyncError

-- `manualSyncRunner`, without the two syncers.
pub record SyncRunner : Type 0 where
  pub admission_closed : Bool
  pub manual_running : Bool
  pub last_run_at : Time
  pub last_error : Text
  pub last_warning : Text
  pub last_status : Text

-- `poller.ManualSyncOutcome`.
pub record SyncOutcome : Type 0 where
  pub status : Text
  pub error : Text
  pub warning : Text

-- `CloseAdmission`.
unfoldable pub close_admission : SyncRunner → SyncRunner
close_admission r = record r { admission_closed = true }

-- `begin`.
unfoldable pub begin : SyncRunner → SyncRunner × Option SyncError
begin r =
    if r.admission_closed
    then (r, some sync_unavailable)
    else if r.manual_running
    then (r, some sync_already_running)
    else (record r { manual_running = true }, none)

-- `finishRunning`.
unfoldable pub finish_running : SyncRunner → SyncRunner
finish_running r = record r { manual_running = false }

-- The status that `record` keeps.
abbrev pub recorded_status : SyncOutcome → Text
recorded_status o =
    if is_empty o.status
    then (if is_empty o.warning
        then (if is_empty o.error then codes "completed" else codes "failed")
        else codes "completed_with_warnings")
    else o.status

-- `record`.
unfoldable pub record_outcome : Time → SyncOutcome → SyncRunner → SyncRunner
record_outcome now o r = record r {
  last_run_at = now;
  last_status = recorded_status o;
  last_error = o.error;
  last_warning = o.warning;
}

-- An error of the queue syncer: `poller.ErrSyncAlreadyRunning`, or another with its text.
pub data RedisError : Type 0 where
  redis_busy : RedisError
  redis_failed : Text → RedisError

abbrev pub warned : Text → SyncOutcome
warned e = record { status = codes "completed_with_warnings"; error = []; warning = e }

-- What `SyncNow` records and returns behind `begin`: of the queue syncer, if there is one, and of the
-- metadata syncer, if there is one.
unfoldable pub stages :
    Option (SyncOutcome × Option RedisError)
    → Option (Option Text)
    → Option SyncOutcome × Option Text
stages none metadata =
    let e = codes "manual redis syncer is nil" in
    (some (record { status = codes "failed"; error = e; warning = [] }), some e)
stages (some (o, some redis_busy)) metadata =
    (none, some (codes "redis sync failed: sync already running"))
stages (some (o, some (redis_failed e))) metadata =
    (some o, some (codes "redis sync failed: " ++ e))
stages (some (o, none)) none =
    let e = codes "manual metadata syncer is nil" in (some (warned e), some e)
stages (some (o, none)) (some (some e)) =
    (some (warned e), some (codes "metadata sync failed: " ++ e))
stages (some (o, none)) (some none) = (some o, none)

abbrev pub record_some : Time → Option SyncOutcome → SyncRunner → SyncRunner
record_some now none r = r
record_some now (some o) r = record_outcome now o r

abbrev pub sync_error_text : SyncError → Text
sync_error_text sync_unavailable = codes "sync unavailable"
sync_error_text sync_already_running = codes "sync already running"

abbrev pub admitted_run :
    Time
    → Option SyncOutcome × Option Text
    → SyncRunner × Option SyncError
    → SyncRunner × Option Text
admitted_run now result (r, some e) = (r, some (sync_error_text e))
admitted_run now (o, e) (r, none) = (finish_running (record_some now o r), e)

-- `SyncNow` of one caller that nobody interrupts.
unfoldable pub sync_now :
    Time
    → Option (SyncOutcome × Option RedisError)
    → Option (Option Text)
    → SyncRunner
    → SyncRunner × Option Text
sync_now now redis metadata r = admitted_run now (stages redis metadata) (begin r)

-- A caller of `SyncNow`: not yet called, between `begin` and `finishRunning`, turned away, or returned.
pub data Caller : Type 0 where
  waiting running turned_away returned : Caller

pub record Shared : Type 0 where
  pub runner : SyncRunner
  pub callers : List Caller

abbrev pub with_caller : List Caller → Caller → List Caller → SyncRunner → Shared
with_caller before c after r = record { runner = r; callers = before ++ c ∷ after }

-- What a caller is when `begin` answered.
abbrev pub admitted_caller : Option SyncError → Caller
admitted_caller none = running
admitted_caller (some e) = turned_away

-- The steps of callers that run side by side, one at a time.
pub data Step : Shared → Shared → Type 0 where
  begins :
      (before after : List Caller) (r : SyncRunner)
      → Step
          (with_caller before waiting after r)
          (with_caller before (admitted_caller (begin r).1) after (begin r).0)
  records :
      (before after : List Caller) (r : SyncRunner) (now : Time) (o : SyncOutcome)
      → Step
          (with_caller before running after r)
          (with_caller before running after (record_outcome now o r))
  finishes :
      (before after : List Caller) (r : SyncRunner)
      → Step
          (with_caller before running after r)
          (with_caller before returned after (finish_running r))
  closes :
      (callers : List Caller) (r : SyncRunner)
      → Step
          (record { runner = r; callers = callers })
          (record { runner = close_admission r; callers = callers })

pub data Steps : Shared → Shared → Type 0 where
  stop : (s : Shared) → Steps s s
  step : (s t u : Shared) → Steps s t → Step t u → Steps s u
