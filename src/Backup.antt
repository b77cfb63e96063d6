-- ===== src/Backup.antt =====
-- internal/app/backup_runner.go and internal/app/maintenance.go: when the next backup and the next
-- cleanup run. The calendar of the local time zone, the clocks, the backup files and what a write
-- answers are arguments. A delay below 0 stands as 0, which is what `Run` makes of it; an interval
-- below 0 is refused like 0 and stands as 0.
pub mod Files
pub mod Schedule
pub mod Daily
pub mod Expired
use cpa_usage.Base.{
  ℕ, zero, suc, ◌+◌, ◌-◌, ◌*◌, ◌/◌, ◌%◌, ◌==◌, Bool, true, false, not, ◌&&◌, Option, none, some,
  leb, if◌then◌else◌, List, [], ◌∷◌,
}
use cpa_usage.Clock.{Time, Duration, minute, day, is_zero, after, before}
use cpa_usage.Result.{Result, ok, err}
use cpa_usage.Text.{Text, codes}

-- What `time.Date` and `AddDate` do in the local zone.
pub record Calendar : Type 0 where
  -- The given hour of the local day of a time.
  pub at_hour : ℕ → Time → Time
  pub add_days : ℕ → Time → Time

-- `DatabaseBackupRunner`, without its collaborators.
pub record Runner : Type 0 where
  pub interval : Duration
  pub last_backup_at : Time
  pub retry_delay : Duration
  pub retry_attempts : ℕ
  pub pending_retry : Bool

-- What the history answers, where there is one: the last stored backup.
abbrev pub History : Type 0
History = Option (Result (Option Time))

-- `validate`, of a runner with its writer.
unfoldable pub validate_runner : Runner → Result Runner
validate_runner r =
    if r.interval == 0
    then err (codes "database backup interval must be positive")
    else ok (if r.retry_delay == 0 then record r { retry_delay = 15 * minute } else r)

abbrev pub later_of : Time → Time → Time
later_of last stored = if after stored last then stored else last

abbrev pub last_of : Time → History → Time
last_of last none = last
last_of last (some (err e)) = last
last_of last (some (ok none)) = last
last_of last (some (ok (some stored))) = later_of last stored

-- `lastBackupAtFromHistory`.
unfoldable pub last_backup_at_from_history : History → Runner → Time × Bool
last_backup_at_from_history h r =
    (last_of r.last_backup_at h, not (is_zero (last_of r.last_backup_at h)))

-- `usesDailySchedule`.
unfoldable pub uses_daily_schedule : Runner → Bool
uses_daily_schedule r = leb day r.interval && r.interval % day == 0

-- `dailyScheduleDays`.
unfoldable pub daily_schedule_days : Runner → ℕ
daily_schedule_days r = r.interval / day

module _ (cal : Calendar) where
  -- `nextDailyBackupAt` and `nextDailyCleanupAt`, for the hours 4 and 3.
  unfoldable pub next_daily_at : ℕ → Time → Time
  next_daily_at hour now =
      if before now (cal.at_hour hour now)
      then cal.at_hour hour now
      else cal.add_days 1 (cal.at_hour hour now)

  abbrev pub next_daily_backup_at : Time → Time
  next_daily_backup_at = next_daily_at 4

  abbrev pub next_daily_cleanup_at : Time → Time
  next_daily_cleanup_at = next_daily_at 3

  -- The day that the last backup's interval ends on, at 4 o'clock.
  abbrev pub candidate : Time → Runner → Time
  candidate last r = cal.add_days (daily_schedule_days r) (cal.at_hour 4 last)

  abbrev pub daily_at : Time → Runner → Time × Bool → Time
  daily_at now r (last, false) = next_daily_backup_at now
  daily_at now r (last, true) =
      if before now (candidate last r) then candidate last r else next_daily_backup_at now

  -- `nextDailyDelay`.
  unfoldable pub next_daily_delay : Time → History → Runner → Duration
  next_daily_delay now h r = daily_at now r (last_backup_at_from_history h r) - now

  abbrev pub interval_delay : Time → Runner → Time × Bool → Duration
  interval_delay now r (last, false) = 0
  interval_delay now r (last, true) = (last + r.interval) - now

  -- `nextDelay`, with the bound by 0 of `Run`.
  unfoldable pub next_delay : Time → History → Runner → Duration
  next_delay now h r =
      if r.pending_retry
      then r.retry_delay
      else if uses_daily_schedule r
      then next_daily_delay now h r
      else interval_delay now r (last_backup_at_from_history h r)

  -- What a turn of `Run` does with the answer of the write.
  unfoldable pub written : Time → Option Text → Runner → Runner
  written backup_at (some e) r = record r {
    retry_attempts = r.retry_attempts + 1;
    pending_retry = leb (r.retry_attempts + 1) 3;
  }
  written backup_at none r = record r {
    last_backup_at = backup_at;
    retry_attempts = 0;
    pending_retry = false;
  }

  -- One turn of the loop of `Run` as seen by its environment: the clocks, the history at each.
  pub record Turn : Type 0 where
    pub now : Time
    pub history : History
    pub backup_at : Time
    pub failure : Option Text

  -- The delays of the turns of `Run`, until it is cancelled.
  unfoldable pub run : List Turn → Runner → List Duration × Runner
  run [] r = ([], r)
  run (t ∷ ts) r =
      let (delays, last) = run ts (written t.backup_at t.failure r) in
      (next_delay t.now t.history r ∷ delays, last)

  -- The delay of a turn of the storage cleanup (`StorageCleanupRunner.Run`).
  unfoldable pub cleanup_delay : Time → Duration
  cleanup_delay now = next_daily_cleanup_at now - now
