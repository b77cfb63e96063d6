-- ===== src/Tests/BackupTests.antt =====
-- internal/app/backup_runner.go and internal/backup/backup.go on small inputs, in a zone without shifts.
use cpa_usage.Base.{
  ℕ, ◌+◌, ◌-◌, ◌*◌, ◌/◌, ◌≡◌, refl, true, false, none, some, List, [], ◌∷◌, All, arith,
  if◌then◌else◌,
}
use cpa_usage.Clock.{Time, hour, minute, day}
use cpa_usage.Text.{codes, text_eq}
use cpa_usage.Text.Trim.{trim_space, trim_left, trim_back, is_space1, is_space2, is_space3}
use cpa_usage.Backup.{
  Calendar, Runner, Turn, last_backup_at_from_history, uses_daily_schedule, next_delay, run,
}
use cpa_usage.Backup.Files.{Entry, cleanup_files}
use cpa_usage.Backup.Schedule.{run-no_pause}
use cpa_usage.Backup.Daily.{LocalDays, FourClock, FirstAllowed, next_delay-daily}
use cpa_usage.Backup.Expired.{Zone, Owes, cleanup_files-kept}

abbrev utc : Calendar
utc = record { at_hour = λ h t. (t / day) * day + h * hour; add_days = λ n t. t + n * day }

abbrev hourly : Runner
hourly = record {
  interval = hour;
  last_backup_at = 10 * day;
  retry_delay = 15 * minute;
  retry_attempts = 0;
  pending_retry = false;
}

abbrev daily : Runner
daily = record hourly { interval = day }

abbrev utc_days : LocalDays
utc_days = record { local_day = λ t. t / day; four = λ d. d * day + 4 * hour }

abbrev utc-FourClock : FourClock utc utc_days
utc-FourClock = record {
  at_four = λ t. refl;
  days_later = λ n d. omega arith;
  later_day = λ t d h. omega (arith, h);
  earlier_day = λ t d h. omega (arith, h);
  in_order = λ d e h. omega (arith, h);
}

next_delay-daily_example :
    FirstAllowed utc_days
      (10 * day)
      1
      (last_backup_at_from_history none daily)
      (10 * day + next_delay utc (10 * day) none daily)
next_delay-daily_example =
    next_delay-daily utc utc_days utc-FourClock (10 * day) none daily 0 refl refl

abbrev failing : Turn utc
failing = record {
  now = 11 * day;
  history = none;
  backup_at = 11 * day;
  failure = some (codes "disk full");
}

abbrev tired : Runner
tired = record hourly { retry_attempts = 4 }

run-no_pause_example : All (λ d. d ≡ 0) (run utc (failing ∷ failing ∷ []) tired).0
run-no_pause_example =
    run-no_pause utc (failing ∷ failing ∷ []) tired refl (omega arith)
      (unfold uses_daily_schedule in refl)
      ((codes "disk full", refl), ((codes "disk full", refl), tt)) (omega arith, (omega arith, tt))

abbrev entries : List Entry
entries =
    record {
      name = codes "2025-01-01";
      is_dir = true;
      backup_day = some (3 * day);
      removal_fails = none;
    }
    ∷ record { name = codes "notes"; is_dir = true; backup_day = none; removal_fails = none }
    ∷ []

abbrev utc_zone : Zone
utc_zone = record {
  local_midnight = λ d. d * day;
  dated = λ s. if text_eq s (codes "2025-01-01") then some 3 else none;
}

abbrev midnight : ℕ → Time
midnight n = (20 - n) * day

cleanup_files-kept_example :
    Owes utc_zone 20 7 0 entries (cleanup_files midnight (codes "backups") 7 entries)
cleanup_files-kept_example =
    cleanup_files-kept utc_zone midnight 20 6 (codes "backups") entries
      (λ d. (omega arith, omega arith)) refl
      (unfold trim_space trim_left trim_back is_space1 is_space2 is_space3 in refl)
      (refl, (refl, tt)) (unfold text_eq in refl, (unfold text_eq in refl, tt))
