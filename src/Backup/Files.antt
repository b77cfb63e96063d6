-- ===== src/Backup/Files.antt =====
-- internal/backup/backup.go (`Cleanup`) and `LastBackupAt` of internal/app/backup_runner.go: the
-- folders of backups, one a day, and the files in them. The file system answers as arguments.
use cpa_usage.Base.{
  ℕ, zero, suc, ◌+◌, ◌*◌, ◌/◌, Bool, true, false, Option, none, some, if◌then◌else◌, List, [], ◌∷◌,
}
use cpa_usage.Clock.{Time, day, is_zero, after, before}
use cpa_usage.Result.{Result, ok, err}
use cpa_usage.Text.{Text, is_empty}
use cpa_usage.Text.Trim.{trim_space}

-- The modification times of the `.db` files, each as `os.Stat` answers.
abbrev pub latest_of : Time → List (Result Time) → Result Time
latest_of latest [] = ok latest
latest_of latest (err e ∷ fs) = err e
latest_of latest (ok t ∷ fs) = latest_of (if after t latest then t else latest) fs

abbrev pub there_unless_zero : Result Time → Result (Option Time)
there_unless_zero (err e) = err e
there_unless_zero (ok t) = ok (if is_zero t then none else some t)

-- `databaseBackupStore.LastBackupAt`, of what `backup.ListFiles` answers.
unfoldable pub last_backup_at : Result (List (Result Time)) → Result (Option Time)
last_backup_at (err e) = err e
last_backup_at (ok fs) = there_unless_zero (latest_of 0 fs)

-- An entry of the backup folder: is it a folder, the local midnight that its name denotes, if it is a
-- day, and whether `os.RemoveAll` fails.
pub record Entry : Type 0 where
  pub name : Text
  pub is_dir : Bool
  pub backup_day : Option Time
  pub removal_fails : Option Text

-- `t.Truncate(24 * time.Hour)`.
abbrev pub truncate_day : Time → Time
truncate_day t = (t / day) * day

abbrev pub day_before : Time → Option Time → Bool
day_before cutoff none = false
day_before cutoff (some d) = before d (truncate_day cutoff)

unfoldable pub is_removed : Time → Entry → Bool
is_removed cutoff e = if e.is_dir then day_before cutoff e.backup_day else false

-- The loop of `Cleanup`: the entries that are left, their number that went, and the error.
unfoldable pub remove_entries : Time → ℕ → List Entry → List Entry × ℕ × Option Text
remove_entries cutoff removed [] = ([], removed, none)
remove_entries cutoff removed (e ∷ es) = elim (is_removed cutoff e) [
  | false ↦ let (left, n, failure) = remove_entries cutoff removed es in (e ∷ left, n, failure)
  | true ↦ elim e.removal_fails [
    | some m ↦ (e ∷ es, removed, some m)
    | none ↦ remove_entries cutoff (removed + 1) es
  ]
]

-- `Cleanup` of a folder that is there; `midnight` is the start of a local day, the given number of days
-- before now.
unfoldable pub cleanup_files : (ℕ → Time) → Text → ℕ → List Entry → List Entry × ℕ × Option Text
cleanup_files midnight dir zero es = (es, 0, none)
cleanup_files midnight dir (suc n) es =
    if is_empty (trim_space dir) then (es, 0, none) else remove_entries (midnight (suc n)) 0 es
