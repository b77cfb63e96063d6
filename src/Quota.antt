-- ===== src/Quota.antt =====
-- internal/quota/refresh_task_store.go: the tasks that refresh quotas. A method is one step on the
-- store, since it holds the mutex. A `CheckResponse` is only carried along and stands as a type `R`.
pub mod Active
pub mod Cleanup
pub mod Message
pub mod Refresh
use cpa_usage.Base.{
  ℕ, ◌+◌, ◌*◌, ◌%◌, ◌^◌, ◌==◌, Bool, true, false, not, ◌&&◌, ◌||◌, Option, none, some, [], ◌∷◌,
  ◌++◌, if◌then◌else◌,
}
use cpa_usage.Clock.{Time, Duration, minute, is_zero, before}
use cpa_usage.Text.{Text, codes, text_eq}
use cpa_usage.Text.Decimal.{format_uint}
use cpa_usage.Dict.{Dict, find, put, remove, delete_if}

abbrev pub default_refresh_task_ttl : Duration
default_refresh_task_ttl = 20 * minute

pub data TaskStatus : Type 0 where
  queued running completed failed : TaskStatus

-- `RefreshTaskRecord`.
pub record Task (R : Type 0) : Type 0 where
  pub task_id : Text
  pub auth_index : Text
  pub status : TaskStatus
  pub quota : Option R
  pub error : Text
  pub created_at : Time
  pub started_at : Time
  pub finished_at : Time
  pub expires_at : Time

pub record TaskStore (R : Type 0) : Type 0 where
  pub tasks : Dict (Task R)
  pub active_task_ids_by_auth : Dict Text
  pub ttl : Duration
  pub seq : ℕ

abbrev pub active_status : TaskStatus → Bool
active_status queued = true
active_status running = true
active_status _ = false

abbrev pub is_queued : TaskStatus → Bool
is_queued queued = true
is_queued _ = false

-- The id of the n-th task.
abbrev pub task_id_of : ℕ → Text
task_id_of n = codes "quota-refresh-" ++ format_uint n

-- A key that is missing has the empty text for its value.
abbrev pub text_of : Option Text → Text
text_of none = []
text_of (some v) = v

unfoldable pub unlink : Text → Text → Dict Text → Dict Text
unlink auth id a = if text_eq (text_of (find auth a)) id then remove auth a else a

module _ {R : Type 0} where
  -- `newRefreshTaskStore`.
  abbrev pub new_store : Duration → TaskStore R
  new_store ttl = record { tasks = []; active_task_ids_by_auth = []; ttl = ttl; seq = 0 }

  abbrev pub is_active : Task R → Bool
  is_active t = active_status t.status

  abbrev pub new_task : Time → ℕ → Text → Task R
  new_task now n auth = record {
    task_id = task_id_of n;
    auth_index = auth;
    status = queued;
    quota = none;
    error = [];
    created_at = now;
    started_at = 0;
    finished_at = 0;
    expires_at = 0;
  }

  -- The task that the map names for an auth index, if it is there and active.
  abbrev pub if_active : Option (Task R) → Option (Task R)
  if_active none = none
  if_active (some t) = if is_active t then some t else none

  abbrev pub linked_task : Dict (Task R) → Option Text → Option (Task R)
  linked_task m none = none
  linked_task m (some id) = if_active (find id m)

  abbrev pub active_task : Text → TaskStore R → Option (Task R)
  active_task auth s = linked_task s.tasks (find auth s.active_task_ids_by_auth)

  abbrev pub add_task : Time → Text → ℕ → TaskStore R → TaskStore R
  add_task now auth n s = record s {
    seq = n;
    tasks = put (task_id_of n) (new_task now n auth) s.tasks;
    active_task_ids_by_auth = put auth (task_id_of n) s.active_task_ids_by_auth;
  }

  abbrev pub enqueued :
      Time → Text → ℕ → TaskStore R → Option (Task R) → TaskStore R × Task R × Bool
  enqueued now auth n s (some t) = (s, t, false)
  enqueued now auth n s none = (add_task now auth n s, new_task now n auth, true)

  -- `enqueue`: the store, the task, and whether it is new.
  unfoldable pub enqueue : Time → Text → TaskStore R → TaskStore R × Task R × Bool
  enqueue now auth s = enqueued now auth ((s.seq + 1) % 2 ^ 64) s (active_task auth s)

  -- `snapshot`.
  abbrev pub snapshot : Text → TaskStore R → Option (Task R)
  snapshot id s = find id s.tasks

  abbrev pub started : Time → Task R → Task R
  started now t = record t { status = running; started_at = now }

  abbrev pub run_task : Time → Text → TaskStore R → Option (Task R) → TaskStore R × Option Text
  run_task now id s none = (s, none)
  run_task now id s (some t) =
      if is_queued t.status
      then (record s { tasks = put id (started now t) s.tasks }, some t.auth_index)
      else (s, none)

  -- `markRunning`: the auth index, of a queued task.
  unfoldable pub mark_running : Time → Text → TaskStore R → TaskStore R × Option Text
  mark_running now id s = run_task now id s (find id s.tasks)

  -- A task that is missing is left out.
  abbrev pub change_task : Text → (Task R → Task R) → TaskStore R → Option (Task R) → TaskStore R
  change_task id change s none = s
  change_task id change s (some t) = record s { tasks = put id (change t) s.tasks }

  abbrev pub completed_task : Time → Duration → R → Task R → Task R
  completed_task now ttl r t = record t {
    status = completed;
    finished_at = now;
    expires_at = now + ttl;
    quota = some r;
  }

  -- `markCompleted`.
  unfoldable pub mark_completed : Time → Text → R → TaskStore R → TaskStore R
  mark_completed now id r s = change_task id (completed_task now s.ttl r) s (find id s.tasks)

  abbrev pub failed_task : Time → Duration → Text → Task R → Task R
  failed_task now ttl message t = record t {
    status = failed;
    finished_at = now;
    expires_at = now + ttl;
    error = message;
  }

  -- `markFailed`.
  unfoldable pub mark_failed : Time → Text → Text → TaskStore R → TaskStore R
  mark_failed now id message s = change_task id (failed_task now s.ttl message) s (find id s.tasks)

  abbrev pub task_expired : Time → Task R → Bool
  task_expired now t = not (is_zero t.expires_at || before now t.expires_at)

  -- The links that the loop of `cleanupExpired` deletes.
  unfoldable pub unlink_expired : Time → Dict (Task R) → Dict Text → Dict Text
  unlink_expired now [] a = a
  unlink_expired now ((id, t) ∷ m) a =
      unlink_expired now m (if task_expired now t then unlink t.auth_index id a else a)

  -- `cleanupExpired`.
  unfoldable pub cleanup_tasks : Time → TaskStore R → TaskStore R
  cleanup_tasks now s = record s {
    tasks = delete_if (λ id t. task_expired now t) s.tasks;
    active_task_ids_by_auth = unlink_expired now s.tasks s.active_task_ids_by_auth;
  }
