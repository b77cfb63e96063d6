-- ===== src/Tests/QuotaTests.antt =====
-- internal/quota with one identity that a handler knows.
use cpa_usage.Base.{Bool, false, ◌≡◌, refl, true, Option, none, some, List, [], ◌∷◌}
use cpa_usage.Text.{Text, codes, is_empty, text_eq}
use cpa_usage.Text.Decimal.{format_uint}
use cpa_usage.Dict.{find, put}
use cpa_usage.Quota.{
  Task, TaskStore, new_store, default_refresh_task_ttl, enqueue, cleanup_tasks, new_task,
  task_id_of,
}
use cpa_usage.Quota.Cleanup.{
  TaskSteps, none_yet, and_then, enqueues, one_active_task, cleanup_tasks-active,
}
use cpa_usage.Quota.Message.{
  plain_error, refresh_task_error_message, refresh_task_error_message-there,
}
use cpa_usage.Quota.Refresh.{
  done, Identity, CheckResponse, RefreshResponse, Env, Turn, run_refresh_task,
}
use cpa_usage.Quota.Refresh.Worker.{Ended, run_refresh_task-Ended}

abbrev Line : Type 0
Line = Text

abbrev start : TaskStore (CheckResponse Line)
start = new_store default_refresh_task_ttl

abbrev alice : Text
alice = codes "alice"

abbrev asked : TaskStore (CheckResponse Line)
asked = (enqueue 7 alice start).0

abbrev first_task : Task (CheckResponse Line)
first_task = new_task 7 1 alice

asked_first : TaskSteps start asked
asked_first = and_then start start asked (none_yet start) (enqueues 7 alice start)

asked-find : find (task_id_of 1) asked.tasks ≡ some first_task
unfolding enqueue find put text_eq format_uint
asked-find = refl

one_active_task_example : task_id_of 1 ≡ task_id_of 1
one_active_task_example =
    one_active_task default_refresh_task_ttl asked asked_first (task_id_of 1) (task_id_of 1)
      first_task first_task asked-find asked-find refl refl refl

cleanup_tasks-active_example :
    find (task_id_of 1) (cleanup_tasks 9000 asked).tasks ≡ some first_task
cleanup_tasks-active_example =
    cleanup_tasks-active default_refresh_task_ttl asked asked_first 9000 (task_id_of 1) first_task
      asked-find refl

abbrev identity_of : Bool → Option Identity
identity_of true = some (record { id = 1; provider = codes "Codex"; identity_type = [] })
identity_of false = none

abbrev env : Env Line
env = record {
  unicode_lower = λ s. s;
  find_active_auth_file_identity = λ a. done (identity_of (text_eq a alice));
  has_active_identity = λ a. done false;
  registered = codes "codex" ∷ [];
  provider_rows = λ k i. done (codes "5h" ∷ []);
  save_observation = λ i r. none;
}

abbrev turn_of : Text → Turn Line
turn_of a = record { raw_auth_index = a; now = 7; closed = false; meanwhile = λ s. s }

abbrev turns : List (Turn Line)
turns = turn_of (codes " alice ") ∷ turn_of alice ∷ turn_of (codes "bob") ∷ []

abbrev answer : RefreshResponse
answer = record {
  tasks = (alice, task_id_of 1) ∷ [];
  rejected = (alice, codes "duplicate") ∷ (codes "bob", codes "not_found") ∷ [];
  accepted = 1;
  skipped = 2;
  limit = 5;
}

run_refresh_task-Ended_example :
    Ended (run_refresh_task env none 8 9 10 (λ s. s) (task_id_of 1) asked) (task_id_of 1) alice
run_refresh_task-Ended_example =
    run_refresh_task-Ended env none 8 9 10 (λ s. s) (task_id_of 1) first_task asked asked-find refl
      (λ u. refl)

refresh_task_error_message-there_example :
    is_empty (refresh_task_error_message (plain_error (codes "no route to host"))) ≡ false
refresh_task_error_message-there_example =
    refresh_task_error_message-there (plain_error (codes "no route to host"))
