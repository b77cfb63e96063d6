-- ===== src/Quota/Refresh/Worker.antt =====
-- internal/quota/refresh.go: the worker of a task, and a second request for the same auth index.
use cpa_usage.Base.{ℕ, false, Option, none, some, if◌then◌else◌, ◌≡◌, refl, sym, ap, ◌∙◌, subst}
use cpa_usage.Clock.{Time}
use cpa_usage.Text.{Text, text_eq_refl}
use cpa_usage.Dict.{Dict, find, put, find-put}
use cpa_usage.Quota.{
  Task, TaskStore, queued, is_active, is_queued, active_task, linked_task, if_active, enqueue,
  enqueued, add_task, new_task, task_id_of, mark_running, run_task, started, mark_completed,
  mark_failed, change_task, completed_task, failed_task,
}
use cpa_usage.Quota.Message.{QuotaError, refresh_task_error_message}
use cpa_usage.Quota.Refresh.{
  Outcome, done, error, CheckResponse, Env, check, record_check, after_start, run_refresh_task,
}

find-put_same : {V : Type 0} (k : Text) (v : V) (m : Dict V) → find k (put k v m) ≡ some v
find-put_same k v m = find-put k k v m ∙ ap (λ b. if b then some v else find k m) (text_eq_refl k)

module _ {R : Type 0} where
  enqueued-again :
      (now later : Time) (auth : Text) (n m : ℕ) (s : TaskStore R) (o : Option (Task R))
      → active_task auth s ≡ o
      → enqueued later auth m
          (enqueued now auth n s o).0
          (active_task auth (enqueued now auth n s o).0)
        ≡ ((enqueued now auth n s o).0, (enqueued now auth n s o).1, false)
  enqueued-again now later auth n m s (some t) e = ap (enqueued later auth m s) e
  enqueued-again now later auth n m s none e = ap (enqueued later auth m (add_task now auth n s)) (
      ap (linked_task (put (task_id_of n) (new_task now n auth) s.tasks))
        (find-put_same auth (task_id_of n) s.active_task_ids_by_auth)
      ∙ ap if_active (find-put_same (task_id_of n) (new_task now n auth) s.tasks))

  -- Right after a request for an auth index, a second request for it is answered with the same task,
  -- which is not new, and leaves the store as it is.
  enqueue-again :
      (now later : Time) (auth : Text) (s : TaskStore R)
      → enqueue later auth (enqueue now auth s).0
        ≡ ((enqueue now auth s).0, (enqueue now auth s).1, false)
  unfolding enqueue
  enqueue-again now later auth s = enqueued-again now later auth _ _ s (active_task auth s) refl

  -- A task under its id that is finished, with the result `q` and the text `message`.
  abbrev pub Ended : TaskStore R → Text → Text → Type 0
  Ended s id auth =
      (t : Task R) × (find id s.tasks ≡ some t) × (is_active t ≡ false) × (t.auth_index ≡ auth)

  change_task-Ended :
      (id : Text) (t : Task R) (change : Task R → Task R) (s : TaskStore R)
      → find id s.tasks ≡ some t
      → is_active (change t) ≡ false
      → (change t).auth_index ≡ t.auth_index
      → Ended (change_task id change s (find id s.tasks)) id t.auth_index
  change_task-Ended id t change s e ended same =
      subst (λ o. Ended (change_task id change s o) id t.auth_index) (sym e)
        (change t, find-put_same id (change t) s.tasks, ended, same)

  mark_completed-Ended :
      (now : Time) (id : Text) (r : R) (t : Task R) (s : TaskStore R)
      → find id s.tasks ≡ some t
      → Ended (mark_completed now id r s) id t.auth_index
  unfolding mark_completed
  mark_completed-Ended now id r t s e =
      change_task-Ended id t (completed_task now s.ttl r) s e refl refl

  mark_failed-Ended :
      (now : Time) (id message : Text) (t : Task R) (s : TaskStore R)
      → find id s.tasks ≡ some t
      → Ended (mark_failed now id message s) id t.auth_index
  unfolding mark_failed
  mark_failed-Ended now id message t s e =
      change_task-Ended id t (failed_task now s.ttl message) s e refl refl

module _ {Row : Type 0} (env : Env Row) where
  record_check-Ended :
      (now : Time) (id : Text) (r : Outcome (CheckResponse Row)) (t : Task (CheckResponse Row))
      (s : TaskStore (CheckResponse Row))
      → find id s.tasks ≡ some t
      → Ended (record_check env now id r s) id t.auth_index
  record_check-Ended now id (error e) t s h =
      mark_failed-Ended now id (refresh_task_error_message e) t s h
  record_check-Ended now id (done r) t s h = mark_completed-Ended now id r t s h

  mark_running-queued :
      (now : Time) (id : Text) (t : Task (CheckResponse Row)) (s : TaskStore (CheckResponse Row))
      → find id s.tasks ≡ some t
      → t.status ≡ queued
      → mark_running now id s
        ≡ (record s { tasks = put id (started now t) s.tasks }, some t.auth_index)
  unfolding mark_running
  mark_running-queued now id t s e waiting =
      ap (run_task now id s) e
      ∙ ap
          (λ st.
            if is_queued st
            then (record s { tasks = put id (started now t) s.tasks }, some t.auth_index)
            else (s, none))
          waiting

  -- The worker of a queued task ends it: whether its context is done at once, and whatever the check
  -- answers, the task is completed or failed afterwards and keeps its auth index, if the other
  -- goroutines leave the task alone while the provider is asked.
  pub run_refresh_task-Ended :
      (stopped : Option QuotaError) (running_at now finished : Time)
      (meanwhile : TaskStore (CheckResponse Row) → TaskStore (CheckResponse Row)) (id : Text)
      (t : Task (CheckResponse Row)) (s : TaskStore (CheckResponse Row))
      → find id s.tasks ≡ some t
      → t.status ≡ queued
      → ((u : TaskStore (CheckResponse Row)) → find id (meanwhile u).tasks ≡ find id u.tasks)
      → Ended (run_refresh_task env stopped running_at now finished meanwhile id s) id t.auth_index
  unfolding run_refresh_task
  run_refresh_task-Ended (some e) running_at now finished meanwhile id t s h waiting alone =
      mark_failed-Ended finished id (refresh_task_error_message e) t s h
  run_refresh_task-Ended none running_at now finished meanwhile id t s h waiting alone =
      let s1 = record s { tasks = put id (started running_at t) s.tasks } in
      subst (λ r. Ended (after_start env now finished id meanwhile r) id t.auth_index)
        (sym (mark_running-queued running_at id t s h waiting))
        (record_check-Ended finished id (check env now t.auth_index) (started running_at t)
          (meanwhile s1) (alone s1 ∙ find-put_same id (started running_at t) s.tasks))
