-- ===== src/Quota/Active.antt =====
-- internal/quota/refresh_task_store.go: each auth index has one active task at most.
use cpa_usage.Base.{
  some_injective, ℕ, true, false, Option, none, some, if◌then◌else◌, ◌≡◌, ◌⊎◌, refl, sym, ap, ◌∙◌,
  Bool-cases, Option-cases, inl, inr, subst,
}
use cpa_usage.Clock.{Time}
use cpa_usage.Text.{Text, text_eq, text_eq_iff, text_eq_refl}
use cpa_usage.Dict.{Dict, find, put, Distinct, find-put, Distinct-put}
use cpa_usage.Quota.{
  Task, TaskStore, TaskStatus, queued, running, completed, failed, active_status, is_queued,
  task_id_of, is_active, if_active, linked_task, enqueued, change_task, run_task, active_task,
  new_task, enqueue, started, mark_running, completed_task, mark_completed, failed_task,
  mark_failed,
}

-- A found entry of an updated map is the new one or an old one.
find-put_cases :
    {V : Type 0} (k j : Text) (v w : V) (m : Dict V)
    → find j (put k v m) ≡ some w
    → ((k ≡ j) × (v ≡ w)) ⊎ ((text_eq k j ≡ false) × (find j m ≡ some w))
find-put_cases k j v w m h = elim (Bool-cases (text_eq k j)) [
  | inl same ↦ inl (
    (text_eq_iff k j).0 same,
    some_injective
        (sym (ap (λ b. if b then some v else find j m) same) ∙ sym (find-put k j v m) ∙ h),
  )
  | inr other ↦
      inr (other, sym (ap (λ b. if b then some v else find j m) other) ∙ sym (find-put k j v m) ∙ h)
]

queued_status : (st : TaskStatus) → is_queued st ≡ true → st ≡ queued
queued_status queued h = refl
queued_status running h = cc
queued_status completed h = cc
queued_status failed h = cc

module _ {R : Type 0} where
  -- What holds of a task under its key: an active task is the one that its auth index names, and has
  -- no time to expire.
  abbrev pub Linked : Dict Text → Text → Task R → Type 0
  Linked a id t = is_active t ≡ true → (find t.auth_index a ≡ some id) × (t.expires_at ≡ 0)

  abbrev pub AllLinked : Dict Text → Dict (Task R) → Type 0
  AllLinked a m = (id : Text) (t : Task R) → find id m ≡ some t → Linked a id t

  abbrev pub WellFormed : TaskStore R → Type 0
  WellFormed s = Distinct s.tasks × AllLinked s.active_task_ids_by_auth s.tasks

  put-Linked :
      (k : Text) (u : Task R) (m : Dict (Task R)) (a : Dict Text)
      → Linked a k u
      → ((id : Text) (t : Task R) → text_eq k id ≡ false → find id m ≡ some t → Linked a id t)
      → AllLinked a (put k u m)
  put-Linked k u m a new old id t e = elim (find-put_cases k id u t m e) [
    | inl (same, is) ↦ subst (λ j. Linked a j t) same (subst (λ v. Linked a k v) is new)
    | inr (other, there) ↦ old id t other there
  ]

  active_task-some :
      (auth id : Text) (t : Task R) (s : TaskStore R)
      → find auth s.active_task_ids_by_auth ≡ some id
      → find id s.tasks ≡ some t
      → is_active t ≡ true
      → active_task auth s ≡ some t
  active_task-some auth id t s hi ht active =
      ap (linked_task s.tasks) hi ∙ ap if_active ht ∙ ap (λ b. if b then some t else none) active

  -- An index without an active task: what the new task's link leaves of the others.
  add_task-Linked :
      (auth new : Text) (s : TaskStore R)
      → active_task auth s ≡ none
      → AllLinked s.active_task_ids_by_auth s.tasks
      → AllLinked (put auth new s.active_task_ids_by_auth) s.tasks
  add_task-Linked auth new s free h id t e active =
      let (link, no_expiry) = h id t e active in
      elim (Bool-cases (text_eq auth t.auth_index)) [
        | inl same ↦
            let named =
              subst (λ x. find x s.active_task_ids_by_auth ≡ some id)
                (sym ((text_eq_iff auth t.auth_index).0 same)) link in
            let clash = sym free ∙ active_task-some auth id t s named e active in cc
        | inr other ↦ (
          find-put auth t.auth_index new s.active_task_ids_by_auth
              ∙ ap (λ b. if b then some new else find t.auth_index s.active_task_ids_by_auth) other
              ∙ link,
          no_expiry,
        )
      ]

  enqueued-WellFormed :
      (now : Time) (auth : Text) (n : ℕ) (s : TaskStore R) (o : Option (Task R))
      → active_task auth s ≡ o
      → WellFormed s
      → WellFormed (enqueued now auth n s o).0
  enqueued-WellFormed now auth n s (some t) e w = w
  enqueued-WellFormed now auth n s none e (d, h) = (
    Distinct-put _ _ s.tasks d,
    put-Linked (task_id_of n) (new_task now n auth) s.tasks
        (put auth (task_id_of n) s.active_task_ids_by_auth)
        (λ active. (
          find-put auth auth (task_id_of n) s.active_task_ids_by_auth
              ∙ ap (λ b. if b then some (task_id_of n) else find auth s.active_task_ids_by_auth)
                  (text_eq_refl auth),
          refl,
        ))
        (λ id t other there. add_task-Linked auth (task_id_of n) s e h id t there),
  )

  -- A task replaced by one that is linked.
  change_task-WellFormed :
      (id : Text) (change : Task R → Task R) (s : TaskStore R)
      → ((t : Task R) → find id s.tasks ≡ some t → Linked s.active_task_ids_by_auth id (change t))
      → WellFormed s
      → WellFormed (change_task id change s (find id s.tasks))
  change_task-WellFormed id change s good (d, h) = elim (Option-cases (find id s.tasks)) [
    | inl e ↦ subst (λ o. WellFormed (change_task id change s o)) (sym e) (d, h)
    | inr (t, e) ↦
        subst (λ o. WellFormed (change_task id change s o)) (sym e)
          (
            Distinct-put id (change t) s.tasks d,
            put-Linked id (change t) s.tasks s.active_task_ids_by_auth (good t e)
                (λ j u other there. h j u there),
          )
  ]

  pub mark_completed-WellFormed :
      (now : Time) (id : Text) (r : R) (s : TaskStore R)
      → WellFormed s
      → WellFormed (mark_completed now id r s)
  unfolding mark_completed
  mark_completed-WellFormed now id r s =
      change_task-WellFormed id (completed_task now s.ttl r) s (λ t e active. cc)

  pub mark_failed-WellFormed :
      (now : Time) (id message : Text) (s : TaskStore R)
      → WellFormed s
      → WellFormed (mark_failed now id message s)
  unfolding mark_failed
  mark_failed-WellFormed now id message s =
      change_task-WellFormed id (failed_task now s.ttl message) s (λ t e active. cc)

  run_task-WellFormed :
      (now : Time) (id : Text) (s : TaskStore R) (o : Option (Task R))
      → find id s.tasks ≡ o
      → WellFormed s
      → WellFormed (run_task now id s o).0
  run_task-WellFormed now id s none e w = w
  run_task-WellFormed now id s (some t) e (d, h) = elim (Bool-cases (is_queued t.status)) [
    | inl is ↦ rw is (
      Distinct-put id (started now t) s.tasks d,
      put-Linked id (started now t) s.tasks s.active_task_ids_by_auth
          (λ active. h id t e (ap active_status (queued_status t.status is)))
          (λ j u other there. h j u there),
    )
    | inr not_so ↦ rw not_so (d, h)
  ]

  pub mark_running-WellFormed :
      (now : Time) (id : Text) (s : TaskStore R)
      → WellFormed s
      → WellFormed (mark_running now id s).0
  unfolding mark_running
  mark_running-WellFormed now id s = run_task-WellFormed now id s (find id s.tasks) refl

  pub enqueue-WellFormed :
      (now : Time) (auth : Text) (s : TaskStore R)
      → WellFormed s
      → WellFormed (enqueue now auth s).0
  unfolding enqueue
  enqueue-WellFormed now auth s = enqueued-WellFormed now auth _ s (active_task auth s) refl
