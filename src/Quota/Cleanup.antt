-- ===== src/Quota/Cleanup.antt =====
-- internal/quota/refresh_task_store.go: `cleanupExpired`, and the store over any number of calls.
use cpa_usage.Base.{
  some_injective, true, false, Option, none, some, [], ◌∷◌, if◌then◌else◌, ◌≡◌, sym, ap, ◌∙◌, arith,
  Bool-cases, inl, inr, subst,
}
use cpa_usage.Clock.{Time, Duration}
use cpa_usage.Text.{Text, text_eq, text_eq_iff}
use cpa_usage.Dict.{Dict, find, Distinct, find-remove, find-delete_if, kept, Distinct-delete_if}
use cpa_usage.Quota.{
  Task, TaskStore, is_active, enqueue, mark_running, mark_completed, mark_failed, task_expired,
  unlink, unlink_expired, cleanup_tasks, new_store,
}
use cpa_usage.Quota.Active.{
  WellFormed, enqueue-WellFormed, mark_running-WellFormed, mark_completed-WellFormed,
  mark_failed-WellFormed,
}

-- The link to another task stays.
unlink-link :
    (auth other id j : Text) (a : Dict Text)
    → text_eq j id ≡ false
    → find auth a ≡ some id
    → find auth (unlink other j a) ≡ some id
unfolding unlink
unlink-link auth other id j a apart link =
    ground
      (arith, find-remove other auth a, text_eq_iff other auth, text_eq_iff id j, text_eq_iff j id)

module _ {V : Type 0} (id j : Text) (t : V) (m : Dict V) where
  find-head : text_eq j id ≡ true → find id ((j, t) ∷ m) ≡ some t
  unfolding find
  find-head same = ap (λ b. if b then some t else find id m) same

  find-tail : text_eq j id ≡ false → find id ((j, t) ∷ m) ≡ find id m
  unfolding find
  find-tail other = ap (λ b. if b then some t else find id m) other

module _ {R : Type 0} where
  step-link :
      (now : Time) (auth id j : Text) (t : Task R) (a : Dict Text)
      → text_eq j id ≡ false
      → find auth a ≡ some id
      → find auth (if task_expired now t then unlink t.auth_index j a else a) ≡ some id
  step-link now auth id j t a apart link = elim (Bool-cases (task_expired now t)) [
    | inl is ↦ rw is (unlink-link auth t.auth_index id j a apart link)
    | inr not_so ↦ rw not_so link
  ]

  unlink_expired-absent :
      (now : Time) (auth id : Text) (m : Dict (Task R)) (a : Dict Text)
      → find id m ≡ none
      → find auth a ≡ some id
      → find auth (unlink_expired now m a) ≡ some id
  unfolding unlink_expired
  unlink_expired-absent now auth id [] a h link = link
  unlink_expired-absent now auth id ((j, t) ∷ m) a h link = elim (Bool-cases (text_eq j id)) [
    | inl same ↦ (let clash = sym (find-head id j t m same) ∙ h in cc)
    | inr other ↦
        unlink_expired-absent now auth id m
          (if task_expired now t then unlink t.auth_index j a else a)
          (sym (find-tail id j t m other) ∙ h) (step-link now auth id j t a other link)
  ]

  unlink_expired-stays :
      (now : Time) (auth id : Text) (u : Task R) (m : Dict (Task R)) (a : Dict Text)
      → Distinct m
      → find id m ≡ some u
      → task_expired now u ≡ false
      → find auth a ≡ some id
      → find auth (unlink_expired now m a) ≡ some id
  unfolding unlink_expired
  unlink_expired-stays now auth id u [] a d h fresh link = unfold find in cc
  unlink_expired-stays now auth id u ((j, t) ∷ m) a (new, d) h fresh link =
      elim (Bool-cases (text_eq j id)) [
        | inl same ↦
            let e = some_injective (sym (find-head id j t m same) ∙ h) in
            unlink_expired-absent now auth id m
              (if task_expired now t then unlink t.auth_index j a else a)
              (subst (λ k. find k m ≡ none) ((text_eq_iff j id).0 same) new)
              (rw (ap (task_expired now) e ∙ fresh) link)
        | inr other ↦
            unlink_expired-stays now auth id u m
              (if task_expired now t then unlink t.auth_index j a else a) d
              (sym (find-tail id j t m other) ∙ h) fresh (step-link now auth id j t a other link)
      ]

  without_expiry : (now : Time) (t : Task R) → t.expires_at ≡ 0 → task_expired now t ≡ false
  without_expiry now t h = ground arith

  -- What a cleanup leaves was there, and is not expired.
  kept_cases :
      (now : Time) (id : Text) (t : Task R) (o : Option (Task R))
      → kept (λ i u. task_expired now u) id o ≡ some t
      → o ≡ some t
  kept_cases now id t none h = h
  kept_cases now id t (some u) h = elim (Bool-cases (task_expired now u)) [
    | inl is ↦ let clash = sym (ap (λ b. if b then none else some u) is) ∙ h in cc
    | inr not_so ↦ sym (ap (λ b. if b then none else some u) not_so) ∙ h
  ]

  cleanup_tasks-WellFormed :
      (now : Time) (s : TaskStore R) → WellFormed s → WellFormed (cleanup_tasks now s)
  unfolding cleanup_tasks
  cleanup_tasks-WellFormed now s (d, h) = (
    Distinct-delete_if (λ i u. task_expired now u) s.tasks d,
    λ id t e active.
        let old =
          kept_cases now id t (find id s.tasks)
            (sym (find-delete_if (λ i u. task_expired now u) id s.tasks d) ∙ e) in
        let (link, no_expiry) = h id t old active in
        (
          unlink_expired-stays now t.auth_index id t s.tasks s.active_task_ids_by_auth d old
              (without_expiry now t no_expiry) link,
          no_expiry,
        ),
  )

  -- One call on the store.
  pub data TaskStep : TaskStore R → TaskStore R → Type 0 where
    enqueues : (now : Time) (auth : Text) (s : TaskStore R) → TaskStep s (enqueue now auth s).0
    starts : (now : Time) (id : Text) (s : TaskStore R) → TaskStep s (mark_running now id s).0
    completes :
        (now : Time) (id : Text) (r : R) (s : TaskStore R) → TaskStep s (mark_completed now id r s)
    fails :
        (now : Time) (id message : Text) (s : TaskStore R)
        → TaskStep s (mark_failed now id message s)
    cleans : (now : Time) (s : TaskStore R) → TaskStep s (cleanup_tasks now s)

  pub data TaskSteps : TaskStore R → TaskStore R → Type 0 where
    none_yet : (s : TaskStore R) → TaskSteps s s
    and_then : (a b c : TaskStore R) → TaskSteps a b → TaskStep b c → TaskSteps a c

  TaskStep-WellFormed : (s u : TaskStore R) → TaskStep s u → WellFormed s → WellFormed u
  TaskStep-WellFormed _ _ (enqueues now auth s) w = enqueue-WellFormed now auth s w
  TaskStep-WellFormed _ _ (starts now id s) w = mark_running-WellFormed now id s w
  TaskStep-WellFormed _ _ (completes now id r s) w = mark_completed-WellFormed now id r s w
  TaskStep-WellFormed _ _ (fails now id message s) w = mark_failed-WellFormed now id message s w
  TaskStep-WellFormed _ _ (cleans now s) w = cleanup_tasks-WellFormed now s w

  TaskSteps-WellFormed : (s u : TaskStore R) → WellFormed s → TaskSteps s u → WellFormed u
  TaskSteps-WellFormed _ _ w (none_yet s) = w
  TaskSteps-WellFormed _ _ w (and_then a b c s t) =
      TaskStep-WellFormed b c t (TaskSteps-WellFormed a b w s)

  new_store-WellFormed : (ttl : Duration) → WellFormed (new_store {R = R} ttl)
  new_store-WellFormed ttl = (tt, λ id t e. unfold find in cc)

  -- In a store that any sequence of calls makes of a new one, two queued or running tasks of the same
  -- auth index are stored under the same id.
  pub one_active_task :
      (ttl : Duration) (s : TaskStore R)
      → TaskSteps (new_store ttl) s
      → (i j : Text) (t u : Task R) → find i s.tasks ≡ some t
      → find j s.tasks ≡ some u
      → is_active t ≡ true
      → is_active u ≡ true
      → t.auth_index ≡ u.auth_index
      → i ≡ j
  one_active_task ttl s steps i j t u hi hj at au same =
      let (d, h) = TaskSteps-WellFormed (new_store ttl) s (new_store-WellFormed ttl) steps in
      some_injective
        (sym (h i t hi at).0 ∙ ap (λ k. find k s.active_task_ids_by_auth) same ∙ (h j u hj au).0)

  -- In such a store, a cleanup at any time leaves every queued or running task in its place.
  pub cleanup_tasks-active :
      (ttl : Duration) (s : TaskStore R)
      → TaskSteps (new_store ttl) s
      → (now : Time) (id : Text) (t : Task R) → find id s.tasks ≡ some t
      → is_active t ≡ true
      → find id (cleanup_tasks now s).tasks ≡ some t
  unfolding cleanup_tasks
  cleanup_tasks-active ttl s steps now id t e active =
      let (d, h) = TaskSteps-WellFormed (new_store ttl) s (new_store-WellFormed ttl) steps in
      let stays = without_expiry now t (h id t e active).1 in
      find-delete_if (λ i u. task_expired now u) id s.tasks d
      ∙ ap (kept (λ i u. task_expired now u) id) e
      ∙ ap (λ b. if b then none else some t) stays
