-- ===== src/Quota/Refresh.antt =====
-- internal/quota/refresh.go and internal/quota/service.go: the request that starts refresh tasks, and
-- the worker of a task. The database, the provider handlers with the rows they make, and the clocks
-- are arguments; contexts stand as Booleans that say whether they are done.
pub mod Names
pub mod Seen
pub mod Response
pub mod Worker
use cpa_usage.Base.{
  ℕ, zero, suc, ◌+◌, Bool, true, false, not, ◌||◌, Option, none, some, List, [], ◌∷◌, ◌++◌, leb,
  if◌then◌else◌, length,
}
use cpa_usage.Clock.{Time}
use cpa_usage.Int.{ℤ, pos, negsuc}
use cpa_usage.Text.{Text, codes, is_empty}
use cpa_usage.Text.Trim.{trim_space}
use cpa_usage.Attempt.{to_lower}
use cpa_usage.Events.{contains_key}
use cpa_usage.Quota.{
  Task, TaskStatus, TaskStore, enqueue, mark_running, mark_completed, mark_failed, cleanup_tasks,
  snapshot,
}
use cpa_usage.Quota.Message.{
  QuotaError, plain_error, err_validation, err_not_found, err_unsupported_type, err_task_not_found,
  refresh_task_error_message,
}

pub data Outcome (A : Type 0) : Type 0 where
  done : A → Outcome A
  error : QuotaError → Outcome A

-- The columns of an active identity that are read here.
pub record Identity : Type 0 where
  pub id : ℕ
  pub provider : Text
  pub identity_type : Text

-- `CheckResponse`; its rows are carried along.
pub record CheckResponse (Row : Type 0) : Type 0 where
  pub id : Text
  pub observed_at : Time
  pub quota : List Row

-- `response.Tasks`, `response.Rejected` and the counters.
pub record RefreshResponse : Type 0 where
  pub tasks : List (Text × Text)
  pub rejected : List (Text × Text)
  pub accepted : ℕ
  pub skipped : ℕ
  pub limit : ℕ

-- `RefreshTaskResponse`.
pub record TaskResponse (Row : Type 0) : Type 0 where
  pub task_id : Text
  pub auth_index : Text
  pub status : TaskStatus
  pub quota : Option (CheckResponse Row)
  pub error_text : Text

pub record Env (Row : Type 0) : Type 0 where
  pub unicode_lower : Text → Text
  pub find_active_auth_file_identity : Text → Outcome (Option Identity)
  pub has_active_identity : Text → Outcome Bool
  -- The keys of the registry, normalized.
  pub registered : List Text
  -- What the handler of a key answers for an identity, as rows.
  pub provider_rows : Text → Identity → Outcome (List Row)
  pub save_observation : ℕ → CheckResponse Row → Option QuotaError

-- One turn of the loop of `Refresh`: the auth index, the clock, whether admission is closed then, and
-- what other goroutines do to the store before.
pub record Turn (Row : Type 0) : Type 0 where
  pub raw_auth_index : Text
  pub now : Time
  pub closed : Bool
  pub meanwhile : TaskStore (CheckResponse Row) → TaskStore (CheckResponse Row)

-- The variables of the loop.
pub record Loop (Row : Type 0) : Type 0 where
  pub store : TaskStore (CheckResponse Row)
  pub seen : List Text
  pub response : RefreshResponse

module _ {Row : Type 0} (env : Env Row) where
  -- `normalizeIdentityType`.
  unfoldable pub normalize_identity_type : Text → Text
  normalize_identity_type t = to_lower env.unicode_lower (trim_space t)

  abbrev pub add_candidate : List Text → Text → List Text
  add_candidate candidates t =
      if is_empty t || contains_key candidates t then candidates else candidates ++ t ∷ []

  -- `resolveQuotaIdentityTypes`.
  unfoldable pub resolve_quota_identity_types : Text → Text → List Text
  resolve_quota_identity_types provider identity_type =
      add_candidate (add_candidate [] (normalize_identity_type provider))
        (normalize_identity_type identity_type)

  abbrev pub first_registered : List Text → Option Text
  first_registered [] = none
  first_registered (c ∷ cs) =
      if contains_key env.registered (normalize_identity_type c)
      then some (normalize_identity_type c)
      else first_registered cs

  -- `resolveQuotaHandler`: the key of the handler.
  unfoldable pub resolve_quota_handler : Text → Text → Option Text
  resolve_quota_handler provider identity_type =
      first_registered (resolve_quota_identity_types provider identity_type)

  abbrev pub unsupported_or : Option Text → Text
  unsupported_or none = codes "unsupported"
  unsupported_or (some k) = []

  abbrev pub rejection_absent : Outcome Bool → Outcome Text
  rejection_absent (error e) = error e
  rejection_absent (done active) =
      done (if active then codes "not_auth_file" else codes "not_found")

  abbrev pub rejection_of : Text → Outcome (Option Identity) → Outcome Text
  rejection_of auth (error e) = error e
  rejection_of auth (done (some i)) =
      done (unsupported_or (resolve_quota_handler i.provider i.identity_type))
  rejection_of auth (done none) = rejection_absent (env.has_active_identity auth)

  -- `validateRefreshAuthIndex`: the empty text rejects nothing.
  unfoldable pub validate_refresh_auth_index : Text → Outcome Text
  validate_refresh_auth_index auth = rejection_of auth (env.find_active_auth_file_identity auth)

  abbrev pub started_task :
      TaskStore (CheckResponse Row) × Task (CheckResponse Row) × Bool
      → TaskStore (CheckResponse Row) × Text × Text
  started_task (s, t, true) = (s, t.task_id, [])
  started_task (s, t, false) = (s, t.task_id, codes "duplicate")

  -- `startRefreshTask`: the store, the id of the task, and the rejection.
  unfoldable pub start_refresh_task :
      Turn Row → Text → TaskStore (CheckResponse Row) → TaskStore (CheckResponse Row) × Text × Text
  start_refresh_task turn auth s =
      if turn.closed
      then (s, [], codes "refresh_unavailable")
      else started_task (enqueue turn.now auth s)

  abbrev pub reject : Text → Text → Loop Row → Loop Row
  reject auth why p = record p {
    response = record p.response { rejected = p.response.rejected ++ (auth, why) ∷ [] };
  }

  abbrev pub accept : Text → Text → Loop Row → Loop Row
  accept auth id p = record p {
    response = record p.response {
      tasks = p.response.tasks ++ (auth, id) ∷ [];
      accepted = p.response.accepted + 1;
    };
  }

  abbrev pub accept_started :
      Text → Loop Row → TaskStore (CheckResponse Row) × Text × Text → Loop Row
  accept_started auth p (s, id, []) = accept auth id (record p { store = s })
  accept_started auth p (s, id, c ∷ why) = reject auth (c ∷ why) (record p { store = s })

  abbrev pub with_rejection :
      Turn Row → Text → Loop Row → Outcome Text → Loop Row × Option QuotaError
  with_rejection turn auth p (error e) = (p, some e)
  with_rejection turn auth p (done (c ∷ why)) = (reject auth (c ∷ why) p, none)
  with_rejection turn auth p (done []) =
      (accept_started auth p (start_refresh_task turn auth p.store), none)

  abbrev pub new_auth_index : Turn Row → Text → Loop Row → Loop Row × Option QuotaError
  new_auth_index turn auth p =
      if leb p.response.limit p.response.accepted
      then (reject auth (codes "invalid") p, none)
      else with_rejection turn auth p (validate_refresh_auth_index auth)

  abbrev pub trimmed_auth_index : Turn Row → Text → Loop Row → Loop Row × Option QuotaError
  trimmed_auth_index turn auth p =
      if is_empty auth
      then (reject auth (codes "invalid") p, none)
      else if contains_key p.seen auth
      then (reject auth (codes "duplicate") p, none)
      else new_auth_index turn auth (record p { seen = auth ∷ p.seen })

  -- One turn of the loop of `Refresh`.
  unfoldable pub refresh_turn : Turn Row → Loop Row → Loop Row × Option QuotaError
  refresh_turn turn p =
      trimmed_auth_index turn (trim_space turn.raw_auth_index)
        (record p { store = turn.meanwhile p.store })

  abbrev pub refresh_loop : List (Turn Row) → Loop Row → Loop Row × Option QuotaError
  refresh_loop [] p = (p, none)
  refresh_loop (t ∷ ts) p =
      let (q, failure) = refresh_turn t p in
      elim failure [ some e ↦ (q, some e) | none ↦ refresh_loop ts q ]

  abbrev pub refresh_answer :
      Loop Row × Option QuotaError → TaskStore (CheckResponse Row) × Outcome RefreshResponse
  refresh_answer (p, some e) = (p.store, error e)
  refresh_answer (p, none) =
      (p.store, done (record p.response { skipped = length p.response.rejected }))

  abbrev pub first_progress : ℕ → TaskStore (CheckResponse Row) → Loop Row
  first_progress limit s = record {
    store = s;
    seen = [];
    response = record { tasks = []; rejected = []; accepted = 0; skipped = 0; limit = limit };
  }

  abbrev pub limit_required : QuotaError
  limit_required = plain_error (err_validation ++ codes ": limit is required")

  -- `Refresh`, at the clock of its cleanup.
  unfoldable pub refresh :
      Time
      → ℤ
      → List (Turn Row)
      → TaskStore (CheckResponse Row)
      → TaskStore (CheckResponse Row) × Outcome RefreshResponse
  refresh now (negsuc n) turns s = (s, error limit_required)
  refresh now (pos zero) turns s = (s, error limit_required)
  refresh now (pos (suc n)) turns s =
      refresh_answer (refresh_loop turns (first_progress (suc n) (cleanup_tasks now s)))

  -- The method `response` of a task.
  abbrev pub response_of : Task (CheckResponse Row) → TaskResponse Row
  response_of t = record {
    task_id = t.task_id;
    auth_index = t.auth_index;
    status = t.status;
    quota = t.quota;
    error_text = t.error;
  }

  abbrev pub found_task : Option (Task (CheckResponse Row)) → Outcome (TaskResponse Row)
  found_task none = error (plain_error err_task_not_found)
  found_task (some t) = done (response_of t)

  abbrev pub task_by_id :
      Time
      → Text
      → TaskStore (CheckResponse Row)
      → TaskStore (CheckResponse Row) × Outcome (TaskResponse Row)
  task_by_id now id s =
      if is_empty id
      then (s, error (plain_error (err_validation ++ codes ": task_id is required")))
      else (cleanup_tasks now s, found_task (snapshot id (cleanup_tasks now s)))

  -- `GetRefreshTask`.
  unfoldable pub get_refresh_task :
      Time
      → Text
      → TaskStore (CheckResponse Row)
      → TaskStore (CheckResponse Row) × Outcome (TaskResponse Row)
  get_refresh_task now id s = task_by_id now (trim_space id) s

  abbrev pub saved : ℕ → CheckResponse Row → Option QuotaError → Outcome (CheckResponse Row)
  saved id r none = done r
  saved id r (some e) =
      error (record e { message = codes "persist quota observation: " ++ e.message })

  abbrev pub new_observation : Time → Text → List Row → CheckResponse Row
  new_observation now auth rows = record { id = auth; observed_at = now; quota = rows }

  abbrev pub observed : Time → Text → Identity → Outcome (List Row) → Outcome (CheckResponse Row)
  observed now auth i (error e) = error e
  observed now auth i (done []) = error (plain_error (codes "quota response has no usable rows"))
  observed now auth i (done (r ∷ rows)) =
      saved i.id (new_observation now auth (r ∷ rows))
        (env.save_observation i.id (new_observation now auth (r ∷ rows)))

  abbrev pub handled : Time → Text → Identity → Option Text → Outcome (CheckResponse Row)
  handled now auth i none =
      error (plain_error (err_unsupported_type ++ codes ": " ++ normalize_identity_type i.provider))
  handled now auth i (some key) = observed now auth i (env.provider_rows key i)

  abbrev pub check_found : Time → Text → Outcome (Option Identity) → Outcome (CheckResponse Row)
  check_found now auth (error e) = error e
  check_found now auth (done none) = error (plain_error (err_not_found ++ codes ": " ++ auth))
  check_found now auth (done (some i)) =
      handled now auth i (resolve_quota_handler i.provider i.identity_type)

  abbrev pub check_trimmed : Time → Text → Outcome (CheckResponse Row)
  check_trimmed now auth =
      if is_empty auth
      then error (plain_error (err_validation ++ codes ": auth_index is required"))
      else check_found now auth (env.find_active_auth_file_identity auth)

  -- `Check`, at the clock of its observation.
  unfoldable pub check : Time → Text → Outcome (CheckResponse Row)
  check now auth = check_trimmed now (trim_space auth)

  abbrev pub record_check :
      Time
      → Text
      → Outcome (CheckResponse Row)
      → TaskStore (CheckResponse Row)
      → TaskStore (CheckResponse Row)
  record_check now id (error e) s = mark_failed now id (refresh_task_error_message e) s
  record_check now id (done r) s = mark_completed now id r s

  -- What follows on `markRunning`; the provider is asked between two sections on the store, and
  -- `meanwhile` is what other goroutines do to it then.
  abbrev pub after_start :
      Time
      → Time
      → Text
      → (TaskStore (CheckResponse Row) → TaskStore (CheckResponse Row))
      → TaskStore (CheckResponse Row) × Option Text
      → TaskStore (CheckResponse Row)
  after_start now finished id meanwhile (s, none) = s
  after_start now finished id meanwhile (s, some auth) =
      record_check finished id (check now auth) (meanwhile s)

  -- `runRefreshTask`: a worker whose context is done before it has a token fails with the context's
  -- error. `running_at`, `now` and `finished` are the clocks of `markRunning`, of `Check` and of the end.
  unfoldable pub run_refresh_task :
      Option QuotaError
      → Time
      → Time
      → Time
      → (TaskStore (CheckResponse Row) → TaskStore (CheckResponse Row))
      → Text
      → TaskStore (CheckResponse Row)
      → TaskStore (CheckResponse Row)
  run_refresh_task (some e) running_at now finished meanwhile id s =
      mark_failed finished id (refresh_task_error_message e) s
  run_refresh_task none running_at now finished meanwhile id s =
      after_start now finished id meanwhile (mark_running running_at id s)
