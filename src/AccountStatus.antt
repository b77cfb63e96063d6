-- ===== src/AccountStatus.antt =====
-- internal/service/account_status.go: switching an account on or off. The CPA is a state with the two calls
-- of `AuthFileStatusClient`; the table of identities is the list of its rows, of which the columns stand
-- here that these operations read or write. A statement may fail, with a message, and changes nothing then.
pub mod Outcome
use cpa_usage.Base.{
  ℕ, Bool, true, false, ◌==◌, ◌||◌, ◌&&◌, not, Option, none, some, List, [], ◌∷◌, ◌++◌,
  if◌then◌else◌,
}
use cpa_usage.Int.{ℤ}
use cpa_usage.Clock.{Time, is_zero}
use cpa_usage.Text.Decimal.{format_uint}
use cpa_usage.Text.{Text, codes, is_empty, text_eq}
use cpa_usage.Text.Trim.{trim_space}
use cpa_usage.Attempt.{AuthType, auth_file, ai_provider, to_lower, first_non_empty}

-- `authfiles.AuthFileRefreshError`, and `AuthRefreshErrorObservation`.
pub record RefreshError : Type 0 where
  pub code : Text
  pub http_status : ℤ

-- `authfiles.AuthFile`, of which the fields stand here that its state is made of.
pub record AuthFile : Type 0 where
  pub auth_index : Text
  pub name : Text
  pub email : Text
  pub label : Text
  pub status : Option Text
  pub disabled : Bool
  pub unavailable : Option Bool
  pub last_refresh : Option Time
  pub next_retry_after : Option Time
  pub requires_sign_in : Option Bool
  pub renewal_state : Option Text
  pub recovery_stage : Option Text
  pub access_token_expires_at : Option Time
  pub next_refresh_after : Option Time
  pub next_action : Option Text
  pub recovery_hint : Option Text
  pub refresh_error : Option RefreshError

-- `entities.AuthRenewalObservation`.
pub record Renewal : Type 0 where
  pub requires_sign_in : Option Bool
  pub renewal_state : Option Text
  pub recovery_stage : Option Text
  pub access_token_expires_at : Option Time
  pub next_refresh_after : Option Time
  pub next_action : Option Text
  pub recovery_hint : Option Text
  pub refresh_error : Option RefreshError

-- `entities.UsageIdentity`.
pub record Identity : Type 0 where
  pub id : ℕ
  pub name : Text
  pub auth_type : AuthType
  pub identity : Text
  pub disabled : Bool
  pub auth_file_status : Option Text
  pub unavailable : Option Bool
  pub last_refresh : Option Time
  pub next_retry_after : Option Time
  pub metadata_observed_at : Option Time
  pub auth_renewal : Option Renewal
  pub updated_at : Time

abbrev pub copy_optional_time : Option Time → Option Time
copy_optional_time none = none
copy_optional_time (some t) = if is_zero t then none else some t

abbrev pub absent : {A : Type 0} → Option A → Bool
absent none = true
absent (some a) = false

-- `authRenewalObservation`.
unfoldable pub auth_renewal_observation : AuthFile → Option Renewal
auth_renewal_observation f =
    if absent f.requires_sign_in
      && absent f.renewal_state
      && absent f.recovery_stage
      && absent f.access_token_expires_at
      && absent f.next_refresh_after
      && absent f.next_action
      && absent f.recovery_hint
      && absent f.refresh_error
    then none
    else some (record {
      requires_sign_in = f.requires_sign_in;
      renewal_state = f.renewal_state;
      recovery_stage = f.recovery_stage;
      access_token_expires_at = copy_optional_time f.access_token_expires_at;
      next_refresh_after = copy_optional_time f.next_refresh_after;
      next_action = f.next_action;
      recovery_hint = f.recovery_hint;
      refresh_error = f.refresh_error;
    })

abbrev pub known_status : Text → Bool
known_status s =
    text_eq s (codes "active")
    || text_eq s (codes "pending")
    || text_eq s (codes "refreshing")
    || text_eq s (codes "error")
    || text_eq s (codes "disabled")
    || text_eq s (codes "unknown")

-- The end of `boundedAuthFileStatus`, on the normalized status.
abbrev pub bounded_status : Text → Option Text
bounded_status s =
    if is_empty s then none else if known_status s then some s else some (codes "other")

-- `errors` that `SetIdentityDisabled` returns. One of `status_refresh` wraps `ErrAccountStatusRefresh`.
pub data StatusError : Type 0 where
  identity_missing identity_not_auth_file auth_file_not_found : StatusError
  load_failed resolve_failed set_failed : Text → StatusError
  status_refresh : Text → StatusError

-- The answer of `FetchAuthFileByAuthIndex`.
pub data Fetched : Type 0 where
  found : AuthFile → Fetched
  missing : Fetched
  fetch_failed : Text → Fetched

abbrev pub find_identity : ℕ → List Identity → Option Identity
find_identity i [] = none
find_identity i (r ∷ rs) = let rest = find_identity i rs in if r.id == i then some r else rest

abbrev pub update_identity : ℕ → (Identity → Identity) → List Identity → List Identity
update_identity i set [] = []
update_identity i set (r ∷ rs) = (if r.id == i then set r else r) ∷ update_identity i set rs

-- A statement on one row: the failure of the database, if it fails, then that of a missing row.
abbrev pub update_or_fail :
    Text
    → Option Text
    → ℕ
    → (Identity → Identity)
    → List Identity
    → Option Identity
    → List Identity × Option Text
update_or_fail what (some e) i set rs row = (rs, some (what ++ codes ": " ++ e))
update_or_fail what none i set rs none =
    (rs, some (what ++ codes ": identity " ++ format_uint i ++ codes " not found"))
update_or_fail what none i set rs (some row) = (update_identity i set rs, none)

abbrev pub with_disabled : Bool → Time → Identity → Identity
with_disabled disabled now r = record r { disabled = disabled; updated_at = now }

-- `SetUsageIdentityDisabled`.
unfoldable pub set_usage_identity_disabled :
    Option Text → ℕ → Bool → Time → List Identity → List Identity × Option Text
set_usage_identity_disabled fault i disabled now rs =
    update_or_fail (codes "set usage identity disabled") fault i (with_disabled disabled now) rs
      (find_identity i rs)

abbrev pub with_auth_file_state : Identity → Time → Identity → Identity
with_auth_file_state observed observed_at r = record r {
  disabled = observed.disabled;
  auth_file_status = observed.auth_file_status;
  unavailable = observed.unavailable;
  last_refresh = observed.last_refresh;
  next_retry_after = observed.next_retry_after;
  metadata_observed_at = observed.metadata_observed_at;
  auth_renewal = observed.auth_renewal;
  updated_at = observed_at;
}

-- `UpdateUsageIdentityAuthFileState`. The observed time stands in both columns, as the caller fills it.
unfoldable pub update_auth_file_state :
    Option Text → ℕ → Identity → Time → List Identity → List Identity × Option Text
update_auth_file_state fault i observed observed_at rs =
    update_or_fail (codes "update auth file state") fault i
      (with_auth_file_state observed observed_at) rs (find_identity i rs)

-- The faults of the three statements, the two times of the clock, and Unicode's lower case.
pub record Env : Type 0 where
  pub load_fault : Option Text
  pub disabled_fault : Option Text
  pub state_fault : Option Text
  pub now : Time
  pub later : Time
  pub unicode_lower : Text → Text

-- `boundedAuthFileStatus`.
abbrev pub bounded_auth_file_status : (Text → Text) → Option Text → Option Text
bounded_auth_file_status lower none = none
bounded_auth_file_status lower (some s) = bounded_status (to_lower lower (trim_space s))

-- `baseAuthFileUsageIdentity`.
abbrev pub base_identity : (Text → Text) → AuthFile → Time → Identity
base_identity lower f observed_at = record {
  id = 0;
  name = first_non_empty (f.email ∷ f.label ∷ f.name ∷ f.auth_index ∷ []);
  auth_type = auth_file;
  identity = f.auth_index;
  disabled = f.disabled;
  auth_file_status = bounded_auth_file_status lower f.status;
  unavailable = f.unavailable;
  last_refresh = copy_optional_time f.last_refresh;
  next_retry_after = copy_optional_time f.next_retry_after;
  metadata_observed_at = some observed_at;
  auth_renewal = auth_renewal_observation f;
  updated_at = 0;
}

-- `bool` equality.
abbrev pub bool_eq : Bool → Bool → Bool
bool_eq true b = b
bool_eq false b = not b

module _ {Cpa : Type 0} (fetch : Cpa → Text → Fetched)
    (set : Cpa → Text → Bool → Cpa × Option Text) where
  abbrev pub Returned : Type 0
  Returned = List Identity × Cpa × Option StatusError

  -- The check behind the last statement.
  abbrev observed_state : Bool → AuthFile → Cpa → List Identity × Option Text → Returned
  observed_state disabled f cpa (rs, some e) = (rs, cpa, some (status_refresh e))
  observed_state disabled f cpa (rs, none) = (
    rs,
    cpa,
    if bool_eq f.disabled disabled
        then none
        else some (status_refresh (codes "observed disabled flag differs from request")),
  )

  -- Behind the second `FetchAuthFileByAuthIndex`.
  abbrev read_back : Env → ℕ → Bool → List Identity → Cpa → Fetched → Returned
  read_back env i disabled rs cpa (fetch_failed e) =
      (rs, cpa, some (status_refresh (codes "read auth file: " ++ e)))
  read_back env i disabled rs cpa missing =
      (rs, cpa, some (status_refresh (codes "auth file not found in CPA")))
  read_back env i disabled rs cpa (found f) = observed_state disabled f cpa (
      update_auth_file_state env.state_fault i (base_identity env.unicode_lower f env.later)
        env.later rs)

  -- Behind `SetUsageIdentityDisabled`.
  abbrev persisted_disabled : Env → Identity → Bool → Cpa → List Identity × Option Text → Returned
  persisted_disabled env r disabled cpa (rs, some e) =
      (rs, cpa, some (status_refresh (codes "persist disabled: " ++ e)))
  persisted_disabled env r disabled cpa (rs, none) =
      read_back env r.id disabled rs cpa (fetch cpa r.identity)

  -- Behind `SetAuthFileDisabled`.
  abbrev submitted : Env → Identity → Bool → List Identity → Cpa × Option Text → Returned
  submitted env r disabled rs (cpa, some e) = (rs, cpa, some (set_failed e))
  submitted env r disabled rs (cpa, none) =
      persisted_disabled env r disabled cpa
        (set_usage_identity_disabled env.disabled_fault r.id disabled env.now rs)

  -- Behind the first `FetchAuthFileByAuthIndex`.
  abbrev resolved : Env → Identity → Bool → List Identity → Cpa → Fetched → Returned
  resolved env r disabled rs cpa (fetch_failed e) = (rs, cpa, some (resolve_failed e))
  resolved env r disabled rs cpa missing = (rs, cpa, some auth_file_not_found)
  resolved env r disabled rs cpa (found f) = submitted env r disabled rs (set cpa f.name disabled)

  abbrev checked_type : Env → Identity → Bool → List Identity → Cpa → AuthType → Returned
  checked_type env r disabled rs cpa ai_provider = (rs, cpa, some identity_not_auth_file)
  checked_type env r disabled rs cpa auth_file =
      resolved env r disabled rs cpa (fetch cpa r.identity)

  abbrev loaded : Env → Bool → List Identity → Cpa → Option Text → Option Identity → Returned
  loaded env disabled rs cpa (some e) row = (rs, cpa, some (load_failed e))
  loaded env disabled rs cpa none none = (rs, cpa, some identity_missing)
  loaded env disabled rs cpa none (some r) = checked_type env r disabled rs cpa r.auth_type

  -- `SetIdentityDisabled`.
  unfoldable pub set_identity_disabled : Env → ℕ → Bool → List Identity → Cpa → Returned
  set_identity_disabled env i disabled rs cpa =
      loaded env disabled rs cpa env.load_fault (find_identity i rs)
