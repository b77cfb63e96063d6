-- ===== src/Tests/AccountTests.antt =====
-- internal/service/account_status.go with a CPA of one auth file.
use cpa_usage.Base.{Bool, true, false, Option, none, some, [], ◌∷◌}
use cpa_usage.Text.{Text, codes}
use cpa_usage.Attempt.{auth_file}
use cpa_usage.AccountStatus.{Identity, Fetched, found, Env, set_identity_disabled}
use cpa_usage.AccountStatus.Outcome.{Settled, set_identity_disabled-Settled}

abbrev fetched : Bool → Text → Fetched
fetched disabled i = found (record {
  auth_index = i;
  name = codes "file.json";
  email = codes "a@b.c";
  label = [];
  status = some (codes " Active");
  disabled = disabled;
  unavailable = none;
  last_refresh = some 0;
  next_retry_after = none;
  requires_sign_in = some false;
  renewal_state = none;
  recovery_stage = none;
  access_token_expires_at = none;
  next_refresh_after = none;
  next_action = none;
  recovery_hint = none;
  refresh_error = none;
})

abbrev switched : Bool → Text → Bool → Bool × Option Text
switched cpa name disabled = (disabled, none)

abbrev account : Identity
account = record {
  id = 1;
  name = codes "a@b.c";
  auth_type = auth_file;
  identity = codes "x";
  disabled = false;
  auth_file_status = none;
  unavailable = none;
  last_refresh = none;
  next_retry_after = none;
  metadata_observed_at = none;
  auth_renewal = none;
  updated_at = 0;
}

abbrev calm : Env
calm = record {
  load_fault = none;
  disabled_fault = none;
  state_fault = none;
  now = 5;
  later = 6;
  unicode_lower = λ s. s;
}

set_identity_disabled-Settled_example :
    Settled fetched switched
      (account ∷ [])
      false
      1
      true
      (set_identity_disabled fetched switched calm 1 true (account ∷ []) false)
set_identity_disabled-Settled_example =
    set_identity_disabled-Settled fetched switched calm 1 true (account ∷ []) false
