-- ===== src/Login.antt =====
-- internal/api/auth.go: the failed logins of each client, and what a login decides. The HTTP request,
-- the comparison of the password and the cookie are left out.
pub mod Limit
use cpa_usage.Base.{
  ℕ, ◌+◌, ◌-◌, ◌*◌, Bool, true, false, not, ◌&&◌, Option, none, some, leb, ltb, if◌then◌else◌,
}
use cpa_usage.Clock.{Time, Duration, minute}
use cpa_usage.Result.{Result, ok, err}
use cpa_usage.Text.{Text}
use cpa_usage.Dict.{Dict, find, put, remove, delete_if}
use cpa_usage.Session.{Sessions, create}

abbrev pub max_failed_login_attempts : ℕ
max_failed_login_attempts = 5

abbrev pub failed_login_attempt_window : Duration
failed_login_attempt_window = 15 * minute

-- `failedLoginAttempt`.
pub record FailedLogin : Type 0 where
  pub count : ℕ
  pub last_failed_at : Time

abbrev pub Attempts : Type 0
Attempts = Dict FailedLogin

-- `now.Sub(attempt.lastFailedAt) > failedLoginAttemptWindow`; a difference below 0 is not.
abbrev pub is_expired : Time → FailedLogin → Bool
is_expired now a = ltb failed_login_attempt_window (now - a.last_failed_at)

-- `pruneExpiredFailedAttemptsLocked`.
unfoldable pub prune_expired : Time → Attempts → Attempts
prune_expired now m = delete_if (λ key a. is_expired now a) m

-- The zero value stands for a key that is missing.
abbrev pub count_of : Option FailedLogin → ℕ
count_of none = 0
count_of (some a) = a.count

-- `tooManyFailedAttempts`.
unfoldable pub too_many_failed_attempts : Text → Time → Attempts → Attempts × Bool
unfolding prune_expired
too_many_failed_attempts key now m =
    (prune_expired now m, leb max_failed_login_attempts (count_of (find key (prune_expired now m))))

-- `recordFailedAttempt`.
unfoldable pub record_failed_attempt : Text → Time → Attempts → Attempts
unfolding prune_expired
record_failed_attempt key now m =
    put key (record { count = count_of (find key (prune_expired now m)) + 1; last_failed_at = now })
      (prune_expired now m)

pub record State : Type 0 where
  pub attempts : Attempts
  pub sessions : Sessions

-- The answers 429, 401, 500 and 204 with a new session.
pub data Answer : Type 0 where
  too_many invalid_password : Answer
  internal_error : Text → Answer
  logged_in : Text → Time → Answer

abbrev pub session_answer : Result (Text × Time) → Answer
session_answer (err e) = internal_error e
session_answer (ok (token, expires_at)) = logged_in token expires_at

-- The readings of the clock in one login: by the check, by the record, and by `Create`.
pub record Clocks : Type 0 where
  pub check : Time
  pub failure : Time
  pub created : Time
  pub cleaned : Time

module _ (ttl : Duration) where
  abbrev pub admitted : Text → Clocks → Result Text → Attempts → Sessions → State × Answer
  admitted key c nonce attempts sessions =
      let (sessions', r) = create ttl nonce c.created c.cleaned sessions in
      (record { attempts = remove key attempts; sessions = sessions' }, session_answer r)

  abbrev pub checked :
      Text → Bool → Clocks → Result Text → Sessions → Attempts × Bool → State × Answer
  checked key true c nonce sessions (attempts, many) = admitted key c nonce attempts sessions
  checked key false c nonce sessions (attempts, true) =
      (record { attempts = attempts; sessions = sessions }, too_many)
  checked key false c nonce sessions (attempts, false) = (
    record { attempts = record_failed_attempt key c.failure attempts; sessions = sessions },
    invalid_password,
  )

  -- `login`, behind the parsing of the request: does the password match?
  unfoldable pub login : Text → Bool → Clocks → Result Text → State → State × Answer
  login key matches c nonce s =
      checked key matches c nonce s.sessions (too_many_failed_attempts key c.check s.attempts)
