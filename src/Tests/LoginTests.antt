-- ===== src/Tests/LoginTests.antt =====
-- internal/auth/session.go and internal/api/auth.go on small maps.
use cpa_usage.Base.{◌-◌, ◌*◌, ◌≤◌, ◌≡◌, refl, false, not, ◌&&◌, [], ◌∷◌, arith, if◌then◌else◌, suc}
use cpa_usage.Clock.{Time, minute}
use cpa_usage.Result.{ok}
use cpa_usage.Text.{Text, codes, text_eq, is_empty}
use cpa_usage.Dict.{Distinct, find}
use cpa_usage.Session.{Sessions, validate}
use cpa_usage.Session.Live.{live, validate-live}
use cpa_usage.Login.{State, Clocks, login, too_many, invalid_password, failed_login_attempt_window}
use cpa_usage.Login.Limit.{failures, login-too_many, login-invalid_password}

abbrev sessions : Sessions
sessions = (codes "a", 20) ∷ (codes "b", 90) ∷ []

sessions-Distinct : Distinct sessions
unfolding find text_eq
sessions-Distinct = (refl, (refl, tt))

validate-live_example :
    ((validate (codes "a") 30 sessions).1
      ≡ (not (is_empty (codes "a")) && live sessions (codes "a") 30))
    × ((k : Text) (t : Time)
        → 30 ≤ t
        → live (validate (codes "a") 30 sessions).0 k t ≡ live sessions k t)
validate-live_example = validate-live (codes "a") 30 sessions

abbrev clocks : Clocks
clocks = record {
  check = 20 * minute;
  failure = 20 * minute;
  created = 21 * minute;
  cleaned = 21 * minute;
}

-- One client has failed five times, another twice and long ago.
abbrev state : State
state = record {
  attempts =
      (codes "10.0.0.1", record { count = 5; last_failed_at = 12 * minute })
      ∷ (codes "10.0.0.2", record { count = 2; last_failed_at = minute })
      ∷ [];
  sessions = sessions;
}

state-Distinct : Distinct state.attempts
unfolding find text_eq
state-Distinct = (refl, (refl, tt))

five_failures : 5 ≤ failures state.attempts (codes "10.0.0.1") (20 * minute)
unfolding failures find text_eq
five_failures = omega arith

login-too_many_example :
    ((login 60 (codes "10.0.0.1") false clocks (ok (codes "c")) state).1 ≡ too_many)
    × ((login 60 (codes "10.0.0.1") false clocks (ok (codes "c")) state).0.sessions ≡ sessions)
    × ((k : Text) (t : Time)
        → 20 * minute ≤ t
        → failures (login 60 (codes "10.0.0.1") false clocks (ok (codes "c")) state).0.attempts k t
          ≡ failures state.attempts k t)
login-too_many_example =
    login-too_many 60 (codes "10.0.0.1") clocks (ok (codes "c")) state state-Distinct five_failures

no_failures : suc (failures state.attempts (codes "10.0.0.2") (20 * minute)) ≤ 5
unfolding failures find text_eq
no_failures = omega arith

login-invalid_password_example :
    ((login 60 (codes "10.0.0.2") false clocks (ok (codes "c")) state).1 ≡ invalid_password)
    × ((login 60 (codes "10.0.0.2") false clocks (ok (codes "c")) state).0.sessions ≡ sessions)
    × ((k : Text) (t : Time)
        → 20 * minute ≤ t
        → t - 20 * minute ≤ failed_login_attempt_window
        → failures (login 60 (codes "10.0.0.2") false clocks (ok (codes "c")) state).0.attempts k t
          ≡ (if text_eq (codes "10.0.0.2") k
              then suc (failures state.attempts (codes "10.0.0.2") (20 * minute))
              else failures state.attempts k t))
login-invalid_password_example =
    login-invalid_password 60 (codes "10.0.0.2") clocks (ok (codes "c")) state state-Distinct
      no_failures (omega arith)
