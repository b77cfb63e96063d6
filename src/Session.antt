-- ===== src/Session.antt =====
-- internal/auth/session.go: the session manager without a signing key, which keeps the expiry time of
-- each token in a map. Each reading of the clock is an argument, and so is the random token.
pub mod Live
pub mod Signed
use cpa_usage.Base.{◌+◌, Bool, true, false, not, Option, none, some, List, [], if◌then◌else◌}
use cpa_usage.Clock.{Time, Duration, after}
use cpa_usage.Result.{Result, ok, err}
use cpa_usage.Text.{Text, is_empty}
use cpa_usage.Dict.{Dict, find, put, remove, delete_if}

abbrev pub Sessions : Type 0
Sessions = Dict Time

-- `cleanupExpiredLocked`, also `CleanupExpired`.
unfoldable pub cleanup_expired : Time → Sessions → Sessions
cleanup_expired now s = delete_if (λ token expires_at. not (after expires_at now)) s

-- `Create`: the clock is read for the expiry time and again for the cleanup.
unfoldable pub create :
    Duration → Result Text → Time → Time → Sessions → Sessions × Result (Text × Time)
unfolding cleanup_expired
create ttl (err e) now later s = (s, err e)
create ttl (ok nonce) now later s =
    (put nonce (now + ttl) (cleanup_expired later s), ok (nonce, now + ttl))

-- `Delete`.
unfoldable pub delete : Text → Sessions → Sessions
delete token s = if is_empty token then s else remove token s

abbrev pub validate_found : Text → Time → Sessions → Option Time → Sessions × Bool
validate_found token now s none = (s, false)
validate_found token now s (some expires_at) =
    if after expires_at now then (s, true) else (delete token s, false)

-- `Validate`.
unfoldable pub validate : Text → Time → Sessions → Sessions × Bool
validate token now s =
    if is_empty token then (s, false) else validate_found token now s (find token s)
