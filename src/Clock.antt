-- ===== src/Clock.antt =====
-- Go's `time.Time` and `time.Duration` as nanoseconds. A `Time` counts from Go's zero time, so that
-- `IsZero` is the test with 0; `t.UTC()` is the same instant. The sum of a time and a duration is
-- exact: the program adds days at most.
use cpa_usage.Base.{ℕ, ◌*◌, Bool, ◌==◌, ltb}

abbrev pub Time : Type 0
Time = ℕ

abbrev pub Duration : Type 0
Duration = ℕ

abbrev pub second : Duration
second = 1000000000

abbrev pub minute : Duration
minute = 60 * second

abbrev pub hour : Duration
hour = 60 * minute

abbrev pub day : Duration
day = 24 * hour

-- `t.IsZero()`.
abbrev pub is_zero : Time → Bool
is_zero t = t == 0

-- `t.After(u)`.
abbrev pub after : Time → Time → Bool
after t u = ltb u t

-- `t.Before(u)`.
abbrev pub before : Time → Time → Bool
before t u = ltb t u
