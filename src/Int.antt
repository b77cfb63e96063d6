-- ===== src/Int.antt =====
-- Go's signed integers as integers over the native numbers: `negsuc n` is -(n + 1). An `int64` is an
-- integer in its range.
use cpa_usage.Base.{
  ℕ, suc, ◌+◌, ◌%◌, ltb, if◌then◌else◌, ◌^◌, ◌-◌, Bool, true, false, Option, none, some, ◌==◌,
}

pub data ℤ : Type 0 where
  pos : ℕ → ℤ
  negsuc : ℕ → ℤ

abbrev pub max_int64 : ℕ
max_int64 = 2 ^ 63 - 1

abbrev pub is_negative : ℤ → Bool
is_negative (pos n) = false
is_negative (negsuc n) = true

abbrev pub int_eq : ℤ → ℤ → Bool
int_eq (pos m) (pos n) = m == n
int_eq (negsuc m) (negsuc n) = m == n
int_eq _ _ = false

-- `optionalInt64Value`, also the dereference of a pointer that is not nil.
abbrev pub optional_value : Option ℤ → ℤ
optional_value none = pos 0
optional_value (some i) = i

-- The `int64` that the low 64 bits of a number make.
abbrev pub wrap_int64 : ℕ → ℤ
wrap_int64 n =
    if ltb (n % 2 ^ 64) (2 ^ 63) then pos (n % 2 ^ 64) else negsuc (2 ^ 64 - 1 - n % 2 ^ 64)

-- `sum + value` of two `int64`, the second not negative.
abbrev pub add_int64 : ℤ → ℕ → ℤ
add_int64 (pos s) v = wrap_int64 (s + v)
add_int64 (negsuc s) v = if ltb s v then pos (v - suc s) else negsuc (s - v)

-- `sum > bound`, for a bound that is not negative.
abbrev pub exceeds : ℤ → ℕ → Bool
exceeds (pos s) bound = ltb bound s
exceeds (negsuc s) bound = false
