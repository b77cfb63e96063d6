-- ===== src/Events/BatchSize.antt =====
-- `insertBatchSize` of internal/repository/batch.go: how many events one statement takes.
use native.Mathlib.Nat.{mul-div-le, mul-le-mul_left}
use cpa_usage.Base.{ℕ, zero, suc, ◌≤◌, ◌<◌, ◌*◌, ◌/◌, ◌-◌, ◌≡◌, arith, ltb, leb, if◌then◌else◌}
use cpa_usage.Events.{insert_batch_size}

-- A quotient `size` between one and 900.
within_limits :
    (columns size : ℕ)
    → columns * size ≤ 999
    → (900 < size → columns * 900 ≤ columns * size)
    → let n = if leb size 0 then 1 else if ltb 900 size then 900 else size in
      (1 ≤ n) × (n ≤ 900) × (columns ≤ 999 → columns * n ≤ 999)
within_limits columns size h mono = ground arith

insert_batch_size-within :
    (columns : ℕ)
    → (1 ≤ insert_batch_size columns)
      × (insert_batch_size columns ≤ 900)
      × (columns ≤ 999 → columns * insert_batch_size columns ≤ 999)
unfolding insert_batch_size
insert_batch_size-within zero = (omega arith, omega arith, λ h. omega arith)
insert_batch_size-within (suc c) =
    within_limits (suc c) (999 / suc c) (mul-div-le 999 (suc c))
      (λ h. mul-le-mul_left (suc c) (omega arith))

-- Of events with at most 999 columns a batch holds between one and 900, and the statement that inserts
-- it binds at most 999 variables, SQLite's limit.
insert_batch_size-bounds :
    (columns : ℕ)
    → columns ≤ 999
    → (1 ≤ insert_batch_size columns)
      × (insert_batch_size columns ≤ 900)
      × (columns * insert_batch_size columns ≤ 999)
insert_batch_size-bounds columns h =
    let (low, high, fits) = insert_batch_size-within columns in (low, high, fits h)

pub insert_batch_size-suc : (columns : ℕ) → (n : ℕ) × (insert_batch_size columns ≡ suc n)
insert_batch_size-suc columns =
    (insert_batch_size columns - 1, omega (arith, (insert_batch_size-within columns).0))
