-- ===== src/Tests/HealthTests.antt =====
-- internal/repository/usage_health.go over the day that ends now.
use cpa_usage.Base.{ℕ, ◌+◌, ◌-◌, ◌*◌, ◌/◌, ◌<◌, ◌≡◌, refl, false, none, length, arith}
use cpa_usage.Clock.{Time, second, day}
use cpa_usage.Text.{codes, text_eq}
use cpa_usage.Health.{
  Health, build_usage_overview_health, is_short_health_range, health_window, update_health_block,
  count_event, bucket_index, health_grid,
}
use cpa_usage.Health.Blocks.{
  InSeconds, change_at, grid_span, update_health_block-build, bucket_index-build,
}

abbrev today : Health
today = build_usage_overview_health (2 * day) (codes "today") none

abbrev seconds_of : Time → ℕ
seconds_of t = t / second

-- An event of the last second of the day falls in the last block.
update_health_block-build_example :
    update_health_block (2 * day - second) false today.block_details
    ≡ change_at
        (((2 * day - second) - today.window_start) / grid_span (health_grid (codes "today")))
        (count_event false)
        today.block_details
unfolding build_usage_overview_health health_window is_short_health_range text_eq
update_health_block-build_example =
    update_health_block-build (2 * day) (codes "today") none (2 * day - second) false (omega arith)
      (omega arith)

seconds_of-InSeconds : InSeconds seconds_of
seconds_of-InSeconds t = (omega arith, omega arith)

bucket_index-build_example :
    bucket_index seconds_of today.window_start today.bucket_size (2 * day - second) + 2
    < length today.block_details
unfolding build_usage_overview_health health_window is_short_health_range text_eq
bucket_index-build_example =
    bucket_index-build seconds_of (2 * day) (codes "today") none (2 * day - second)
      seconds_of-InSeconds refl refl (omega arith) (omega arith)
