-- ===== src/Health.antt =====
-- internal/repository/usage_health.go: the grid of request health, its window, and the block of an event.
-- The rates, which are quotients of the counts, are left out. Of the query that fills the grid from the
-- database, the number of an event's block is modelled.
pub mod Blocks
use cpa_usage.Base.{
  ℕ, zero, suc, ◌+◌, ◌-◌, ◌*◌, ◌/◌, Bool, true, false, not, ◌&&◌, ◌||◌, Option, none, some, List,
  [], ◌∷◌, if◌then◌else◌,
}
use cpa_usage.Clock.{Time, Duration, second, minute, hour, day, before}
use cpa_usage.Text.{Text, codes, text_eq}

abbrev pub health_rows : ℕ
health_rows = 7

abbrev pub health_default_columns : ℕ
health_default_columns = 96

abbrev pub health_default_span : Duration
health_default_span = 15 * minute

abbrev pub health_preset_window : Duration
health_preset_window = 24 * hour

-- Rounded up.
abbrev pub health_preset_span : Duration
health_preset_span =
    (health_preset_window + health_rows * health_default_columns - 1)
    / (health_rows * health_default_columns)

-- `isUsageOverviewShortHealthRange`.
unfoldable pub is_short_health_range : Text → Bool
is_short_health_range r =
    text_eq r (codes "4h")
    || text_eq r (codes "8h")
    || text_eq r (codes "12h")
    || text_eq r (codes "24h")
    || text_eq r (codes "today")

-- `usageOverviewHealthGrid`: rows, columns and the span of a block.
unfoldable pub health_grid : Text → ℕ × ℕ × Duration
health_grid r =
    if not (is_short_health_range r)
    then (health_rows, health_default_columns, health_default_span)
    else if text_eq r (codes "24h")
    then (8, 60, 3 * minute)
    else (health_rows, health_default_columns, health_preset_span)

abbrev pub end_or : Time → Option Time → Time
end_or now none = now
end_or now (some t) = t

abbrev pub truncate : Duration → Time → Time
truncate span t = (t / span) * span

-- `usageOverviewHealthWindow`.
unfoldable pub health_window : Time → Text → Option Time → ℕ → Duration → Time × Time
health_window now r end_time total_blocks span =
    if is_short_health_range r
    then (end_or now end_time - health_preset_window, end_or now end_time)
    else (
      truncate span (end_or now end_time) + span - total_blocks * span,
      truncate span (end_or now end_time) + span,
    )

pub record Block : Type 0 where
  pub start_time : Time
  pub end_time : Time
  pub success : ℕ
  pub failure : ℕ

abbrev pub empty_block : Time → Duration → Block
empty_block start span = record {
  start_time = start;
  end_time = start + span;
  success = 0;
  failure = 0;
}

-- The loop that makes the blocks, from an index on.
abbrev pub blocks_from : Time → Duration → ℕ → ℕ → List Block
blocks_from start span index zero = []
blocks_from start span index (suc n) =
    empty_block (start + index * span) span ∷ blocks_from start span (index + 1) n

abbrev pub bucket_seconds : Duration → ℕ
bucket_seconds span = (span + second - 1) / second

pub record Health : Type 0 where
  pub total_success : ℕ
  pub total_failure : ℕ
  pub rows : ℕ
  pub columns : ℕ
  pub bucket_size : ℕ
  pub window_start : Time
  pub window_end : Time
  pub block_details : List Block

abbrev pub health_of : ℕ × ℕ × Duration → Time × Time → Health
health_of (rows, columns, span) (start, end_) = record {
  total_success = 0;
  total_failure = 0;
  rows = rows;
  columns = columns;
  bucket_size = bucket_seconds span;
  window_start = start;
  window_end = end_;
  block_details = blocks_from start span 0 (rows * columns);
}

-- `buildUsageOverviewHealth`.
unfoldable pub build_usage_overview_health : Time → Text → Option Time → Health
build_usage_overview_health now r end_time =
    let (rows, columns, span) = health_grid r in
    health_of (rows, columns, span) (health_window now r end_time (rows * columns) span)

abbrev pub in_block : Time → Block → Bool
in_block t b = not (before t b.start_time || not (before t b.end_time))

abbrev pub count_event : Bool → Block → Block
count_event failed b =
    if failed then record b { failure = b.failure + 1 } else record b { success = b.success + 1 }

-- `updateUsageOverviewHealthBlock`, of an event by its time.
unfoldable pub update_health_block : Time → Bool → List Block → List Block
update_health_block t failed [] = []
update_health_block t failed (b ∷ bs) =
    let rest = update_health_block t failed bs in
    if in_block t b then count_event failed b ∷ bs else b ∷ rest

-- `bucket_index` of the query, for an event in the window: SQLite's `unixepoch` of its time and of the
-- start, and the whole quotient of their distance by `BucketSeconds`.
unfoldable pub bucket_index : (Time → ℕ) → Time → ℕ → Time → ℕ
bucket_index unixepoch window_start size t = (unixepoch t - unixepoch window_start) / size
