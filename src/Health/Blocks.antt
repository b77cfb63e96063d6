-- ===== src/Health/Blocks.antt =====
-- internal/repository/usage_health.go: which block an event is counted in.
use native.Mathlib.Nat.{div-lt_iff_lt-mul}
use cpa_usage.Base.{
  ℕ, zero, suc, ◌+◌, ◌-◌, ◌*◌, ◌/◌, ◌≤◌, ◌<◌, ◌≡◌, refl, ap, subst, Bool, true, false, Option, List,
  [], ◌∷◌, arith, Bool-cases, inl, inr, length,
}
use cpa_usage.Clock.{Time, Duration, second, minute}
use cpa_usage.Text.{Text, codes, text_eq}
use cpa_usage.Health.{
  health_preset_span, health_preset_window, bucket_seconds, end_or, build_usage_overview_health,
  is_short_health_range, health_window, Block, empty_block, blocks_from, in_block, count_event,
  update_health_block, bucket_index, health_grid, health_default_span,
}

-- The blocks with the one at an index changed.
abbrev pub change_at : ℕ → (Block → Block) → List Block → List Block
change_at i f [] = []
change_at zero f (b ∷ bs) = f b ∷ bs
change_at (suc i) f (b ∷ bs) = b ∷ change_at i f bs

in_block-here :
    (t start : Time) (span : Duration)
    → start ≤ t
    → t < start + span
    → in_block t (empty_block start span) ≡ true
in_block-here t start span h k = ground arith

in_block-later :
    (t start : Time) (span : Duration)
    → start + span ≤ t
    → in_block t (empty_block start span) ≡ false
in_block-later t start span h = ground arith

block_start-next : (index k span : ℕ) → (index + suc k) * span ≡ (index + 1 + k) * span
block_start-next index k span = ap (λ i. i * span) (omega arith)

block_end-below : (index k span : ℕ) → index * span + span ≤ (index + suc k) * span
block_end-below index k span = omega arith

update_health_block-from :
    (t start : Time) (span : Duration) (failed : Bool) (index n k : ℕ)
    → k < n
    → start + (index + k) * span ≤ t
    → t < start + (index + k) * span + span
    → update_health_block t failed (blocks_from start span index n)
      ≡ change_at k (count_event failed) (blocks_from start span index n)
unfolding update_health_block
update_health_block-from t start span failed index zero k h low high = refl
update_health_block-from t start span failed index (suc n) zero h low high =
    rw
      (in_block-here t (start + index * span) span
        (subst (λ i. start + i * span ≤ t) (omega arith) low)
        (subst (λ i. t < start + i * span + span) (omega arith) high))
      refl
update_health_block-from t start span failed index (suc n) (suc k) h low high =
    rw
      (in_block-later t (start + index * span) span
        (omega (arith, block_end-below index k span, low)))
      (ap (λ bs. empty_block (start + index * span) span ∷ bs)
        (update_health_block-from t start span failed (index + 1) n k (omega (arith, h))
          (subst (λ i. start + i ≤ t) (block_start-next index k span) low)
          (subst (λ i. t < start + i + span) (block_start-next index k span) high)))

-- `unixepoch` tells the seconds of a time, and is at most a second off.
abbrev pub InSeconds : (Time → ℕ) → Type 0
InSeconds unixepoch =
    (t : Time) → (t < unixepoch t * second + second) × (unixepoch t * second ≤ t + second)

bucket_index-preset :
    (unixepoch : Time → ℕ) (start t : Time)
    → InSeconds unixepoch
    → start ≤ t
    → t < start + health_preset_window
    → bucket_index unixepoch start (bucket_seconds health_preset_span) t < 670
unfolding bucket_index
bucket_index-preset unixepoch start t seconds h k =
    omega (arith, h, k, (seconds start).0, (seconds t).1)

block_low : (start t span : ℕ) → start ≤ t → start + (0 + (t - start) / span) * span ≤ t
block_low start t span h = omega arith

block_high : (start t span : ℕ) → 0 < span → t < start + (0 + (t - start) / span) * span + span
block_high start t span p = omega arith

-- An event within n blocks is counted in the one that its distance from the start tells.
update_health_block-within :
    (t start : Time) (span : Duration) (failed : Bool) (n : ℕ)
    → 0 < span
    → start ≤ t
    → t < start + n * span
    → update_health_block t failed (blocks_from start span 0 n)
      ≡ change_at ((t - start) / span) (count_event failed) (blocks_from start span 0 n)
update_health_block-within t start span failed n p h k =
    update_health_block-from t start span failed 0 n ((t - start) / span)
      ((div-lt_iff_lt-mul p).1 (omega (arith, h, k))) (block_low start t span h)
      (block_high start t span p)

abbrev pub grid_span : ℕ × ℕ × Duration → Duration
grid_span (_, _, span) = span

-- In every range, an event of the window is counted in one block, the one that its distance from the
-- start of the window tells, and all other blocks stay as they are.
pub update_health_block-build :
    (now : Time) (r : Text) (end_time : Option Time) (t : Time) (failed : Bool)
    → (build_usage_overview_health now r end_time).window_start ≤ t
    → t < (build_usage_overview_health now r end_time).window_end
    → update_health_block t failed (build_usage_overview_health now r end_time).block_details
      ≡ change_at
          ((t - (build_usage_overview_health now r end_time).window_start)
            / grid_span (health_grid r))
          (count_event failed)
          (build_usage_overview_health now r end_time).block_details
unfolding build_usage_overview_health health_grid health_window
update_health_block-build now r end_time t failed = elim (Bool-cases (is_short_health_range r)) [
  | inl short ↦ elim (Bool-cases (text_eq r (codes "24h"))) [
    | inl whole ↦ rw short (
        rw whole (λ low high.
          update_health_block-within t _ (3 * minute) failed 480 (omega arith) low
            (omega (arith, high))))
    | inr preset ↦ rw short (
        rw preset (λ low high.
          update_health_block-within t _ health_preset_span failed 672 (omega arith) low
            (omega (arith, high))))
  ]
  | inr long ↦ rw long (λ low high.
      update_health_block-within t _ health_default_span failed 672 (omega arith) low
        (omega (arith, high)))
]

-- In the ranges "4h", "8h", "12h" and "today", the number that the query gives an event of the window never
-- reaches the last two of the blocks.
pub bucket_index-build :
    (unixepoch : Time → ℕ) (now : Time) (r : Text) (end_time : Option Time) (t : Time)
    → InSeconds unixepoch
    → is_short_health_range r ≡ true
    → text_eq r (codes "24h") ≡ false
    → (build_usage_overview_health now r end_time).window_start ≤ t
    → t < (build_usage_overview_health now r end_time).window_end
    → bucket_index unixepoch
          (build_usage_overview_health now r end_time).window_start
          (build_usage_overview_health now r end_time).bucket_size
          t
        + 2
      < length (build_usage_overview_health now r end_time).block_details
unfolding build_usage_overview_health health_grid health_window
bucket_index-build unixepoch now r end_time t seconds short preset = rw short (
    rw preset (λ low high. omega (
      arith,
      bucket_index-preset unixepoch (end_or now end_time - health_preset_window) t seconds low
          (omega (arith, high)),
    )))
