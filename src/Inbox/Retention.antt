-- ===== src/Inbox/Retention.antt =====
-- `CleanupRedisUsageInbox` of internal/repository/redis_usage_inbox.go: the two DELETE statements of
-- the daily cleanup. Its time zone is a parameter.
use cpa_usage.Base.{
  ℕ, ◌||◌, ◌≤◌, ◌⊎◌, ◌+◌, ◌-◌, ◌*◌, ◌≡◌, refl, ◌≢◌, Bool, true, false, ◌&&◌, Option, none, some,
  List, [], ◌∷◌, arith, length,
}
use cpa_usage.Clock.{Time, day, before}
use cpa_usage.Text.{Text}
use cpa_usage.Inbox.{
  Row, Table, Status, pending, processed, decode_failed, process_failed, discarded, delete_where,
  count_where,
}

abbrev is_processed_before : Time → Status → Option Time → Bool
is_processed_before cutoff processed (some at) = before at cutoff
is_processed_before cutoff _ _ = false

abbrev is_failed : Status → Bool
is_failed decode_failed = true
is_failed process_failed = true
is_failed discarded = true
is_failed _ = false

abbrev pub expired_processed : Time → Row → Bool
expired_processed cutoff r = is_processed_before cutoff r.status r.processed_at

abbrev pub expired_failed : Time → Row → Bool
expired_failed cutoff r = is_failed r.status && before r.updated_at cutoff

pub record CleanupResult : Type 0 where
  pub processed_deleted : ℕ
  pub failed_deleted : ℕ

-- The second DELETE of `CleanupRedisUsageInbox`.
unfoldable pub cleanup_failed : Option Text → Time → ℕ → Table → Table × CleanupResult × Option Text
unfolding delete_where count_where
cleanup_failed (some e) now n t = (t, record { processed_deleted = n; failed_deleted = 0 }, some e)
cleanup_failed none now n t = (
  record t { rows = delete_where (expired_failed (now - 7 * day)) t.rows },
  record {
    processed_deleted = n;
    failed_deleted = count_where (expired_failed (now - 7 * day)) t.rows;
  },
  none,
)

-- `CleanupRedisUsageInbox`. The time zone says when the local day of an instant began.
module _ (local_day_start : Time → Time) where
  unfoldable pub cleanup :
      Option Text → Option Text → Time → Table → Table × CleanupResult × Option Text
  unfolding cleanup_failed
  cleanup (some e) fault₂ now t = (t, record { processed_deleted = 0; failed_deleted = 0 }, some e)
  cleanup none fault₂ now t =
      cleanup_failed fault₂ now (count_where (expired_processed (local_day_start now)) t.rows)
        (record t { rows = delete_where (expired_processed (local_day_start now)) t.rows })

-- The rows that may still become an event, or that wait for it: pending, or failed less than seven
-- days ago.
abbrev pub Kept : Time → Row → Type 0
Kept now r = (r.status ≡ pending) ⊎ ((r.status ≢ processed) × (now - 7 * day ≤ r.updated_at))

count-delete_where :
    (test : Row → Bool) (rows : List Row)
    → length (delete_where test rows) + count_where test rows ≡ length rows
unfolding delete_where count_where
count-delete_where test [] = refl
count-delete_where test (r ∷ rows) = ground (arith, count-delete_where test rows)

delete_where-delete_where :
    (p q : Row → Bool) (rows : List Row)
    → delete_where q (delete_where p rows) ≡ delete_where (λ r. p r || q r) rows
unfolding delete_where
delete_where-delete_where p q [] = refl
delete_where-delete_where p q (r ∷ rows) = ground (arith, delete_where-delete_where p q rows)

-- A cleanup of which no statement fails deletes exactly the rows that were processed before the
-- local day began and the failed ones untouched for seven days, keeps the others in their order,
-- and reports how many rows went.
pub cleanup_lem :
    (local_day_start : Time → Time) (now : Time) (t : Table)
    → ((cleanup local_day_start none none now t).0.rows
        ≡ delete_where
            (λ r. expired_processed (local_day_start now) r || expired_failed (now - 7 * day) r)
            t.rows)
      × (length (cleanup local_day_start none none now t).0.rows
            + (cleanup local_day_start none none now t).1.processed_deleted
            + (cleanup local_day_start none none now t).1.failed_deleted
          ≡ length t.rows)
      × ((cleanup local_day_start none none now t).2 ≡ none)
unfolding cleanup
cleanup_lem local_day_start now t = (
  delete_where-delete_where _ _ t.rows,
  omega (
    arith,
    count-delete_where (expired_processed (local_day_start now)) t.rows,
    count-delete_where (expired_failed (now - 7 * day))
        (delete_where (expired_processed (local_day_start now)) t.rows),
  ),
  refl,
)
