-- ===== src/Tests/InboxTests.antt =====
-- internal/repository/redis_usage_inbox.go on a table of four rows.
use cpa_usage.Base.{ℕ, zero, suc, ◌*◌, ◌≡◌, refl, none, some, List, [], ◌∷◌, ◌++◌, arith}
use cpa_usage.Clock.{Time, day}
use cpa_usage.Text.{Text, codes}
use cpa_usage.Inbox.{
  Row, Table, Status, pending, processed, decode_failed, process_failed, Mark, mark_processed_batch,
  mark_processed_chunk, count_pending, contains_id,
}
use cpa_usage.Inbox.ErrorText.{bounded_error, max_error_length, CutAt, bounded_error-CutAt}
use cpa_usage.Inbox.Batches.{mark_processed_batch-chunk}

abbrev row : ℕ → Status → ℕ → Row
row id status attempts = record {
  id = id;
  queue_key = codes "usage";
  message_hash = [];
  raw_message = [];
  status = status;
  attempt_count = attempts;
  last_error = [];
  usage_event_key = [];
  popped_at = 10 * day;
  processed_at = none;
  created_at = 10 * day;
  updated_at = 10 * day;
}

abbrev done : Row
done = record (row 1 processed 0) { processed_at = some (10 * day) }

abbrev table : Table
table = record {
  rows = done ∷ row 2 pending 0 ∷ row 4 process_failed 4 ∷ row 7 decode_failed 1 ∷ [];
  seq = 9;
}

abbrev of_bytes : ℕ → ℕ → Text
of_bytes zero c = []
of_bytes (suc n) c = c ∷ of_bytes n c

-- 1023 letters, then a euro sign that the bound cuts in two.
abbrev long_message : Text
long_message = of_bytes 1023 b'x' ++ 0xe2 ∷ 0x82 ∷ 0xac ∷ []

bounded_error-CutAt_example :
    CutAt max_error_length long_message (bounded_error (some long_message))
bounded_error-CutAt_example = bounded_error-CutAt long_message (omega arith)

abbrev marks : List Mark
marks =
    record { id = 4; usage_event_key = codes "redis-inbox:4" }
    ∷ record { id = 2; usage_event_key = codes "redis-inbox:2" }
    ∷ []

mark_processed_batch-chunk_example :
    mark_processed_batch none (11 * day) marks table
    ≡ (record table { rows = mark_processed_chunk (11 * day) marks table.rows }, none)
unfolding contains_id
mark_processed_batch-chunk_example =
    mark_processed_batch-chunk (11 * day) marks table (refl, (refl, tt))

-- The local day of the tests began at this time.
abbrev day_start : Time → Time
day_start t = 20 * day

count_test : count_pending table ≡ 2
unfolding count_pending
count_test = refl
