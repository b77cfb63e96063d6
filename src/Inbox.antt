-- ===== src/Inbox.antt =====
-- internal/repository/redis_usage_inbox.go and internal/entities/redis_usage_inbox.go: the table
-- `redis_usage_inboxes` and its statements. The rows stand in the order of their ids, as SQLite keeps
-- them. A statement or transaction that fails is given its error message and changes nothing.
pub mod ErrorText
pub mod Order
pub mod Updates
pub mod Batches
pub mod Single
pub mod Retention
use cpa_usage.Base.{
  ℕ, zero, suc, ◌+◌, ◌-◌, ◌/◌, ◌*◌, Bool, true, false, ◌&&◌, ◌||◌, Option, none, some, List, [],
  ◌∷◌, ◌++◌, ltb, leb, ◌==◌, if◌then◌else◌, length, take, drop,
}
use cpa_usage.Clock.{Time, day, before}
use cpa_usage.Text.{Text}
use cpa_usage.Text.Trim.{trim_space}
use cpa_usage.Inbox.ErrorText.{bounded_error}

pub data Status : Type 0 where
  pending processed decode_failed process_failed discarded : Status

abbrev pub max_process_attempts : ℕ
max_process_attempts = 5

abbrev pub sqlite_variable_limit : ℕ
sqlite_variable_limit = 999

pub record Row : Type 0 where
  pub id : ℕ
  pub queue_key : Text
  pub message_hash : Text
  pub raw_message : Text
  pub status : Status
  pub attempt_count : ℕ
  pub last_error : Text
  pub usage_event_key : Text
  pub popped_at : Time
  pub processed_at : Option Time
  pub created_at : Time
  pub updated_at : Time

-- `dto.RedisInboxInsert`.
pub record Insert : Type 0 where
  pub queue_key : Text
  pub raw_message : Text
  pub popped_at : Time

pub record Mark : Type 0 where
  pub id : ℕ
  pub usage_event_key : Text

-- `seq` is the largest id that the table ever gave out.
pub record Table : Type 0 where
  pub rows : List Row
  pub seq : ℕ

-- `UPDATE … SET … WHERE …`.
unfoldable pub update_where : (Row → Bool) → (Row → Row) → List Row → List Row
update_where test set [] = []
update_where test set (r ∷ rs) = (if test r then set r else r) ∷ update_where test set rs

-- `DELETE … WHERE …`: what is left.
unfoldable pub delete_where : (Row → Bool) → List Row → List Row
delete_where test [] = []
delete_where test (r ∷ rs) = let rest = delete_where test rs in if test r then rest else r ∷ rest

unfoldable pub count_where : (Row → Bool) → List Row → ℕ
count_where test [] = 0
count_where test (r ∷ rs) = let rest = count_where test rs in if test r then suc rest else rest

unfoldable pub contains_id : List ℕ → ℕ → Bool
contains_id [] i = false
contains_id (j ∷ ids) i = j == i || contains_id ids i

-- The database hashes nothing and picks the ids: SQLite's AUTOINCREMENT takes `next_id` of the
-- largest id so far.
module _ (sha256_hex : Text → Text) (next_id : ℕ → ℕ) where
  unfoldable pub new_row : ℕ → Time → Insert → Row
  new_row id now input = record {
    id = id;
    queue_key = trim_space input.queue_key;
    message_hash = sha256_hex input.raw_message;
    raw_message = input.raw_message;
    status = pending;
    attempt_count = 0;
    last_error = [];
    usage_event_key = [];
    popped_at = input.popped_at;
    processed_at = none;
    created_at = now;
    updated_at = now;
  }

  -- The rows that the inserts become, behind the largest id so far.
  unfoldable pub new_rows : Time → ℕ → List Insert → List Row
  unfolding new_row
  new_rows now seq [] = []
  new_rows now seq (input ∷ inputs) =
      new_row (next_id seq) now input ∷ new_rows now (next_id seq) inputs

  unfoldable pub last_id : ℕ → List Insert → ℕ
  last_id seq [] = seq
  last_id seq (input ∷ inputs) = last_id (next_id seq) inputs

  -- `InsertRedisUsageInboxMessages`: the transaction inserts all rows or none.
  unfoldable pub insert_messages : Option Text → Time → List Insert → Table → Table × Option Text
  unfolding new_rows last_id
  insert_messages fault now [] t = (t, none)
  insert_messages (some e) now (input ∷ inputs) t = (t, some e)
  insert_messages none now (input ∷ inputs) t = (
    record {
      rows = t.rows ++ new_rows now t.seq (input ∷ inputs);
      seq = last_id t.seq (input ∷ inputs);
    },
    none,
  )

-- `CASE id WHEN ? THEN ? … ELSE usage_event_key END`.
unfoldable pub marked_key : List Mark → ℕ → Text → Text
marked_key [] i old = old
marked_key (m ∷ marks) i old = if m.id == i then m.usage_event_key else marked_key marks i old

abbrev pub mark_ids : List Mark → List ℕ
mark_ids [] = []
mark_ids (m ∷ marks) = m.id ∷ mark_ids marks

unfoldable pub set_processed : List Mark → Time → Row → Row
unfolding marked_key
set_processed marks now r = record r {
  status = processed;
  usage_event_key = marked_key marks r.id r.usage_event_key;
  processed_at = some now;
  updated_at = now;
  last_error = [];
}

-- `markRedisUsageInboxProcessedBatch`: one UPDATE.
unfoldable pub mark_processed_chunk : Time → List Mark → List Row → List Row
unfolding update_where set_processed contains_id
mark_processed_chunk now marks =
    update_where (λ r. contains_id (mark_ids marks) r.id) (set_processed marks now)

-- `for start := 0; start < len(xs); start += size { end := min(start+size, len(xs)); … }`, over the
-- elements that are left. A round takes an element at least, so the list's length is fuel enough.
unfoldable pub in_chunks {ℓ} :
    {A : Type ℓ} → ℕ → ℕ → (List A → List Row → List Row) → List A → List Row → List Row
in_chunks zero size step xs rows = rows
in_chunks (suc fuel) size step [] rows = rows
in_chunks (suc fuel) size step (x ∷ xs) rows =
    in_chunks fuel size step (drop size (x ∷ xs)) (step (take size (x ∷ xs)) rows)

abbrev pub max_marks_per_batch : ℕ
max_marks_per_batch = (sqlite_variable_limit - 3) / 3

abbrev pub max_ids_per_batch : ℕ
max_ids_per_batch = sqlite_variable_limit - 5

-- `MarkRedisUsageInboxProcessedBatch`: one transaction over the chunks.
unfoldable pub mark_processed_batch : Option Text → Time → List Mark → Table → Table × Option Text
unfolding in_chunks mark_processed_chunk
mark_processed_batch fault now [] t = (t, none)
mark_processed_batch (some e) now (m ∷ marks) t = (t, some e)
mark_processed_batch none now (m ∷ marks) t = (
  record t {
    rows =
        in_chunks (length (m ∷ marks)) max_marks_per_batch (mark_processed_chunk now) (m ∷ marks)
          t.rows;
  },
  none,
)

-- `markRedisUsageInboxFailed` with the status `decode_failed`.
unfoldable pub set_decode_failed : Time → Option Text → Row → Row
set_decode_failed now e r = record r {
  status = decode_failed;
  attempt_count = r.attempt_count + 1;
  last_error = bounded_error e;
  updated_at = now;
}

-- `MarkRedisUsageInboxDecodeFailed`.
unfoldable pub mark_decode_failed :
    Option Text → Time → ℕ → Option Text → Table → Table × Option Text
unfolding update_where set_decode_failed
mark_decode_failed (some fault) now i e t = (t, some fault)
mark_decode_failed none now i e t =
    (record t { rows = update_where (λ r. r.id == i) (set_decode_failed now e) t.rows }, none)

-- `CASE WHEN attempt_count + 1 >= 5 THEN 'discarded' ELSE 'process_failed' END`, with the count.
unfoldable pub set_process_failed : Time → Option Text → Row → Row
set_process_failed now e r = record r {
  status = if leb max_process_attempts (r.attempt_count + 1) then discarded else process_failed;
  attempt_count = r.attempt_count + 1;
  last_error = bounded_error e;
  updated_at = now;
}

-- The UPDATE of one chunk of ids.
unfoldable pub mark_failed_chunk : Time → Option Text → List ℕ → List Row → List Row
unfolding update_where set_process_failed contains_id
mark_failed_chunk now e ids = update_where (λ r. contains_id ids r.id) (set_process_failed now e)

-- `MarkRedisUsageInboxProcessFailedBatch`.
unfoldable pub mark_process_failed_batch :
    Option Text → Time → List ℕ → Option Text → Table → Table × Option Text
unfolding in_chunks mark_failed_chunk
mark_process_failed_batch fault now [] e t = (t, none)
mark_process_failed_batch (some f) now (i ∷ ids) e t = (t, some f)
mark_process_failed_batch none now (i ∷ ids) e t = (
  record t {
    rows =
        in_chunks (length (i ∷ ids)) max_ids_per_batch (mark_failed_chunk now e) (i ∷ ids) t.rows;
  },
  none,
)

abbrev pub is_processable : Status → Bool
is_processable pending = true
is_processable process_failed = true
is_processable _ = false

-- `ORDER BY id ASC`.
unfoldable pub insert_by_id : Row → List Row → List Row
insert_by_id r [] = r ∷ []
insert_by_id r (q ∷ qs) = if leb r.id q.id then r ∷ q ∷ qs else q ∷ insert_by_id r qs

unfoldable pub order_by_id : List Row → List Row
unfolding insert_by_id
order_by_id [] = []
order_by_id (r ∷ rs) = insert_by_id r (order_by_id rs)

-- `if limit > 0 { query += " LIMIT ?" }`.
unfoldable pub limited : ℕ → List Row → List Row
limited zero rows = rows
limited (suc n) rows = take (suc n) rows

-- `ListProcessableRedisUsageInbox`.
unfoldable pub list_processable : ℕ → Table → List Row
unfolding delete_where order_by_id limited
list_processable limit t =
    limited limit
      (order_by_id (delete_where (λ r. if is_processable r.status then false else true) t.rows))

-- `CountPendingRedisUsageInbox`.
unfoldable pub count_pending : Table → ℕ
unfolding count_where
count_pending t = count_where (λ r. is_processable r.status) t.rows
