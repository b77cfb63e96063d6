-- ===== src/Inbox/Single.antt =====
-- The statements of internal/repository/redis_usage_inbox.go on a single row, and the listing of the
-- pending rows only. gorm stamps `updated_at` of an updated row with its own clock.
use cpa_usage.Base.{
  ℕ, ◌≡◌, refl, ap, ap₂, Bool, true, false, Option, none, some, List, [], ◌∷◌, arith, ◌==◌,
  if◌then◌else◌,
}
use cpa_usage.Clock.{Time}
use cpa_usage.Text.{Text}
use cpa_usage.Inbox.{
  Row, Table, Status, pending, processed, Mark, contains_id, marked_key, in_chunks, update_where,
  delete_where, order_by_id, limited, set_processed, set_process_failed, mark_process_failed_batch,
  mark_failed_chunk, mark_processed_batch, mark_processed_chunk,
}

-- `MarkRedisUsageInboxProcessed`.
unfoldable pub set_processed_one : Time → Text → Time → Row → Row
set_processed_one db_now key at r = record r {
  status = processed;
  usage_event_key = key;
  processed_at = some at;
  last_error = [];
  updated_at = db_now;
}

unfoldable pub mark_processed : Option Text → Time → ℕ → Text → Time → Table → Table × Option Text
unfolding set_processed_one
mark_processed (some e) db_now i key at t = (t, some e)
mark_processed none db_now i key at t = (
  record t { rows = update_where (λ r. r.id == i) (set_processed_one db_now key at) t.rows },
  none,
)

-- `MarkRedisUsageInboxProcessFailed`.
unfoldable pub mark_process_failed :
    Option Text → Time → ℕ → Option Text → Table → Table × Option Text
mark_process_failed (some f) now i e t = (t, some f)
mark_process_failed none now i e t =
    (record t { rows = update_where (λ r. r.id == i) (set_process_failed now e) t.rows }, none)

abbrev is_pending : Status → Bool
is_pending pending = true
is_pending _ = false

-- `ListPendingRedisUsageInbox`.
unfoldable pub list_pending : ℕ → Table → List Row
list_pending limit t =
    limited limit
      (order_by_id (delete_where (λ r. if is_pending r.status then false else true) t.rows))

update_where-cong :
    (p q : Row → Bool) (f g : Row → Row) (rows : List Row)
    → ((r : Row) → (if p r then f r else r) ≡ (if q r then g r else r))
    → update_where p f rows ≡ update_where q g rows
unfolding update_where
update_where-cong p q f g [] h = refl
update_where-cong p q f g (r ∷ rows) h = ap₂ ◌∷◌ (h r) (update_where-cong p q f g rows h)

-- Recording a failure of one row does what the batch of its id alone does, whether the statement
-- fails or not.
mark_process_failed-batch :
    (fault : Option Text) (now : Time) (i : ℕ) (e : Option Text) (t : Table)
    → mark_process_failed fault now i e t ≡ mark_process_failed_batch fault now (i ∷ []) e t
unfolding mark_process_failed mark_process_failed_batch mark_failed_chunk in_chunks
mark_process_failed-batch (some f) now i e t = refl
mark_process_failed-batch none now i e t =
    ap (λ rs. (record t { rows = rs }, none))
      (update_where-cong (λ r. r.id == i) (λ r. contains_id (i ∷ []) r.id)
        (set_process_failed now e) (set_process_failed now e) t.rows
        (λ r. unfold contains_id in ground arith))

-- Marking one row as processed does what the batch of its mark alone does, when the database's clock
-- and the time handed over agree.
mark_processed-batch :
    (fault : Option Text) (now : Time) (i : ℕ) (key : Text) (t : Table)
    → mark_processed fault now i key now t
      ≡ mark_processed_batch fault now (record { id = i; usage_event_key = key } ∷ []) t
unfolding mark_processed mark_processed_batch mark_processed_chunk in_chunks
mark_processed-batch (some f) now i key t = refl
mark_processed-batch none now i key t =
    let m : Mark = record { id = i; usage_event_key = key } in
    ap (λ rs. (record t { rows = rs }, none))
      (update_where-cong (λ r. r.id == i) (λ r. contains_id (i ∷ []) r.id)
        (set_processed_one now key now) (set_processed (m ∷ []) now) t.rows
        (λ r. unfold contains_id set_processed marked_key set_processed_one in ground arith))
