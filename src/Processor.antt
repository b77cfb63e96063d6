-- ===== src/Processor.antt =====
-- internal/service/redis_usage_processor.go: one run of `process` over the inbox. Rows are decoded and
-- become events, bad rows are set aside, failed ones are kept for a retry. Every call of the database
-- may fail; what it says then stands in `Env`. Log lines are left out.
pub mod Keys
pub mod Trace
pub mod Consistent
pub mod Marks
pub mod Insertion
pub mod Run
pub mod Waiting
pub mod Marked
pub mod Drains
use cpa_usage.Base.{
  ℕ, zero, suc, Bool, true, false, Option, none, some, List, [], ◌∷◌, ◌++◌, ◌==◌, if◌then◌else◌,
  length,
}
use cpa_usage.Clock.{Time, is_zero}
use cpa_usage.Result.{Result, ok, err}
use cpa_usage.Text.{Text, codes}
use cpa_usage.Text.Trim.{trim_space}
use cpa_usage.Text.Decimal.{format_uint}
use cpa_usage.Attempt.Types.{UsageEvent}
use cpa_usage.Attempt.Codec.{Platform, decode_message}
use cpa_usage.Events.{Store, insert_usage_events}
use cpa_usage.Inbox.{
  Row, Table, Mark, list_processable, mark_decode_failed, mark_processed_batch,
  mark_process_failed_batch,
}

abbrev pub process_limit : ℕ
process_limit = 1000

pub record Db (R : Type 0) : Type 0 where
  pub inbox : Table
  pub store : Store R

-- One run: the time that the service reads, the time that the database stamps on updated rows, and
-- the error of each statement or transaction, if it fails.
pub record Env : Type 0 where
  pub now : Time
  pub db_now : Time
  pub list_fault : Option Text
  pub decode_mark_fault : ℕ → Option Text
  pub insert_fault : Option Text
  pub processed_mark_fault : Option Text
  pub failed_mark_fault : Option Text

pub data BatchStatus : Type 0 where
  failed empty completed completed_with_warnings : BatchStatus

-- `servicedto.RedisBatchSyncResult`.
pub record BatchResult : Type 0 where
  pub is_empty : Bool
  pub inserted_events : ℕ
  pub deduped_events : ℕ
  pub status : BatchStatus
  pub batch_limit_reached : Bool

abbrev pub plain_result : BatchStatus → BatchResult
plain_result status = record {
  is_empty = false;
  inserted_events = 0;
  deduped_events = 0;
  status = status;
  batch_limit_reached = false;
}

abbrev pub empty_result : BatchResult
empty_result = record (plain_result empty) { is_empty = true }

-- `redisUsageAttemptEventKey`.
unfoldable pub attempt_event_key : ℕ → Text
attempt_event_key id = codes "redis-inbox:" ++ format_uint id

abbrev pub keyed : ℕ → UsageEvent → UsageEvent
keyed id e = record e { event_key = attempt_event_key id }

-- The rows that decoded, each with its event (`validRows` and `events`), and the other errors.
pub record Decoded : Type 0 where
  pub valid : List (Row × UsageEvent)
  pub errors : List Text

abbrev pub add_valid : Row → UsageEvent → Result Decoded → Result Decoded
add_valid r e (err x) = err x
add_valid r e (ok d) = ok (record d { valid = (r, keyed r.id e) ∷ d.valid })

abbrev pub add_error : Text → Result Decoded → Result Decoded
add_error x (err y) = err y
add_error x (ok d) = ok (record d { errors = x ∷ d.errors })

abbrev pub events_of : List (Row × UsageEvent) → List UsageEvent
events_of [] = []
events_of ((r, e) ∷ v) = e ∷ events_of v

abbrev pub ids_of : List (Row × UsageEvent) → List ℕ
ids_of [] = []
ids_of ((r, e) ∷ v) = r.id ∷ ids_of v

abbrev pub marks_of : List (Row × UsageEvent) → List Mark
marks_of [] = []
marks_of ((r, e) ∷ v) = record { id = r.id; usage_event_key = e.event_key } ∷ marks_of v

-- `strings.Join(messages, "; ")` of the trimmed messages.
unfoldable pub join_messages : List Text → Text
join_messages [] = []
join_messages (x ∷ []) = trim_space x
join_messages (x ∷ y ∷ xs) = trim_space x ++ codes "; " ++ join_messages (y ∷ xs)

-- `joinErrors` of internal/service/sync.go; none of the errors is nil.
unfoldable pub join_errors : List Text → Option Text
join_errors [] = none
join_errors (x ∷ xs) = some (join_messages (x ∷ xs))

abbrev pub Outcome : Type 0 → Type 0
Outcome R = Db R × BatchResult × Option Text

abbrev pub status_of : Option Text → BatchStatus
status_of none = completed
status_of (some e) = completed_with_warnings

abbrev pub with_limit : {R : Type 0} → Bool → Outcome R → Outcome R
with_limit reached (db, result, e) = (db, record result { batch_limit_reached = reached }, e)

module _ (p : Platform) where
  -- `decodeRedisUsageInboxRow`.
  unfoldable pub decode_row : Row → Result UsageEvent
  decode_row r =
      if is_zero r.popped_at
      then err (
          codes "redis usage inbox persisted invariant failed: popped_at is zero for row "
          ++ format_uint r.id)
      else decode_message p r.raw_message r.popped_at

  -- The first loop of `processRows`. A mark that fails ends it.
  unfoldable pub decode_rows : Env → List Row → Table → Table × Result Decoded
  decode_rows env [] t = (t, ok (record { valid = []; errors = [] }))
  decode_rows env (r ∷ rs) t = elim (decode_row r) [
    | ok e ↦ let (t', d) = decode_rows env rs t in (t', add_valid r e d)
    | err x ↦
        let (t', fault) =
          mark_decode_failed (env.decode_mark_fault r.id) env.db_now r.id (some x) t in
        elim fault [
          | some m ↦ (t', err (codes "mark redis usage inbox decode failed: " ++ m))
          | none ↦ let (t'', d) = decode_rows env rs t' in (t'', add_error x d)
        ]
  ]

  module _ {R : Type 0} (quote : Text → Text) (columns : ℕ)
      (increment : List UsageEvent → R → R) where
    -- The valid rows, once their events could not be inserted (`markRedisInboxRowsProcessFailed`).
    unfoldable pub keep_for_retry : Env → Text → List (Row × UsageEvent) → Db R → Outcome R
    keep_for_retry env e valid db = (
      record db {
        inbox =
            (mark_process_failed_batch env.failed_mark_fault env.db_now (ids_of valid) (some e)
              db.inbox).0;
      },
      plain_result failed,
      some e,
    )

    abbrev pub marked : Option Text → ℕ → ℕ → Table × Option Text → Store R → Outcome R
    marked decode_error inserted deduped (inbox, some m) store = (
      record { inbox = inbox; store = store },
      plain_result failed,
      some (codes "mark redis usage inbox processed: " ++ m),
    )
    marked decode_error inserted deduped (inbox, none) store = (
      record { inbox = inbox; store = store },
      record (plain_result (status_of decode_error)) {
        inserted_events = inserted;
        deduped_events = deduped;
      },
      decode_error,
    )

    abbrev pub persisted : Env → Decoded → Table → Store R × Result (ℕ × ℕ) → Outcome R
    persisted env d inbox (store, err m) =
        keep_for_retry env (codes "insert usage events: " ++ m) d.valid
          (record { inbox = inbox; store = store })
    persisted env d inbox (store, ok (inserted, deduped)) =
        marked (join_errors d.errors) inserted deduped
          (mark_processed_batch env.processed_mark_fault env.now (marks_of d.valid) inbox) store

    abbrev pub without_events : Option Text → Db R → Outcome R
    without_events none db = (db, empty_result, none)
    without_events (some e) db = (db, plain_result completed_with_warnings, some e)

    -- `processRows` behind its loop.
    unfoldable pub process_decoded : Env → Decoded → Db R → Outcome R
    process_decoded env d db = elim d.valid [
      | [] ↦ without_events (join_errors d.errors) db
      | v ∷ vs ↦ persisted env d db.inbox (
          insert_usage_events increment quote columns env.insert_fault (events_of d.valid) db.store)
    ]

    abbrev pub decoded : Env → Table × Result Decoded → Store R → Outcome R
    decoded env (inbox, err m) store =
        (record { inbox = inbox; store = store }, plain_result failed, some m)
    decoded env (inbox, ok d) store =
        process_decoded env d (record { inbox = inbox; store = store })

    -- `processRows`.
    unfoldable pub process_rows : Env → List Row → Db R → Outcome R
    process_rows env rows db = decoded env (decode_rows env rows db.inbox) db.store

    abbrev pub listed : Env → List Row → Db R → Outcome R
    listed env [] db = (db, empty_result, none)
    listed env (r ∷ rs) db =
        with_limit (length (r ∷ rs) == process_limit) (process_rows env (r ∷ rs) db)

    -- `process`.
    unfoldable pub process : Env → Db R → Outcome R
    process env db = elim env.list_fault [
      | some m ↦ (db, plain_result failed, some (codes "list processable redis usage inbox: " ++ m))
      | none ↦ listed env (list_processable process_limit db.inbox) db
    ]
