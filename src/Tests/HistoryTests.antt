-- ===== src/Tests/HistoryTests.antt =====
-- A record is pulled and processed: internal/service/redis_usage_intake.go and
-- internal/service/redis_usage_processor.go on an empty database.
use mathlib.Core.List.{Memᴰ}
use cpa_usage.Base.{ℕ, suc, ◌*◌, ◌≡◌, ◌≤◌, length, refl, sym, subst, none, some, [], ◌∷◌, arith}
use cpa_usage.Clock.{day}
use cpa_usage.Result.{ok}
use cpa_usage.Text.{codes, text_eq}
use cpa_usage.Attempt.Types.{UsageEvent}
use cpa_usage.Attempt.Codec.{Platform}
use cpa_usage.Text.Trim.{trim_space}
use cpa_usage.Text.Decimal.{format_uint}
use cpa_usage.Accounting.{
  validate_usage_accounting, validate_buckets, supported_quality, any_nil, any_negative,
  accounting_sum_equals, accounting_facts_absent,
}
use cpa_usage.Attempt.{
  validate_queued_accounting, queued_accounting_facts, to_usage_event, event_of,
}
use cpa_usage.Attempt.Codec.{replay_safe_message, project_detail, decode_message, decode_detail}
use cpa_usage.Events.{insert_usage_events, admit, insert_admitted}
use cpa_usage.Inbox.{
  Row, processed, insert_messages, list_processable, count_pending, mark_processed_batch,
}
use cpa_usage.Processor.{
  Db, Env, attempt_event_key, process, process_rows, process_decoded, decode_rows, decode_row,
  join_errors,
}
use cpa_usage.Processor.Consistent.{FromRow, Consistent}
use cpa_usage.Processor.Run.{ConsistentDb, process-Consistent}
use cpa_usage.Intake.Decodes.{AllOrNothing, pull-AllOrNothing}
use cpa_usage.Processor.Drains.{Fine, Drained, process-Drained, process-count_pending}
use cpa_usage.Inbox.Order.{processable}
use cpa_usage.Intake.{pull, safe_inputs}
use cpa_usage.History.{Reachable, empty_db, start, pulls, runs}
use cpa_usage.History.Once.{count_key, processed_once, Reachable-Consistent}
use cpa_usage.Tests.AttemptTests.{detail, count_events, toy, toy_laws}

-- Every document is the record of the tests.
abbrev one_record : Platform
one_record = record {
  unmarshal = λ m. ok detail;
  marshal = λ d. ok (codes "{}");
  marshal_string = λ s. s;
  sha256_hex = λ s. [];
  unicode_lower = λ s. s;
}

abbrev fine : Env
fine = record {
  now = 12 * day;
  db_now = 12 * day;
  list_fault = none;
  decode_mark_fault = λ i. none;
  insert_fault = none;
  processed_mark_fault = none;
  failed_mark_fault = none;
}

abbrev pulled_db : Db ℕ
pulled_db = record (empty_db 0) {
  inbox =
      (pull one_record suc (codes "usage") none (11 * day) (11 * day) (some (ok (codes "{}" ∷ [])))
        (record { rows = []; seq = 0 })).0;
}

abbrev run_db : Db ℕ
run_db = (process one_record (λ k. k) 40 count_events fine pulled_db).0

run_db-Reachable : Reachable one_record suc (λ t. t) (λ k. k) 40 count_events run_db
run_db-Reachable = runs fine pulled_db (
    pulls (codes "usage") none (11 * day) (11 * day) (some (ok (codes "{}" ∷ []))) (empty_db 0)
      (start 0))

fine-Fine : Fine fine
fine-Fine = record {
  lists = refl;
  marks_decode = λ i. refl;
  inserts = refl;
  marks_processed = refl;
}

pulled_db-Consistent : ConsistentDb one_record (λ k. k) 40 count_events pulled_db
pulled_db-Consistent =
    Reachable-Consistent one_record suc (λ t. t) (λ k. k) 40 count_events (λ n. omega arith)
      pulled_db
      (pulls (codes "usage") none (11 * day) (11 * day) (some (ok (codes "{}" ∷ []))) (empty_db 0)
        (start 0))

empty-Consistent : Consistent one_record (record { rows = []; seq = 0 }) []
empty-Consistent =
    Reachable-Consistent one_record suc (λ t. t) (λ k. k) 40 count_events (λ n. omega arith)
      (empty_db 0) (start 0)

one_waits : length (processable pulled_db.inbox.rows) ≤ 1000
unfolding pull safe_inputs replay_safe_message project_detail insert_messages
    validate_queued_accounting queued_accounting_facts validate_usage_accounting validate_buckets
    supported_quality any_nil any_negative accounting_sum_equals text_eq processable
one_waits = omega arith

abbrev processed_row : Row
processed_row = record {
  id = 1;
  queue_key = codes "usage";
  message_hash = [];
  raw_message = codes "{}";
  status = processed;
  attempt_count = 0;
  last_error = [];
  usage_event_key = codes "redis-inbox:1";
  popped_at = 11 * day;
  processed_at = some (12 * day);
  created_at = 11 * day;
  updated_at = 12 * day;
}

run_rows : run_db.inbox.rows ≡ processed_row ∷ []
unfolding pull safe_inputs replay_safe_message project_detail insert_messages trim_space
    list_processable process process_rows process_decoded decode_rows decode_row decode_message
    decode_detail validate_queued_accounting queued_accounting_facts validate_usage_accounting
    validate_buckets supported_quality any_nil any_negative accounting_sum_equals text_eq
    to_usage_event event_of insert_usage_events admit accounting_facts_absent insert_admitted
    join_errors mark_processed_batch attempt_event_key format_uint
run_rows = refl

processed_once_example :
    (count_key run_db.store.events (attempt_event_key 1) ≡ 1)
    × ((e : UsageEvent) × Memᴰ e run_db.store.events
        × (e.event_key ≡ attempt_event_key 1)
        × FromRow one_record processed_row e)
processed_once_example =
    processed_once one_record suc (λ t. t) (λ k. k) 40 count_events (λ n. omega arith) run_db
      processed_row run_db-Reachable
      (subst (λ rs. Memᴰ processed_row rs) (sym run_rows) (Memᴰ.head refl)) refl

Reachable-Consistent_example : ConsistentDb one_record (λ k. k) 40 count_events run_db
Reachable-Consistent_example =
    Reachable-Consistent one_record suc (λ t. t) (λ k. k) 40 count_events (λ n. omega arith) run_db
      run_db-Reachable

-- The run whose insertion fails.
abbrev broken : Env
broken = record fine { insert_fault = some (codes "disk full") }

process-Consistent_example :
    ConsistentDb one_record
      (λ k. k)
      40
      count_events
      (process one_record (λ k. k) 40 count_events broken run_db).0
process-Consistent_example =
    process-Consistent one_record (λ k. k) 40 count_events broken run_db
      (Reachable-Consistent one_record suc (λ t. t) (λ k. k) 40 count_events (λ n. omega arith)
        run_db run_db-Reachable)

process-Drained_example :
    Drained pulled_db.inbox.rows (list_processable 1000 pulled_db.inbox) run_db.inbox.rows
process-Drained_example =
    process-Drained one_record (λ k. k) 40 count_events fine fine-Fine pulled_db
      pulled_db-Consistent

process-count_pending_example : count_pending run_db.inbox ≡ 0
process-count_pending_example =
    process-count_pending one_record (λ k. k) 40 count_events fine pulled_db fine-Fine
      pulled_db-Consistent one_waits

pull-AllOrNothing_example :
    AllOrNothing toy (codes "usage") (11 * day) (codes "popped" ∷ codes "?" ∷ []) pulled_db.inbox (
      pull toy suc
        (codes "usage")
        none
        (11 * day)
        (11 * day)
        (some (ok (codes "popped" ∷ codes "?" ∷ [])))
        pulled_db.inbox)
pull-AllOrNothing_example =
    pull-AllOrNothing toy (codes "usage") (11 * day) toy_laws refl suc (11 * day) none
      (codes "popped" ∷ codes "?" ∷ []) pulled_db.inbox
