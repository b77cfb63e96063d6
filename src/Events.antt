-- ===== src/Events.antt =====
-- `InsertUsageEvents` of internal/repository/db.go and `insertBatchSize` of
-- internal/repository/batch.go: the table `usage_events` with its unique index on the event key, and
-- the transaction that inserts a batch of events and adds the new ones to the hourly rollups. What
-- the rollups hold is the parameter `R`, and adding events to them the parameter `increment`.
pub mod Keys
pub mod BatchSize
pub mod Insert
pub mod Admit
use cpa_usage.Base.{
  ℕ, zero, suc, ◌+◌, ◌-◌, ◌/◌, Bool, true, false, not, ◌&&◌, ◌||◌, Option, none, some, List, [],
  ◌∷◌, ◌++◌, ltb, leb, if◌then◌else◌, length, take, drop,
}
use cpa_usage.Result.{Result, ok, err}
use cpa_usage.Text.{Text, codes, text_eq, is_empty}
use cpa_usage.Text.Trim.{trim_space}
use cpa_usage.Accounting.{
  UsageAccounting, AccountingError, quality_required, unsupported_quality, buckets_required,
  negative_bucket, input_sum, output_sum, total_sum, complete_unclassified, accounting_absent,
  accounting_valid, accounting_facts_absent, validate_usage_accounting,
}
use cpa_usage.Attempt.Types.{UsageEvent}

-- `insertBatchSize`, of a table with so many columns that an insert writes.
unfoldable pub insert_batch_size : ℕ → ℕ
insert_batch_size zero = 900
insert_batch_size (suc columns) =
    let size = 999 / suc columns in if leb size 0 then 1 else if ltb 900 size then 900 else size

unfoldable pub contains_key : List Text → Text → Bool
contains_key [] k = false
contains_key (j ∷ ks) k = text_eq j k || contains_key ks k

abbrev pub event_keys : List UsageEvent → List Text
event_keys [] = []
event_keys (e ∷ es) = e.event_key ∷ event_keys es

-- `SELECT … WHERE event_key IN keys`.
unfoldable pub select_keys : List Text → List UsageEvent → List UsageEvent
unfolding contains_key
select_keys keys [] = []
select_keys keys (e ∷ es) =
    let rest = select_keys keys es in if contains_key keys e.event_key then e ∷ rest else rest

-- `INSERT … ON CONFLICT (event_key) DO NOTHING`: the rows that are new, in order.
unfoldable pub new_events : List UsageEvent → List UsageEvent → List UsageEvent
unfolding contains_key
new_events table [] = []
new_events table (e ∷ es) = elim (contains_key (event_keys table) e.event_key) [
  | true ↦ new_events table es
  | false ↦ e ∷ new_events (table ++ e ∷ []) es
]

-- The keys of a batch, trimmed, without the empty ones.
unfoldable pub batch_keys : List UsageEvent → List Text
batch_keys [] = []
batch_keys (e ∷ es) =
    let rest = batch_keys es in
    if is_empty (trim_space e.event_key) then rest else trim_space e.event_key ∷ rest

unfoldable pub trimmed : List Text → List Text
trimmed [] = []
trimmed (k ∷ ks) = trim_space k ∷ trimmed ks

-- The keys of the batch that no row had before.
unfoldable pub not_in : List Text → List Text → List Text
unfolding contains_key
not_in existing [] = []
not_in existing (k ∷ ks) =
    let rest = not_in existing ks in if contains_key existing k then rest else k ∷ rest

pub record Progress : Type 0 where
  pub table : List UsageEvent
  pub inserted : ℕ
  pub affected : List Text

-- The body of the loop over the batches.
unfoldable pub insert_batch : List UsageEvent → Progress → Progress
insert_batch batch s =
    let fresh = new_events s.table batch in
    let existing = trimmed (event_keys (select_keys (batch_keys batch) s.table)) in
    record {
      table = s.table ++ fresh;
      inserted = s.inserted + length fresh;
      affected =
          if ltb 0 (length fresh)
          then s.affected ++ not_in existing (batch_keys batch)
          else s.affected;
    }

-- The loop over the events that are left; a batch takes one at least.
unfoldable pub insert_loop : ℕ → ℕ → List UsageEvent → Progress → Progress
insert_loop zero size events s = s
insert_loop (suc fuel) size [] s = s
insert_loop (suc fuel) size (e ∷ es) s =
    insert_loop fuel size (drop size (e ∷ es)) (insert_batch (take size (e ∷ es)) s)

abbrev error_text : (Text → Text) → Option Text → AccountingError → Text
error_text quote q quality_required = codes "token quality is required"
error_text quote none unsupported_quality = codes "unsupported token quality " ++ quote []
error_text quote (some q) unsupported_quality = codes "unsupported token quality " ++ quote q
error_text quote q buckets_required = codes "all canonical token buckets are required"
error_text quote q negative_bucket = codes "canonical token buckets must be nonnegative"
error_text quote q input_sum = codes "canonical input buckets do not sum to input total"
error_text quote q output_sum = codes "canonical output buckets do not sum to output total"
error_text quote q total_sum =
    codes "canonical input, output, and unclassified buckets do not sum to total"
error_text quote q complete_unclassified =
    codes "complete accounting cannot contain unclassified tokens"

abbrev pub with_state : Text → UsageEvent → UsageEvent
with_state state e = record e { accounting = record (e.accounting) { accounting_state = state } }

abbrev cons_result : UsageEvent → Result (List UsageEvent) → Result (List UsageEvent)
cons_result e (err x) = err x
cons_result e (ok es) = ok (e ∷ es)

-- The first loop: every event gets its accounting state, or the call fails. `quote` is `%q`.
unfoldable pub admit : (Text → Text) → List UsageEvent → Result (List UsageEvent)
admit quote [] = ok []
admit quote (e ∷ es) =
    let rest = admit quote es in
    if accounting_facts_absent e.accounting
    then cons_result (with_state accounting_absent e) rest
    else (elim (validate_usage_accounting e.accounting) [
      | none ↦ cons_result (with_state accounting_valid e) rest
      | some x ↦ err (
          codes "validate usage event "
          ++ quote e.event_key
          ++ codes " accounting: "
          ++ error_text quote e.accounting.token_quality x)
    ])

pub record Store (R : Type 0) : Type 0 where
  pub events : List UsageEvent
  pub rollups : R

module _ {R : Type 0} (increment : List UsageEvent → R → R) where
  -- The rollup step behind the loop.
  unfoldable pub committed : Store R → Progress → Store R
  committed s p = record {
    events = p.table;
    rollups = elim p.affected [
      | [] ↦ s.rollups
      | k ∷ ks ↦ increment (select_keys p.affected p.table) s.rollups
    ];
  }

  -- The transaction: a statement that fails gives its error, and nothing changes.
  unfoldable pub insert_admitted :
      Option Text → ℕ → List UsageEvent → Store R → Store R × Result (ℕ × ℕ)
  insert_admitted (some fault) size events s = (s, err fault)
  insert_admitted none size events s =
      let p =
        insert_loop (length events) size events
          (record { table = s.events; inserted = 0; affected = [] }) in
      (committed s p, ok (p.inserted, length events - p.inserted))

  abbrev pub insert_result :
      Option Text → ℕ → Result (List UsageEvent) → Store R → Store R × Result (ℕ × ℕ)
  insert_result fault columns (err e) s = (s, err e)
  insert_result fault columns (ok events) s =
      insert_admitted fault (insert_batch_size columns) events s

  -- `InsertUsageEvents`: the numbers of inserted and of deduplicated events.
  unfoldable pub insert_usage_events :
      (Text → Text) → ℕ → Option Text → List UsageEvent → Store R → Store R × Result (ℕ × ℕ)
  insert_usage_events quote columns fault [] s = (s, ok (0, 0))
  insert_usage_events quote columns fault (e ∷ es) s =
      insert_result fault columns (admit quote (e ∷ es)) s
