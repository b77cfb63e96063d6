-- ===== src/History.antt =====
-- The program as a sequence of its steps on the database: pulls (internal/service/redis_usage_intake.go),
-- runs of the processor (redis_usage_processor.go) and daily cleanups of the inbox, in any order, any
-- of their statements failing.
pub mod Once
use cpa_usage.Base.{ℕ, ◌≡◌, Option, none, some, List, []}
use cpa_usage.Clock.{Time}
use cpa_usage.Result.{Result}
use cpa_usage.Text.{Text}
use cpa_usage.Attempt.Types.{UsageEvent}
use cpa_usage.Attempt.Codec.{Platform}
use cpa_usage.Inbox.{Table}
use cpa_usage.Inbox.Retention.{cleanup}
use cpa_usage.Processor.{Db, Env, process}
use cpa_usage.Intake.{pull}

abbrev pub empty_db : {R : Type 0} → R → Db R
empty_db rollups = record {
  inbox = record { rows = []; seq = 0 };
  store = record { events = []; rollups = rollups };
}

-- The databases that the steps lead to.
module _ (p : Platform) (next_id : ℕ → ℕ) (local_day_start : Time → Time) {R : Type 0}
    (quote : Text → Text) (columns : ℕ) (increment : List UsageEvent → R → R) where
  pub data Reachable : Db R → Type 0 where
    start : (rollups : R) → Reachable (empty_db rollups)
    pulls :
        (queue_key : Text) (fault : Option Text) (db_now now : Time)
        (answer : Option (Result (List Text))) (db : Db R)
        → Reachable db
        → Reachable
            (record db { inbox = (pull p next_id queue_key fault db_now now answer db.inbox).0 })
    runs :
        (env : Env) (db : Db R)
        → Reachable db
        → Reachable (process p quote columns increment env db).0
    cleans :
        (first second : Option Text) (now : Time) (db : Db R)
        → Reachable db
        → Reachable (record db { inbox = (cleanup local_day_start first second now db.inbox).0 })
