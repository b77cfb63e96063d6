-- ===== src/Intake.antt =====
-- internal/service/redis_usage_intake.go: `pull` pops a batch of the queue and writes the projections
-- of its messages to the inbox. The queue answers with messages or with an error; without a queue
-- there is no answer.
pub mod Rows
pub mod Keeps
pub mod Decodes
use cpa_usage.Base.{
  ℕ, zero, suc, Bool, true, false, Option, none, some, List, [], ◌∷◌, ◌++◌, length,
}
use cpa_usage.Clock.{Time}
use cpa_usage.Result.{Result, ok, err}
use cpa_usage.Text.{Text, codes}
use cpa_usage.Attempt.Codec.{Platform, replay_safe_message}
use cpa_usage.Inbox.{Table, Insert, insert_messages}
use cpa_usage.Processor.{BatchStatus, failed, empty, completed}

-- `servicedto.RedisInboxPullResult`.
pub record PullResult : Type 0 where
  pub is_empty : Bool
  pub status : BatchStatus
  pub inserted_rows : ℕ

abbrev pub PullOutcome : Type 0
PullOutcome = Table × Option PullResult × Option Text

abbrev pub pull_failed : PullResult
pull_failed = record { is_empty = false; status = failed; inserted_rows = 0 }

abbrev pub pull_empty : PullResult
pull_empty = record { is_empty = true; status = empty; inserted_rows = 0 }

abbrev pub pull_completed : ℕ → PullResult
pull_completed n = record { is_empty = false; status = completed; inserted_rows = n }

abbrev pub lost : Table → Text → PullOutcome
lost t e = (
  t,
  some pull_failed,
  some (codes "redis usage messages lost after destructive queue pop: persist inbox: " ++ e),
)

abbrev pub cons_input : Insert → Result (List Insert) → Result (List Insert)
cons_input input (err e) = err e
cons_input input (ok inputs) = ok (input ∷ inputs)

module _ (p : Platform) where
  -- The loop of `insertRedisInboxMessages`.
  unfoldable pub safe_inputs : Text → Time → List Text → Result (List Insert)
  safe_inputs queue_key popped_at [] = ok []
  safe_inputs queue_key popped_at (m ∷ ms) =
      let rest = safe_inputs queue_key popped_at ms in
      elim (replay_safe_message p m) [
        | err e ↦ err e
        | ok s ↦
            cons_input (record { queue_key = queue_key; raw_message = s; popped_at = popped_at })
              rest
      ]

  module _ (next_id : ℕ → ℕ) where
    abbrev pub pulled : ℕ → Table × Option Text → PullOutcome
    pulled n (t', some e) = lost t' e
    pulled n (t', none) = (t', some (pull_completed n), none)

    -- `insertRedisInboxMessages`, and what `pull` makes of its result.
    abbrev pub insert_inputs : Option Text → Time → Result (List Insert) → Table → PullOutcome
    insert_inputs fault db_now (err e) t = lost t e
    insert_inputs fault db_now (ok inputs) t =
        pulled (length inputs) (insert_messages p.sha256_hex next_id fault db_now inputs t)

    abbrev pub popped_messages : Text → Option Text → Time → Time → List Text → Table → PullOutcome
    popped_messages queue_key fault db_now now [] t = (t, some pull_empty, none)
    popped_messages queue_key fault db_now now (m ∷ ms) t =
        insert_inputs fault db_now (safe_inputs queue_key now (m ∷ ms)) t

    -- `pull`.
    unfoldable pub pull :
        Text → Option Text → Time → Time → Option (Result (List Text)) → Table → PullOutcome
    pull queue_key fault db_now now none t =
        (t, none, some (codes "sync service redis queue is nil"))
    pull queue_key fault db_now now (some (err e)) t =
        (t, some pull_failed, some (codes "fetch redis usage: " ++ e))
    pull queue_key fault db_now now (some (ok ms)) t =
        popped_messages queue_key fault db_now now ms t
