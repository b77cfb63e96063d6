-- ===== src/Intake/Keeps.antt =====
-- A pull keeps the invariant of the processor.
use cpa_usage.Base.{ℕ, ◌<◌, Option, none, some, List, [], ◌∷◌, length}
use cpa_usage.Clock.{Time}
use cpa_usage.Result.{Result, ok, err}
use cpa_usage.Text.{Text}
use cpa_usage.Attempt.Types.{UsageEvent}
use cpa_usage.Attempt.Codec.{Platform}
use cpa_usage.Inbox.{Table, Insert, insert_messages}
use cpa_usage.Processor.Consistent.{Consistent}
use cpa_usage.Intake.{safe_inputs, insert_inputs, pull, pulled}
use cpa_usage.Intake.Rows.{insert_messages-Consistent}

module _ (p : Platform) (next_id : ℕ → ℕ) (increases : (n : ℕ) → n < next_id n)
    (events : List UsageEvent) where
  pulled-Consistent :
      (n : ℕ) (r : Table × Option Text)
      → Consistent p r.0 events
      → Consistent p (pulled p next_id n r).0 events
  pulled-Consistent n (t, none) c = c
  pulled-Consistent n (t, some e) c = c

  inputs-Consistent :
      (fault : Option Text) (db_now : Time) (inputs : Result (List Insert)) (t : Table)
      → Consistent p t events
      → Consistent p (insert_inputs p next_id fault db_now inputs t).0 events
  inputs-Consistent fault db_now (err e) t c = c
  inputs-Consistent fault db_now (ok inputs) t c =
      pulled-Consistent (length inputs) (insert_messages p.sha256_hex next_id fault db_now inputs t)
        (insert_messages-Consistent p.sha256_hex next_id increases p events fault db_now inputs t c)

  -- Whatever the queue answers, and whether the transaction fails: a pull keeps the inbox consistent
  -- with the events, if the ids that the table gives out increase.
  pub pull-Consistent :
      (queue_key : Text) (fault : Option Text) (db_now now : Time)
      (answer : Option (Result (List Text))) (t : Table)
      → Consistent p t events
      → Consistent p (pull p next_id queue_key fault db_now now answer t).0 events
  unfolding pull
  pull-Consistent queue_key fault db_now now none t c = c
  pull-Consistent queue_key fault db_now now (some (err e)) t c = c
  pull-Consistent queue_key fault db_now now (some (ok [])) t c = c
  pull-Consistent queue_key fault db_now now (some (ok (m ∷ ms))) t c =
      inputs-Consistent fault db_now (safe_inputs p queue_key now (m ∷ ms)) t c
