-- ===== src/Tests/DrainTests.antt =====
-- internal/poller/redis_drain.go with a manual command beside a pull and a process run.
use cpa_usage.Base.{◌+◌, ◌≤◌, refl, false, [], ◌∷◌, weigh}
use cpa_usage.Drain.{all_flags}
use cpa_usage.Drain.Jobs.{
  manual, pull, process, outside, Worker, Drain, at_worker, begin_job, entered, enters, Turns, stop,
  turn,
}
use cpa_usage.Drain.Exclusion.{
  is_manual, is_pull, is_process, inside_count, Counts, Turns-exclusive,
}

abbrev waiting_pull : Worker
waiting_pull = record { job = pull; phase = outside }

abbrev three_jobs : Drain
three_jobs =
    at_worker [] manual outside (waiting_pull ∷ record { job = process; phase = outside } ∷ [])
      (all_flags false)

-- The manual command is inside.
abbrev command_inside : Drain
command_inside =
    at_worker [] manual (entered (begin_job manual (all_flags false)).1)
      (waiting_pull ∷ record { job = process; phase = outside } ∷ [])
      (begin_job manual (all_flags false)).0

three_jobs-Counts : Counts three_jobs
unfolding weigh
three_jobs-Counts = (refl, refl, refl)

command_enters : Turns three_jobs command_inside
command_enters = turn three_jobs three_jobs command_inside (stop three_jobs) (
    enters [] (waiting_pull ∷ record { job = process; phase = outside } ∷ []) manual
      (all_flags false))

Turns-exclusive_example :
    (inside_count is_manual command_inside.workers + inside_count is_pull command_inside.workers
      ≤ 1)
    × (inside_count is_manual command_inside.workers
          + inside_count is_process command_inside.workers
        ≤ 1)
Turns-exclusive_example = Turns-exclusive three_jobs command_inside three_jobs-Counts command_enters
