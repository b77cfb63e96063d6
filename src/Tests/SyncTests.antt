-- ===== src/Tests/SyncTests.antt =====
-- internal/app/manual_sync.go with two callers.
use cpa_usage.Base.{◌≤◌, refl, true, false, [], ◌∷◌}
use cpa_usage.ManualSync.{
  SyncRunner, Shared, SyncOutcome, waiting, with_caller, Steps, begins, stop, step, begin,
  admitted_caller,
}
use cpa_usage.ManualSync.Exclusion.{
  count_running, Counts, ClosedWith, Steps-Counts, Steps-ClosedWith,
}

abbrev idle : SyncRunner
idle = record {
  admission_closed = false;
  manual_running = false;
  last_run_at = 0;
  last_error = [];
  last_warning = [];
  last_status = [];
}

abbrev two_callers : Shared
two_callers = with_caller [] waiting (waiting ∷ []) idle

-- The first caller is let in, and the second turned away.
abbrev one_inside : Shared
one_inside = with_caller [] (admitted_caller (begin idle).1) (waiting ∷ []) (begin idle).0

begun : Steps two_callers one_inside
begun = step two_callers two_callers one_inside (stop two_callers) (begins [] (waiting ∷ []) idle)

none_counted : Counts two_callers
unfolding count_running
none_counted = refl

Steps-Counts_example : (count_running one_inside.callers ≤ 1) × Counts one_inside
Steps-Counts_example = Steps-Counts two_callers one_inside begun none_counted

abbrev shut : SyncRunner
shut = record idle { admission_closed = true }

abbrev shut_two : Shared
shut_two = with_caller [] waiting (waiting ∷ []) shut

Steps-ClosedWith_example :
    ClosedWith
      (count_running shut_two.callers)
      (with_caller [] (admitted_caller (begin shut).1) (waiting ∷ []) (begin shut).0)
Steps-ClosedWith_example =
    Steps-ClosedWith shut_two
      (with_caller [] (admitted_caller (begin shut).1) (waiting ∷ []) (begin shut).0)
      (step shut_two shut_two _ (stop shut_two) (begins [] (waiting ∷ []) shut)) refl

abbrev outcome : SyncOutcome
outcome = record { status = []; error = []; warning = [] }
