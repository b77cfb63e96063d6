-- ===== src/ManualSync/Release.antt =====
-- `SyncNow` of internal/app/manual_sync.go gives back what it takes.
use cpa_usage.Base.{
  ◌≡◌, ◌∙◌, ap, ap₂, sym, refl, Bool, true, false, Option, none, some, Bool-cases, inl, inr,
  if◌then◌else◌,
}
use cpa_usage.Clock.{Time}
use cpa_usage.Text.{Text}
use cpa_usage.ManualSync.{
  SyncRunner, SyncOutcome, RedisError, begin, finish_running, record_outcome, record_some, stages,
  sync_now, SyncError, sync_already_running, sync_unavailable, admitted_run,
}

run_closed :
    (now : Time) (o : Option SyncOutcome) (r : SyncRunner)
    → (finish_running (record_some now o r)).admission_closed ≡ r.admission_closed
unfolding finish_running record_outcome
run_closed now none r = refl
run_closed now (some o) r = refl

run_free :
    (now : Time) (o : Option SyncOutcome) (r : SyncRunner)
    → (finish_running (record_some now o r)).manual_running ≡ false
unfolding finish_running
run_free now o r = refl

abbrev chosen : SyncRunner → Bool → Bool → SyncRunner × Option SyncError
chosen r shut busy =
    if shut
    then (r, some sync_unavailable)
    else if busy
    then (r, some sync_already_running)
    else (record r { manual_running = true }, none)

begin-chosen :
    (r : SyncRunner) (shut busy : Bool)
    → r.admission_closed ≡ shut
    → r.manual_running ≡ busy
    → begin r ≡ chosen r shut busy
unfolding begin
begin-chosen r shut busy s b = ap₂ (chosen r) s b

-- Whether it is turned away or let in, and whatever the syncers answer: behind a run that nobody
-- interrupts the runner is taken exactly if it was before, and the admission closed exactly if it was.
sync_now-free :
    (now : Time) (redis : Option (SyncOutcome × Option RedisError))
    (metadata : Option (Option Text)) (r : SyncRunner)
    → ((sync_now now redis metadata r).0.manual_running ≡ r.manual_running)
      × ((sync_now now redis metadata r).0.admission_closed ≡ r.admission_closed)
unfolding sync_now
sync_now-free now redis metadata r =
    let run = admitted_run now (stages redis metadata) in
    elim (Bool-cases r.admission_closed) [
      | inl shut ↦
          let e = begin-chosen r true _ shut refl in
          (ap (λ b. (run b).0.manual_running) e, ap (λ b. (run b).0.admission_closed) e)
      | inr open_ ↦ elim (Bool-cases r.manual_running) [
        | inl busy ↦
            let e = begin-chosen r false true open_ busy in
            (ap (λ b. (run b).0.manual_running) e, ap (λ b. (run b).0.admission_closed) e)
        | inr free ↦
            let e = begin-chosen r false false open_ free in
            (
              ap (λ b. (run b).0.manual_running) e
                  ∙ run_free now (stages redis metadata).0 _
                  ∙ sym free,
              ap (λ b. (run b).0.admission_closed) e ∙ run_closed now (stages redis metadata).0 _,
            )
      ]
    ]
