-- ===== src/Drain/Jobs.antt =====
-- Manual commands, background pulls and background process runs side by side: between its two sections
-- a job is inside.
use cpa_usage.Base.{Bool, true, false, List, ◌∷◌, ◌++◌}
use cpa_usage.Drain.{
  Flags, begin_manual_sync, end_manual_sync, begin_pull, end_pull, begin_process, end_process,
}

pub data Job : Type 0 where
  manual pull process : Job

pub data Phase : Type 0 where
  outside inside refused done : Phase

pub record Worker : Type 0 where
  pub job : Job
  pub phase : Phase

pub record Drain : Type 0 where
  pub flags : Flags
  pub workers : List Worker

abbrev pub begin_job : Job → Flags → Flags × Bool
begin_job manual f = begin_manual_sync f
begin_job pull f = begin_pull f
begin_job process f = begin_process f

abbrev pub end_job : Job → Flags → Flags
end_job manual f = end_manual_sync f
end_job pull f = end_pull f
end_job process f = end_process f

abbrev pub entered : Bool → Phase
entered true = inside
entered false = refused

abbrev pub at_worker : List Worker → Job → Phase → List Worker → Flags → Drain
at_worker before j ph after f = record {
  flags = f;
  workers = before ++ record { job = j; phase = ph } ∷ after;
}

pub data Turn : Drain → Drain → Type 0 where
  enters :
      (before after : List Worker) (j : Job) (f : Flags)
      → Turn
          (at_worker before j outside after f)
          (at_worker before j (entered (begin_job j f).1) after (begin_job j f).0)
  leaves :
      (before after : List Worker) (j : Job) (f : Flags)
      → Turn (at_worker before j inside after f) (at_worker before j done after (end_job j f))

pub data Turns : Drain → Drain → Type 0 where
  stop : (d : Drain) → Turns d d
  turn : (a b c : Drain) → Turns a b → Turn b c → Turns a c
