-- ===== src/Drain/Exclusion.antt =====
-- Which jobs of the drain run side by side: the flags count the jobs that are inside.
use cpa_usage.Base.{
  ◌↔◌, ℕ, ◌+◌, ◌≤◌, ◌≡◌, sym, subst, Bool, true, false, List, ◌∷◌, ◌++◌, arith, weigh, weigh-append,
}
use cpa_usage.Drain.{
  Flags, begin_manual_sync, end_manual_sync, begin_pull, end_pull, begin_process, end_process,
}
use cpa_usage.Drain.Jobs.{
  Job, manual, pull, process, Phase, outside, inside, done, Worker, Drain, begin_job, end_job,
  entered, at_worker, Turn, enters, leaves, Turns, stop, turn,
}

abbrev one_if : Bool → ℕ
one_if true = 1
one_if false = 0

-- The weight of a worker that is at a phase, if its job weighs so much.
abbrev counted : Phase → ℕ → ℕ
counted inside n = n
counted _ n = 0

abbrev pub is_manual : Job → ℕ
is_manual manual = 1
is_manual _ = 0

abbrev pub is_pull : Job → ℕ
is_pull pull = 1
is_pull _ = 0

abbrev pub is_process : Job → ℕ
is_process process = 1
is_process _ = 0

-- How many workers are inside with a job that counts.
abbrev pub inside_count : (Job → ℕ) → List Worker → ℕ
inside_count count = weigh (λ w. counted w.phase (count w.job))

-- The flags say how many commands, pulls and process runs are inside.
abbrev Agree : ℕ → ℕ → ℕ → Flags → Type 0
Agree m p q f =
    (m ≡ one_if f.manual_running)
    × (m + p ≡ one_if f.pull_running)
    × (m + q ≡ one_if f.process_running)

abbrev pub Counts : Drain → Type 0
Counts d =
    Agree (inside_count is_manual d.workers) (inside_count is_pull d.workers)
      (inside_count is_process d.workers) d.flags

-- The same at one worker: what the others weigh, and the worker's own weight.
abbrev AgreeAt : ℕ → ℕ → ℕ → Job → Phase → Flags → Type 0
AgreeAt m p q j ph f =
    Agree (m + counted ph (is_manual j)) (p + counted ph (is_pull j))
      (q + counted ph (is_process j)) f

abbrev flags_of : Bool → Bool → Bool → Flags
flags_of a b c = record { manual_running = a; pull_running = b; process_running = c }

begin_job-AgreeAt :
    (m p q : ℕ) (j : Job) (a b c : Bool)
    → AgreeAt m p q j outside (flags_of a b c)
    → AgreeAt m p q j (entered (begin_job j (flags_of a b c)).1) (begin_job j (flags_of a b c)).0
unfolding begin_manual_sync begin_pull begin_process
begin_job-AgreeAt m p q manual true b c h = h
begin_job-AgreeAt m p q manual false true c h = h
begin_job-AgreeAt m p q manual false false true h = h
begin_job-AgreeAt m p q manual false false false (h, k, l) =
    (omega (arith, h, k, l), omega (arith, h, k, l), omega (arith, h, k, l))
begin_job-AgreeAt m p q pull a true c h = h
begin_job-AgreeAt m p q pull a false c (h, k, l) =
    (omega (arith, h), omega (arith, k), omega (arith, l))
begin_job-AgreeAt m p q process a b true h = h
begin_job-AgreeAt m p q process a b false (h, k, l) =
    (omega (arith, h), omega (arith, k), omega (arith, l))

one_if-le : (b : Bool) → one_if b ≤ 1
one_if-le true = omega arith
one_if-le false = omega arith

end_job-AgreeAt :
    (m p q : ℕ) (j : Job) (a b c : Bool)
    → AgreeAt m p q j inside (flags_of a b c)
    → AgreeAt m p q j done (end_job j (flags_of a b c))
unfolding end_manual_sync end_pull end_process
end_job-AgreeAt m p q manual a b c (h, k, l) =
    let ha = one_if-le a in
    let hb = one_if-le b in
    let hc = one_if-le c in
    (
      omega (arith, h, k, l, ha, hb, hc),
      omega (arith, h, k, l, ha, hb, hc),
      omega (arith, h, k, l, ha, hb, hc),
    )
end_job-AgreeAt m p q pull a b c (h, k, l) =
    let hb = one_if-le b in (omega (arith, h), omega (arith, k, hb), omega (arith, l))
end_job-AgreeAt m p q process a b c (h, k, l) =
    let hc = one_if-le c in (omega (arith, h), omega (arith, k), omega (arith, l, hc))

inside_count-at :
    (count : Job → ℕ) (before after : List Worker) (j : Job) (ph : Phase)
    → inside_count count (before ++ record { job = j; phase = ph } ∷ after)
      ≡ (inside_count count before + inside_count count after) + counted ph (count j)
inside_count-at count before after j ph =
    let all =
      weigh-append (λ w. counted w.phase (count w.job)) before (record { job = j; phase = ph })
        after in
    omega (arith, all)

-- `Counts` at a worker, by the weight of the others.
Counts-at :
    (before after : List Worker) (j : Job) (ph : Phase) (f : Flags)
    → Counts (at_worker before j ph after f)
      ≡ AgreeAt
          (inside_count is_manual before + inside_count is_manual after)
          (inside_count is_pull before + inside_count is_pull after)
          (inside_count is_process before + inside_count is_process after)
          j
          ph
          f
Counts-at before after j ph f = rw (
  inside_count-at is_manual before after j ph,
  inside_count-at is_pull before after j ph,
  inside_count-at is_process before after j ph,
)

Turn-Counts : (c d : Drain) → Turn c d → Counts c → Counts d
Turn-Counts _ _ (enters before after j f) h =
    subst (λ t. t) (sym (Counts-at before after j (entered (begin_job j f).1) (begin_job j f).0))
      (begin_job-AgreeAt _ _ _ j f.manual_running f.pull_running f.process_running
        (subst (λ t. t) (Counts-at before after j outside f) h))
Turn-Counts _ _ (leaves before after j f) h =
    subst (λ t. t) (sym (Counts-at before after j done (end_job j f)))
      (end_job-AgreeAt _ _ _ j f.manual_running f.pull_running f.process_running
        (subst (λ t. t) (Counts-at before after j inside f) h))

-- If the flags of the drain count the jobs that are inside, then they do so after any number of turns.
Turns-Counts : (c d : Drain) → Counts c → Turns c d → Counts d
Turns-Counts _ _ h (stop d) = h
Turns-Counts _ _ h (turn a b c s t) = Turn-Counts b c t (Turns-Counts a b h s)

-- From a drain whose flags count the jobs that are inside, no sequence of turns leads to two manual
-- syncs, two pulls or two process runs inside at once, or to a manual sync beside a pull or a process
-- run.
pub Turns-exclusive :
    (c d : Drain)
    → Counts c
    → Turns c d
    → (inside_count is_manual d.workers + inside_count is_pull d.workers ≤ 1)
      × (inside_count is_manual d.workers + inside_count is_process d.workers ≤ 1)
Turns-exclusive c d h s =
    let (m, p, q) = Turns-Counts c d h s in
    let hp = one_if-le d.flags.pull_running in
    let hq = one_if-le d.flags.process_running in (omega (arith, p, hp), omega (arith, q, hq))

admits_manual_iff :
    (m p q : ℕ) (a b c : Bool)
    → Agree m p q (flags_of a b c)
    → ((begin_manual_sync (flags_of a b c)).1 ≡ true) ↔ (m + p + q ≡ 0)
unfolding begin_manual_sync
admits_manual_iff m p q a b c h = ground arith

-- Where the flags of the drain count the jobs that are inside, a manual sync is let in exactly when no
-- job is inside.
begin_manual_sync_iff :
    (d : Drain)
    → Counts d
    → ((begin_manual_sync d.flags).1 ≡ true) ↔ (
        inside_count is_manual d.workers
          + inside_count is_pull d.workers
          + inside_count is_process d.workers
        ≡ 0)
begin_manual_sync_iff d h =
    admits_manual_iff _ _ _ d.flags.manual_running d.flags.pull_running d.flags.process_running h
