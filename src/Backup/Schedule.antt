-- ===== src/Backup/Schedule.antt =====
-- internal/app/backup_runner.go: when backups run and how failed ones are retried.
use cpa_usage.Base.{
  ℕ, suc, ◌+◌, ◌≤◌, ◌<◌, Bool, true, false, not, some, leb, All, if◌then◌else◌, List, [], ◌∷◌,
  length, ◌≡◌, refl, sym, ap, ◌∙◌, subst, arith,
}
use cpa_usage.Clock.{Time, Duration, is_zero}
use cpa_usage.Text.{Text}
use cpa_usage.Backup.{
  Calendar, Runner, History, last_of, last_backup_at_from_history, uses_daily_schedule,
  next_daily_at, interval_delay, next_delay, written, Turn, run, cleanup_delay,
}

-- The first time that is neither before `a` nor before `b`.
abbrev pub later : Time → Time → Time
later a b = if leb a b then b else a

one_more : (a n : ℕ) → (a + 1) + suc n ≡ a + suc (suc n)
one_more a n = omega arith

module _ (cal : Calendar) where
  delay_by_interval :
      (now : Time) (h : History) (r : Runner)
      → r.pending_retry ≡ false
      → uses_daily_schedule r ≡ false
      → next_delay cal now h r ≡ interval_delay cal now r (last_backup_at_from_history h r)
  unfolding next_delay
  delay_by_interval now h r idle spaced = simp (idle, spaced)

  -- Between two retries, on an interval that is no number of days, with a known last backup: the next
  -- backup runs when the interval since the last backup has passed, or at once if it has passed.
  next_delay-interval :
      (now : Time) (h : History) (r : Runner)
      → r.pending_retry ≡ false
      → uses_daily_schedule r ≡ false
      → is_zero (last_of r.last_backup_at h) ≡ false
      → now + next_delay cal now h r ≡ later now (last_of r.last_backup_at h + r.interval)
  unfolding last_backup_at_from_history
  next_delay-interval now h r idle spaced known =
      let pause = delay_by_interval now h r idle spaced in
      let since =
        pause ∙ ap (λ b. interval_delay cal now r (last_of r.last_backup_at h, not b)) known in
      ground arith

  -- The next daily time of an hour is in the future, if that hour of the day after is.
  next_daily_at-after :
      (hour : ℕ) (now : Time)
      → now < cal.add_days 1 (cal.at_hour hour now)
      → now < next_daily_at cal hour now
  unfolding next_daily_at
  next_daily_at-after hour now h = ground arith

  -- The storage cleanup runs at 3 o'clock, after a pause, under the same condition.
  cleanup_delay-positive :
      (now : Time)
      → now < cal.add_days 1 (cal.at_hour 3 now)
      → (0 < cleanup_delay cal now) × (now + cleanup_delay cal now ≡ next_daily_at cal 3 now)
  unfolding cleanup_delay
  cleanup_delay-positive now tomorrow =
      let future = next_daily_at-after 3 now tomorrow in
      (omega (arith, future), omega (arith, future))

  abbrev pub Fails : Turn cal → Type 0
  Fails t = (e : Text) × (t.failure ≡ some e)

  failed_write :
      (t : Turn cal) (r : Runner)
      → Fails t
      → written cal t.backup_at t.failure r ≡ record r {
        retry_attempts = r.retry_attempts + 1;
        pending_retry = leb (r.retry_attempts + 1) 3;
      }
  unfolding written
  failed_write t r (e, h) = ap (λ f. written cal t.backup_at f r) h

  -- Failed writes in a row are counted, and behind them a retry is pending exactly if their number,
  -- with those before, is three at most.
  run-attempts :
      (ts : List (Turn cal)) (t : Turn cal) (r : Runner)
      → All Fails (t ∷ ts)
      → ((run cal (t ∷ ts) r).1.retry_attempts ≡ r.retry_attempts + length (t ∷ ts))
        × ((run cal (t ∷ ts) r).1.pending_retry ≡ leb (r.retry_attempts + length (t ∷ ts)) 3)
  unfolding run
  run-attempts [] t r (h, hs) = rw (failed_write t r h) (refl, refl)
  run-attempts (u ∷ ts) t r (h, hs) =
      let (a, b) = run-attempts ts u (written cal t.backup_at t.failure r) hs in
      let same = failed_write t r h in
      (
        a ∙ ap (λ (x : Runner). x.retry_attempts + length (u ∷ ts)) same ∙ omega arith,
        b
            ∙ ap (λ (x : Runner). leb (x.retry_attempts + length (u ∷ ts)) 3) same
            ∙ ap (λ n. leb n 3) (one_more r.retry_attempts (length ts)),
      )

  -- The interval since the last backup has passed at a turn.
  abbrev pub Overdue : Time → Duration → Turn cal → Type 0
  Overdue last interval t = last_of last t.history + interval ≤ t.now

  Overdue-next_delay :
      (t : Turn cal) (r : Runner)
      → r.pending_retry ≡ false
      → uses_daily_schedule r ≡ false
      → Overdue r.last_backup_at r.interval t
      → next_delay cal t.now t.history r ≡ 0
  unfolding last_backup_at_from_history
  Overdue-next_delay t r idle spaced late =
      delay_by_interval t.now t.history r idle spaced
      ∙ none_left (not (is_zero (last_of r.last_backup_at t.history)))
    where
      none_left :
          (b : Bool) → interval_delay cal t.now r (last_of r.last_backup_at t.history, b) ≡ 0
      none_left true = omega (arith, late)
      none_left false = refl

  failed_again :
      (t : Turn cal) (r : Runner)
      → 3 ≤ r.retry_attempts
      → Fails t
      → written cal t.backup_at t.failure r
        ≡ record r { retry_attempts = r.retry_attempts + 1; pending_retry = false }
  failed_again t r h f =
      failed_write t r f
      ∙ ap (λ b. record r { retry_attempts = r.retry_attempts + 1; pending_retry = b })
          (ground arith)

  -- Where the three retries have failed, the interval is no number of days, and every further write
  -- fails while the interval since the last backup has passed, `Run` makes no pause between the writes.
  pub run-no_pause :
      (ts : List (Turn cal)) (r : Runner)
      → r.pending_retry ≡ false
      → 3 ≤ r.retry_attempts
      → uses_daily_schedule r ≡ false
      → All Fails ts
      → All (Overdue r.last_backup_at r.interval) ts
      → All (λ d. d ≡ 0) (run cal ts r).0
  unfolding run uses_daily_schedule
  run-no_pause [] r idle tired spaced fails late = tt
  run-no_pause (t ∷ ts) r idle tired spaced (f, fs) (l, ls) = (
    Overdue-next_delay t r idle spaced l,
    subst (λ x. All (λ d. d ≡ 0) (run cal ts x).0) (sym (failed_again t r tired f))
        (run-no_pause ts (record r { retry_attempts = r.retry_attempts + 1; pending_retry = false })
          refl (omega (arith, tired)) spaced fs ls),
  )
