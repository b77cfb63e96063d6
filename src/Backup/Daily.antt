-- ===== src/Backup/Daily.antt =====
-- internal/app/backup_runner.go: when backups run on a daily schedule.
use cpa_usage.Base.{
  ℕ, suc, ◌+◌, ◌-◌, ◌*◌, ◌≤◌, ◌<◌, Bool, true, false, ◌≡◌, refl, ap, ◌∙◌, subst, arith,
  if◌then◌else◌, Bool-cases, inl, inr,
}
use cpa_usage.Clock.{Time, day, before}
use cpa_usage.Backup.{
  Calendar, Runner, History, last_backup_at_from_history, uses_daily_schedule, daily_schedule_days,
  next_daily_at, daily_at, next_daily_delay, next_delay,
}

-- The local days of a time zone: the number of the day of a time, and 4 o'clock of a day.
pub record LocalDays : Type 0 where
  pub local_day : Time → ℕ
  pub four : ℕ → Time

-- `time.Date` and `AddDate` in that zone, of 4 o'clock; a day that is later, or earlier, than that of a time
-- has its 4 o'clock after, or not after, the time; and 4 o'clocks come in the order of their days.
pub record FourClock (cal : Calendar) (z : LocalDays) : Type 0 where
  pub at_four : (t : Time) → cal.at_hour 4 t ≡ z.four (z.local_day t)
  pub days_later : (n d : ℕ) → cal.add_days n (z.four d) ≡ z.four (d + n)
  pub later_day : (t : Time) (d : ℕ) → z.local_day t < d → t < z.four d
  pub earlier_day : (t : Time) (d : ℕ) → d < z.local_day t → z.four d ≤ t
  pub in_order : (d e : ℕ) → d ≤ e → z.four d ≤ z.four e

module _ (z : LocalDays) where
  -- A time that a daily backup may run at: 4 o'clock of a day, after now, and so many days after that of
  -- the last backup at least, if there is one.
  abbrev pub Allowed : Time → ℕ → Time × Bool → ℕ → Type 0
  Allowed now days (last, known) d = (now < z.four d) × (known ≡ true → z.local_day last + days ≤ d)

  -- The first such time.
  abbrev pub FirstAllowed : Time → ℕ → Time × Bool → Time → Type 0
  FirstAllowed now days last t =
      ((d : ℕ) × (t ≡ z.four d) × Allowed now days last d)
      × ((d : ℕ) → Allowed now days last d → t ≤ z.four d)

module _ (cal : Calendar) (z : LocalDays) (laws : FourClock cal z) where
  next_daily_four :
      (now : Time)
      → next_daily_at cal 4 now ≡ (
          if before now (z.four (z.local_day now))
          then z.four (z.local_day now)
          else z.four (z.local_day now + 1))
  unfolding next_daily_at
  next_daily_four now = rw (laws.at_four now, laws.days_later 1 (z.local_day now)) refl

  not_before-four :
      (now : Time) (e : ℕ)
      → z.four (z.local_day now) ≤ now
      → now < z.four e
      → z.local_day now + 1 ≤ e
  not_before-four now e late h =
      ground (arith, laws.earlier_day now e, laws.in_order e (z.local_day now))

  -- The first 4 o'clock after now.
  next_four :
      (now : Time)
      → (d : ℕ) × (next_daily_at cal 4 now ≡ z.four d)
        × (now < z.four d)
        × ((e : ℕ) → now < z.four e → d ≤ e)
  next_four now = elim (Bool-cases (before now (z.four (z.local_day now)))) [
    | inl early ↦ (
      z.local_day now,
      next_daily_four now ∙ rw early refl,
      ground arith,
      λ e h. ground (arith, laws.earlier_day now e),
    )
    | inr late ↦ (
      z.local_day now + 1,
      next_daily_four now ∙ rw late refl,
      laws.later_day now (z.local_day now + 1) (omega arith),
      λ e h. not_before-four now e (ground arith) h,
    )
  ]

  -- Where nothing but the clock restricts the day, or the day that is due has passed.
  next_daily_at-FirstAllowed :
      (now : Time) (days : ℕ) (last : Time × Bool)
      → (last.1 ≡ true → z.four (z.local_day last.0 + days) ≤ now)
      → FirstAllowed z now days last (next_daily_at cal 4 now)
  next_daily_at-FirstAllowed now days (last, known) passed =
      let (d, e, after_now, first) = next_four now in
      (
        (
          d,
          e,
          (after_now, λ k. ground (arith, passed k, laws.in_order d (z.local_day last + days))),
        ),
        λ f (h, k). omega (arith, e, laws.in_order d f (first f h)),
      )

  daily_at-FirstAllowed :
      (now : Time) (r : Runner) (days : ℕ) (last : Time × Bool)
      → daily_schedule_days r ≡ days
      → FirstAllowed z now days last (daily_at cal now r last)
  daily_at-FirstAllowed now r days (last, false) scheduled =
      next_daily_at-FirstAllowed now days (last, false) (λ k. cc)
  daily_at-FirstAllowed now r days (last, true) scheduled =
      let due = z.four (z.local_day last + days) in
      let found =
        ap (λ n. cal.add_days n (cal.at_hour 4 last)) scheduled
        ∙ ap (cal.add_days days) (laws.at_four last)
        ∙ laws.days_later days (z.local_day last) in
      rw found (elim (Bool-cases (before now due)) [
        | inl ahead ↦ rw ahead (
          (z.local_day last + days, refl, (ground arith, λ k. omega arith)),
          λ f (h, k). laws.in_order (z.local_day last + days) f (k refl),
        )
        | inr passed ↦
            rw passed (next_daily_at-FirstAllowed now days (last, true) (λ k. ground arith))
      ])

  whole_days :
      (r : Runner) (n : ℕ)
      → r.interval ≡ suc n * day
      → (uses_daily_schedule r ≡ true) × (daily_schedule_days r ≡ suc n)
  unfolding uses_daily_schedule daily_schedule_days
  whole_days r n h = (ground arith, omega arith)

  delay_by_day :
      (now : Time) (h : History) (r : Runner)
      → r.pending_retry ≡ false
      → uses_daily_schedule r ≡ true
      → next_delay cal now h r ≡ daily_at cal now r (last_backup_at_from_history h r) - now
  unfolding next_delay next_daily_delay
  delay_by_day now h r idle daily = simp (idle, daily)

  -- Where no retry is pending and the interval is a number of days, at least one, in a zone whose 4 o'clocks
  -- are those of its calendar and come in the order of the days (`FourClock`): the pause before the next
  -- backup ends in the future, at the first 4 o'clock after now that lies at least so many local days after
  -- the day of the last backup, if one is known.
  pub next_delay-daily :
      (now : Time) (h : History) (r : Runner) (n : ℕ)
      → r.pending_retry ≡ false
      → r.interval ≡ suc n * day
      → FirstAllowed z now (suc n) (last_backup_at_from_history h r) (now + next_delay cal now h r)
  next_delay-daily now h r n idle interval =
      let (daily, scheduled) = whole_days r n interval in
      let last = last_backup_at_from_history h r in
      let ((d, e, (after_now, k)), first) = daily_at-FirstAllowed now r (suc n) last scheduled in
      subst (FirstAllowed z now (suc n) last)
        (omega (arith, delay_by_day now h r idle daily, e, after_now))
        ((d, e, (after_now, k)), first)
