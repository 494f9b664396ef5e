-- ===== src/Usecase/Usage/Costs.antt =====
-- UsageUseCase.Limits of internal/usecase/usage_usecase.go on a table of tasks, composed with
-- SumDailyCost and SumWeeklyCost of internal/repository/usage_repository.go.
use claude_ops.Prelude.{
  ℕ, ◌+◌, ◌*◌, ◌/◌, ◌≤◌, ◌<◌, ◌≡◌, refl, ap, ◌∙◌, Bool, ◌&&◌, [], ◌∷◌, arith, ltb, leb, ◌==◌,
  if◌then◌else◌, ok,
}
use claude_ops.Domain.Task.{Task, Time}
use claude_ops.Domain.Calendar.{Calendar}
use claude_ops.Domain.Usage.{Dates}
use claude_ops.Repository.Tasks.{Tasks}
use claude_ops.Repository.Usage.{
  null_time, between, is_done, ended_at, ended_day, sum_cost, sum_daily_cost, sum_weekly_cost,
  week_key_to_range, usage_repository,
}
use claude_ops.Repository.Usage.Aggregate.{ModelDecoder}
use claude_ops.Scheduler.BudgetGate.{date_key, week_key, week_start, or_utc}
use claude_ops.Usecase.Usage.{UsageUseCase, usage_limits, percent_of}
use claude_ops.Usecase.Usage.Reports.{on_table}

-- The cost of the tasks that pass a test.
abbrev pub cost_of : (Task → Bool) → Tasks → ℕ
cost_of p [] = 0
cost_of p (t ∷ ts) = (if p t then t.cost_usd else 0) + cost_of p ts

module _ {c : Calendar} (dates : Dates c) where
  week_key_to_range-iso_week : (d : ℕ) → week_key_to_range dates (c.iso_week d) ≡ d / 7 * 7
  unfolding week_key_to_range
  week_key_to_range-iso_week d =
      let year = (c.iso_week d).0 in
      rw (dates.iso_week-jan4 year) (omega (arith, dates.jan4_weeks d))

  sum_cost-days :
      (d : ℕ) (n : ℕ) (ts : Tasks)
      → 0 < dates.midnight d
      → sum_cost (null_time (dates.midnight d)) (null_time (dates.midnight (d + n))) ts
        ≡ cost_of
            (λ t. is_done t.status && leb d (ended_day dates t) && ltb (ended_day dates t) (d + n))
            ts
  unfolding sum_cost between null_time
  sum_cost-days d n [] h = refl
  sum_cost-days d n (t ∷ ts) h = ground (
    arith,
    dates.midnight-le_iff d (ended_at t),
    dates.midnight-le_iff (d + n) (ended_at t),
    dates.midnight-mono d (d + n) (omega arith),
    sum_cost-days d n ts h,
  )

  -- The days that a week of ISO numbers stands for.
  same_week : (d e : ℕ) → (leb (d / 7 * 7) e && ltb e (d / 7 * 7 + 7)) ≡ (e / 7 == d / 7)
  same_week d e = ground arith

  cost_of-eq :
      (p q : Task → Bool) → ((t : Task) → p t ≡ q t) → (ts : Tasks) → cost_of p ts ≡ cost_of q ts
  cost_of-eq p q h [] = refl
  cost_of-eq p q h (t ∷ ts) = rw (h t, cost_of-eq p q h ts) refl

  -- The done tasks that ended on a day, or in the ISO week of a day.
  abbrev pub done_on : ℕ → Task → Bool
  done_on d t = is_done t.status && ended_day dates t == d

  abbrev pub done_in_week_of : ℕ → Task → Bool
  done_in_week_of d t = is_done t.status && ended_day dates t / 7 == d / 7

  sum_daily_cost-day :
      (d : ℕ) (ts : Tasks)
      → 0 < dates.midnight d
      → sum_daily_cost dates ts (c.format_date d) ≡ ok (cost_of (done_on d) ts)
  unfolding sum_daily_cost
  sum_daily_cost-day d ts h =
      rw (dates.parse_date-format d, sum_daily_cost)
        (ap ok (sum_cost-days d 1 ts h ∙ cost_of-eq _ (done_on d) (λ t. ground arith) ts))

  sum_weekly_cost-week :
      (d : ℕ) (ts : Tasks)
      → 0 < dates.midnight (d / 7 * 7)
      → sum_weekly_cost dates ts (c.format_week (c.iso_week d))
        ≡ ok (cost_of (done_in_week_of d) ts)
  unfolding sum_weekly_cost
  sum_weekly_cost-week d ts h =
      rw (dates.parse_week-format (c.iso_week d), sum_weekly_cost, week_key_to_range-iso_week d)
        (ap ok (
          sum_cost-days (d / 7 * 7) 7 ts h
          ∙ cost_of-eq _ (done_in_week_of d)
              (λ t. rw (← same_week d (ended_day dates t)) (ground arith)) ts))

  -- The date of `now` in the configured time zone, and the day on which its week began.
  abbrev pub today : UsageUseCase dates → Time → ℕ
  today uc now = c.day (or_utc c uc.budget_limits.reset_tz) now

  abbrev pub week_began : UsageUseCase dates → Time → ℕ
  week_began uc now = week_start (today uc now) uc.budget_limits.week_starts_on

  -- Limits on a table whose database answers succeeds, for times whose week began after the zero time.
  -- The daily figure is the cost of the done tasks that ended, in UTC, on the date of `now` in the
  -- configured time zone; the weekly one that of the done tasks that ended, in UTC, in the ISO week in
  -- which the configured week began.
  pub usage_limits-on_table :
      (uc : UsageUseCase dates) (decode : ModelDecoder) (ts : Tasks) (now : Time)
      → 0 < dates.midnight (week_began uc now / 7 * 7)
      → usage_limits dates (on_table dates uc decode ts) now
        ≡ ok (record {
          daily_count_usd = cost_of (done_on (today uc now)) ts;
          daily_max_usd = uc.daily_max_cost;
          daily_percent =
              percent_of uc.tenths (cost_of (done_on (today uc now)) ts) uc.daily_max_cost;
          daily_date = c.format_date (today uc now);
          weekly_count_usd = cost_of (done_in_week_of (week_began uc now)) ts;
          weekly_max_usd = uc.weekly_max_cost;
          weekly_percent =
              percent_of uc.tenths
                (cost_of (done_in_week_of (week_began uc now)) ts)
                uc.weekly_max_cost;
          weekly_week = c.format_week (c.iso_week (week_began uc now));
        })
  unfolding usage_limits date_key week_key usage_repository
  usage_limits-on_table uc decode ts now h =
      let earlier : week_began uc now / 7 * 7 ≤ today uc now = omega arith in
      let h' : 0 < dates.midnight (today uc now) =
        omega (arith, dates.midnight-mono (week_began uc now / 7 * 7) (today uc now) earlier) in
      rw (sum_daily_cost-day (today uc now) ts h', sum_weekly_cost-week (week_began uc now) ts h)
        refl
