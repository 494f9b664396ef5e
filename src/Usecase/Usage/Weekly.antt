-- ===== src/Usecase/Usage/Weekly.antt =====
-- The weekly report of internal/usecase/usage_usecase.go on a table of tasks, whose rows are those of
-- the ISO weeks in UTC.
use mathlib.Core.Path.{fun_ext}
use claude_ops.Prelude.{
  ℕ, ◌+◌, ◌-◌, ◌/◌, ◌%◌, ◌≤◌, ◌<◌, String, ◌≡◌, ◌≢◌, refl, sym, ap, ◌∙◌, Bool, false, ◌&&◌, List,
  [], ◌∷◌, inl, inr, arith, ltb, Bool-cases, str_eq, eq_iff, keep, ok, none, Option,
}
use claude_ops.Domain.Task.{Task}
use claude_ops.Domain.Calendar.{Calendar}
use claude_ops.Domain.Usage.{week, UsageBucketRow, Dates, zero_row}
use claude_ops.Repository.Tasks.{Tasks}
use claude_ops.Repository.Usage.{
  null_time, between, row_sum, sum_usage, ended_day, usage_repository, sum_by_bucket,
  sum_usage_by_week,
}
use claude_ops.Repository.Usage.Aggregate.{ModelDecoder}
use claude_ops.Repository.Usage.Sums.{in_days, between-in_days}
use claude_ops.Scheduler.BudgetGate.{week_key}
use claude_ops.Usecase.Usage.{
  UsageUseCase, aggregate, report, gap_fill, compute_totals, totals_from, fill_weeks,
  validate_range, row_or_zero,
}
use claude_ops.Usecase.Usage.Buckets.{run, fill-run, row_or_zero-sum_usage}
use claude_ops.Usecase.Usage.Reports.{on_table, rows_of, filled, totalled, accepted}
use claude_ops.Usecase.Usage.Weeks.{
  fill_weeks-run, fill_weeks-eq, week_name, week_name-IsInjective, iso_week-week_name,
  week_key-monday, week_key-sunday,
}

module _ {c : Calendar} (dates : Dates c) (from to : ℕ) (ts : Tasks)
    (known : 0 < dates.midnight from) (ordered : from ≤ to) where
  abbrev from_ts : Option ℕ
  from_ts = null_time (dates.midnight from)

  abbrev to_ts : Option ℕ
  to_ts = null_time (dates.midnight (to + 1))

  -- The rows of the query, by the numbers of the weeks.
  by_week :
      sum_usage_by_week dates from_ts to_ts ts
      ≡ sum_usage (λ t. week_name dates (ended_day dates t / 7)) from_ts to_ts ts
  unfolding sum_usage_by_week
  by_week =
      ap (λ (key : Task → String). sum_usage key from_ts to_ts ts)
        (fun_ext (λ t. iso_week-week_name dates (ended_day dates t)))

  week_mono : (d e : ℕ) → d ≤ e → d / 7 ≤ e / 7
  week_mono d e h = omega arith

  weeks_filled :
      7 ≤ from
      → fill_weeks
          (λ d. week_key c (dates.midnight d) none 1)
          (sum_usage_by_week dates from_ts to_ts ts)
          (to + 1 - from)
          from
          to
          []
        ≡ rows_of dates from to
            (week_name dates)
            (λ d. d / 7)
            (run (to / 7 + 1 - from / 7) (from / 7))
            ts
  weeks_filled h =
      let rows = sum_usage (λ t. week_name dates (ended_day dates t / 7)) from_ts to_ts ts in
      rw by_week (
        fill_weeks-eq (λ d. week_key c (dates.midnight d) none 1) (λ d. week_name dates (d / 7))
          rows (to + 1 - from) from to [] (λ d k. week_key-monday dates d (omega arith))
        ∙ fill_weeks-run (week_name dates) (week_name-IsInjective dates) rows (to + 1 - from) from
            to (from / 7) [] (omega arith) (λ w k. refl) (inr (refl, inr (omega arith)))
        ∙ sym (
            fill-run (week_name dates) rows (to / 7 + 1 - from / 7) (from / 7) (to / 7)
              (omega arith))
        ∙ filled dates from to ts known ordered (week_name dates) (λ d. d / 7)
            (week_name-IsInjective dates) week_mono)

  -- Where weeks start on Mondays, in UTC, the weekly report over a range of at most 366 days that is
  -- in order, on a table whose database answers, has one row for each ISO week of the range in turn,
  -- which adds up the tasks that ended on a day of the range in that week, and its totals add up the
  -- tasks that ended in the range.
  pub aggregate-week :
      (uc : UsageUseCase dates) (decode : ModelDecoder)
      → uc.budget_limits.reset_tz ≡ none
      → uc.budget_limits.week_starts_on ≡ 1
      → 7 ≤ from
      → to ≤ from + 365
      → aggregate dates (on_table dates uc decode ts) from to week
        ≡ ok (record {
          from = c.format_date from;
          to = c.format_date to;
          group_by = week;
          buckets =
              rows_of dates from to
                (week_name dates)
                (λ d. d / 7)
                (run (to / 7 + 1 - from / 7) (from / 7))
                ts;
          totals = row_sum "" (keep (in_days dates from to) ts);
        })
  unfolding aggregate validate_range usage_repository sum_by_bucket report gap_fill
  aggregate-week uc decode utc monday large short =
      rw
        (
          accepted dates from to ts known ordered short,
          utc,
          monday,
          weeks_filled large,
          totalled dates from to ts known ordered (week_name dates) (λ d. d / 7) week_mono,
        )
        refl

none_kept : (p : Task → Bool) (ts : Tasks) → ((t : Task) → p t ≡ false) → keep p ts ≡ []
none_kept p [] h = refl
none_kept p (t ∷ ts) h = rw (h t) (none_kept p ts h)

one_day :
    (key : ℕ → String) (rows : List UsageBucketRow) (n d : ℕ)
    → n ≡ 1
    → fill_weeks key rows n d d [] ≡ row_or_zero rows (key d) ∷ []
unfolding fill_weeks
one_day key rows n d h = let more : ltb d d ≡ false = ground arith in rw h (rw more refl)

elsewhere :
    {c : Calendar} (dates : Dates c) (d w : ℕ)
    → 0 < dates.midnight d
    → w ≢ d / 7
    → (t : Task)
    → (between (null_time (dates.midnight d)) (null_time (dates.midnight (d + 1))) t
        && str_eq (week_name dates (ended_day dates t / 7)) (week_name dates w))
      ≡ false
elsewhere dates d w known apart t = elim (Bool-cases (in_days dates d d t)) [
  | inl e ↦ ground (
    arith,
    eq_iff (week_name dates (ended_day dates t / 7)) (week_name dates w),
    week_name-IsInjective dates (ended_day dates t / 7) w,
    between-in_days dates d d t known (omega arith),
  )
  | inr e ↦ ground (arith, between-in_days dates d d t known (omega arith))
]

-- A day's tasks are in the row of its own week only.
other_week :
    {c : Calendar} (dates : Dates c) (d w : ℕ) (ts : Tasks)
    → 0 < dates.midnight d
    → w ≢ d / 7
    → row_or_zero
        (sum_usage_by_week dates
          (null_time (dates.midnight d))
          (null_time (dates.midnight (d + 1)))
          ts)
        (week_name dates w)
      ≡ zero_row (week_name dates w)
unfolding row_sum
other_week dates d w ts known apart =
    let from = null_time (dates.midnight d) in
    let to = null_time (dates.midnight (d + 1)) in
    rw (by_week dates d d ts known (omega arith)) (
      row_or_zero-sum_usage (λ t. week_name dates (ended_day dates t / 7)) from to ts
        (week_name dates w)
      ∙ ap (row_sum (week_name dates w)) (none_kept _ ts (elsewhere dates d w known apart)))

-- Where weeks start on Sundays, in UTC, the weekly report of a day that is not a Sunday has one row,
-- of the ISO week before the day's, and the row and the totals are zero, whatever tasks ended on that
-- day.
pub aggregate-week_sunday :
    {c : Calendar} (dates : Dates c) (uc : UsageUseCase dates) (decode : ModelDecoder) (d : ℕ)
    (ts : Tasks)
    → uc.budget_limits.reset_tz ≡ none
    → uc.budget_limits.week_starts_on ≡ 0
    → 0 < dates.midnight d
    → 7 ≤ d
    → d % 7 < 6
    → aggregate dates (on_table dates uc decode ts) d d week
      ≡ ok (record {
        from = c.format_date d;
        to = c.format_date d;
        group_by = week;
        buckets = zero_row (week_name dates (d / 7 - 1)) ∷ [];
        totals = zero_row "";
      })
unfolding aggregate validate_range usage_repository sum_by_bucket report gap_fill fill_weeks
    compute_totals totals_from
aggregate-week_sunday {c} dates uc decode d ts utc sunday known large weekday =
    let rows =
      sum_usage_by_week dates (null_time (dates.midnight d)) (null_time (dates.midnight (d + 1)))
        ts in
    rw
      (
        accepted dates d d ts known (omega arith) (omega arith),
        utc,
        sunday,
        one_day (λ e. week_key c (dates.midnight e) none 0) rows (d + 1 - d) d (omega arith),
        week_key-sunday dates d large weekday,
        other_week dates d (d / 7 - 1) ts known (omega arith),
      )
      refl
