-- ===== src/Usecase/Usage/Reports.antt =====
-- The reports of internal/usecase/usage_usecase.go on a table of tasks, composed with the queries of
-- internal/repository/usage_repository.go.
use claude_ops.Prelude.{
  ℕ, ◌+◌, ◌-◌, ◌≤◌, ◌<◌, String, ◌≡◌, refl, ap, ◌∙◌, ◌&&◌, List, [], ◌∷◌, map, arith, ltb, leb,
  ◌==◌, keep, ok,
}
use claude_ops.Domain.Task.{Task}
use claude_ops.Domain.Calendar.{Calendar}
use claude_ops.Domain.Usage.{day, month, UsageBucketRow, Dates, zero_row, plus_row}
use claude_ops.Repository.Tasks.{Tasks}
use claude_ops.Repository.Usage.{
  null_time, row_sum, sum_usage, ended_day, usage_repository, sum_by_bucket, sum_usage_by_day,
  sum_usage_by_month,
}
use claude_ops.Repository.Usage.Aggregate.{ModelDecoder}
use claude_ops.Repository.Usage.Sums.{keep-eq, in_days, between-in_days}
use claude_ops.Usecase.Usage.{
  UsageUseCase, aggregate, report, gap_fill, compute_totals, fill, validate_range,
  validate_date_range,
}
use claude_ops.Usecase.Usage.Buckets.{run, IsInjective, fill-sum_usage, totals_from-run}

-- The use case over the table `ts`, where the database answers.
abbrev pub on_table :
    {c : Calendar} (dates : Dates c)
    → UsageUseCase dates
    → ModelDecoder
    → Tasks
    → UsageUseCase dates
on_table dates uc decode ts = record uc { repo = usage_repository dates decode ts }

-- One row for each number from `first` on, of the tasks in range that fall on it.
abbrev pub rows_of :
    {c : Calendar} (dates : Dates c)
    → ℕ
    → ℕ
    → (ℕ → String)
    → (ℕ → ℕ)
    → List ℕ
    → Tasks
    → List UsageBucketRow
rows_of dates from to key unit numbers ts =
    map
      (λ u.
        row_sum (key u) (keep (λ t. in_days dates from to t && unit (ended_day dates t) == u) ts))
      numbers

zero_plus : (ts : Tasks) → plus_row (zero_row "") (row_sum "" ts) ≡ row_sum "" ts
unfolding row_sum
zero_plus [] = refl
zero_plus (t ∷ ts) = ground (arith, zero_plus ts)

module _ {c : Calendar} (dates : Dates c) (from to : ℕ) (ts : Tasks)
    (known : 0 < dates.midnight from) (ordered : from ≤ to) where
  pub filled :
      (key : ℕ → String) (unit : ℕ → ℕ)
      → IsInjective key
      → ((d e : ℕ) → d ≤ e → unit d ≤ unit e)
      → fill key
          (sum_usage
            (λ t. key (unit (ended_day dates t)))
            (null_time (dates.midnight from))
            (null_time (dates.midnight (to + 1)))
            ts)
          (unit to + 1 - unit from)
          (unit from)
          (unit to)
        ≡ rows_of dates from to key unit (run (unit to + 1 - unit from) (unit from)) ts
  filled key unit injective mono =
      fill-sum_usage key injective (λ t. unit (ended_day dates t)) _ _ (in_days dates from to) ts
        (unit to + 1 - unit from) (unit from) (unit to)
        (λ t. between-in_days dates from to t known ordered) (omega (arith, mono from to ordered))

  within_run :
      (unit : ℕ → ℕ) (t : Task)
      → ((d e : ℕ) → d ≤ e → unit d ≤ unit e)
      → (in_days dates from to t
          && leb (unit from) (unit (ended_day dates t))
          && ltb (unit (ended_day dates t)) (unit from + (unit to + 1 - unit from)))
        ≡ in_days dates from to t
  within_run unit t mono =
      ground
        (arith, mono from (ended_day dates t), mono (ended_day dates t) to, mono from to ordered)

  pub totalled :
      (key : ℕ → String) (unit : ℕ → ℕ)
      → ((d e : ℕ) → d ≤ e → unit d ≤ unit e)
      → compute_totals
          (rows_of dates from to key unit (run (unit to + 1 - unit from) (unit from)) ts)
        ≡ row_sum "" (keep (in_days dates from to) ts)
  unfolding compute_totals
  totalled key unit mono =
      totals_from-run key (λ t. unit (ended_day dates t)) (in_days dates from to) ts (zero_row "")
        (unit to + 1 - unit from) (unit from)
      ∙ ap (λ rows. plus_row (zero_row "") (row_sum "" rows))
          (keep-eq _ (in_days dates from to) (λ t. within_run unit t mono) ts)
      ∙ zero_plus (keep (in_days dates from to) ts)

  pub accepted : to ≤ from + 365 → validate_date_range from to ≡ ok tt
  unfolding validate_date_range
  accepted short = ground arith

  -- The daily report over a range of at most 366 days that is in order, on a table whose database
  -- answers, has one row for each day in turn, which adds up the tasks that ended on it, and its
  -- totals add up the tasks that ended in the range.
  pub aggregate-day :
      (uc : UsageUseCase dates) (decode : ModelDecoder)
      → to ≤ from + 365
      → aggregate dates (on_table dates uc decode ts) from to day
        ≡ ok (record {
          from = c.format_date from;
          to = c.format_date to;
          group_by = day;
          buckets = rows_of dates from to c.format_date (λ d. d) (run (to + 1 - from) from) ts;
          totals = row_sum "" (keep (in_days dates from to) ts);
        })
  unfolding aggregate validate_range usage_repository sum_by_bucket sum_usage_by_day report gap_fill
  aggregate-day uc decode short =
      rw
        (
          accepted short,
          filled c.format_date (λ d. d) c.format_date-injective (λ d e h. h),
          totalled c.format_date (λ d. d) (λ d e h. h),
        )
        refl

  -- The monthly report, likewise: one row for each month of the range in turn, which adds up the
  -- tasks that ended on a day of the range in that month.
  aggregate-month :
      (uc : UsageUseCase dates) (decode : ModelDecoder)
      → to ≤ from + 365
      → aggregate dates (on_table dates uc decode ts) from to month
        ≡ ok (record {
          from = c.format_date from;
          to = c.format_date to;
          group_by = month;
          buckets =
              rows_of dates from to dates.format_month dates.month_of
                (run (dates.month_of to + 1 - dates.month_of from) (dates.month_of from))
                ts;
          totals = row_sum "" (keep (in_days dates from to) ts);
        })
  unfolding aggregate validate_range usage_repository sum_by_bucket sum_usage_by_month report
      gap_fill
  aggregate-month uc decode short =
      rw
        (
          accepted short,
          filled dates.format_month dates.month_of dates.format_month-injective dates.month_of-mono,
          totalled dates.format_month dates.month_of dates.month_of-mono,
        )
        refl
