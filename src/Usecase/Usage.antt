-- ===== src/Usecase/Usage.antt =====
-- internal/usecase/usage_usecase.go: the usage reports. `from` and `to` are the days that the
-- handlers parse, at midnight in UTC, so that a step of AddDate(0, 0, 1) is the next day.
pub mod Buckets
pub mod Reports
pub mod Weeks
pub mod Weekly
pub mod Costs
use claude_ops.Prelude.{
  ℕ, zero, suc, ◌+◌, ◌-◌, String, Bool, true, false, Option, none, some, List, [], ◌∷◌, Result, ok,
  err, Error, wrap, invalid_range, range_too_large, invalid_bucket, ltb, if◌then◌else◌, str_eq,
  mem_str, or_default, ◌>>=◌,
}
use claude_ops.Domain.Task.{Time}
use claude_ops.Domain.Calendar.{Calendar}
use claude_ops.Domain.Usage.{
  BucketKind, day, week, month, other, UsageBucketRow, UsageModelRow, UsageRepository, Dates,
  zero_row, plus_row,
}
use claude_ops.Scheduler.BudgetGate.{BudgetLimits, date_key, week_key}

-- Percents are in tenths.
pub record UsageLimitsSnapshot : Type 0 where
  pub daily_count_usd : ℕ
  pub daily_max_usd : ℕ
  pub daily_percent : Option ℕ
  pub daily_date : String
  pub weekly_count_usd : ℕ
  pub weekly_max_usd : ℕ
  pub weekly_percent : Option ℕ
  pub weekly_week : String

pub record UsageAggregateResult : Type 0 where
  pub from : String
  pub to : String
  pub group_by : BucketKind
  pub buckets : List UsageBucketRow
  pub totals : UsageBucketRow

abbrev pub max_range_days : ℕ
max_range_days = 365

-- validateDateRange
unfoldable pub validate_date_range : ℕ → ℕ → Result (Unit {0})
validate_date_range from to =
    if ltb to from
    then err invalid_range
    else if ltb max_range_days (to - from)
    then err range_too_large
    else ok tt

abbrev check_bucket : BucketKind → Result (Unit {0})
check_bucket (other name) = err invalid_bucket
check_bucket bucket = ok tt

-- validateRange
unfoldable pub validate_range : ℕ → ℕ → BucketKind → Result (Unit {0})
validate_range from to bucket = validate_date_range from to >>= λ _. check_bucket bucket

-- The map of the rows by their keys: of rows with one key, the last stays.
unfoldable pub by_key : String → List UsageBucketRow → Option UsageBucketRow
by_key key [] = none
by_key key (r ∷ rows) = elim (by_key key rows) [
  | some found ↦ some found
  | none ↦ if str_eq r.bucket key then some r else none
]

unfoldable pub row_or_zero : List UsageBucketRow → String → UsageBucketRow
row_or_zero rows key = or_default (zero_row key) (by_key key rows)

-- The loop of gapFill over days, or over months: `for cur := first; !cur.After(last); cur++`, on fuel.
unfoldable pub fill : (ℕ → String) → List UsageBucketRow → ℕ → ℕ → ℕ → List UsageBucketRow
fill key rows zero cur last = []
fill key rows (suc n) cur last =
    let rest = fill key rows n (cur + 1) last in
    if ltb last cur then [] else row_or_zero rows (key cur) ∷ rest

-- The loop over days that gives each key of a week once.
unfoldable pub fill_weeks :
    (ℕ → String) → List UsageBucketRow → ℕ → ℕ → ℕ → List String → List UsageBucketRow
fill_weeks key rows zero cur last seen = []
fill_weeks key rows (suc n) cur last seen =
    let known = mem_str (key cur) seen in
    let rest = fill_weeks key rows n (cur + 1) last (if known then seen else key cur ∷ seen) in
    if ltb last cur then [] else if known then rest else row_or_zero rows (key cur) ∷ rest

unfoldable pub totals_from : UsageBucketRow → List UsageBucketRow → UsageBucketRow
totals_from acc [] = acc
totals_from acc (r ∷ rows) = totals_from (plus_row acc r) rows

-- computeTotals
unfoldable pub compute_totals : List UsageBucketRow → UsageBucketRow
compute_totals rows = totals_from (zero_row "") rows

-- math.Round(cost/max*100*10)/10, capped, for a maximum that is set. The rounded quotient of floats
-- is a parameter.
unfoldable pub percent_of : (ℕ → ℕ → ℕ) → ℕ → ℕ → Option ℕ
percent_of tenths cost max =
    let percent = tenths cost max in
    if ltb 0 max then some (if ltb 1000 percent then 1000 else percent) else none

abbrev pub wrapped {ℓ} : {A : Type ℓ} → String → Result A → Result A
wrapped text (ok a) = ok a
wrapped text (err e) = err (wrap text e)

module _ {c : Calendar} (dates : Dates c) where
  open dates use {midnight, month_of, format_month}

  pub record UsageUseCase : Type 0 where
    pub repo : UsageRepository
    pub budget_limits : BudgetLimits c
    pub daily_max_cost : ℕ
    pub weekly_max_cost : ℕ
    pub tenths : ℕ → ℕ → ℕ

  -- gapFill
  unfoldable pub gap_fill :
      BudgetLimits c → ℕ → ℕ → BucketKind → List UsageBucketRow → List UsageBucketRow
  gap_fill limits from to day rows = fill c.format_date rows (to + 1 - from) from to
  gap_fill limits from to week rows =
      fill_weeks (λ d. week_key c (midnight d) limits.reset_tz limits.week_starts_on) rows
        (to + 1 - from) from to []
  gap_fill limits from to month rows =
      fill format_month rows (month_of to + 1 - month_of from) (month_of from) (month_of to)
  gap_fill limits from to (other name) rows = []

  -- the end of Aggregate, once the rows are read
  unfoldable pub report :
      BudgetLimits c → ℕ → ℕ → BucketKind → List UsageBucketRow → UsageAggregateResult
  report limits from to bucket rows =
      let filled = gap_fill limits from to bucket rows in
      record {
        from = c.format_date from;
        to = c.format_date to;
        group_by = bucket;
        buckets = filled;
        totals = compute_totals filled;
      }

  -- Aggregate
  unfoldable pub aggregate : UsageUseCase → ℕ → ℕ → BucketKind → Result UsageAggregateResult
  aggregate uc from to bucket = validate_range from to bucket >>= λ _.
      wrapped "aggregate usage" (uc.repo.sum_by_bucket from (to + 1) bucket) >>= λ rows.
      ok (report uc.budget_limits from to bucket rows)

  -- ByModel
  unfoldable pub by_model : UsageUseCase → ℕ → ℕ → Result (List UsageModelRow)
  by_model uc from to = validate_date_range from to >>= λ _.
      wrapped "by model usage" (uc.repo.sum_by_model from (to + 1))

  -- Limits
  unfoldable pub usage_limits : UsageUseCase → Time → Result UsageLimitsSnapshot
  usage_limits uc now =
      let date = date_key c now uc.budget_limits.reset_tz in
      let week_name = week_key c now uc.budget_limits.reset_tz uc.budget_limits.week_starts_on in
      wrapped "sum daily cost" (uc.repo.sum_daily_cost date) >>= λ daily.
      wrapped "sum weekly cost" (uc.repo.sum_weekly_cost week_name) >>= λ weekly. ok (record {
        daily_count_usd = daily;
        daily_max_usd = uc.daily_max_cost;
        daily_percent = percent_of uc.tenths daily uc.daily_max_cost;
        daily_date = date;
        weekly_count_usd = weekly;
        weekly_max_usd = uc.weekly_max_cost;
        weekly_percent = percent_of uc.tenths weekly uc.weekly_max_cost;
        weekly_week = week_name;
      })
