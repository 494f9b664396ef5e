-- ===== src/Repository/Usage.antt =====
-- internal/repository/usage_repository.go and the queries of db/sqlc/usage.sql.go, over the table of
-- tasks as the list of its rows. The rows of GROUP BY come in any order, since gapFill reads them
-- through a map. Sums stay within an int64.
pub mod Aggregate
pub mod Sums
pub mod Booked
pub mod Models
use claude_ops.Prelude.{
  ℕ, zero, suc, ◌+◌, ◌-◌, ◌*◌, ◌%◌, String, Bool, true, false, ◌&&◌, Option, none, some, List, [],
  ◌∷◌, map, Result, ok, err, message, wrap, invalid_bucket, ltb, leb, ◌==◌, if◌then◌else◌, str_eq,
  keep, length, or_default, mem_str,
}
use claude_ops.Domain.Task.{Time, Task, TaskStatus, done, failed, cancelled}
use claude_ops.Domain.Calendar.{Calendar, weekday}
use claude_ops.Domain.Usage.{
  BucketKind, day, week, month, other, UsageBucketRow, UsageModelRow, UsageRepository, Dates,
  zero_row, plus_row,
}
use claude_ops.Repository.Tasks.{Tasks}
use claude_ops.Repository.Usage.Aggregate.{ModelDecoder, aggregate_models, exchange_sort}

abbrev pub is_done : TaskStatus → Bool
is_done done = true
is_done s = false

-- status IN ('failed', 'cancelled')
abbrev pub is_lost : TaskStatus → Bool
is_lost failed = true
is_lost cancelled = true
is_lost s = false

-- COALESCE(finished_at, created_at)
abbrev pub ended_at : Task → Time
ended_at t = or_default t.created_at t.finished_at

-- nullTime
unfoldable pub null_time : Time → Option Time
null_time t = if t == 0 then none else some t

-- A comparison with NULL is not true.
abbrev at_least : Option Time → Time → Bool
at_least none t = false
at_least (some bound) t = leb bound t

abbrev below : Option Time → Time → Bool
below none t = false
below (some bound) t = ltb t bound

-- … >= ? AND … < ?
unfoldable pub between : Option Time → Option Time → Task → Bool
between from to t = at_least from (ended_at t) && below to (ended_at t)

-- What one task adds to the columns of its bucket.
abbrev pub task_row : Task → UsageBucketRow
task_row t = record {
  bucket = "";
  task_count = if is_done t.status then 1 else 0;
  cost_usd = if is_done t.status then t.cost_usd else 0;
  input_tokens = if is_done t.status then t.total_input_tokens else 0;
  output_tokens = if is_done t.status then t.total_output_tokens else 0;
  cache_read_tokens = if is_done t.status then t.cache_read_input_tokens else 0;
  cache_creation_tokens = if is_done t.status then t.cache_creation_input_tokens else 0;
  failed_cost_usd = if is_lost t.status then t.cost_usd else 0;
}

unfoldable pub row_sum : String → Tasks → UsageBucketRow
row_sum key [] = zero_row key
row_sum key (t ∷ ts) = plus_row (row_sum key ts) (task_row t)

unfoldable pub distinct_keys : (Task → String) → Tasks → List String
distinct_keys key [] = []
distinct_keys key (t ∷ ts) =
    let rest = distinct_keys key ts in if mem_str (key t) rest then rest else key t ∷ rest

-- SELECT … WHERE … GROUP BY bucket
unfoldable pub sum_usage : (Task → String) → Option Time → Option Time → Tasks → List UsageBucketRow
sum_usage key from to ts =
    let rows = keep (between from to) ts in
    map (λ k. row_sum k (keep (λ t. str_eq (key t) k) rows)) (distinct_keys key rows)

-- SELECT SUM(cost_usd) … WHERE status = 'done' AND …
unfoldable pub sum_cost : Option Time → Option Time → Tasks → ℕ
sum_cost from to [] = 0
sum_cost from to (t ∷ ts) =
    (if is_done t.status && between from to t then t.cost_usd else 0) + sum_cost from to ts

-- SumUsageByModel
unfoldable pub sum_usage_by_model : Option Time → Option Time → Tasks → Tasks
sum_usage_by_model from to ts = keep (λ t. is_done t.status && between from to t) ts

module _ {c : Calendar} (dates : Dates c) where
  open dates use {midnight, month_of, format_month, parse_date, parse_week, jan4}

  abbrev pub ended_day : Task → ℕ
  ended_day t = c.day c.utc (ended_at t)

  -- SumUsageByDay, SumUsageByWeek and SumUsageByMonth: the keys are MySQL's DATE_FORMAT, in UTC
  unfoldable pub sum_usage_by_day : Option Time → Option Time → Tasks → List UsageBucketRow
  sum_usage_by_day = sum_usage (λ t. c.format_date (ended_day t))

  unfoldable pub sum_usage_by_week : Option Time → Option Time → Tasks → List UsageBucketRow
  sum_usage_by_week = sum_usage (λ t. c.format_week (c.iso_week (ended_day t)))

  unfoldable pub sum_usage_by_month : Option Time → Option Time → Tasks → List UsageBucketRow
  sum_usage_by_month = sum_usage (λ t. format_month (month_of (ended_day t)))

  -- SumByBucket
  unfoldable pub sum_by_bucket : Tasks → ℕ → ℕ → BucketKind → Result (List UsageBucketRow)
  sum_by_bucket ts from to day =
      ok (sum_usage_by_day (null_time (midnight from)) (null_time (midnight to)) ts)
  sum_by_bucket ts from to week =
      ok (sum_usage_by_week (null_time (midnight from)) (null_time (midnight to)) ts)
  sum_by_bucket ts from to month =
      ok (sum_usage_by_month (null_time (midnight from)) (null_time (midnight to)) ts)
  sum_by_bucket ts from to (other name) = err invalid_bucket

  -- SumByModel
  unfoldable pub sum_by_model : ModelDecoder → Tasks → ℕ → ℕ → Result (List UsageModelRow)
  sum_by_model decode ts from to =
      let rows = sum_usage_by_model (null_time (midnight from)) (null_time (midnight to)) ts in
      let result = aggregate_models decode rows [] in ok (exchange_sort (length result) result)

  abbrev cost_between : Tasks → ℕ → ℕ → ℕ
  cost_between ts from to = sum_cost (null_time (midnight from)) (null_time (midnight to)) ts

  -- SumDailyCost, with dayKeyToRange
  unfoldable pub sum_daily_cost : Tasks → String → Result ℕ
  sum_daily_cost ts key = elim (parse_date key) [
    | none ↦ err (wrap "sum daily cost parse key" (message "parse day key"))
    | some d ↦ ok (cost_between ts d (d + 1))
  ]

  -- The Monday of January 4's week, and as many weeks more as `week` is past that week.
  unfoldable pub week_key_to_range : ℕ × ℕ → ℕ
  week_key_to_range (year, number) =
      let fourth = jan4 year in
      let monday = fourth - (weekday fourth + 7 - 1) % 7 in
      monday + number * 7 - (c.iso_week fourth).1 * 7

  -- SumWeeklyCost
  unfoldable pub sum_weekly_cost : Tasks → String → Result ℕ
  sum_weekly_cost ts key = elim (parse_week key) [
    | none ↦ err (wrap "sum weekly cost parse key" (message "parse week key"))
    | some w ↦ ok (cost_between ts (week_key_to_range w) (week_key_to_range w + 7))
  ]

  -- GormUsageRepository on a table, where the database answers
  unfoldable pub usage_repository : ModelDecoder → Tasks → UsageRepository
  usage_repository decode ts = record {
    sum_by_bucket = sum_by_bucket ts;
    sum_by_model = sum_by_model decode ts;
    sum_daily_cost = sum_daily_cost ts;
    sum_weekly_cost = sum_weekly_cost ts;
  }
