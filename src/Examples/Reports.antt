-- ===== src/Examples/Reports.antt =====
-- The usage reports on a table of a few tasks, over the clock of minutes.
use Prim.Native.Char.{code}
use Prim.Native.String.{◌∷◌ as char_then, [] as no_text}
use claude_ops.Prelude.{
  ◌+◌, if◌then◌else◌, ℕ, zero, suc, ◌-◌, ◌*◌, ◌/◌, String, ◌≡◌, refl, ap, none, some, List, [], ◌∷◌,
  ok, arith, ◌==◌, if◌then◌else◌, pos, keep,
}
use claude_ops.Domain.Task.{zero_task, done, failed}
use claude_ops.Api.Usage.{UsageQuery}
use claude_ops.Domain.Usage.{Dates, day, week, zero_row, UsageModelRow, UsageRepository}
use claude_ops.Repository.Tasks.{Tasks}
use claude_ops.Repository.Usage.{
  usage_repository, row_sum, null_time, sum_by_model, sum_usage_by_model,
}
use claude_ops.Repository.Usage.Aggregate.{ModelDecoder}
use claude_ops.Repository.Usage.Models.{sum_by_model-IsDescending, IsDescending}
use claude_ops.Repository.Usage.Booked.{IsBooked, booked_all}
use claude_ops.Repository.Usage.Sums.{in_days}
use claude_ops.Usecase.Usage.{UsageUseCase, aggregate, usage_limits, percent_of}
use claude_ops.Usecase.Usage.Buckets.{run}
use claude_ops.Usecase.Usage.Reports.{on_table, rows_of, aggregate-day}
use claude_ops.Usecase.Usage.Weeks.{week_name}
use claude_ops.Usecase.Usage.Weekly.{aggregate-week, aggregate-week_sunday}
use claude_ops.Usecase.Usage.Costs.{usage_limits-on_table, cost_of, done_on, done_in_week_of}
use claude_ops.Examples.Surroundings.{minutes, tally, tally-injective, two_tallies}

size : String → ℕ
size no_text = 0
size (char_then c s) = suc (size s)

size-tally : (n : ℕ) → size (tally n) ≡ n
unfolding size tally
size-tally zero = refl
size-tally (suc n) = ap suc (size-tally n)

parts : String → ℕ × ℕ
parts no_text = (0, 0)
parts (char_then c s) = let (a, b) = parts s in if code c == b'w' then (0, size s) else (suc a, b)

parts-two_tallies : (m n : ℕ) → parts (two_tallies m n) ≡ (m, n)
unfolding parts two_tallies
parts-two_tallies zero n = ap (λ (k : ℕ). (0, k)) (size-tally n)
parts-two_tallies (suc m) n = rw (parts-two_tallies m n) refl

-- Months of thirty days.
thirty_days : Dates minutes
unfolding minutes size parts
thirty_days = record {
  midnight = λ d. (d - 7) * 1440;
  month_of = λ d. d / 30;
  format_month = tally;
  parse_date = λ s. some (size s);
  parse_week = λ s. some (parts s);
  jan4 = λ y. 7;
  midnight-le_iff = λ d t. (λ h. omega arith, λ h. omega arith);
  day-midnight = λ d h. omega arith;
  midnight-mono = λ d e h. omega arith;
  month_of-mono = λ d e h. omega arith;
  format_month-injective = tally-injective;
  parse_date-format = λ d. ap some (size-tally d);
  parse_week-format = λ (a, b). ap some (parts-two_tallies a b);
  iso_week-jan4 = λ y. refl;
  jan4_weeks = λ d. omega arith;
}

-- Two tasks of day 14, a Monday, and one of day 15.
abbrev pub ended : Tasks
ended =
    record zero_task { id = "a"; status = done; finished_at = some 10080; cost_usd = 5 }
    ∷ record zero_task { id = "b"; status = failed; finished_at = some 10090; cost_usd = 2 }
    ∷ record zero_task { id = "c"; status = done; created_at = 11600; cost_usd = 7 }
    ∷ []

abbrev no_models : ModelDecoder
no_models = record { entries = λ text. []; plus = λ a b. a + b; to_float = λ n. n }

abbrev nothing_stored : UsageRepository
nothing_stored = usage_repository thirty_days no_models []

abbrev reports_from : ℕ → UsageUseCase thirty_days
reports_from first = record {
  repo = nothing_stored;
  budget_limits = record {
    daily_max = pos 1;
    weekly_max = pos 3;
    week_starts_on = first;
    reset_tz = none;
  };
  daily_max_cost = 10;
  weekly_max_cost = 0;
  tenths = λ cost max. 1000 * cost / max;
}

aggregate-day_example :
    aggregate thirty_days (on_table thirty_days (reports_from 1) no_models ended) 14 15 day
    ≡ ok (record {
      from = tally 14;
      to = tally 15;
      group_by = day;
      buckets = rows_of thirty_days 14 15 tally (λ d. d) (run 2 14) ended;
      totals = row_sum "" (keep (in_days thirty_days 14 15) ended);
    })
unfolding thirty_days minutes
aggregate-day_example =
    aggregate-day thirty_days 14 15 ended (omega arith) (omega arith) (reports_from 1) no_models
      (omega arith)

aggregate-week_example :
    aggregate thirty_days (on_table thirty_days (reports_from 1) no_models ended) 14 24 week
    ≡ ok (record {
      from = tally 14;
      to = tally 24;
      group_by = week;
      buckets = rows_of thirty_days 14 24 (week_name thirty_days) (λ d. d / 7) (run 2 2) ended;
      totals = row_sum "" (keep (in_days thirty_days 14 24) ended);
    })
unfolding thirty_days minutes
aggregate-week_example =
    aggregate-week thirty_days 14 24 ended (omega arith) (omega arith) (reports_from 1) no_models
      refl refl (omega arith) (omega arith)

aggregate-week_sunday_example :
    aggregate thirty_days (on_table thirty_days (reports_from 0) no_models ended) 14 14 week
    ≡ ok (record {
      from = tally 14;
      to = tally 14;
      group_by = week;
      buckets = zero_row (week_name thirty_days 1) ∷ [];
      totals = zero_row "";
    })
unfolding thirty_days minutes
aggregate-week_sunday_example =
    aggregate-week_sunday thirty_days (reports_from 0) no_models 14 ended refl refl (omega arith)
      (omega arith) (omega arith)

usage_limits-on_table_example :
    usage_limits thirty_days (on_table thirty_days (reports_from 1) no_models ended) 11000
    ≡ ok (record {
      daily_count_usd = cost_of (done_on thirty_days 14) ended;
      daily_max_usd = 10;
      daily_percent =
          percent_of (λ cost max. 1000 * cost / max) (cost_of (done_on thirty_days 14) ended) 10;
      daily_date = tally 14;
      weekly_count_usd = cost_of (done_in_week_of thirty_days 14) ended;
      weekly_max_usd = 0;
      weekly_percent =
          percent_of
            (λ cost max. 1000 * cost / max)
            (cost_of (done_in_week_of thirty_days 14) ended)
            0;
      weekly_week = two_tallies 0 2;
    })
unfolding thirty_days minutes
usage_limits-on_table_example =
    usage_limits-on_table thirty_days (reports_from 1) no_models ended 11000 (omega arith)

sum_by_model-IsDescending_example :
    (rows : List UsageModelRow) × (sum_by_model thirty_days no_models ended 14 16 ≡ ok rows)
    × IsDescending rows
    × ((model : String)
        → IsBooked no_models
            (booked_all no_models (
              sum_usage_by_model
                (null_time (thirty_days.midnight 14))
                (null_time (thirty_days.midnight 16))
                ended))
            model
            rows)
sum_by_model-IsDescending_example = sum_by_model-IsDescending thirty_days no_models ended 14 16

abbrev backwards : UsageQuery
backwards = record { from = "xxxxxxxxxxxxxxxx"; to = "xxxxxxxxxxxxxx"; group_by = none }

-- The database answers with no rows.
abbrev answering : UsageUseCase thirty_days
answering = record (reports_from 1) {
  repo = record nothing_stored { sum_by_bucket = λ from to kind. ok [] };
}
