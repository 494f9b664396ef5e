-- ===== src/Examples/Warnings.antt =====
-- EvaluateCostWarn of internal/usecase/budget_usecase.go: the theorem on warnings at a concrete input.
use claude_ops.Prelude.{
  ◌*◌, ◌/◌, ◌≤◌, ◌≡◌, refl, Bool, true, false, not, ◌&&◌, none, some, [], ok, str_eq, eq_iff, arith,
}
use claude_ops.Domain.Usage.{UsageRepository}
use claude_ops.Scheduler.BudgetGate.{date_key, week_key}
use claude_ops.Usecase.Budget.{effective_limits, read, store}
use claude_ops.Usecase.Budget.Caps.{daily}
use claude_ops.Usecase.Warnings.{
  CostWarn, CostWarnState, due, evaluate_cost_warn, evaluate_loaded, load_cost_warn_state,
  persist_cost_warn_state, rolled_warnings, send,
}
use claude_ops.Usecase.Warnings.Flags.{sent_in}
use claude_ops.Usecase.Warnings.Bounded.{start, evaluated, warnings-le}
use claude_ops.Examples.Surroundings.{
  minutes, memory, no_values, budget, one_a_day, only, tally, two_tallies,
}

abbrev spent_twelve : UsageRepository
spent_twelve = record {
  sum_by_bucket = λ from to kind. ok [];
  sum_by_model = λ from to. ok [];
  sum_daily_cost = λ key. ok 12;
  sum_weekly_cost = λ key. ok 12;
}

-- The flags after the limit of the day is passed.
abbrev passed : CostWarnState
passed = record {
  daily_key = date_key minutes 0 none;
  daily_warned80 = false;
  daily_warned100 = true;
  weekly_key = week_key minutes 0 none 1;
  weekly_warned80 = false;
  weekly_warned100 = false;
}

is_passed : CostWarnState → Bool
is_passed st =
    str_eq st.daily_key passed.daily_key
    && not st.daily_warned80
    && st.daily_warned100
    && str_eq st.weekly_key passed.weekly_key
    && not st.weekly_warned80
    && not st.weekly_warned100

is_passed-sound : (st : CostWarnState) → is_passed st ≡ true → st ≡ passed
unfolding is_passed
is_passed-sound st h =
    ground (arith, eq_iff st.daily_key passed.daily_key, eq_iff st.weekly_key passed.weekly_key)

unfoldable ten_a_day : CostWarn
unfolding is_passed is_passed-sound
ten_a_day = record {
  usage_repo = some spent_twelve;
  has_notifier = true;
  daily_max_cost_usd = 10;
  weekly_max_cost_usd = 0;
  state_json = only is_passed passed is_passed-sound;
  tenths = λ cost max. 1000 * cost / max;
}

warnings-le_example : sent_in daily (evaluate_cost_warn ten_a_day budget 0 no_values).1 ≤ 2
unfolding budget memory minutes tally two_tallies only ten_a_day is_passed evaluate_cost_warn
    evaluate_loaded load_cost_warn_state persist_cost_warn_state rolled_warnings send due
    effective_limits read store date_key week_key
warnings-le_example =
    warnings-le ten_a_day budget daily (date_key minutes 0 none) 1
      (evaluate_cost_warn ten_a_day budget 0 no_values).0.1
      (evaluated 0 no_values 0 one_a_day (start no_values) refl refl refl)
