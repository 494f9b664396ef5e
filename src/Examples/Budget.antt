-- ===== src/Examples/Budget.antt =====
-- internal/domain/window.go, internal/scheduler/budget_gate.go and internal/usecase/budget_usecase.go:
-- the theorems at concrete inputs.
use claude_ops.Prelude.{◌+◌, ◌≤◌, ◌≡◌, refl, false, [], ◌∷◌, none, some, ok, pos, arith}
use claude_ops.Scheduler.BudgetGate.{
  allowed, evaluate_budget, zero_counters, date_key, week_key, rollover_counters,
}
use claude_ops.Usecase.Budget.{
  load_counters, effective_limits, read, check_and_increment, store, record_rate_limit_block,
  set_limits, persist_override, with_override, snapshot, snapshot_of, roll, persist_counters,
  load_block, counters_eq, from_unix, to_unix,
}
use claude_ops.Usecase.Budget.Reserve.{Reserved, granted, check_and_increment-Reserved}
use claude_ops.Usecase.Budget.Caps.{daily, reserve_all, cap-reserve_all}
use claude_ops.Usecase.Budget.Blocks.{Acceptable, granted-record_rate_limit_block}
use claude_ops.Api.Limits.{
  LimitsPatchRequest, LimitsResponse, patch_limits, after_set, get_limits, shown,
}
use claude_ops.Api.Limits.Patched.{in_effect, patch_limits-answered}
use claude_ops.Examples.Surroundings.{
  minutes, memory, no_values, budget, one_a_day, tally, two_tallies, only,
}

cap-reserve_all_example : (reserve_all budget (0 ∷ 10 ∷ 20 ∷ []) no_values).0 + 0 ≤ 1
unfolding budget memory minutes tally two_tallies load_counters effective_limits read date_key
cap-reserve_all_example =
    cap-reserve_all budget daily one_a_day "xxxxxxx" 1 refl (omega arith) (omega arith)
      (0 ∷ 10 ∷ 20 ∷ []) zero_counters no_values 0 refl refl refl (omega arith)
      (refl, (refl, (refl, tt)))

check_and_increment-Reserved_example :
    Reserved budget 5 one_a_day zero_counters no_values
      (granted budget (check_and_increment budget 5 no_values).0)
      (load_counters budget (check_and_increment budget 5 no_values).1)
unfolding budget memory minutes load_counters effective_limits read
check_and_increment-Reserved_example =
    check_and_increment-Reserved budget 5 one_a_day zero_counters no_values refl refl

granted-record_rate_limit_block_example :
    granted budget
      (check_and_increment budget 7
        (record_rate_limit_block budget (pos 100) "five_hour" 0 no_values).1).0
    ≡ false
unfolding budget memory only record_rate_limit_block store to_unix from_unix
granted-record_rate_limit_block_example =
    granted-record_rate_limit_block budget 100 "five_hour" 0 7 no_values (omega arith) (omega arith)
      refl (omega arith)

abbrev asked : LimitsPatchRequest
asked = record { daily_max = some (pos 5); weekly_max = some (pos 20) }

abbrev shown_limits : LimitsResponse
shown_limits = record {
  daily_count = pos 0;
  daily_max = pos 5;
  daily_date = "xxxxxxx";
  weekly_count = pos 0;
  weekly_max = pos 20;
  weekly_week = "wx";
  blocked_until = none;
  rate_limit_type = "";
  reason = allowed;
}

patch_limits-answered_example :
    Acceptable budget (pos 5) (pos 20)
    × (shown_limits.daily_max ≡ in_effect budget asked.daily_max (pos 1))
    × (shown_limits.weekly_max ≡ in_effect budget asked.weekly_max (pos 3))
    × (effective_limits budget (patch_limits budget 0 0 (some asked) no_values).1
        ≡ ok (with_override budget (record { daily_max = pos 5; weekly_max = pos 20 })))
unfolding budget memory only set_limits persist_override store effective_limits read patch_limits
    after_set get_limits shown snapshot snapshot_of roll persist_counters load_counters load_block
    rollover_counters counters_eq minutes tally two_tallies date_key week_key evaluate_budget
patch_limits-answered_example = patch_limits-answered budget 0 0 asked no_values shown_limits refl
