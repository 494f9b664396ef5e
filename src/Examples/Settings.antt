-- ===== src/Examples/Settings.antt =====
-- Maintenance tasks, and the check of the settings: the theorems at concrete inputs.
use claude_ops.Prelude.{
  ◌+◌, ◌≤◌, String, ◌≡◌, refl, true, false, Bool, ◌&&◌, [], ◌∷◌, none, some, ok, err, wrap,
  sub_cap_reached, pos, inc64, arith, str_eq, if◌then◌else◌, eq_ℤ, eq_ℤ_iff, eq_iff,
}
use claude_ops.Config.Settings.{
  MaintenanceTaskConfig, RepoConfig, Config, LimitsConfig, ConcurrencyConfig, CiFixConfig,
}
use claude_ops.Config.Checks.{validate_concurrency, validate_ci_fix, week_start_of, resolved_caps}
use claude_ops.Config.Validate.{
  TextRules, validate_config, validate_windows, active_windows, validate_repos, validate_repos_from,
  validate_repo, validate_commands, with_defaults, has_owner, validate_limits,
  validate_maintenance_tasks, validate_maintenance_from,
}
use claude_ops.Config.Defaults.{AllDefaulted}
use claude_ops.Config.Bounds.{IsConcurrency, IsCiFix, AreCaps, resolved_caps-AreCaps, ◌<ℤ◌}
use claude_ops.Config.Accepted.{IsNodup, names, AllOwned, validate_config-IsValid}
use claude_ops.Scheduler.BudgetGate.{
  allowed, date_key, week_key, rollover_counters, evaluate_budget,
}
use claude_ops.Usecase.Budget.{
  BudgetSnapshot, check_and_increment, read, load_counters, effective_limits, load_block, snapshot,
  snapshot_of, roll, count_up, persist_counters, store, counters_eq,
}
use claude_ops.Usecase.Budget.Caps.{daily}
use claude_ops.Usecase.Maintenance.{
  MaintenanceUseCase, MaintenanceSubCap, zero_sub_cap, sub_cap_key, load_sub_cap, rolled_sub_cap,
  enqueue_maintenance,
}
use claude_ops.Usecase.Maintenance.SubCap.{enqueue_all, cap-enqueue_all}
use claude_ops.Usecase.Maintenance.Refused.{enqueue_maintenance-sub_cap_reached}
use claude_ops.Examples.Surroundings.{
  minutes, Memory, memory, no_values, budget, one_a_day, one_task, tally, two_tallies, only,
}

abbrev once : MaintenanceSubCap
once = record {
  daily_count = pos 1;
  daily_key = "xxxxxxx";
  weekly_count = pos 1;
  weekly_key = "wx";
}

is_once : MaintenanceSubCap → Bool
is_once n =
    eq_ℤ n.daily_count (pos 1)
    && str_eq n.daily_key "xxxxxxx"
    && eq_ℤ n.weekly_count (pos 1)
    && str_eq n.weekly_key "wx"

is_once-sound : (n : MaintenanceSubCap) → is_once n ≡ true → n ≡ once
unfolding is_once
is_once-sound n h = ground (
  arith,
  eq_ℤ_iff n.daily_count (pos 1),
  eq_iff n.daily_key "xxxxxxx",
  eq_ℤ_iff n.weekly_count (pos 1),
  eq_iff n.weekly_key "wx",
)

upkeep : MaintenanceUseCase Memory minutes
unfolding is_once is_once-sound
upkeep = record {
  budget = budget;
  sub_cap_json = only is_once once is_once-sound;
  limits = one_a_day;
}

abbrev nightly : MaintenanceTaskConfig
nightly = record {
  name = "nightly";
  cron = "0 3 * * *";
  repo = "a/b";
  prompt_template = "tidy";
  budget_sub_cap = record { daily = pos 1; weekly = pos 0 };
}

cap-enqueue_all_example :
    (enqueue_all upkeep nightly "Nightly" (("m", 0) ∷ ("n", 10) ∷ []) (no_values, [])).0 + 0 ≤ 1
unfolding upkeep budget memory minutes tally two_tallies load_sub_cap read date_key
cap-enqueue_all_example =
    cap-enqueue_all upkeep daily nightly "xxxxxxx" 1 refl (omega arith) (omega arith) "Nightly"
      (("m", 0) ∷ ("n", 10) ∷ []) zero_sub_cap (no_values, []) 0 refl refl (omega arith)
      (refl, (refl, tt))

abbrev after_one : Memory
after_one k = if str_eq k (sub_cap_key "nightly") then some "it" else none

abbrev granted_snap : BudgetSnapshot minutes
granted_snap = record {
  counters = one_task;
  limits = one_a_day;
  block = record { blocked_until = 0; rate_limit_type = "" };
  reason = allowed;
}

grant :
    check_and_increment budget 0 after_one
    ≡ (ok (allowed, granted_snap), (check_and_increment budget 0 after_one).1)
unfolding budget memory minutes tally two_tallies check_and_increment snapshot effective_limits
    load_counters load_block read snapshot_of roll count_up persist_counters store counters_eq
    date_key week_key sub_cap_key rollover_counters evaluate_budget inc64
grant = refl

enqueue_maintenance-sub_cap_reached_example :
    (text : String) × (enqueue_maintenance upkeep nightly "m" "Nightly" 0 (after_one, [])
      ≡ (err (wrap text sub_cap_reached), ((check_and_increment budget 0 after_one).1, [])))
unfolding upkeep budget memory only minutes tally two_tallies load_sub_cap read sub_cap_key
    rolled_sub_cap date_key week_key
enqueue_maintenance-sub_cap_reached_example =
    enqueue_maintenance-sub_cap_reached upkeep nightly "m" "Nightly" 0 after_one
      (check_and_increment budget 0 after_one).1 [] granted_snap once grant refl refl

abbrev plain_texts : TextRules
plain_texts = record { trim = λ s. s; is_cron = λ s. true }

abbrev two_slots : ConcurrencyConfig
two_slots = record { max_parallel_tasks = pos 2; lease_timeout = pos 60; reclaim_interval = pos 10 }

abbrev no_fixes : CiFixConfig
no_fixes = record {
  enabled = false;
  max_attempts = pos 0;
  poll_interval = pos 0;
  poll_timeout = pos 0;
}

abbrev weekly_only : LimitsConfig
weekly_only = record {
  daily_max_tasks = pos 0;
  weekly_max_tasks = pos 20;
  week_starts_on = "sun";
  reset_tz = "";
  daily_max_cost_negative = false;
  weekly_max_cost_negative = false;
}

abbrev a_repo : RepoConfig
a_repo = record {
  name = "a/b";
  default_branch = "";
  checks = record { commands = []; timeout = pos 0 };
}

abbrev settings : Config
settings = record {
  windows = [];
  maintenance_tasks = [];
  repos = a_repo ∷ [];
  tick_interval = pos 30;
  github_poll_interval = pos 60;
  limits = weekly_only;
  concurrency = two_slots;
  ci_fix = no_fixes;
}

abbrev completed : Config
completed = record settings { repos = record a_repo { default_branch = "main" } ∷ [] }

resolved_caps-AreCaps_example : AreCaps (resolved_caps weekly_only)
unfolding minutes validate_limits week_start_of
resolved_caps-AreCaps_example =
    resolved_caps-AreCaps plain_texts minutes weekly_only refl (omega arith) (omega arith)

validate_config-IsValid_example :
    (completed ≡ record settings { repos = completed.repos })
    × AllDefaulted settings.repos completed.repos
    × IsNodup (names plain_texts settings.repos)
    × AllOwned plain_texts settings.repos
    × IsConcurrency completed.concurrency
    × IsCiFix completed.ci_fix
    × (pos 0 <ℤ completed.tick_interval)
    × (pos 0 <ℤ completed.github_poll_interval)
unfolding minutes validate_config validate_windows active_windows validate_repos validate_repos_from
    validate_repo validate_commands with_defaults has_owner validate_limits week_start_of
    validate_maintenance_tasks validate_maintenance_from validate_concurrency validate_ci_fix
validate_config-IsValid_example =
    validate_config-IsValid plain_texts minutes settings completed refl
