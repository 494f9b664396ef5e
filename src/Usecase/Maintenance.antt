-- ===== src/Usecase/Maintenance.antt =====
-- internal/usecase/maintenance_usecase.go and the handler of internal/scheduler/maintenance.go: a
-- maintenance task passes the budget of all tasks and then the sub-cap of its name, and is created.
-- Both use cases are wired to one store of application state.
pub mod Counters
pub mod SubCap
pub mod Refused
use Prim.Native.String.{◌∷◌ as char_then, [] as no_text}
use claude_ops.Prelude.{
  ℕ, String, Bool, true, false, ◌&&◌, List, ℤ, pos, inc64, is_positive, leb_ℤ, eq_ℤ, Result, ok,
  err, Error, sub_cap_reached, message, wrap, if◌then◌else◌, str_eq,
}
use claude_ops.Prelude.Exec.{Exec, pure, fail, ◌>>=◌, and_then}
use claude_ops.Config.Settings.{MaintenanceTaskConfig, SubCapConfig}
use claude_ops.Domain.Task.{Time, Task, zero_task, feature, queued, maintenance}
use claude_ops.Domain.Calendar.{Calendar}
use claude_ops.Domain.Window.{ActiveWindow, allow_now}
use claude_ops.Repository.Tasks.{Tasks, create}
use claude_ops.Scheduler.BudgetGate.{BudgetLimits, BudgetReason, date_key, week_key}
use claude_ops.Usecase.AppState.{JsonCodec}
use claude_ops.Usecase.Budget.{
  BudgetUseCase, BudgetSnapshot, check_and_increment, is_allowed, read, store, decoded,
}

-- maintenanceSubCapJSON
pub record MaintenanceSubCap : Type 0 where
  pub daily_count : ℤ
  pub daily_key : String
  pub weekly_count : ℤ
  pub weekly_key : String

abbrev pub zero_sub_cap : MaintenanceSubCap
zero_sub_cap = record { daily_count = pos 0; daily_key = ""; weekly_count = pos 0; weekly_key = "" }

-- The texts one after the other.
abbrev pub append : String → String → String
append no_text t = t
append (char_then c s) t = char_then c (append s t)

-- appStateKeyMaintenanceCounters
unfoldable pub sub_cap_key : String → String
sub_cap_key name = append "maintenance_counters:" name

pub record MaintenanceUseCase (S : Type 0) (c : Calendar) : Type 0 where
  pub budget : BudgetUseCase S c
  pub sub_cap_json : JsonCodec MaintenanceSubCap
  pub limits : BudgetLimits c

-- the task that EnqueueMaintenance creates, under a fresh uuid and a rendered title
unfoldable pub maintenance_task : String → String → Time → MaintenanceTaskConfig → Task
maintenance_task id title now mt = record zero_task {
  id = id;
  repo_full_name = mt.repo;
  issue_title = title;
  task_type = feature;
  status = queued;
  source = maintenance;
  maintenance_name = mt.name;
  prompt_template = mt.prompt_template;
  created_at = now;
  updated_at = now;
}

-- A cap that is set and used up.
abbrev pub is_full : ℤ → ℤ → Bool
is_full cap n = is_positive cap && leb_ℤ cap n

abbrev pub incremented : MaintenanceSubCap → MaintenanceSubCap
incremented n = record n { daily_count = inc64 n.daily_count; weekly_count = inc64 n.weekly_count }

module _ {S : Type 0} {c : Calendar} (uc : MaintenanceUseCase S c) where
  open uc use {budget, sub_cap_json, limits}

  -- loadSubCap
  unfoldable pub load_sub_cap : String → S → Result MaintenanceSubCap
  load_sub_cap key s = decoded sub_cap_json zero_sub_cap (λ n. n) (read budget key s)

  -- persistSubCap
  unfoldable pub persist_sub_cap : String → MaintenanceSubCap → Time → Exec S (Unit {0})
  persist_sub_cap key n now = store budget (sub_cap_json.marshal n) key now

  -- the rollover of stale buckets
  unfoldable pub rolled_sub_cap : Time → MaintenanceSubCap → MaintenanceSubCap
  rolled_sub_cap now n =
      let daily = date_key c now limits.reset_tz in
      let weekly = week_key c now limits.reset_tz limits.week_starts_on in
      record {
        daily_count = if str_eq n.daily_key daily then n.daily_count else pos 0;
        daily_key = daily;
        weekly_count = if str_eq n.weekly_key weekly then n.weekly_count else pos 0;
        weekly_key = weekly;
      }

  -- the caps, for counters that are rolled over, and the write of the incremented ones
  unfoldable pub count_sub_cap :
      SubCapConfig → String → Time → MaintenanceSubCap → Exec S (Unit {0})
  count_sub_cap cap key now n =
      if is_full cap.daily n.daily_count
      then fail (wrap "daily limit reached" sub_cap_reached)
      else if is_full cap.weekly n.weekly_count
      then fail (wrap "weekly limit reached" sub_cap_reached)
      else persist_sub_cap key (incremented n) now

  -- what follows loadSubCap in checkAndIncrementSubCap
  unfoldable pub after_load :
      SubCapConfig → String → Time → Result MaintenanceSubCap → Exec S (Unit {0})
  after_load cap key now (err e) = fail (wrap "load sub-cap" e)
  after_load cap key now (ok n) = count_sub_cap cap key now (rolled_sub_cap now n)

  -- checkAndIncrementSubCap
  unfoldable pub check_and_increment_sub_cap : MaintenanceTaskConfig → Time → Exec S (Unit {0})
  check_and_increment_sub_cap mt now s =
      let key = sub_cap_key mt.name in
      if eq_ℤ mt.budget_sub_cap.daily (pos 0) && eq_ℤ mt.budget_sub_cap.weekly (pos 0)
      then pure tt s
      else after_load mt.budget_sub_cap key now (load_sub_cap key s) s

  -- The stores: of application state, and the table of tasks.
  abbrev pub Stores : Type 0
  Stores = S × Tasks

  abbrev pub created : Task → S → Tasks → Result Tasks → Result Task × Stores
  created task s ts (ok ts') = (ok task, (s, ts'))
  created task s ts (err e) = (err (wrap "create maintenance task" e), (s, ts))

  -- the end of EnqueueMaintenance, after the sub-cap
  unfoldable pub after_sub_cap : Task → Tasks → Result (Unit {0}) × S → Result Task × Stores
  after_sub_cap task ts (err e, s) = (err e, (s, ts))
  after_sub_cap task ts (ok _, s) = created task s ts (create task ts)

  -- the rest of EnqueueMaintenance, after the budget of all tasks
  unfoldable pub after_budget :
      MaintenanceTaskConfig
      → Task
      → Time
      → Tasks
      → Result (BudgetReason × BudgetSnapshot c) × S
      → Result Task × Stores
  after_budget mt task now ts (err e, s) = (err (wrap "check global budget" e), (s, ts))
  after_budget mt task now ts (ok (reason, snap), s) =
      if is_allowed reason
      then after_sub_cap task ts (check_and_increment_sub_cap mt now s)
      else (err (message "global budget blocked"), (s, ts))

  -- EnqueueMaintenance
  unfoldable pub enqueue_maintenance :
      MaintenanceTaskConfig → String → String → Time → Exec Stores Task
  enqueue_maintenance mt id title now (s, ts) =
      after_budget mt (maintenance_task id title now mt) now ts (check_and_increment budget now s)

  -- MaintenanceScheduler.fire
  unfoldable pub fire :
      List (ActiveWindow c) → MaintenanceTaskConfig → String → String → Time → Stores → Stores
  fire windows mt id title now st =
      if allow_now c now false windows then (enqueue_maintenance mt id title now st).1 else st
