-- ===== src/Config/Settings.antt =====
-- internal/config/config.go: the settings, as far as they are validated or used by the model. A
-- duration is a number of nanoseconds, which may be negative.
use claude_ops.Prelude.{String, Bool, List, ℤ}

pub record CiFixConfig : Type 0 where
  pub enabled : Bool
  pub max_attempts : ℤ
  pub poll_interval : ℤ
  pub poll_timeout : ℤ

pub record ConcurrencyConfig : Type 0 where
  pub max_parallel_tasks : ℤ
  pub lease_timeout : ℤ
  pub reclaim_interval : ℤ

-- The two maximal costs by their signs alone: they are floats.
pub record LimitsConfig : Type 0 where
  pub daily_max_tasks : ℤ
  pub weekly_max_tasks : ℤ
  pub week_starts_on : String
  pub reset_tz : String
  pub daily_max_cost_negative : Bool
  pub weekly_max_cost_negative : Bool

pub record SubCapConfig : Type 0 where
  pub daily : ℤ
  pub weekly : ℤ

pub record MaintenanceTaskConfig : Type 0 where
  pub name : String
  pub cron : String
  pub repo : String
  pub prompt_template : String
  pub budget_sub_cap : SubCapConfig

pub record ChecksConfig : Type 0 where
  pub commands : List String
  pub timeout : ℤ

pub record RepoConfig : Type 0 where
  pub name : String
  pub default_branch : String
  pub checks : ChecksConfig

pub record WindowConfig : Type 0 where
  pub days : List String
  pub start : String
  pub end : String
  pub tz : String

-- Config, without what is only passed on.
pub record Config : Type 0 where
  pub windows : List WindowConfig
  pub maintenance_tasks : List MaintenanceTaskConfig
  pub repos : List RepoConfig
  pub tick_interval : ℤ
  pub github_poll_interval : ℤ
  pub limits : LimitsConfig
  pub concurrency : ConcurrencyConfig
  pub ci_fix : CiFixConfig
