-- ===== src/Scheduler/BudgetGate.antt =====
-- internal/scheduler/budget_gate.go: the daily and weekly caps and the rate-limit block.
pub mod Keys
pub mod Decision
use claude_ops.Prelude.{
  ℕ, ◌+◌, ◌-◌, ◌%◌, String, Bool, true, false, not, ◌&&◌, ◌||◌, Option, none, some, ℤ, pos, leb_ℤ,
  is_positive, ltb, ◌==◌, if◌then◌else◌, str_eq,
}
use claude_ops.Domain.Task.{Time}
use claude_ops.Domain.Calendar.{Calendar, weekday}

pub record BudgetCounters : Type 0 where
  pub daily_count : ℤ
  pub daily_key : String
  pub weekly_count : ℤ
  pub weekly_key : String

-- BudgetCounters{}
abbrev pub zero_counters : BudgetCounters
zero_counters = record {
  daily_count = pos 0;
  daily_key = "";
  weekly_count = pos 0;
  weekly_key = "";
}

-- `blocked_until` is the zero time where there is no block.
pub record RateLimitBlock : Type 0 where
  pub blocked_until : Time
  pub rate_limit_type : String

abbrev pub no_block : RateLimitBlock
no_block = record { blocked_until = 0; rate_limit_type = "" }

-- RateLimitBlock.Active
abbrev pub active : RateLimitBlock → Time → Bool
active b now = not (b.blocked_until == 0) && ltb now b.blocked_until

pub data BudgetReason : Type 0 where
  allowed daily_cap weekly_cap rate_limited : BudgetReason

-- the snap to the most recent start of a week
abbrev pub week_start : ℕ → ℕ → ℕ
week_start d starts_on = d - (weekday d + 7 - starts_on) % 7

module _ (c : Calendar) where
  open c use {Location}

  pub record BudgetLimits : Type 0 where
    pub daily_max : ℤ
    pub weekly_max : ℤ
    pub week_starts_on : ℕ  -- time.Weekday, below 7
    pub reset_tz : Option Location

  -- EvaluateBudget
  unfoldable pub evaluate_budget :
      Time → BudgetCounters → BudgetLimits → RateLimitBlock → BudgetReason
  evaluate_budget now counters limits block =
      if active block now
      then rate_limited
      else if is_positive limits.daily_max && leb_ℤ limits.daily_max counters.daily_count
      then daily_cap
      else if is_positive limits.weekly_max && leb_ℤ limits.weekly_max counters.weekly_count
      then weekly_cap
      else allowed

  abbrev pub or_utc : Option Location → Location
  or_utc none = c.utc
  or_utc (some loc) = loc

  -- DateKey
  unfoldable pub date_key : Time → Option Location → String
  date_key now tz = c.format_date (c.day (or_utc tz) now)

  -- WeekKey
  unfoldable pub week_key : Time → Option Location → ℕ → String
  week_key now tz starts_on =
      c.format_week (c.iso_week (week_start (c.day (or_utc tz) now) starts_on))

  -- RolloverCounters
  unfoldable pub rollover_counters : Time → BudgetCounters → BudgetLimits → BudgetCounters
  rollover_counters now counters limits =
      let daily = date_key now limits.reset_tz in
      let weekly = week_key now limits.reset_tz limits.week_starts_on in
      let same_day = str_eq counters.daily_key daily in
      let same_week = str_eq counters.weekly_key weekly in
      record {
        daily_count = if same_day then counters.daily_count else pos 0;
        daily_key = if same_day then counters.daily_key else daily;
        weekly_count = if same_week then counters.weekly_count else pos 0;
        weekly_key = if same_week then counters.weekly_key else weekly;
      }
