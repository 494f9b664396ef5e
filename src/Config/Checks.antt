-- ===== src/Config/Checks.antt =====
-- The checks of internal/config/validate.go that read no text but the name of a weekday, and the caps
-- of ResolvedLimits.
use claude_ops.Prelude.{
  wrap64, ℕ, ◌+◌, ◌-◌, ◌*◌, ◌/◌, String, Bool, true, false, not, ◌&&◌, Option, none, some, ℤ, pos,
  negsuc, leb_ℤ, ltb_ℤ, eq_ℤ, is_positive, Result, ok, err, message, ltb, if◌then◌else◌, str_eq,
  ◌>>=◌,
}
use claude_ops.Config.Settings.{CiFixConfig, ConcurrencyConfig, LimitsConfig}

-- A guard that returns an error.
abbrev pub refuse : Bool → String → Result (Unit {0})
refuse true text = err (message text)
refuse false text = ok tt

infixl 5 ◌>>◌
abbrev pub ◌>>◌ {ℓ} : {B : Type ℓ} → Result (Unit {0}) → Result B → Result B
m >> k = m >>= λ _. k

-- validateCIFix
unfoldable pub validate_ci_fix : CiFixConfig → Result (Unit {0})
validate_ci_fix cfg = if not cfg.enabled then ok tt else do
  refuse (ltb_ℤ cfg.max_attempts (pos 1)) "ci_fix.max_attempts must be >= 1 when enabled"
  refuse (ltb_ℤ (pos 5) cfg.max_attempts) "ci_fix.max_attempts > 5 is unsupported"
  refuse (leb_ℤ cfg.poll_interval (pos 0)) "ci_fix.poll_interval must be positive when enabled"
  refuse (leb_ℤ cfg.poll_timeout (pos 0)) "ci_fix.poll_timeout must be positive when enabled"
  refuse (leb_ℤ cfg.poll_timeout cfg.poll_interval)
      "ci_fix.poll_interval must be less than poll_timeout"

-- validateConcurrency
unfoldable pub validate_concurrency : ConcurrencyConfig → Result (Unit {0})
validate_concurrency cfg = do
  refuse (ltb_ℤ cfg.max_parallel_tasks (pos 1)) "concurrency.max_parallel_tasks must be >= 1"
  refuse (ltb_ℤ (pos 10) cfg.max_parallel_tasks)
      "concurrency.max_parallel_tasks > 10 is unsupported"
  refuse (leb_ℤ cfg.lease_timeout (pos 0)) "concurrency.lease_timeout must be positive"
  refuse (leb_ℤ cfg.reclaim_interval (pos 0)) "concurrency.reclaim_interval must be positive"
  refuse (leb_ℤ cfg.lease_timeout cfg.reclaim_interval)
      "concurrency.reclaim_interval must be less than lease_timeout"

-- weekStartMap
unfoldable pub week_start_of : String → Option ℕ
week_start_of s =
    if str_eq s "sun"
    then some 0
    else if str_eq s "mon"
    then some 1
    else if str_eq s "tue"
    then some 2
    else if str_eq s "wed"
    then some 3
    else if str_eq s "thu"
    then some 4
    else if str_eq s "fri"
    then some 5
    else if str_eq s "sat"
    then some 6
    else none

-- x / 7, which Go rounds towards zero.
unfoldable pub seventh : ℤ → ℤ
seventh (pos n) = pos (n / 7)
seventh (negsuc n) = if ltb n 6 then pos 0 else negsuc ((n + 1) / 7 - 1)

-- (weeklyMax + 6) / 7 and dailyMax * 7, which are taken of positive numbers only.
abbrev pub daily_of : ℤ → ℤ
daily_of (pos n) = seventh (wrap64 (n + 6))
daily_of (negsuc n) = pos 0

abbrev pub weekly_of : ℤ → ℤ
weekly_of (pos n) = wrap64 (n * 7)
weekly_of (negsuc n) = pos 0

-- the first part of ResolvedLimits: the daily and the weekly maximum
unfoldable pub resolved_caps : LimitsConfig → ℤ × ℤ
resolved_caps cfg =
    if eq_ℤ cfg.daily_max_tasks (pos 0) && is_positive cfg.weekly_max_tasks
    then (daily_of cfg.weekly_max_tasks, cfg.weekly_max_tasks)
    else if eq_ℤ cfg.weekly_max_tasks (pos 0) && is_positive cfg.daily_max_tasks
    then (cfg.daily_max_tasks, weekly_of cfg.daily_max_tasks)
    else (cfg.daily_max_tasks, cfg.weekly_max_tasks)
