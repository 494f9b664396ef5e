-- ===== src/Scheduler/BudgetGate/Keys.antt =====
-- The buckets: a date key is a day, and a week key is a week that starts on the configured weekday.
use claude_ops.Prelude.{ℕ, zero, suc, ◌+◌, ◌-◌, ◌/◌, ◌≤◌, ◌<◌, ◌≡◌, ◌↔◌, ap, Option, arith}
use claude_ops.Domain.Task.{Time}
use claude_ops.Domain.Calendar.{Calendar}
use claude_ops.Scheduler.BudgetGate.{or_utc, date_key, week_key, week_start}

-- The week that a day is in, where weeks start on weekday `starts_on`: weeks are counted from one
-- before day 0.
abbrev week_number : ℕ → ℕ → ℕ
week_number d starts_on = (d + 8 - starts_on) / 7

week_start-div : (d w : ℕ) → w < 7 → 7 ≤ d → week_start d (suc w) / 7 + 1 ≡ week_number d (suc w)
week_start-div d w h p = omega arith

week_start-div_sunday : (d : ℕ) → 7 ≤ d → week_start d 0 / 7 + 2 ≡ week_number d 0
week_start-div_sunday d p = omega arith

same_week_iff :
    (d e w : ℕ)
    → w < 7
    → 7 ≤ d
    → 7 ≤ e
    → (week_start d w / 7 ≡ week_start e w / 7) ↔ (week_number d w ≡ week_number e w)
same_week_iff d e zero h p q = omega (arith, week_start-div_sunday d p, week_start-div_sunday e q)
same_week_iff d e (suc w) h p q = omega (arith, week_start-div d w, week_start-div e w)

module _ (c : Calendar) where
  -- Two times have one date key exactly when they fall on one day of the time zone.
  date_key_iff :
      (t u : Time) (tz : Option c.Location)
      → (date_key c t tz ≡ date_key c u tz) ↔ (c.day (or_utc c tz) t ≡ c.day (or_utc c tz) u)
  unfolding date_key
  date_key_iff t u tz = (c.format_date-injective _ _, ap c.format_date)

  -- Two times have one week key exactly when they fall in one week of the time zone, where weeks
  -- start on the configured weekday: also for weeks that do not start on a Monday.
  week_key_iff :
      (t u : Time) (tz : Option c.Location) (starts_on : ℕ)
      → starts_on < 7
      → (week_key c t tz starts_on ≡ week_key c u tz starts_on) ↔ (
          week_number (c.day (or_utc c tz) t) starts_on
          ≡ week_number (c.day (or_utc c tz) u) starts_on)
  unfolding week_key
  week_key_iff t u tz starts_on h =
      let loc = or_utc c tz in
      let same =
        same_week_iff (c.day loc t) (c.day loc u) starts_on h (c.day_large loc t)
          (c.day_large loc u) in
      let iso =
        c.iso_week_iff (week_start (c.day loc t) starts_on) (week_start (c.day loc u) starts_on) in
      (
        λ e. same.0 (iso.0 (c.format_week-injective _ _ e)),
        λ e. ap c.format_week (iso.1 (same.1 e)),
      )
