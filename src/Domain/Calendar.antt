-- ===== src/Domain/Calendar.antt =====
-- What the program uses of Go's time, fmt and strings packages and of the time zone database: a
-- parameter of the model. Days count from a Monday at least a week before any time that occurs.
use claude_ops.Prelude.{ℕ, ◌+◌, ◌/◌, ◌%◌, ◌≤◌, ◌<◌, String, ◌≡◌, ◌↔◌, Option, ℤ}
use claude_ops.Domain.Task.{Time}

pub record Calendar : Type 1 where
  pub Location : Type 0
  pub utc : Location
  -- time.LoadLocation; `none` is an error
  pub load_location : String → Option Location
  -- the day of t.In(loc)
  pub day : Location → Time → ℕ
  -- t.In(loc).Hour() and .Minute()
  pub hour : Location → Time → ℕ
  pub minute : Location → Time → ℕ
  -- Time.ISOWeek of a day: the year and the number of the week
  pub iso_week : ℕ → ℕ × ℕ
  -- Format("2006-01-02") of a day, and fmt.Sprintf("%04d-W%02d", year, week)
  pub format_date : ℕ → String
  pub format_week : ℕ × ℕ → String
  -- fmt.Sscanf(s, "%d:%d", &hour, &min); `none` is an error
  pub scan_hhmm : String → Option (ℤ × ℤ)
  -- strings.ToLower
  pub to_lower : String → String
  pub day_large : (loc : Location) (t : Time) → 7 ≤ day loc t
  pub hour-lt : (loc : Location) (t : Time) → hour loc t < 24
  pub minute-lt : (loc : Location) (t : Time) → minute loc t < 60
  pub iso_week_iff : (d e : ℕ) → (iso_week d ≡ iso_week e) ↔ (d / 7 ≡ e / 7)
  pub format_date-injective : (d e : ℕ) → format_date d ≡ format_date e → d ≡ e
  pub format_week-injective : (a b : ℕ × ℕ) → format_week a ≡ format_week b → a ≡ b

-- time.Weekday of a day: 0 is Sunday.
abbrev pub weekday : ℕ → ℕ
weekday d = (d + 1) % 7
