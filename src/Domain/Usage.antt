-- ===== src/Domain/Usage.antt =====
-- internal/domain/usage_repository.go: the rows of the usage reports; and what the reports use of the
-- calendar besides Domain.Calendar: dates and months in UTC, a parameter of the model.
use claude_ops.Prelude.{ℕ, ◌+◌, ◌/◌, ◌≤◌, String, ◌≡◌, ◌↔◌, Option, some, List, Result}
use claude_ops.Domain.Task.{Time}
use claude_ops.Domain.Calendar.{Calendar}

-- Any other text that a request names is `other`.
pub data BucketKind : Type 0 where
  day week month : BucketKind
  other : String → BucketKind

-- Costs are counted in millionths of a dollar.
pub record UsageBucketRow : Type 0 where
  pub bucket : String
  pub task_count : ℕ
  pub cost_usd : ℕ
  pub input_tokens : ℕ
  pub output_tokens : ℕ
  pub cache_read_tokens : ℕ
  pub cache_creation_tokens : ℕ
  pub failed_cost_usd : ℕ

pub record UsageModelRow : Type 0 where
  pub model_id : String
  pub task_count : ℕ
  pub cost_usd : ℕ
  pub input_tokens : ℕ
  pub output_tokens : ℕ
  pub cache_read_tokens : ℕ
  pub cache_creation_tokens : ℕ

-- A range is given by two days: the handlers pass their midnights in UTC.
pub record UsageRepository : Type 0 where
  pub sum_by_bucket : ℕ → ℕ → BucketKind → Result (List UsageBucketRow)
  pub sum_by_model : ℕ → ℕ → Result (List UsageModelRow)
  pub sum_daily_cost : String → Result ℕ
  pub sum_weekly_cost : String → Result ℕ

-- UsageBucketRow{Bucket: key}
abbrev pub zero_row : String → UsageBucketRow
zero_row key = record {
  bucket = key;
  task_count = 0;
  cost_usd = 0;
  input_tokens = 0;
  output_tokens = 0;
  cache_read_tokens = 0;
  cache_creation_tokens = 0;
  failed_cost_usd = 0;
}

-- The fields of `r` added to those of `acc`, whose bucket stays.
abbrev pub plus_row : UsageBucketRow → UsageBucketRow → UsageBucketRow
plus_row acc r = record {
  bucket = acc.bucket;
  task_count = acc.task_count + r.task_count;
  cost_usd = acc.cost_usd + r.cost_usd;
  input_tokens = acc.input_tokens + r.input_tokens;
  output_tokens = acc.output_tokens + r.output_tokens;
  cache_read_tokens = acc.cache_read_tokens + r.cache_read_tokens;
  cache_creation_tokens = acc.cache_creation_tokens + r.cache_creation_tokens;
  failed_cost_usd = acc.failed_cost_usd + r.failed_cost_usd;
}

-- Days are those of the calendar, in UTC; months are counted from some month on.
pub record Dates (c : Calendar) : Type 0 where
  -- time.Date and time.Parse at 00:00 of a day
  pub midnight : ℕ → Time
  pub month_of : ℕ → ℕ
  -- Format("2006-01") of a month
  pub format_month : ℕ → String
  -- time.Parse("2006-01-02", s) and fmt.Sscanf(s, "%d-W%d", …); `none` is an error
  pub parse_date : String → Option ℕ
  pub parse_week : String → Option (ℕ × ℕ)
  -- January 4 of a year, which the first ISO week of the year holds
  pub jan4 : ℕ → ℕ
  pub midnight-le_iff : (d t : ℕ) → (midnight d ≤ t) ↔ (d ≤ c.day c.utc t)
  pub day-midnight : (d : ℕ) → 7 ≤ d → c.day c.utc (midnight d) ≡ d
  pub midnight-mono : (d e : ℕ) → d ≤ e → midnight d ≤ midnight e
  pub month_of-mono : (d e : ℕ) → d ≤ e → month_of d ≤ month_of e
  pub format_month-injective : (m n : ℕ) → format_month m ≡ format_month n → m ≡ n
  pub parse_date-format : (d : ℕ) → parse_date (c.format_date d) ≡ some d
  pub parse_week-format : (w : ℕ × ℕ) → parse_week (c.format_week w) ≡ some w
  pub iso_week-jan4 : (y : ℕ) → (c.iso_week (jan4 y)).1 ≡ 1
  pub jan4_weeks : (d : ℕ) → d / 7 + 1 ≡ jan4 (c.iso_week d).0 / 7 + (c.iso_week d).1
