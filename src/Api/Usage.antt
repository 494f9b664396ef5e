-- ===== src/Api/Usage.antt =====
-- internal/api/usage_handler.go: the reports of usage, from the query of a request to the answer.
pub mod Statuses
use claude_ops.Prelude.{
  ℕ, ◌+◌, ◌-◌, String, Option, none, some, Result, ok, err, Error, invalid_range, range_too_large,
  invalid_bucket, wrap, List, if◌then◌else◌, str_eq,
}
use claude_ops.Domain.Task.{Time}
use claude_ops.Domain.Calendar.{Calendar}
use claude_ops.Domain.Usage.{BucketKind, day, week, month, other, UsageModelRow, Dates}
use claude_ops.Usecase.Usage.{
  UsageUseCase, UsageAggregateResult, UsageLimitsSnapshot, aggregate, by_model, usage_limits,
}

-- The parameters of a query: one that is not given is "". DefaultQuery gives a default only where the
-- parameter is absent, which `none` is.
pub record UsageQuery : Type 0 where
  pub from : String
  pub to : String
  pub group_by : Option String

-- The answer: the rows are those of the use case, under the names of the response.
pub data Response {ℓ} (A : Type ℓ) : Type ℓ where
  answered : A → Response A
  failed : ℕ → Response A

abbrev pub status_of {ℓ} : {A : Type ℓ} → Response A → ℕ
status_of (answered a) = 200
status_of (failed n) = n

-- domain.BucketKind(groupBy)
unfoldable pub bucket_of : Option String → BucketKind
bucket_of none = day
bucket_of (some s) =
    if str_eq s "day"
    then day
    else if str_eq s "week"
    then week
    else if str_eq s "month"
    then month
    else other s

-- mapUsageError: errors.Is looks through the wrappings
unfoldable pub map_usage_error : Error → ℕ
map_usage_error invalid_range = 400
map_usage_error range_too_large = 400
map_usage_error invalid_bucket = 400
map_usage_error (wrap text e) = map_usage_error e
map_usage_error e = 500

abbrev pub answer {ℓ} : {A : Type ℓ} → Result A → Response A
answer (ok a) = answered a
answer (err e) = failed (map_usage_error e)

-- GET /usage/limits answers every error with 500.
abbrev answer_limits : Result UsageLimitsSnapshot → Response UsageLimitsSnapshot
answer_limits (ok snap) = answered snap
answer_limits (err e) = failed 500

pub record UsageByModelResponse : Type 0 where
  pub from : String
  pub to : String
  pub models : List UsageModelRow

module _ {c : Calendar} (dates : Dates c) where
  -- time.Parse of a day, where a text is given
  abbrev pub day_or : ℕ → String → Option ℕ
  day_or default text = if str_eq text "" then some default else dates.parse_date text

  abbrev first_from : String → Option ℕ → Option (ℕ × ℕ)
  first_from from none = none
  first_from from (some to) = elim (day_or (to - 30) from) [
    | none ↦ none
    | some first ↦ some (first, to)
  ]

  -- parseFromTo: the days from and to, where they are given by dates or left out; `today` is in UTC.
  unfoldable pub parse_from_to : ℕ → UsageQuery → Option (ℕ × ℕ)
  parse_from_to today q = first_from q.from (day_or today q.to)

  module _ (uc : UsageUseCase dates) where
    reported : BucketKind → Option (ℕ × ℕ) → Response UsageAggregateResult
    reported bucket none = failed 400
    reported bucket (some (from, to)) = answer (aggregate dates uc from to bucket)

    -- GetUsage
    unfoldable pub get_usage : ℕ → UsageQuery → Response UsageAggregateResult
    unfolding reported
    get_usage today q = reported (bucket_of q.group_by) (parse_from_to today q)

    with_days : ℕ → ℕ → Result (List UsageModelRow) → Response UsageByModelResponse
    with_days from to (err e) = failed (map_usage_error e)
    with_days from to (ok rows) =
        answered (record { from = c.format_date from; to = c.format_date to; models = rows })

    modelled : Option (ℕ × ℕ) → Response UsageByModelResponse
    unfolding with_days
    modelled none = failed 400
    modelled (some (from, to)) = with_days from to (by_model dates uc from to)

    -- GetUsageByModel
    unfoldable pub get_usage_by_model : ℕ → UsageQuery → Response UsageByModelResponse
    unfolding modelled
    get_usage_by_model today q = modelled (parse_from_to today q)

    -- GetUsageLimits
    unfoldable pub get_usage_limits : Time → Response UsageLimitsSnapshot
    get_usage_limits now = answer_limits (usage_limits dates uc now)
