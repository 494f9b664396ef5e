-- ===== src/Api/Usage/Statuses.antt =====
-- When a report of usage is answered, and how not (internal/api/usage_handler.go).
use claude_ops.Prelude.{
  ◌≤◌, ◌≢◌, ◌⊎◌, String, ℕ, ◌+◌, ◌-◌, ◌≡◌, Bool, true, false, ◌||◌, not, Option, none, some, is_ok,
  ltb, if◌then◌else◌,
}
use claude_ops.Domain.Calendar.{Calendar}
use claude_ops.Domain.Usage.{BucketKind, day, week, month, other, Dates}
use claude_ops.Usecase.Usage.{UsageUseCase, max_range_days}
use claude_ops.Api.Usage.{UsageQuery}

abbrev is_known : BucketKind → Bool
is_known (other name) = false
is_known bucket = true

abbrev well_asked : BucketKind → ℕ → ℕ → Bool
well_asked bucket from to =
    not (ltb to from || ltb max_range_days (to - from) || not (is_known bucket))

-- The unit that a parameter names, a day where it is absent.
abbrev NamesUnit : Option String → BucketKind → Type 0
NamesUnit given kind =
    (given ≡ none) × (kind ≡ day)
    ⊎ (given ≡ some "day") × (kind ≡ day)
    ⊎ (given ≡ some "week") × (kind ≡ week)
    ⊎ (given ≡ some "month") × (kind ≡ month)

module _ {c : Calendar} (dates : Dates c) (uc : UsageUseCase dates) where
  -- 400 for what no client should ask, 500 where the database fails, and else 200.
  abbrev status_for : BucketKind → Option (ℕ × ℕ) → ℕ
  status_for bucket none = 400
  status_for bucket (some (from, to)) =
      if well_asked bucket from to
      then if is_ok (uc.repo.sum_by_bucket from (to + 1) bucket) then 200 else 500
      else 400

  -- The day that a parameter names: the default where it is left out, or the date that it holds.
  abbrev NamesDay : ℕ → String → ℕ → Type 0
  NamesDay default text d =
      (text ≡ "") × (d ≡ default) ⊎ (text ≢ "") × (dates.parse_date text ≡ some d)

  -- What a client can ask for: days in order, at most 365 apart, by day, week or month, where the last day
  -- is today and the first 30 days before the last, and the unit a day, if they are left out.
  pub record IsWellAsked (today : ℕ) (q : UsageQuery) (from to : ℕ) (kind : BucketKind)
      : Type 0 where
    pub last : NamesDay today q.to to
    pub first : NamesDay (to - 30) q.from from
    pub unit : NamesUnit q.group_by kind
    pub in_order : from ≤ to
    pub near : to ≤ from + 365
