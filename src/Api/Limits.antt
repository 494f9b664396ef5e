-- ===== src/Api/Limits.antt =====
-- internal/api/limits_handler.go: the limits of the budget, read and overridden.
pub mod Patched
use claude_ops.Prelude.{
  ℕ, String, Bool, true, false, Option, none, some, ℤ, pos, Result, ok, err, Error, if◌then◌else◌,
  or_default,
}
use claude_ops.Domain.Task.{Time}
use claude_ops.Domain.Calendar.{Calendar}
use claude_ops.Scheduler.BudgetGate.{BudgetReason, BudgetLimits, active}
use claude_ops.Usecase.Budget.{BudgetUseCase, BudgetSnapshot, snapshot, set_limits}
use claude_ops.Api.Errors.{map_error}

-- LimitsResponse, with the fields of its parts
pub record LimitsResponse : Type 0 where
  pub daily_count : ℤ
  pub daily_max : ℤ
  pub daily_date : String
  pub weekly_count : ℤ
  pub weekly_max : ℤ
  pub weekly_week : String
  pub blocked_until : Option Time
  pub rate_limit_type : String
  pub reason : BudgetReason

pub record LimitsPatchRequest : Type 0 where
  pub daily_max : Option ℤ
  pub weekly_max : Option ℤ

-- The answer of a handler: its status and body. An answer of 400 by PatchLimits shows the error itself.
pub data Response : Type 0 where
  answered : LimitsResponse → Response
  invalid_body : Response
  bad_request : Error → Response
  failed : ℕ → Response

module _ {S : Type 0} {c : Calendar} (uc : BudgetUseCase S c) where
  -- snapshotToResponse, at a reading of the clock
  abbrev pub snapshot_to_response : Time → BudgetSnapshot c → LimitsResponse
  snapshot_to_response now snap = record {
    daily_count = snap.counters.daily_count;
    daily_max = snap.limits.daily_max;
    daily_date = snap.counters.daily_key;
    weekly_count = snap.counters.weekly_count;
    weekly_max = snap.limits.weekly_max;
    weekly_week = snap.counters.weekly_key;
    blocked_until = if active snap.block now then some snap.block.blocked_until else none;
    rate_limit_type = if active snap.block now then snap.block.rate_limit_type else "";
    reason = snap.reason;
  }

  unfoldable pub shown : Time → Result (BudgetSnapshot c) × S → Response × S
  shown now (ok snap, s) = (answered (snapshot_to_response now snap), s)
  shown now (err e, s) = (failed (map_error e), s)

  -- GetLimits, with the clock's two readings
  unfoldable pub get_limits : Time → Time → S → Response × S
  get_limits now later s = shown later (snapshot uc now s)

  unfoldable pub after_set : Time → Time → Result (BudgetLimits c) × S → Response × S
  after_set now later (err e, s) = (bad_request e, s)
  after_set now later (ok limits, s) = get_limits now later s

  patch : Time → Time → LimitsPatchRequest → S → Response × S
  patch now later req s =
      after_set now later
        (set_limits uc (or_default (pos 0) req.daily_max) (or_default (pos 0) req.weekly_max) s)

  -- PatchLimits; `none` is a body that does not decode
  unfoldable pub patch_limits : Time → Time → Option LimitsPatchRequest → S → Response × S
  unfolding patch
  patch_limits now later none s = (invalid_body, s)
  patch_limits now later (some req) s = patch now later req s
