-- ===== src/Scheduler/RateLimit.antt =====
-- maybeRecordRateLimit of internal/scheduler/worker.go, between the runner of internal/claude and the
-- budget of internal/usecase.
pub mod Cleared
use claude_ops.Prelude.{ℕ, String}
use claude_ops.Claude.Runner.{RunError, stream_error, not_started, exited}
use claude_ops.Claude.Stream.{StreamError, rate_limited}
use claude_ops.Domain.Task.{Time}
use claude_ops.Domain.Calendar.{Calendar}
use claude_ops.Usecase.Budget.{BudgetUseCase, record_rate_limit_block}

-- The error of the write is logged only. The event that is recorded is in Scheduler/Worker.
unfoldable pub maybe_record_rate_limit :
    {S : Type 0} {c : Calendar} → BudgetUseCase S c → RunError → Time → S → S
maybe_record_rate_limit uc (stream_error (rate_limited resets_at kind)) now s =
    (record_rate_limit_block uc resets_at kind now s).1
maybe_record_rate_limit uc e now s = s
