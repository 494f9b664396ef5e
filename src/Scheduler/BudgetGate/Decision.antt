-- ===== src/Scheduler/BudgetGate/Decision.antt =====
-- What the gate of internal/scheduler/budget_gate.go decides.
use claude_ops.Prelude.{◌≡◌, ◌↔◌, true, false, ℤ, leb_ℤ, is_positive, arith}
use claude_ops.Domain.Task.{Time}
use claude_ops.Domain.Calendar.{Calendar}
use claude_ops.Scheduler.BudgetGate.{
  BudgetCounters, BudgetLimits, RateLimitBlock, active, allowed, evaluate_budget,
}

-- One more task fits under a cap: the cap is not set, or the count is below it.
abbrev pub HasRoom : ℤ → ℤ → Type 0
HasRoom max n = is_positive max ≡ true → leb_ℤ max n ≡ false

pub HasRoom-congr : (a b m n : ℤ) → a ≡ b → m ≡ n → HasRoom a m → HasRoom b n
HasRoom-congr a b m n p q h = rw (← p, ← q) h

module _ (c : Calendar) where
  -- The gate allows a task exactly when no block is active and both caps have room.
  pub evaluate_budget-allowed_iff :
      (now : Time) (n : BudgetCounters) (limits : BudgetLimits c) (block : RateLimitBlock)
      → (evaluate_budget c now n limits block ≡ allowed) ↔ (
          (active block now ≡ false)
          × HasRoom limits.daily_max n.daily_count
          × HasRoom limits.weekly_max n.weekly_count)
  unfolding evaluate_budget
  evaluate_budget-allowed_iff now n limits block = ground arith
