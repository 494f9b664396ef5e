-- ===== src/Scheduler.antt =====
-- internal/scheduler: the budget gate, the tick loop, and the worker.
pub mod BudgetGate
pub mod RateLimit
pub mod Cancel
pub mod Reclaimer
pub mod Tick
pub mod Worker
