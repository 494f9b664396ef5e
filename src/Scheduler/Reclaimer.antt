-- ===== src/Scheduler/Reclaimer.antt =====
-- internal/scheduler/reclaimer.go: rows whose claim is older than the lease are reclaimed at each tick
-- of a ticker.
pub mod Leases
use claude_ops.Prelude.{
  ◌-◌, Bool, true, List, [], ◌∷◌, ◌||◌, not, if◌then◌else◌, ℤ, pos, negsuc, is_positive,
}
use claude_ops.Domain.Task.{Time}
use claude_ops.Repository.Tasks.{Tasks, reclaim_stale}

-- One tick: the clock, MySQL's NOW(3), and whether the statement fails.
pub record Round : Type 0 where
  pub clock : Time
  pub db_now : Time
  pub fails : Bool

-- r.clock.Now().Add(-r.lease); no row is older than the zero time
abbrev pub cutoff_of : Time → ℤ → Time
cutoff_of now (pos n) = now - n
cutoff_of now (negsuc n) = now

-- ReclaimStale, whose error is logged only
unfoldable pub reclaim_round : ℤ → Round → Tasks → Tasks
reclaim_round lease r ts =
    if r.fails then ts else reclaim_stale (cutoff_of r.clock lease) r.db_now ts

unfoldable pub reclaim_rounds : ℤ → List Round → Tasks → Tasks
reclaim_rounds lease [] ts = ts
reclaim_rounds lease (r ∷ more) ts = reclaim_rounds lease more (reclaim_round lease r ts)

-- Start, over the ticks that come before the context is cancelled
unfoldable pub start : Bool → ℤ → ℤ → List Round → Tasks → Tasks
start wired interval lease rounds ts =
    if not wired || not (is_positive interval) || not (is_positive lease)
    then ts
    else reclaim_rounds lease rounds ts
